-- ===== src/Transport/Events.antt =====
-- The dispatch events of each session (pkg/ares/transport/events.go).
use ares_energy_demo.Prelude.{
  ℕ, ◌-◌, ◌<◌, ◌≡◌, refl, sym, ◌∙◌, ap, Bool, ◌&&◌, List, [], ◌∷◌, ◌++◌, Option, none, some, ltb,
  leb, nat_beq, if◌then◌else◌, ◌==◌, lookup, insert, delete, lookup-insert, length, arith,
  Bool-cases, inl, inr,
}
use mathlib.Core.List.{append-nil, append_assoc}
use ares_energy_demo.Prelude.Recent.{drop-nil, tail, push_recent, keep_last, push_recent-keep_last}
use ares_energy_demo.Runner.Types.{Name, name_eq, name_beq_iff}

pub record SessionEvent : Type 0 where
  pub time : ℕ
  pub session_id : Name
  pub type : Name
  pub from : Name
  pub error : Name

-- `cap` is a tactic's name: `limit`.
pub record SessionEventRing : Type 0 where
  pub limit : ℕ
  pub ring : List (Name × List SessionEvent)

unfoldable pub new_session_event_ring : ℕ → SessionEventRing
new_session_event_ring n = record { limit = (if nat_beq n 0 then 128 else n); ring = [] }

abbrev pub listed_events : Option (List SessionEvent) → List SessionEvent
listed_events none = []
listed_events (some es) = es

unfoldable pub events : SessionEventRing → Name → List SessionEvent
events r session = listed_events (lookup session r.ring)

abbrev pub append_event : ℕ → List SessionEvent → SessionEvent → List SessionEvent
append_event n es e = (if leb n (length es) && ltb 0 n then tail es else es) ++ (e ∷ [])

unfoldable pub record_event : SessionEventRing → SessionEvent → SessionEventRing
unfolding events
record_event r e = record r {
  ring = insert e.session_id (append_event r.limit (events r e.session_id) e) r.ring;
}

-- Prune: the sessions that are not active lose their events.
abbrev pub prune_all :
    List Name → (Name → Bool) → List (Name × List SessionEvent) → List (Name × List SessionEvent)
prune_all [] active m = m
prune_all (k ∷ ks) active m =
    if active k then prune_all ks active m else prune_all ks active (delete k m)

abbrev pub sessions_of : List (Name × List SessionEvent) → List Name
sessions_of [] = []
sessions_of ((k, _) ∷ m) = k ∷ sessions_of m

unfoldable pub prune : SessionEventRing → (Name → Bool) → SessionEventRing
prune r active = record r { ring = prune_all (sessions_of r.ring) active r.ring }

abbrev pub record_all : SessionEventRing → List SessionEvent → SessionEventRing
record_all r [] = r
record_all r (e ∷ es) = record_all (record_event r e) es

-- The events of one session, in order.
abbrev pub of_session : Name → List SessionEvent → List SessionEvent
of_session s [] = []
of_session s (e ∷ es) = if e.session_id == s then e ∷ of_session s es else of_session s es

append_event-push :
    (n : ℕ) (es : List SessionEvent) (e : SessionEvent)
    → 0 < n
    → append_event n es e ≡ push_recent n es e
append_event-push n es e pos = ground (arith, pos)

of_session-append :
    (s : Name) (past : List SessionEvent) (e : SessionEvent)
    → of_session s (past ++ (e ∷ []))
      ≡ (if e.session_id == s then of_session s past ++ (e ∷ []) else of_session s past)
of_session-append s [] e = refl
of_session-append s (p ∷ past) e = ground (arith, of_session-append s past e)

events-record_event :
    (r : SessionEventRing) (e : SessionEvent) (s : Name)
    → 0 < r.limit
    → events (record_event r e) s
      ≡ (if e.session_id == s then push_recent r.limit (events r s) e else events r s)
unfolding events record_event
events-record_event r e s pos =
    let mine = append_event r.limit (events r e.session_id) e in
    elim (Bool-cases (e.session_id == s)) [
      | inl k ↦ simp k (
          ap listed_events {x = lookup s (insert e.session_id mine r.ring)} {y = some mine}
            (ground (arith, k, lookup-insert e.session_id s mine r.ring))
          ∙ append_event-push r.limit (events r e.session_id) e pos
          ∙ ap (λ t. push_recent r.limit (events r t) e) ((name_beq_iff e.session_id s).0 k))
      | inr k ↦ simp k (
          ap listed_events {x = lookup s (insert e.session_id mine r.ring)} {y = lookup s r.ring}
            (ground (arith, k, lookup-insert e.session_id s mine r.ring)))
    ]

keep_last-of_session :
    (r : SessionEventRing) (past es : List SessionEvent) (s : Name)
    → 0 < r.limit
    → ((t : Name) → events r t ≡ keep_last r.limit (of_session t past))
    → events (record_all r es) s ≡ keep_last r.limit (of_session s (past ++ es))
unfolding record_event
keep_last-of_session r past [] s pos h =
    h s ∙ ap (λ l. keep_last r.limit (of_session s l)) (sym (append-nil past))
keep_last-of_session r past (e ∷ es) s pos h =
    keep_last-of_session (record_event r e) (past ++ (e ∷ [])) es s pos next
    ∙ ap (λ l. keep_last r.limit (of_session s l)) (append_assoc past (e ∷ []) es)
  where
    next :
        (t : Name)
        → events (record_event r e) t ≡ keep_last r.limit (of_session t (past ++ (e ∷ [])))
    next t = events-record_event r e t pos ∙ elim (Bool-cases (e.session_id == t)) [
      | inl k ↦ simp k (
          ap (λ l. push_recent r.limit l e) (h t)
          ∙ push_recent-keep_last r.limit (of_session t past) e pos
          ∙ ap (keep_last r.limit) (sym (of_session-append t past e ∙ simp k refl)))
      | inr k ↦
          simp k (h t ∙ ap (keep_last r.limit) (sym (of_session-append t past e ∙ simp k refl)))
    ]

-- A new ring into which events are recorded gives, for each session, the last of that session's
-- events in their order, as many as the ring has room for (128 where none is asked for), whatever
-- else is recorded in between.
pub events-record_all :
    (n : ℕ) (es : List SessionEvent) (s : Name)
    → let r = new_session_event_ring n in
      events (record_all r es) s ≡ keep_last r.limit (of_session s es)
unfolding new_session_event_ring events lookup
events-record_all n es s =
    let r = new_session_event_ring n in
    keep_last-of_session r [] es s (ground arith) (λ t. sym (drop-nil SessionEvent (0 - r.limit)))
