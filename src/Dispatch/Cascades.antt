-- ===== src/Dispatch/Cascades.antt =====
-- The loops of a runner with lineage keep its store closed.
use ares_energy_demo.Prelude.{
  ℕ, zero, suc, ◌+◌, refl, Bool, Option, none, some, ◌==◌, contains, Bool-cases, Option-cases, inl,
  inr,
}
use ares_energy_demo.Auction.State.{Bytes}
use ares_energy_demo.Runner.Types.{Name, name_eq, Phase, Fault}
use ares_energy_demo.Runner.Compose.{Built}
use ares_energy_demo.Runner.Sessions.{Outcome, Tracker, after_exit}
use ares_energy_demo.Runner.Advance.{after_leave, is_within}
use ares_energy_demo.Lineage.Node.{NodeRef}
use ares_energy_demo.Lineage.Verify.{Signer, CommitError}
use ares_energy_demo.Lineage.Store.{InMemoryStore}
use ares_energy_demo.Dispatch.Outputs.{Reads, commit_phase_outputs}
use ares_energy_demo.Dispatch.Sessions.{
  Shared, commit_result, commit_after, lineage_loop, lineage_deliver, lineage_message_to,
  lineage_walk, lineage_advance,
}
use ares_energy_demo.Dispatch.Closed.{Closed}
use ares_energy_demo.Dispatch.Commits.{commit_phase_outputs-Closed}
use ares_energy_demo.Dispatch.Kept.{
  Sound, BuiltKeeps, Keeps, Sound-with, after_exit-Sound, after_leave-Sound,
}

module _ {C V : Type 0} (sha256 : Bytes → NodeRef) (now : ℕ) (reads : Reads C) (signer : Signer)
    (b : Built (Shared C) V) (built : BuiltKeeps b) where
  commit_result-Sound :
      {A : Type 0} (t : Tracker (Shared C) V) (c : C) (o : InMemoryStore × Option CommitError)
      (go_on : Shared C × Option Fault → Tracker (Shared C) V × Outcome A)
      → Sound t
      → Closed o.0
      → ((r : Shared C × Option Fault) → Closed r.0.1 → Sound (go_on r).0)
      → Sound (commit_result sha256 now reads signer t c o go_on).0
  commit_result-Sound t c (s, some e) go_on sound closed next = Sound-with t (c, s) sound closed
  commit_result-Sound t c (s, none) go_on sound closed next = next ((c, s), none) closed

  commit_after-Sound :
      {A : Type 0} (p : Phase (Shared C) V) (t : Tracker (Shared C) V) (r : Shared C × Option Fault)
      (go_on : Shared C × Option Fault → Tracker (Shared C) V × Outcome A)
      → Sound t
      → Closed r.0.1
      → ((r : Shared C × Option Fault) → Closed r.0.1 → Sound (go_on r).0)
      → Sound (commit_after sha256 now reads signer p t r go_on).0
  unfolding commit_after
  commit_after-Sound p t (cs, some e) go_on sound closed next = next (cs, some e) closed
  commit_after-Sound p t ((c, s), none) go_on sound closed next =
      commit_result-Sound t c (commit_phase_outputs sha256 now reads (some signer) p c s) go_on
        sound (commit_phase_outputs-Closed sha256 now reads (some signer) p c s closed) next

  -- One round, by the phase that the session is in.
  round-Sound :
      (hops : ℕ) (c : Shared C) (state : Name) (current : Option (Phase (Shared C) V))
      (entered : Bool)
      → Keeps (lineage_loop sha256 now reads signer b hops)
      → Sound (record { ctx = c; state = state; current = current; entered = entered })
      → Sound
          (lineage_loop sha256 now reads signer b
            (suc hops)
            (record { ctx = c; state = state; current = current; entered = entered })).0
  unfolding lineage_loop
  round-Sound hops c state none entered next sound = sound
  round-Sound hops c state (some p) entered next sound =
      let t : Tracker (Shared C) V = record {
        ctx = c;
        state = state;
        current = some p;
        entered = entered;
      } in
      commit_after-Sound p t (p.exit c)
        (λ r. after_exit b p t r (lineage_loop sha256 now reads signer b hops)) sound
        ((sound.keeps p refl).on_exit c sound.closed)
        (λ r closed.
          after_exit-Sound b p t r (lineage_loop sha256 now reads signer b hops) built sound closed
            next)

  lineage_loop-Sound : (hops : ℕ) → Keeps (lineage_loop sha256 now reads signer b hops)
  unfolding lineage_loop
  lineage_loop-Sound zero t sound = sound
  lineage_loop-Sound (suc hops) t sound =
      round-Sound hops t.ctx t.state t.current t.entered (lineage_loop-Sound hops) sound

  lineage_walk-Sound :
      (target : Name) (hops : ℕ) → Keeps (lineage_walk sha256 now reads signer b target hops)
  unfolding lineage_walk
  lineage_walk-Sound target zero t sound = sound
  lineage_walk-Sound target (suc hops) t sound = elim (Bool-cases (t.state == target)) [
    | inl k ↦ simp k sound
    | inr k ↦ elim (Option-cases t.current) [
      | inl e ↦ simp (k, e) sound
      | inr (p, e) ↦
          simp (k, e)
            (commit_after-Sound p t (p.exit t.ctx)
              (λ r. after_leave b p t r (lineage_walk sha256 now reads signer b target hops)) sound
              ((sound.keeps p e).on_exit t.ctx sound.closed)
              (λ r closed.
                after_leave-Sound b p t r (lineage_walk sha256 now reads signer b target hops) built
                  sound closed (lineage_walk-Sound target hops)))
    ]
  ]

  deliver-Sound :
      (count : ℕ) (t : Tracker (Shared C) V) (p : Phase (Shared C) V) (r : Shared C × Option Fault)
      → Sound t
      → Closed r.0.1
      → Sound (lineage_deliver sha256 now reads signer b count t p r).0
  unfolding lineage_deliver
  deliver-Sound count t p (c, some e) sound closed = Sound-with t c sound closed
  deliver-Sound count t p (c, none) sound closed = elim (Bool-cases (p.check_complete c)) [
    | inl k ↦
        simp k (lineage_loop-Sound (count + 1) (record t { ctx = c }) (Sound-with t c sound closed))
    | inr k ↦ simp k (Sound-with t c sound closed)
  ]

  message_at-Sound :
      (count : ℕ) (c : Shared C) (state : Name) (current : Option (Phase (Shared C) V))
      (entered : Bool) (type from : Name) (payload : Bytes)
      → Sound (record { ctx = c; state = state; current = current; entered = entered })
      → Sound
          (lineage_message_to sha256 now reads signer b count
            (record { ctx = c; state = state; current = current; entered = entered })
            type
            from
            payload).0
  unfolding lineage_message_to
  message_at-Sound count c state none entered type from payload sound = sound
  message_at-Sound count c state (some p) entered type from payload sound =
      elim (Bool-cases (contains p.consumed type)) [
        | inl k ↦ simp k (
            deliver-Sound count
              (record { ctx = c; state = state; current = some p; entered = entered }) p
              (p.on_message c type from payload) sound
              ((sound.keeps p refl).on_receipt c type from payload sound.closed))
        | inr k ↦ simp k sound
      ]

  pub message_to-Sound :
      (count : ℕ) (t : Tracker (Shared C) V) (type from : Name) (payload : Bytes)
      → Sound t
      → Sound (lineage_message_to sha256 now reads signer b count t type from payload).0
  message_to-Sound count t type from payload sound =
      message_at-Sound count t.ctx t.state t.current t.entered type from payload sound

  pub advance-Sound :
      (count : ℕ) (t : Tracker (Shared C) V) (target : Name)
      → Sound t
      → Sound (lineage_advance sha256 now reads signer b count t target).0
  unfolding lineage_advance
  advance-Sound count t target sound = elim (Bool-cases (t.state == target)) [
    | inl k ↦ simp k sound
    | inr k ↦ elim (Bool-cases (is_within t.current target)) [
      | inl j ↦ simp (k, j) sound
      | inr j ↦ simp (k, j) (lineage_walk-Sound target (count + 1) t sound)
    ]
  ]
