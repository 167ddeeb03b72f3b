-- ===== src/Runner/Finished.antt =====
-- What a session's last phase leaves behind (pkg/ares/phase/runner.go).
use ares_energy_demo.Prelude.{
  Bool, ◌≡◌, refl, ◌∙◌, ap, subst, [], Option, none, some, arith, lookup, Option-cases, inl, inr,
}
use ares_energy_demo.Auction.State.{Bytes}
use ares_energy_demo.Runner.Types.{Name, name_eq, Phase}
use ares_energy_demo.Runner.Sessions.{
  Runner, panicked, message_to, message_in, handle_message, current_state,
}
use ares_energy_demo.Runner.Placement.{AllPlaced}
use ares_energy_demo.Runner.Standing.{Standing}

module _ {C V : Type 0} where
  message_to-panics :
      (r : Runner C V) (c : C) (s : Name) (o : Option (Phase C V)) (i : Bool) (type from : Name)
      (payload : Bytes)
      → lookup [] r.built.by_entry ≡ none
      → Standing r.built s o
      → s ≡ []
      → message_to r (record { ctx = c; state = s; current = o; entered = i }) type from payload
        ≡ (record { ctx = c; state = s; current = o; entered = i }, panicked)
  unfolding message_to
  message_to-panics r c s none i type from payload free h e = refl
  message_to-panics r c s (some p) i type from payload free h e =
      absurd (ground (arith, free, subst (λ z. lookup z r.built.by_entry ≡ some p) e h))

  -- In a runner whose sessions are all placed and in which no phase claims StateNone, any message to a
  -- tracked session whose state is StateNone makes HandleMessage panic.
  pub handle_message-panics :
      (r : Runner C V) (id type from : Name) (payload : Bytes)
      → AllPlaced r
      → lookup [] r.built.by_entry ≡ none
      → current_state r id ≡ some []
      → (handle_message r id type from payload).1 ≡ panicked
  unfolding handle_message current_state
  handle_message-panics r id type from payload a free h =
      elim (Option-cases (lookup id r.sessions)) [
        | inl e ↦ absurd (ground (arith, h, e))
        | inr (t, e) ↦
            ap (λ o. (message_in r id type from payload o).1) e
            ∙ ap (λ z. z.1)
                (message_to-panics r t.ctx t.state t.current t.entered type from payload free
                  (a id t e) (ground (arith, h, e)))
      ]
