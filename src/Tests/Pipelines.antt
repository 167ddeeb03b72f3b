-- ===== src/Tests/Pipelines.antt =====
-- Pipelines at concrete inputs (pkg/ares/phase): two phases in a row, and the messages of a session.
use ares_energy_demo.Prelude.{
  inl, ℕ, suc, ◌≡◌, ◌≢◌, refl, true, List, [], ◌∷◌, none, some, arith, lookup, insert, In,
  if◌then◌else◌, ◌==◌, contains,
}
use ares_energy_demo.Runner.Types.{Name, name_eq, Comparison, Phase, Result, ok, err}
use ares_energy_demo.Runner.Compose.{
  Built, unbuilt, compose, validate_requires, add_inline, add_internals, connect_phase, add_phase,
  add_phases, add_provided,
}
use ares_energy_demo.Runner.Chain.{Chain, inlines, compose-Chain}
use ares_energy_demo.Runner.Sessions.{
  Runner, handle_message, panicked, begin_session, after_begin, message_to, deliver, advance,
  advance_loop, after_exit, after_enter, move_to, current_state, Tracker,
}
use ares_energy_demo.Runner.Advance.{Call, begin, message, advance_to, perform_all, perform}
use ares_energy_demo.Runner.Cascade.{Fine, advance-Fine}
use ares_energy_demo.Runner.Finished.{handle_message-panics}
use ares_energy_demo.Runner.Placement.{AllPlaced, perform_all-AllPlaced}
use ares_energy_demo.Runner.Accumulator.{
  SessionContext, get_value, accumulate_message, accumulated_messages, message_count,
  accumulate_message_lem,
}

abbrev equality : Comparison ℕ
equality = record { at_least = λ a b. some true; equal = λ a b. true }

-- A phase that waits for one message, "m".
abbrev waiting : Name → Name → Name → Phase ℕ ℕ
waiting name entry exit = record {
  name = name;
  is_inline = true;
  entry_state = entry;
  exit_state = exit;
  internal_states = [];
  consumed = (109 ∷ []) ∷ [];
  requires = [];
  provides = [];
  enter = λ c. (0, none);
  on_message = λ c type from payload. (suc c, none);
  check_complete = λ c. true;
  exit = λ c. (c, none);
}

abbrev pipeline : List (Phase ℕ ℕ)
pipeline = waiting (1 ∷ []) (65 ∷ []) (66 ∷ []) ∷ waiting (2 ∷ []) (66 ∷ []) [] ∷ []

abbrev built_of : Result (Built ℕ ℕ) → Built ℕ ℕ
built_of (ok b) = b
built_of (err e) = unbuilt

abbrev built : Built ℕ ℕ
built = built_of (compose equality pipeline)

pipeline-built : compose equality pipeline ≡ ok built
unfolding compose lookup insert contains validate_requires add_inline add_internals connect_phase
    add_phase add_phases add_provided
pipeline-built = refl

compose-Chain_example :
    Chain none (inlines pipeline)
    × ((p : Phase ℕ ℕ) → In p (inlines pipeline) → lookup p.entry_state built.by_entry ≡ some p)
    × ((p : Phase ℕ ℕ) → In p (inlines pipeline) → p.entry_state ≢ [])
compose-Chain_example = compose-Chain equality pipeline built pipeline-built

abbrev runner : Runner ℕ ℕ
runner = record { built = built; phase_count = 2; new_context = λ id cohort. 0; sessions = [] }

abbrev calls : List Call
calls =
    begin (9 ∷ []) []
    ∷ message (9 ∷ []) (109 ∷ []) (5 ∷ []) []
    ∷ message (9 ∷ []) (109 ∷ []) (5 ∷ []) []
    ∷ advance_to (9 ∷ []) (66 ∷ [])
    ∷ []

runner-AllPlaced : AllPlaced runner
unfolding lookup
runner-AllPlaced id t e = absurd (ground (arith, e))

perform_all-AllPlaced_example : AllPlaced (perform_all runner calls)
perform_all-AllPlaced_example = perform_all-AllPlaced runner calls runner-AllPlaced

abbrev context : SessionContext ℕ
context = record { session_id = 9 ∷ []; cohort_id = []; values = [] }

accumulate_message_lem_example :
    let c' = accumulate_message context (1 ∷ []) (5 ∷ []) (8 ∷ []) in
    ((s : Name)
      → lookup s (accumulated_messages c' (1 ∷ []))
        ≡ (if 5 ∷ [] == s then some (8 ∷ []) else lookup s (accumulated_messages context (1 ∷ []))))
    × ((k : Name) → 1 ∷ [] ≢ k → get_value c' k ≡ get_value context k)
    × (message_count c' (1 ∷ []) ≡ (elim (lookup (5 ∷ []) (accumulated_messages context (1 ∷ []))) [
      | none ↦ suc (message_count context (1 ∷ []))
      | some _ ↦ message_count context (1 ∷ [])
    ]))
accumulate_message_lem_example = accumulate_message_lem context (1 ∷ []) (5 ∷ []) (8 ∷ [])

-- Both phases are over.
abbrev finished : Runner ℕ ℕ
finished = perform_all runner (
    begin (9 ∷ []) []
    ∷ message (9 ∷ []) (109 ∷ []) (5 ∷ []) []
    ∷ message (9 ∷ []) (109 ∷ []) (5 ∷ []) []
    ∷ [])

unclaimed_none : lookup [] finished.built.by_entry ≡ none
unfolding compose lookup insert contains validate_requires add_inline add_internals connect_phase
    add_phase add_phases add_provided perform begin_session after_begin handle_message message_to
    deliver advance advance_loop after_exit after_enter move_to
unclaimed_none = refl

state_none : current_state finished (9 ∷ []) ≡ some []
unfolding compose lookup insert contains validate_requires add_inline add_internals connect_phase
    add_phase add_phases add_provided perform begin_session after_begin handle_message message_to
    deliver advance advance_loop after_exit after_enter move_to current_state
state_none = refl

handle_message-panics_example :
    (handle_message finished (9 ∷ []) (109 ∷ []) (5 ∷ []) []).1 ≡ panicked
handle_message-panics_example =
    handle_message-panics finished (9 ∷ []) (109 ∷ []) (5 ∷ []) []
      (perform_all-AllPlaced runner
        (begin (9 ∷ []) []
          ∷ message (9 ∷ []) (109 ∷ []) (5 ∷ []) []
          ∷ message (9 ∷ []) (109 ∷ []) (5 ∷ []) []
          ∷ [])
        runner-AllPlaced)
      unclaimed_none state_none

abbrev opening : Phase ℕ ℕ
opening = waiting (1 ∷ []) (65 ∷ []) (66 ∷ [])

abbrev opened : Tracker ℕ ℕ
opened = record { ctx = 1; state = 65 ∷ []; current = some opening; entered = true }

advance-Fine_example : Fine (advance runner opened).1
advance-Fine_example =
    advance-Fine equality pipeline runner opened opening pipeline-built refl refl (inl refl) refl
