-- ===== src/Runner/Compose.antt =====
-- Compose of pkg/ares/phase/runner.go: the checks on a list of phases, in the code's order. The
-- iteration of a schema is that of its list; Go's maps leave it open, which decides only which of
-- several errors is reported.
use ares_energy_demo.Prelude.{
  Bool, true, false, ◌&&◌, not, ◌||◌, List, [], ◌∷◌, Option, none, some, if◌then◌else◌, ◌==◌,
  lookup, insert, contains,
}
use ares_energy_demo.Runner.Types.{
  Name, name_eq, is_none, name_beq, Comparison, ContextKeyType, ContextSchema, Phase, no_phases,
  empty_name, duplicate_name, missing_key, wrong_type, missing_minimum, not_numeric, below_minimum,
  missing_constraint, unequal_constraint, no_entry, entry_claimed, internal_none, internal_is_entry,
  internal_claims_entry, internal_claimed, not_connected, not_inline, Result, ok, err, ◌>>=◌, ◌>>◌,
  reject,
}

-- The bytes of "_min".
abbrev pub min_suffix : Name
min_suffix = 95 ∷ 109 ∷ 105 ∷ 110 ∷ []

-- The name before a final "_min", if it is not empty.
unfoldable pub producer_key : Name → Option Name
producer_key [] = none
producer_key (c ∷ cs) =
    if name_beq cs min_suffix
    then some (c ∷ [])
    else elim (producer_key cs) [ none ↦ none | some k ↦ some (c ∷ k) ]

module _ {V : Type 0} (cmp : Comparison V) where
  unfoldable pub check_minimum : Option V → V → Result (Unit {0})
  check_minimum none want = err missing_minimum
  check_minimum (some got) want = elim (cmp.at_least got want) [
    | none ↦ err not_numeric
    | some false ↦ err below_minimum
    | some true ↦ ok tt
  ]

  unfoldable pub check_equal : Option V → V → Result (Unit {0})
  check_equal none want = err missing_constraint
  check_equal (some got) want = reject (not (cmp.equal got want)) unequal_constraint

  unfoldable pub check_constraint : Name → V → List (Name × V) → Result (Unit {0})
  unfolding check_minimum check_equal
  check_constraint [] want got = ok tt
  check_constraint (c ∷ cs) want got = elim (producer_key (c ∷ cs)) [
    | some k ↦ check_minimum (lookup k got) want
    | none ↦ check_equal (lookup (c ∷ cs) got) want
  ]

  unfoldable pub check_constraints : List (Name × V) → List (Name × V) → Result (Unit {0})
  unfolding check_constraint
  check_constraints [] got = ok tt
  check_constraints ((c, want) ∷ wants) got = do
    check_constraint c want got
    check_constraints wants got

  abbrev types_differ : Name → Name → Bool
  types_differ want got = not (is_none want) && not (is_none got) && not (name_beq want got)

  unfoldable pub validate_key : ContextKeyType V → Option (ContextKeyType V) → Result (Unit {0})
  unfolding check_constraints
  validate_key want none = reject want.is_required missing_key
  validate_key want (some got) = do
    reject (types_differ want.type_name got.type_name) wrong_type
    check_constraints want.constraints got.constraints

  unfoldable pub validate_requires : ContextSchema V → ContextSchema V → Result (Unit {0})
  unfolding validate_key
  validate_requires [] provided = ok tt
  validate_requires ((k, want) ∷ wants) provided = do
    validate_key want (lookup k provided)
    validate_requires wants provided

-- What the loop over the phases has gathered.
pub record Built (C V : Type 0) : Type 0 where
  pub names : List Name
  pub by_entry : List (Name × Phase C V)
  pub by_internal : List (Name × Phase C V)
  pub provided : ContextSchema V
  pub prev : Option (Phase C V)
  pub initial : Name

abbrev pub is_claimed : {C V : Type 0} → List (Name × Phase C V) → Name → Bool
is_claimed m s = elim (lookup s m) [ none ↦ false | some _ ↦ true ]

unfoldable pub add_provided : {V : Type 0} → ContextSchema V → ContextSchema V → ContextSchema V
add_provided [] provided = provided
add_provided ((k, t) ∷ ks) provided = add_provided ks (insert k t provided)

module _ {C V : Type 0} where
  unfoldable pub add_internals : Phase C V → List Name → Built C V → Result (Built C V)
  add_internals p [] b = ok b
  add_internals p (s ∷ ss) b = do
    reject (is_none s) internal_none
    reject (s == p.entry_state) internal_is_entry
    reject (is_claimed b.by_entry s) internal_claims_entry
    reject (is_claimed b.by_internal s) internal_claimed
    add_internals p ss (record b { by_internal = insert s p b.by_internal })

  -- The first inline phase sets the initial state, any other must follow the one before.
  unfoldable pub connect_phase : Phase C V → Option (Phase C V) → Built C V → Result (Built C V)
  connect_phase p none b = ok (record b { initial = p.entry_state; prev = some p })
  connect_phase p (some q) b = do
    reject (not (q.exit_state == p.entry_state)) not_connected
    ok (record b { prev = some p })

  unfoldable pub add_inline : Phase C V → Built C V → Result (Built C V)
  unfolding add_internals connect_phase
  add_inline p b = do
    reject (is_none p.entry_state) no_entry
    reject (is_claimed b.by_entry p.entry_state) entry_claimed
    b' ←
        add_internals p p.internal_states
          (record b { by_entry = insert p.entry_state p b.by_entry })
    connect_phase p b'.prev b'

  unfoldable pub add_phase : Comparison V → Phase C V → Built C V → Result (Built C V)
  unfolding validate_requires add_provided add_inline
  add_phase cmp p b = do
    reject (is_none p.name) empty_name
    reject (contains b.names p.name) duplicate_name
    validate_requires cmp p.requires b.provided
    let b' = record b { names = p.name ∷ b.names; provided = add_provided p.provides b.provided }
    if p.is_inline
        then add_inline p b'
        else (if not (is_none p.entry_state) || not (is_none p.exit_state)
            then err not_inline
            else ok b')

  unfoldable pub add_phases : Comparison V → List (Phase C V) → Built C V → Result (Built C V)
  unfolding add_phase
  add_phases cmp [] b = ok b
  add_phases cmp (p ∷ ps) b = do b' ← add_phase cmp p b; add_phases cmp ps b'

  abbrev pub unbuilt : Built C V
  unbuilt = record {
    names = [];
    by_entry = [];
    by_internal = [];
    provided = [];
    prev = none;
    initial = [];
  }

  unfoldable pub compose : Comparison V → List (Phase C V) → Result (Built C V)
  unfolding add_phases
  compose cmp [] = err no_phases
  compose cmp (p ∷ ps) = add_phases cmp (p ∷ ps) unbuilt
