-- ===== src/Runner/Accumulator.antt =====
-- The values of a session's context (pkg/ares/phase/context.go) and the messages that are gathered in
-- it, a map from sender to payload for each bucket key (pkg/ares/phase/accumulator.go).
use ares_energy_demo.Prelude.{
  true, false, keys, ℕ, suc, ◌≡◌, ◌≢◌, refl, ◌∙◌, ap, Bool, List, [], ◌∷◌, Option, none, some,
  if◌then◌else◌, ◌==◌, lookup, insert, lookup-insert, length, leb, arith, Bool-cases, Option-cases,
  inl, inr,
}
use ares_energy_demo.Auction.State.{Bytes}
use ares_energy_demo.Runner.Types.{Name, name_eq, name_beq_iff}

abbrev pub Bucket : Type 0
Bucket = List (Name × Bytes)

-- A value of type `any`: a `map[string][]byte`, or one of another type.
pub data Value (V : Type 0) : Type 0 where
  bucket : Bucket → Value V
  other : V → Value V

pub record SessionContext (V : Type 0) : Type 0 where
  pub session_id : Name
  pub cohort_id : Name
  pub values : List (Name × Value V)

length-insert :
    (k : Name) (p : Bytes) (b : Bucket)
    → length (insert k p b) ≡ (elim (lookup k b) [ none ↦ suc (length b) | some _ ↦ length b ])
unfolding lookup insert
length-insert k p [] = refl
length-insert k p ((j, q) ∷ b) = elim (Bool-cases (j == k)) [
  | inl e ↦ simp e refl
  | inr e ↦ elim (Option-cases (lookup k b)) [
    | inl h ↦ let l = length-insert k p b in ground (arith, e, h, l)
    | inr (r, h) ↦ let l = length-insert k p b in ground (arith, e, h, l)
  ]
]

module _ {V : Type 0} where
  unfoldable pub get_value : SessionContext V → Name → Option (Value V)
  get_value c key = lookup key c.values

  unfoldable pub set_value : SessionContext V → Name → Value V → SessionContext V
  set_value c key v = record c { values = insert key v c.values }

  unfoldable pub has_value : SessionContext V → Name → Bool
  has_value c key = elim (lookup key c.values) [ none ↦ false | some _ ↦ true ]

  unfoldable pub context_keys : SessionContext V → List Name
  context_keys c = keys c.values

  -- TryGet; `assert` is the assertion to the type asked for.
  unfoldable pub try_get : {T : Type 0} → (Value V → Option T) → SessionContext V → Name → Option T
  try_get assert c key = elim (lookup key c.values) [ none ↦ none | some v ↦ assert v ]

  -- MustGet, with `none` for its panic.
  unfoldable pub must_get : {T : Type 0} → (Value V → Option T) → SessionContext V → Name → Option T
  must_get assert c key = elim (lookup key c.values) [ none ↦ none | some v ↦ assert v ]

  -- The function gets the current value, or `none` for the nil of a missing key.
  unfoldable pub update : SessionContext V → Name → (Option (Value V) → Value V) → SessionContext V
  update c key f = record c { values = insert key (f (lookup key c.values)) c.values }

  -- `current.(map[string][]byte)`, empty where that fails.
  abbrev pub as_bucket : Option (Value V) → Bucket
  as_bucket (some (bucket b)) = b
  as_bucket (some (other v)) = []
  as_bucket none = []

  unfoldable pub accumulate_message : SessionContext V → Name → Name → Bytes → SessionContext V
  accumulate_message c key from payload =
      update c key (λ current. bucket (insert from payload (as_bucket current)))

  unfoldable pub accumulated_messages : SessionContext V → Name → Bucket
  accumulated_messages c key = as_bucket (get_value c key)

  unfoldable pub message_count : SessionContext V → Name → ℕ
  message_count c key = length (as_bucket (get_value c key))

  unfoldable pub quorum_reached : SessionContext V → Name → ℕ → Bool
  quorum_reached c key n = leb n (message_count c key)

  -- A message that is gathered under a key is the one kept of its sender there, the messages of other
  -- senders and the other keys are as before, and the count grows by one exactly if the sender had no
  -- message under the key.
  pub accumulate_message_lem :
      (c : SessionContext V) (key from : Name) (payload : Bytes)
      → let c' = accumulate_message c key from payload in
        ((s : Name)
          → lookup s (accumulated_messages c' key)
            ≡ (if from == s then some payload else lookup s (accumulated_messages c key)))
        × ((k : Name) → key ≢ k → get_value c' k ≡ get_value c k)
        × (message_count c' key ≡ (elim (lookup from (accumulated_messages c key)) [
          | none ↦ suc (message_count c key)
          | some _ ↦ message_count c key
        ]))
  unfolding accumulate_message update accumulated_messages message_count get_value
  accumulate_message_lem c key from payload =
      let b = as_bucket (lookup key c.values) in
      let now : lookup key (insert key (bucket (insert from payload b)) c.values)
          ≡ some (bucket (insert from payload b)) =
        ground (
          arith,
          lookup-insert key key (bucket (insert from payload b)) c.values,
          name_beq_iff key key,
        ) in
      (
        (λ s. ap (λ v. lookup s (as_bucket v)) now ∙ lookup-insert from s payload b),
        (λ k ne. ground (
          arith,
          lookup-insert key k (bucket (insert from payload b)) c.values,
          name_beq_iff key k,
          ne,
        )),
        ap (λ v. length (as_bucket v)) now ∙ length-insert from payload b,
      )
