-- ===== src/Transport/Sequence.antt =====
-- The sequence numbers of pkg/ares/transport/hub.go: what checkAndRecordSeq does for the frames that
-- were passed on.
use ares_energy_demo.Prelude.{
  nat_eq, ℤ, pos, negsuc, ◌≡◌, ◌≢◌, ◌⊎◌, sym, ◌∙◌, ap, subst, Bool, true, false, List, [], ◌∷◌,
  some, ◌==◌, int_eq, int_beq_iff, lookup, insert, lookup-insert, All, arith, Bool-cases, inl, inr,
}
use ares_energy_demo.Runner.Types.{Name, name_eq, name_beq_iff}
use ares_energy_demo.Transport.Frames.{WsMessage, int_leb, is_replay, seq_key, check_and_record_seq}
use ares_energy_demo.Transport.Traffic.{Dispatch}

abbrev pub key_of : Dispatch → Name
key_of (p, m) = seq_key m.session_id p m.type

-- A later frame of one key has a greater number than an earlier one, unless one of them has none.
abbrev pub Later : Dispatch → Dispatch → Type 0
Later d e =
    key_of e ≡ key_of d → e.1.seq ≢ pos 0 → d.1.seq ≢ pos 0 → int_leb d.1.seq e.1.seq ≡ false

-- The newest comes first.
abbrev pub Increasing : List Dispatch → Type 0
Increasing [] = Unit {0}
Increasing (d ∷ ds) = All (Later d) ds × Increasing ds

abbrev pub Highs : Type 0
Highs = List (Name × ℤ)

-- The highest number on record for the frame's key is not below the frame's.
abbrev pub Recorded : Highs → Dispatch → Type 0
Recorded high d =
    d.1.seq ≢ pos 0 → (n : ℤ) × (lookup (key_of d) high ≡ some n) × (int_leb d.1.seq n ≡ true)

int_leb_refl : (a : ℤ) → int_leb a a ≡ true
int_leb_refl (pos n) = ground arith
int_leb_refl (negsuc n) = ground arith

-- From a ≤ n and not s ≤ n.
int_leb-between :
    (a n s : ℤ)
    → int_leb a n ≡ true
    → int_leb s n ≡ false
    → (int_leb a s ≡ true) × (int_leb s a ≡ false)
int_leb-between (pos a) (pos n) (pos s) h k = ground arith
int_leb-between (pos a) (pos n) (negsuc s) h k = absurd (ground (arith, k))
int_leb-between (pos a) (negsuc n) s h k = absurd (ground (arith, h))
int_leb-between (negsuc a) (pos n) (pos s) h k = ground arith
int_leb-between (negsuc a) (pos n) (negsuc s) h k = absurd (ground (arith, k))
int_leb-between (negsuc a) (negsuc n) (pos s) h k = ground arith
int_leb-between (negsuc a) (negsuc n) (negsuc s) h k = ground arith

check_and_record_seq-cases :
    (high : Highs) (p : Name) (m : WsMessage)
    → let (high', accepted) = check_and_record_seq high p m in
      ((high' ≡ high) × ((accepted ≡ true) → m.seq ≡ pos 0))
      ⊎ ((high' ≡ insert (key_of (p, m)) m.seq high)
          × (is_replay (lookup (key_of (p, m)) high) m.seq ≡ false))
unfolding check_and_record_seq
check_and_record_seq-cases high p m = elim (Bool-cases (m.seq == pos 0)) [
  | inl z ↦ inl (ground (arith, z), λ _. (int_beq_iff m.seq (pos 0)).0 z)
  | inr z ↦ elim (Bool-cases (is_replay (lookup (key_of (p, m)) high) m.seq)) [
    | inl r ↦ inl (ground (arith, z, r), λ e. absurd (ground (arith, z, r, e)))
    | inr r ↦ inr (ground (arith, z, r), r)
  ]
]

-- A frame whose number is not a replay is recorded as the highest of its key.
module _ (high : Highs) (d : Dispatch)
    (fresh : is_replay (lookup (key_of d) high) d.1.seq ≡ false) where
  abbrev raised : Highs
  raised = insert (key_of d) d.1.seq high

  raised_found : lookup (key_of d) raised ≡ some d.1.seq
  raised_found =
      ground (
        arith,
        lookup-insert (key_of d) (key_of d) d.1.seq high,
        name_beq_iff (key_of d) (key_of d),
      )

  below :
      (e : Dispatch) (n : ℤ)
      → key_of e ≡ key_of d
      → lookup (key_of e) high ≡ some n
      → int_leb d.1.seq n ≡ false
  below e n same found =
      subst (λ o. is_replay o d.1.seq ≡ false) (ap (λ k. lookup k high) (sym same) ∙ found) fresh

  raised-Recorded : (e : Dispatch) → Recorded high e → Recorded raised e
  raised-Recorded e r nz = elim (Bool-cases (key_of d == key_of e)) [
    | inl k ↦
        let same = sym ((name_beq_iff (key_of d) (key_of e)).0 k) in
        let (n, found, le) = r nz in
        (
          d.1.seq,
          ap (λ t. lookup t raised) same ∙ raised_found,
          (int_leb-between e.1.seq n d.1.seq le (below e n same found)).0,
        )
    | inr k ↦
        let (n, found, le) = r nz in
        (n, ground (arith, found, k, lookup-insert (key_of d) (key_of e) d.1.seq high), le)
  ]

  raised-Later : (e : Dispatch) → Recorded high e → Later d e
  raised-Later e r same nz _ =
      let (n, found, le) = r nz in (int_leb-between e.1.seq n d.1.seq le (below e n same found)).1

All-map :
    {A : Type 0} {P Q : A → Type 0} (f : (a : A) → P a → Q a) (xs : List A) → All P xs → All Q xs
All-map f [] a = tt
All-map f (x ∷ xs) (p, a) = (f x p, All-map f xs a)

-- What the check does for the frames that were passed on, and for the one that it lets pass.
abbrev pub Checked : Highs → List Dispatch → Dispatch → Highs × Bool → Type 0
Checked high log d (high', accepted) =
    All (Recorded high') log × ((accepted ≡ true) → Recorded high' d × All (Later d) log)

pub check_and_record_seq-Checked :
    (high : Highs) (log : List Dispatch) (p : Name) (m : WsMessage)
    → All (Recorded high) log
    → Checked high log (p, m) (check_and_record_seq high p m)
check_and_record_seq-Checked high log p m a = elim (check_and_record_seq-cases high p m) [
  | inl (same, zero) ↦ (
    subst (λ t. All (Recorded t) log) (sym same) a,
    λ e. (
      (λ nz. absurd (nz (zero e))),
      All-map {P = Recorded high} (λ x _ _ _ nz. absurd (nz (zero e))) log a,
    ),
  )
  | inr (raises, fresh) ↦ (
    subst (λ t. All (Recorded t) log) (sym raises)
        (All-map (raised-Recorded high (p, m) fresh) log a),
    λ _. (
      subst (λ t. Recorded t (p, m)) (sym raises)
          (λ _. (m.seq, raised_found high (p, m) fresh, int_leb_refl m.seq)),
      All-map (raised-Later high (p, m) fresh) log a,
    ),
  )
]
