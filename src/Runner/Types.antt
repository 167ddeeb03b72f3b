-- ===== src/Runner/Types.antt =====
-- The phase abstraction of pkg/ares/phase (phase.go, types.go, runner.go): a phase is a record of its
-- declarations and hooks. The session context that the hooks read and write is a type `C`, the
-- values of constraints a type `V` with the two comparisons that the code makes.
use ares_energy_demo.Prelude.{
  nat_eq, ℕ, ◌≡◌, ◌↔◌, Bool, true, false, ◌&&◌, List, [], ◌∷◌, Option, arith, nat_beq, Eq,
}
use ares_energy_demo.Auction.State.{Bytes}

-- A Go string, by its bytes; `StateNone` is the empty one.
abbrev pub Name : Type 0
Name = Bytes

abbrev pub name_beq : Name → Name → Bool
name_beq [] [] = true
name_beq (a ∷ xs) (b ∷ ys) = nat_beq a b && name_beq xs ys
name_beq _ _ = false

pub name_beq_iff : (a b : Name) → (name_beq a b ≡ true) ↔ (a ≡ b)
name_beq_iff [] [] = ground arith
name_beq_iff [] (b ∷ bs) = ground arith
name_beq_iff (a ∷ xs) [] = ground arith
name_beq_iff (a ∷ xs) (b ∷ ys) = ground (arith, name_beq_iff xs ys)

instance abbrev pub name_eq : Eq Name
name_eq = record { beq = name_beq; beq_iff = name_beq_iff }

abbrev pub is_none : Name → Bool
is_none [] = true
is_none (_ ∷ _) = false

-- `atLeast` and `equalConstraint`, which compare through Go's numeric conversions and printing;
-- `none` is the error on a value that is no number.
pub record Comparison (V : Type 0) : Type 0 where
  pub at_least : V → V → Option Bool
  pub equal : V → V → Bool

pub record ContextKeyType (V : Type 0) : Type 0 where
  pub type_name : Name
  pub is_required : Bool
  pub constraints : List (Name × V)
  pub no_lineage : Bool

abbrev pub ContextSchema : Type 0 → Type 0
ContextSchema V = List (Name × ContextKeyType V)

-- A phase's own error.
abbrev pub Fault : Type 0
Fault = ℕ

-- Lifetime is not read by the runner. A hook returns the context, which it may have changed also
-- where it fails.
pub record Phase (C V : Type 0) : Type 0 where
  pub name : Name
  pub is_inline : Bool
  pub entry_state : Name
  pub exit_state : Name
  pub internal_states : List Name
  pub consumed : List Name
  pub requires : ContextSchema V
  pub provides : ContextSchema V
  pub enter : C → C × Option Fault
  pub on_message : C → Name → Name → Bytes → C × Option Fault
  pub check_complete : C → Bool
  pub exit : C → C × Option Fault

-- Why `Compose` refuses a pipeline.
pub data ComposeError : Type 0 where
  no_phases empty_name duplicate_name missing_key wrong_type missing_minimum : ComposeError
  not_numeric below_minimum missing_constraint unequal_constraint : ComposeError
  no_entry entry_claimed internal_none internal_is_entry internal_claims_entry : ComposeError
  internal_claimed not_connected not_inline : ComposeError

pub data Result (A : Type 0) : Type 0 where
  ok : A → Result A
  err : ComposeError → Result A

infixl 5 ◌>>=◌ ◌>>◌
abbrev pub ◌>>=◌ : {A B : Type 0} → Result A → (A → Result B) → Result B
ok a >>= f = f a
err e >>= f = err e

abbrev pub ◌>>◌ : {B : Type 0} → Result (Unit {0}) → Result B → Result B
m >> k = m >>= λ _. k

-- Refuses where the test holds.
abbrev pub reject : Bool → ComposeError → Result (Unit {0})
reject true e = err e
reject false e = ok tt
