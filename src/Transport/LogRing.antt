-- ===== src/Transport/LogRing.antt =====
-- What the ring of pkg/ares/transport/log_stream.go keeps.
use ares_energy_demo.Prelude.{
  ℕ, zero, suc, ◌+◌, ◌-◌, ◌%◌, ◌<◌, ◌≡◌, refl, sym, ◌∙◌, ap, true, false, List, [], ◌∷◌, ◌++◌, map,
  leb, nat_beq, nat_beq_iff, if◌then◌else◌, length, length-append, arith, Bool-cases, inl, inr, ◌⊎◌,
}
use mathlib.Core.List.{append-nil, append_assoc}
use native.Mathlib.Nat.{mod-eq_of_lt}
use ares_energy_demo.Prelude.Recent.{
  take, drop, set, tail, keep_last, push_recent, push_recent-keep_last, length-drop, length-take,
  length-set, take-set, drop-set, take-all, drop-all, tail-append, tail-drop, drop-nil,
}
use ares_energy_demo.Auction.State.{Bytes}
use ares_energy_demo.Transport.LogStream.{
  LogStream, new_log_stream, write_line, write, buffered, nonempty, blank_lines, trim_right,
}

-- The lines of the ring from the oldest on.
abbrev pub contents : LogStream → List Bytes
contents ls = (if ls.full then drop ls.pos ls.ring else []) ++ take ls.pos ls.ring

nonempty-append : (xs ys : List Bytes) → nonempty (xs ++ ys) ≡ nonempty xs ++ nonempty ys
nonempty-append [] ys = refl
nonempty-append (x ∷ xs) ys = ground (arith, nonempty-append xs ys)

buffered-contents : (ls : LogStream) → buffered ls ≡ nonempty (contents ls)
unfolding buffered
buffered-contents ls = elim (Bool-cases ls.full) [
  | inl e ↦ simp e (sym (nonempty-append (drop ls.pos ls.ring) (take ls.pos ls.ring)))
  | inr e ↦ simp e refl
]

-- The ring has its size, and the place of the next line is in it.
pub record Round (size : ℕ) (ls : LogStream) : Type 0 where
  pub sized : length ls.ring ≡ size
  pub inside : ls.pos < size

next-cases :
    (size pos : ℕ)
    → pos < size
    → ((suc pos < size) × ((pos + 1) % size ≡ suc pos))
      ⊎ ((suc pos ≡ size) × ((pos + 1) % size ≡ 0))
next-cases size pos h = elim (Bool-cases (nat_beq (suc pos) size)) [
  | inl e ↦ let same = (nat_beq_iff (suc pos) size).0 e in inr (same, grind arith)
  | inr e ↦
      let less : suc pos < size = ground (arith, e) in
      inl (less, mod-eq_of_lt {n = pos + 1} {m = size} (omega arith) ∙ omega arith)
]

module _ (size : ℕ) (line : Bytes) (ring : List Bytes) (pos : ℕ) where
  -- The lines that a ring holds after a write, by whether the place goes back to the start.
  full_inside :
      length ring ≡ size
      → suc pos < size
      → drop (suc pos) (set ring pos line) ++ take (suc pos) (set ring pos line)
        ≡ push_recent size (drop pos ring ++ take pos ring) line
  full_inside sized inside =
      let whole : leb size (length (drop pos ring ++ take pos ring)) ≡ true = ground (
        arith,
        length-append (drop pos ring) (take pos ring),
        length-drop pos ring,
        length-take pos ring,
      ) in
      let shifted : tail (drop pos ring ++ take pos ring) ≡ drop (suc pos) ring ++ take pos ring =
        tail-append (drop pos ring) (take pos ring) (omega (arith, length-drop pos ring))
        ∙ ap (λ t. t ++ take pos ring) (tail-drop pos ring) in
      simp (drop-set ring pos line, take-set ring pos line (omega arith), whole, shifted)
        (sym (append_assoc (drop (suc pos) ring) (take pos ring) (line ∷ [])))

  filling_inside :
      length ring ≡ size
      → suc pos < size
      → take (suc pos) (set ring pos line) ≡ push_recent size (take pos ring) line
  filling_inside sized inside =
      let room : leb size (length (take pos ring)) ≡ false = ground (arith, length-take pos ring) in
      simp (take-set ring pos line (omega arith), room) refl

  full_round :
      length ring ≡ size
      → suc pos ≡ size
      → set ring pos line ++ [] ≡ push_recent size (drop pos ring ++ take pos ring) line
  full_round sized same =
      let whole : leb size (length (drop pos ring ++ take pos ring)) ≡ true = ground (
        arith,
        length-append (drop pos ring) (take pos ring),
        length-drop pos ring,
        length-take pos ring,
      ) in
      let shifted : tail (drop pos ring ++ take pos ring) ≡ take pos ring =
        tail-append (drop pos ring) (take pos ring) (omega (arith, length-drop pos ring))
        ∙ ap (λ t. t ++ take pos ring)
            (tail-drop pos ring ∙ drop-all (suc pos) ring (omega arith)) in
      simp (whole, shifted)
        (append-nil (set ring pos line)
          ∙ sym (take-all (suc pos) (set ring pos line) (omega (arith, length-set ring pos line)))
          ∙ take-set ring pos line (omega arith))

  filling_round :
      length ring ≡ size
      → suc pos ≡ size
      → set ring pos line ++ [] ≡ push_recent size (take pos ring) line
  filling_round sized same =
      let room : leb size (length (take pos ring)) ≡ false = ground (arith, length-take pos ring) in
      simp room (
        append-nil (set ring pos line)
        ∙ sym (take-all (suc pos) (set ring pos line) (omega (arith, length-set ring pos line)))
        ∙ take-set ring pos line (omega arith))

suc_nonzero : (n : ℕ) → nat_beq (suc n) 0 ≡ false
suc_nonzero n = ground arith

module _ (size : ℕ) (line : Bytes) where
  contents-write :
      (ls : LogStream)
      → Round size ls
      → (contents (write_line size ls line) ≡ push_recent size (contents ls) line)
        × Round size (write_line size ls line)
  unfolding write_line
  contents-write ls r = elim (next-cases size ls.pos r.inside) [
    | inl (less, e) ↦ elim (Bool-cases ls.full) [
      | inl f ↦
          simp (e, f, suc_nonzero ls.pos)
            (
              full_inside size line ls.ring ls.pos r.sized less,
              record { sized = length-set ls.ring ls.pos line ∙ r.sized; inside = less },
            )
      | inr f ↦
          simp (e, f, suc_nonzero ls.pos)
            (
              filling_inside size line ls.ring ls.pos r.sized less,
              record { sized = length-set ls.ring ls.pos line ∙ r.sized; inside = less },
            )
    ]
    | inr (same, e) ↦ elim (Bool-cases ls.full) [
      | inl f ↦
          simp (e, f)
            (
              full_round size line ls.ring ls.pos r.sized same,
              record { sized = length-set ls.ring ls.pos line ∙ r.sized; inside = omega arith },
            )
      | inr f ↦
          simp (e, f)
            (
              filling_round size line ls.ring ls.pos r.sized same,
              record { sized = length-set ls.ring ls.pos line ∙ r.sized; inside = omega arith },
            )
    ]
  ]

abbrev pub writes : ℕ → LogStream → List Bytes → LogStream
writes size ls [] = ls
writes size ls (p ∷ ps) = writes size (write size ls p) ps

module _ (size : ℕ) (pos : 0 < size) where
  contents-writes :
      (ps past : List Bytes) (ls : LogStream)
      → Round size ls
      → contents ls ≡ keep_last size past
      → contents (writes size ls ps) ≡ keep_last size (past ++ map (trim_right 10) ps)
  unfolding write
  contents-writes [] past ls r e = e ∙ ap (keep_last size) (sym (append-nil past))
  contents-writes (p ∷ ps) past ls r e =
      let line = trim_right 10 p in
      let next = contents-write size line ls r in
      contents-writes ps (past ++ (line ∷ [])) (write_line size ls line) next.1
        (next.0 ∙ ap (λ t. push_recent size t line) e ∙ push_recent-keep_last size past line pos)
      ∙ ap (keep_last size) (append_assoc past (line ∷ []) (map (trim_right 10) ps))

  length-blank : (n : ℕ) → length (blank_lines n) ≡ n
  length-blank zero = refl
  length-blank (suc n) = ap suc (length-blank n)

  -- The buffer of a log whose ring has a place, that starts empty and then gets writes, gives the last
  -- lines, as many as the ring has places, in order, without the newlines at their ends and without
  -- the empty ones.
  pub buffered-writes :
      (ps : List Bytes)
      → buffered (writes size (new_log_stream size) ps)
        ≡ nonempty (keep_last size (map (trim_right 10) ps))
  unfolding new_log_stream
  buffered-writes ps =
      buffered-contents (writes size (new_log_stream size) ps)
      ∙ ap nonempty (
          contents-writes ps [] (new_log_stream size)
            (record { sized = length-blank size; inside = pos })
            (sym (drop-nil Bytes (length {A = Bytes} [] - size))))
