-- ===== src/Lineage/Preimage.antt =====
-- The length prefixes of DeriveNodeHash and SigningMessage (pkg/ares/lineage/node.go).
use ares_energy_demo.Prelude.{
  ℕ, ◌/◌, ◌%◌, ◌<◌, ◌≡◌, refl, sym, ◌∙◌, List, [], ◌∷◌, ◌++◌, length, arith, All,
}
use ares_energy_demo.Auction.State.{Bytes}
use ares_energy_demo.Lineage.Node.{NodeRef, u32, write_len_prefixed, concat, preimage}

-- Four bytes are enough for a length below 2^32.
u32-digits :
    (m n : ℕ)
    → m < 4294967296
    → n < 4294967296
    → (m / 16777216) % 256 ≡ (n / 16777216) % 256
    → (m / 65536) % 256 ≡ (n / 65536) % 256
    → (m / 256) % 256 ≡ (n / 256) % 256
    → m % 256 ≡ n % 256
    → m ≡ n
u32-digits m n hm hn a b c d = omega arith

append-cancel :
    (xs ys us bs : Bytes) → length xs ≡ length ys → xs ++ us ≡ ys ++ bs → (xs ≡ ys) × (us ≡ bs)
append-cancel [] [] us bs l h = (refl, h)
append-cancel [] (y ∷ ys) us bs l h = absurd (ground (arith, l))
append-cancel (x ∷ xs) [] us bs l h = absurd (ground (arith, l))
append-cancel (x ∷ xs) (y ∷ ys) us bs l h = ground (arith, h, append-cancel xs ys us bs)

-- A length prefix says where the field ends.
write_len_prefixed-cancel :
    (x y us bs : Bytes)
    → length x < 4294967296
    → length y < 4294967296
    → write_len_prefixed x ++ us ≡ write_len_prefixed y ++ bs
    → (x ≡ y) × (us ≡ bs)
unfolding write_len_prefixed u32
write_len_prefixed-cancel x y us bs hx hy h =
    append-cancel x y us bs
      (u32-digits (length x) (length y) hx hy (ground (arith, h)) (ground (arith, h))
        (ground (arith, h)) (ground (arith, h)))
      (ground (arith, h))

-- The hashed fields of a node as Go can hold them: a reference is an array of 32 bytes, and the
-- lengths of the others fit 32 bits.
pub record Sized (session phase role : Bytes) (payload_hash : NodeRef) (parents : List NodeRef)
    : Type 0 where
  pub session_fits : length session < 4294967296
  pub phase_fits : length phase < 4294967296
  pub role_fits : length role < 4294967296
  pub parents_fit : length parents < 4294967296
  pub payload_ref : length payload_hash ≡ 32
  pub parent_refs : All (λ p. length p ≡ 32) parents

concat-cancel :
    (ps qs : List NodeRef)
    → length ps ≡ length qs
    → All (λ p. length p ≡ 32) ps
    → All (λ p. length p ≡ 32) qs
    → concat ps ≡ concat qs
    → ps ≡ qs
concat-cancel [] [] l a b h = refl
concat-cancel [] (q ∷ qs) l a b h = absurd (ground (arith, l))
concat-cancel (p ∷ ps) [] l a b h = absurd (ground (arith, l))
concat-cancel (p ∷ ps) (q ∷ qs) l (a, as') (b, bs') h =
    let (same, rest) = append-cancel p q (concat ps) (concat qs) (a ∙ sym b) h in
    let later = concat-cancel ps qs (ground (arith, l)) as' bs' rest in ground (arith, same, later)

-- Nodes with different sessions, phases, roles, payload hashes or parents give SHA-256 different
-- bytes, for field lengths below 2^32.
pub preimage_injective :
    (s s' p p' r r' : Bytes) (h h' : NodeRef) (ps ps' : List NodeRef)
    → Sized s p r h ps
    → Sized s' p' r' h' ps'
    → preimage s p r h ps ≡ preimage s' p' r' h' ps'
    → (s ≡ s') × (p ≡ p') × (r ≡ r') × (h ≡ h') × (ps ≡ ps')
unfolding preimage u32
preimage_injective s s' p p' r r' h h' ps ps' a b e =
    let (se, e₁) = write_len_prefixed-cancel s s' _ _ a.session_fits b.session_fits e in
    let (pe, e₂) = write_len_prefixed-cancel p p' _ _ a.phase_fits b.phase_fits e₁ in
    let (re, e₃) = write_len_prefixed-cancel r r' _ _ a.role_fits b.role_fits e₂ in
    let (he, e₄) =
      write_len_prefixed-cancel h h' _ _ (ground (arith, a.payload_ref))
        (ground (arith, b.payload_ref)) e₃ in
    let count =
      u32-digits (length ps) (length ps') a.parents_fit b.parents_fit (ground (arith, e₄))
        (ground (arith, e₄)) (ground (arith, e₄)) (ground (arith, e₄)) in
    (se, pe, re, he, concat-cancel ps ps' count a.parent_refs b.parent_refs (ground (arith, e₄)))
