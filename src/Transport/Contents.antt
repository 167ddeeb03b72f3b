-- ===== src/Transport/Contents.antt =====
-- What the content addresses of pkg/ares/transport/artifacts.go promise.
use ares_energy_demo.Prelude.{
  ℕ, ◌+◌, ◌/◌, ◌%◌, ◌≤◌, ◌<◌, ◌≡◌, refl, ap, true, false, List, [], ◌∷◌, Option, none, some, ltb,
  ◌==◌, lookup, lookup-insert, arith, Bool-cases, inl, inr,
}
use ares_energy_demo.Auction.State.{Bytes}
use ares_energy_demo.Runner.Types.{name_eq, name_beq_iff}
use ares_energy_demo.Lineage.Node.{NodeRef}
use ares_energy_demo.Transport.Artifacts.{
  ArtifactEntry, ArtifactStore, put, get, unexpired, hex, hex_digit, content_key, content,
  put_content, get_content, checked,
}

hex_digit-equal : (a b : ℕ) → hex_digit a ≡ hex_digit b → a ≡ b
hex_digit-equal a b e = ground arith

byte_equal : (a b : ℕ) → a / 16 ≡ b / 16 → a % 16 ≡ b % 16 → a ≡ b
byte_equal a b q r = omega arith

hex-equal : (xs ys : Bytes) → hex xs ≡ hex ys → xs ≡ ys
hex-equal [] [] e = refl
hex-equal [] (b ∷ ys) e = absurd (cc)
hex-equal (a ∷ xs) [] e = absurd (cc)
hex-equal (a ∷ xs) (b ∷ ys) e =
    let high : hex_digit (a / 16) ≡ hex_digit (b / 16) = cc in
    let low : hex_digit (a % 16) ≡ hex_digit (b % 16) = cc in
    let rest : hex xs ≡ hex ys = cc in
    let first =
      byte_equal a b (hex_digit-equal (a / 16) (b / 16) high)
        (hex_digit-equal (a % 16) (b % 16) low) in
    let others = hex-equal xs ys rest in cc

content_key-equal : (h k : NodeRef) → content_key h ≡ content_key k → h ≡ k
unfolding content_key
content_key-equal h k e = hex-equal h k (cc)

-- A blob that is stored and fresh at a time.
abbrev Fresh : Bytes → ℕ → Option ArtifactEntry → Type 0
Fresh blob later none = 0 < 0
Fresh blob later (some e) = (e.blob ≡ blob) × (later ≤ e.expires)

module _ (sha256 : Bytes → NodeRef) where
  abbrev pub put_all : ArtifactStore → List (ℕ × Bytes) → ArtifactStore
  put_all s [] = s
  put_all s ((now, p) ∷ ps) = put_all (put_content sha256 s now p).0 ps

  -- The puts are not before a time, and none hides a blob behind another one of its hash.
  abbrev pub Benign : ℕ → Bytes → List (ℕ × Bytes) → Type 0
  Benign now blob [] = Unit
  Benign now blob ((t, p) ∷ ps) =
      (now ≤ t) × (sha256 p ≡ sha256 blob → p ≡ blob) × Benign now blob ps

  module _ (now later : ℕ) (blob : Bytes) where
    put-Fresh :
        (s : ArtifactStore) (t : ℕ) (p : Bytes)
        → later ≤ now + s.ttl
        → now ≤ t
        → (sha256 p ≡ sha256 blob → p ≡ blob)
        → Fresh blob later (lookup (content_key (sha256 blob)) s.entries)
        → Fresh blob later (lookup (content_key (sha256 blob)) (put_content sha256 s t p).0.entries)
    unfolding put_content put
    put-Fresh s t p soon after alike h =
        let key = content_key (sha256 blob) in
        let entry : ArtifactEntry = record { blob = p; expires = t + s.ttl } in
        let found = lookup-insert (content_key (sha256 p)) key entry s.entries in
        elim (Bool-cases (content_key (sha256 p) == key)) [
          | inl e ↦
              let same = (name_beq_iff (content_key (sha256 p)) key).0 e in
              simp (found, e) (alike (content_key-equal (sha256 p) (sha256 blob) same), omega arith)
          | inr e ↦ simp (found, e) h
        ]

    put_all-Fresh :
        (s : ArtifactStore) (ps : List (ℕ × Bytes))
        → later ≤ now + s.ttl
        → Benign now blob ps
        → Fresh blob later (lookup (content_key (sha256 blob)) s.entries)
        → Fresh blob later (lookup (content_key (sha256 blob)) (put_all s ps).entries)
    unfolding put_content put
    put_all-Fresh s [] soon ok h = h
    put_all-Fresh s ((t, p) ∷ ps) soon ok h =
        put_all-Fresh (put_content sha256 s t p).0 ps soon ok.2 (put-Fresh s t p soon ok.0 ok.1 h)

    Fresh-get :
        (o : Option ArtifactEntry)
        → Fresh blob later o
        → checked sha256 (sha256 blob) (unexpired later o) ≡ content blob
    Fresh-get none h = absurd (omega arith)
    Fresh-get (some e) h =
        let fresh : ltb e.expires later ≡ false = ground (arith, h.1) in
        let same : (sha256 e.blob == sha256 blob) ≡ true =
          (name_beq_iff (sha256 e.blob) (sha256 blob)).1 (ap sha256 h.0) in
        simp (fresh, same) (ap content h.0)

  -- A blob that is put by content is what its handle gives until its time to live has passed, also
  -- after any later puts by content, none of another blob with the same SHA-256.
  pub get_content-put_content :
      (s : ArtifactStore) (now later : ℕ) (blob : Bytes) (ps : List (ℕ × Bytes))
      → later ≤ now + s.ttl
      → Benign now blob ps
      → get_content sha256
          (put_all (put_content sha256 s now blob).0 ps)
          later
          (put_content sha256 s now blob).1
        ≡ content blob
  unfolding put_content put get_content get
  get_content-put_content s now later blob ps soon ok =
      let stored = put_content sha256 s now blob in
      let key = content_key (sha256 blob) in
      Fresh-get now later blob (lookup (content_key (sha256 blob)) (put_all stored.0 ps).entries) (
        put_all-Fresh now later blob stored.0 ps soon ok (
          simp
            (
              lookup-insert key key (record { blob = blob; expires = now + s.ttl }) s.entries,
              (name_beq_iff key key).1 refl,
            )
            (refl, soon)))
