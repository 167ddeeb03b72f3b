-- ===== src/Transport/Artifacts.antt =====
-- The artifact store of pkg/ares/transport/artifacts.go: blobs under keys, with a time to live. Times
-- are nanoseconds, and SHA-256 is a parameter.
use ares_energy_demo.Prelude.{
  ℕ, suc, ◌+◌, ◌/◌, ◌%◌, Bool, not, List, [], ◌∷◌, Option, none, some, ltb, if◌then◌else◌, ◌==◌,
  lookup, insert, delete,
}
use ares_energy_demo.Auction.State.{Bytes}
use ares_energy_demo.Runner.Types.{Name, name_eq}
use ares_energy_demo.Lineage.Node.{NodeRef}

pub record ArtifactEntry : Type 0 where
  pub blob : Bytes
  pub expires : ℕ

pub record ArtifactStore : Type 0 where
  pub entries : List (Name × ArtifactEntry)
  pub ttl : ℕ

unfoldable pub new_artifact_store_with_ttl : ℕ → ArtifactStore
new_artifact_store_with_ttl ttl = record { entries = []; ttl = ttl }

-- 30 minutes
unfoldable pub new_artifact_store : ArtifactStore
unfolding new_artifact_store_with_ttl
new_artifact_store = new_artifact_store_with_ttl 1800000000000

unfoldable pub put : ArtifactStore → ℕ → Name → Bytes → ArtifactStore
put s now key blob = record s {
  entries = insert key (record { blob = blob; expires = now + s.ttl }) s.entries;
}

abbrev pub is_expired : ℕ → ArtifactEntry → Bool
is_expired now e = ltb e.expires now

abbrev pub unexpired : ℕ → Option ArtifactEntry → Option Bytes
unexpired now none = none
unexpired now (some e) = if is_expired now e then none else some e.blob

unfoldable pub get : ArtifactStore → ℕ → Name → Option Bytes
get s now key = unexpired now (lookup key s.entries)

-- Resolve, with `none` for its error.
unfoldable pub resolve : ArtifactStore → ℕ → Name → Option Bytes
unfolding get
resolve s now key = get s now key

unfoldable pub delete_artifact : ArtifactStore → Name → ArtifactStore
delete_artifact s key = record s { entries = delete key s.entries }

abbrev pub live : ℕ → List (Name × ArtifactEntry) → List (Name × ArtifactEntry)
live now [] = []
live now ((k, e) ∷ m) = if is_expired now e then live now m else (k, e) ∷ live now m

abbrev pub purged : ℕ → List (Name × ArtifactEntry) → ℕ
purged now [] = 0
purged now ((k, e) ∷ m) = if is_expired now e then suc (purged now m) else purged now m

unfoldable pub sweep : ArtifactStore → ℕ → ArtifactStore × ℕ
sweep s now = (record s { entries = live now s.entries }, purged now s.entries)

abbrev pub hex_digit : ℕ → ℕ
hex_digit n = if ltb n 10 then 48 + n else 87 + n

abbrev pub hex : Bytes → Name
hex [] = []
hex (b ∷ bs) = hex_digit (b / 16) ∷ hex_digit (b % 16) ∷ hex bs

-- "content:" and the digits of the handle
unfoldable pub content_key : NodeRef → Name
content_key handle = 99 ∷ 111 ∷ 110 ∷ 116 ∷ 101 ∷ 110 ∷ 116 ∷ 58 ∷ hex handle

pub data Content : Type 0 where
  content : Bytes → Content
  not_found corrupted : Content

module _ (sha256 : Bytes → NodeRef) where
  unfoldable pub put_content : ArtifactStore → ℕ → Bytes → ArtifactStore × NodeRef
  unfolding put content_key
  put_content s now blob = (put s now (content_key (sha256 blob)) blob, sha256 blob)

  abbrev pub checked : NodeRef → Option Bytes → Content
  checked handle none = not_found
  checked handle (some blob) = if not (sha256 blob == handle) then corrupted else content blob

  unfoldable pub get_content : ArtifactStore → ℕ → NodeRef → Content
  unfolding get content_key
  get_content s now handle = checked handle (get s now (content_key handle))
