-- ===== src/Lineage/Resolve.antt =====
-- The index of the in-memory store of pkg/ares/lineage/inmemory.go: what a session's references resolve to.
use ares_energy_demo.Prelude.{
  ◌≡◌, ◌≢◌, refl, ◌∙◌, ap, List, [], ◌∷◌, ◌++◌, none, some, arith, lookup, insert, delete,
  lookup-insert, lookup-delete, All,
}
use ares_energy_demo.Auction.State.{Bytes}
use ares_energy_demo.Runner.Types.{name_eq, name_beq_iff}
use ares_energy_demo.Lineage.Node.{NodeRef, DagNode}
use ares_energy_demo.Lineage.Store.{InMemoryStore, refs_of, cons_some, resolve, delete_all}

abbrev pub Nodes : Type 0
Nodes = List (NodeRef × DagNode)

-- The reference is that of a stored node of the session.
abbrev pub Held : Nodes → Bytes → NodeRef → Type 0
Held m session r = (n : DagNode) × (lookup r m ≡ some n) × (n.session_id ≡ session)

-- Every reference that is listed for a session is held for it.
abbrev pub Indexed : InMemoryStore → Type 0
Indexed s = (session : Bytes) → All (Held s.by_hash session) (refs_of s session)

pub All-map :
    {A : Type 0} {P Q : A → Type 0} (f : (a : A) → P a → Q a) (xs : List A) → All P xs → All Q xs
All-map f [] a = tt
All-map f (x ∷ xs) (p, a) = (f x p, All-map f xs a)

pub All-append :
    {A : Type 0} (P : A → Type 0) (xs : List A) (x : A) → All P xs → P x → All P (xs ++ (x ∷ []))
All-append P [] x a p = (p, tt)
All-append P (y ∷ ys) x (q, a) p = (q, All-append P ys x a p)

pub resolve-same :
    (m m' : Nodes) (rs : List NodeRef)
    → All (λ r. lookup r m' ≡ lookup r m) rs
    → resolve m' rs ≡ resolve m rs
resolve-same m m' [] a = refl
resolve-same m m' (r ∷ rs) (e, a) =
    ap (λ o. cons_some o (resolve m' rs)) e ∙ ap (cons_some (lookup r m)) (resolve-same m m' rs a)

pub resolve-append :
    (m : Nodes) (rs : List NodeRef) (h : NodeRef) (n : DagNode)
    → lookup h m ≡ some n
    → resolve m (rs ++ (h ∷ [])) ≡ resolve m rs ++ (n ∷ [])
resolve-append m [] h n e = ap (λ o. cons_some o []) e
resolve-append m (r ∷ rs) h n e = ground (arith, resolve-append m rs h n e)

-- A node under a free hash leaves what was held as it was.
pub insert-held :
    (h r : NodeRef) (n k : DagNode) (m : Nodes)
    → lookup h m ≡ none
    → lookup r m ≡ some k
    → lookup r (insert h n m) ≡ some k
insert-held h r n k m free e =
    ground (
      arith,
      e,
      free,
      lookup-insert h r n m,
      name_beq_iff h r,
      ap (λ z. lookup z m) {x = h} {y = r},
    )

pub insert-found : (h : NodeRef) (n : DagNode) (m : Nodes) → lookup h (insert h n m) ≡ some n
insert-found h n m = ground (arith, lookup-insert h h n m, name_beq_iff h h)

pub delete_all-keeps :
    (qs : List NodeRef) (r : NodeRef) (m : Nodes)
    → All (λ q. q ≢ r) qs
    → lookup r (delete_all qs m) ≡ lookup r m
delete_all-keeps [] r m a = refl
delete_all-keeps (q ∷ qs) r m (ne, a) =
    delete_all-keeps qs r (delete q m) a ∙ ground (arith, lookup-delete q r m, name_beq_iff q r, ne)
