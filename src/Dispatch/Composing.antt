-- ===== src/Dispatch/Composing.antt =====
-- ComposeWith of pkg/ares/phase/compose_with.go and its options (options.go).
use ares_energy_demo.Prelude.{
  Bool, true, false, not, ◌&&◌, ◌||◌, List, [], ◌∷◌, Option, none, some, if◌then◌else◌, lookup,
  insert, length,
}
use ares_energy_demo.Auction.State.{Bytes}
use ares_energy_demo.Runner.Types.{name_eq, Phase, Comparison, Result, ok, err, ComposeError}
use ares_energy_demo.Runner.Compose.{Built, compose}
use ares_energy_demo.Runner.Sessions.{is_idle}
use ares_energy_demo.Lineage.Verify.{Signer}
use ares_energy_demo.Lineage.Store.{InMemoryStore, new_in_memory_store}
use ares_energy_demo.Dispatch.Sessions.{Shared}
use ares_energy_demo.Dispatch.Messages.{LineageRunner}

-- The options of ComposeWith.
pub record RunnerOpts : Type 0 where
  pub store : Option InMemoryStore
  pub signer : Option Signer
  pub peer_verifiers : List (Bytes × Signer)
  pub failure_hook : Bool

pub data ComposeWithError : Type 0 where
  no_signer no_peer_verifiers : ComposeWithError
  not_composed : ComposeError → ComposeWithError

pub data ComposedWith (C V : Type 0) : Type 0 where
  composed : LineageRunner C V → ComposedWith C V
  not_built : ComposeWithError → ComposedWith C V

-- The signer's own verifier, where the peers have none for its algorithm.
abbrev pub with_own : List (Bytes × Signer) → Signer → Option Signer → List (Bytes × Signer)
with_own vs signer none = insert signer.algorithm_name signer vs
with_own vs signer (some _) = vs

abbrev pub store_or_new : Option InMemoryStore → InMemoryStore
store_or_new none = new_in_memory_store
store_or_new (some s) = s

abbrev pub no_verifiers : List (Bytes × Signer) → Bool
no_verifiers [] = true
no_verifiers (_ ∷ _) = false

module _ {C V : Type 0} where
  unfoldable pub needs_peers : List (Phase (Shared C) V) → Bool
  needs_peers [] = false
  needs_peers (p ∷ ps) = not (is_idle p.consumed) || needs_peers ps

  abbrev pub attach_lineage :
      List (Phase (Shared C) V)
      → RunnerOpts
      → Signer
      → Result (Built (Shared C) V)
      → ComposedWith C V
  attach_lineage ps o signer (err e) = not_built (not_composed e)
  attach_lineage ps o signer (ok b) = composed (record {
    built = b;
    phase_count = length ps;
    sessions = [];
    store = store_or_new o.store;
    signer = signer;
    verifiers = with_own o.peer_verifiers signer (lookup signer.algorithm_name o.peer_verifiers);
    has_hook = o.failure_hook;
    events = [];
  })

  abbrev pub compose_signed :
      Comparison V → List (Phase (Shared C) V) → RunnerOpts → Option Signer → ComposedWith C V
  compose_signed cmp ps o none = not_built no_signer
  compose_signed cmp ps o (some signer) =
      if needs_peers ps && no_verifiers o.peer_verifiers
      then not_built no_peer_verifiers
      else attach_lineage ps o signer (compose cmp ps)

  unfoldable pub compose_with :
      Comparison V → List (Phase (Shared C) V) → RunnerOpts → ComposedWith C V
  unfolding needs_peers compose
  compose_with cmp ps o = compose_signed cmp ps o o.signer
