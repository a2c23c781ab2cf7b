-- ===== src/Loader/Resolve.antt =====
-- crates/runtime-loader/src/resolve.rs: `RuntimeLoader::resolve`.
pub mod Spec
pub mod Rounds
pub mod Closure
pub mod Cycles
pub mod Graph
pub mod Roots
pub mod Construct
pub mod Phases
use kernis.Base.{
  ℕ, zero, suc, Bool, true, false, Option, none, some, List, [], ◌∷◌, ◌++◌, map, if◌then◌else◌,
  length, drop, take, pop, Outcome, ok, err, fault, panic, out_of_fuel, ◌>>=◌, Ord, ◌==◌,
}
use Prim.Native.Nat.Ordering.{lt, eq, gt}
use kernis.Core.{TextId, id_ord}
use kernis.BTree.Map
use kernis.BTree.Map.{Map}
use kernis.BTree.Set
use kernis.Loader.Reference.{ModuleReference, reference_ord}
use kernis.Loader.Error.{
  LoaderError, duplicate_root_reference, missing_reference, dependency_cycle, incompatible_entry,
  registration_construction_failed, produced_identity_mismatch, declared_dependencies_disagree,
}
use kernis.Loader.Catalog.{Registration, CatalogEntry, ModuleCatalog, get}

module _ {ℓ} {K : Type ℓ} ⦃o : Ord K⦄ where
  unfoldable insert_sorted : K → List K → List K
  insert_sorted a [] = a ∷ []
  insert_sorted a (x ∷ xs) =
      let rest = insert_sorted a xs in elim (o.cmp a x) [ gt ↦ x ∷ rest | _ ↦ a ∷ x ∷ xs ]

  -- `sort`; elements that compare as equal are the same.
  unfoldable pub sort : List K → List K
  unfolding insert_sorted
  sort [] = []
  sort (x ∷ xs) = insert_sorted x (sort xs)

  -- `collect` into a `BTreeSet`
  unfoldable pub set_of : List K → List K
  set_of [] = []
  set_of (x ∷ xs) = Set.insert (set_of xs) x

  -- `sorted.windows(2).find(|pair| pair[0] == pair[1])`
  unfoldable pub find_duplicate : List K → Option K
  find_duplicate [] = none
  find_duplicate (x ∷ []) = none
  find_duplicate (x ∷ y ∷ xs) =
      let rest = find_duplicate (y ∷ xs) in if x == y then some x else rest

module _ {ℓ κ} {K : Type ℓ} {V : Type κ} ⦃o : Ord K⦄ where
  -- `map.entry(k).or_insert(v)`
  unfoldable pub entry_or_insert : Map K V → K → V → Map K V
  entry_or_insert m k v = if Map.contains_key m k then m else Map.insert m k v

pub record Discovered : Type 0 where
  pub required_by : Option ModuleReference
  pub path : List ModuleReference

abbrev pub Discoveries : Type 0
Discoveries = Map ModuleReference Discovered

unfoldable pub collect_roots : List ModuleReference → Outcome LoaderError (List ModuleReference)
unfolding sort find_duplicate set_of
collect_roots roots = elim (find_duplicate (sort roots)) [
  | some duplicate ↦ err (duplicate_root_reference duplicate)
  | none ↦ ok (set_of (sort roots))
]

-- The first frontier.
unfoldable pub root_frontier : List ModuleReference → Discoveries
root_frontier [] = []
root_frontier (r ∷ rs) =
    Map.insert (root_frontier rs) r (record { required_by = none; path = r ∷ [] })

-- The loop over the dependencies of a reference that was just resolved.
unfoldable pub discover :
    ModuleReference → Discovered → Discoveries → List ModuleReference → Discoveries → Discoveries
unfolding entry_or_insert
discover reference discovery resolved [] next = next
discover reference discovery resolved (d ∷ ds) next =
    let with_it =
      entry_or_insert next d
        (record { required_by = some reference; path = discovery.path ++ d ∷ [] }) in
    discover reference discovery resolved ds (if Map.contains_key resolved d then next else with_it)

-- What a round changes.
pub record Round : Type 0 where
  pub resolved : Discoveries
  pub missing : Discoveries
  pub next : Discoveries

module _ {R : Type 0} where
  unfoldable pub sorted_dependencies : CatalogEntry R → List ModuleReference
  unfolding sort
  sorted_dependencies entry = sort entry.dependencies

module _ {R : Type 0} (catalog : ModuleCatalog R) where
  -- One reference of the frontier.
  unfoldable pub explore : ModuleReference → Discovered → Round → Round
  unfolding entry_or_insert discover sorted_dependencies
  explore reference discovery r =
      if Map.contains_key r.resolved reference then r else elim (get catalog reference) [
        | none ↦ record r { missing = entry_or_insert r.missing reference discovery }
        | some entry ↦
            let resolved = Map.insert r.resolved reference discovery in
            record r {
              resolved = resolved;
              next = discover reference discovery resolved (sorted_dependencies entry) r.next;
            }
      ]

  -- One round: the loop over the frontier.
  unfoldable pub explore_all : Discoveries → Round → Round
  unfolding explore
  explore_all [] r = r
  explore_all ((reference, discovery) ∷ frontier) r =
      explore_all frontier (explore reference discovery r)

  -- `while !frontier.is_empty()`, with the frontier in `next`.
  unfoldable pub close : ℕ → Round → Outcome LoaderError Round
  unfolding explore_all
  close zero r = elim r.next [ [] ↦ ok r | _ ∷ _ ↦ fault out_of_fuel ]
  close (suc fuel) r = elim r.next [
    | [] ↦ ok r
    | e ∷ rest ↦ close fuel (explore_all (e ∷ rest) (record r { next = [] }))
  ]

  -- Phase 1. Each round with a successor resolves an entry, so one more round than there are entries
  -- is enough.
  unfoldable pub closure : List ModuleReference → Outcome LoaderError Round
  unfolding root_frontier close
  closure roots =
      close (suc (length (Map.keys catalog.entries)))
        (record { resolved = []; missing = []; next = root_frontier roots })
