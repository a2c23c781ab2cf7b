-- ===== src/Loader/Resolve/Cycles.antt =====
-- crates/runtime-loader/src/resolve.rs: `detect_cycles`, its depth-first search, and `resolve_graph`.
pub mod Rotate
pub mod Promise
pub mod Visits
pub mod Detect
use Prim.Native.Nat.Ordering.{lt, eq, gt}
use kernis.Base.{
  ℕ, zero, suc, Bool, true, false, Option, none, some, List, [], ◌∷◌, ◌++◌, if◌then◌else◌, leb,
  length, drop, take, pop, Outcome, ok, err, fault, panic, out_of_fuel, ◌>>=◌, ◌>>◌, Ord,
}
use kernis.BTree.Map
use kernis.BTree.Map.{Map}
use kernis.BTree.Set
use kernis.Loader.Reference.{ModuleReference, reference_ord}
use kernis.Loader.Error.{LoaderError, dependency_cycle, missing_reference}
use kernis.Loader.Catalog.{CatalogEntry, ModuleCatalog, get}
use kernis.Loader.Resolve.{Discoveries, Round, sorted_dependencies, closure}

abbrev pub Fallible {ℓ} : Type ℓ → Type ℓ
Fallible = Outcome LoaderError

module _ {ℓ} {K : Type ℓ} ⦃o : Ord K⦄ where
  -- `enumerate().min_by_key(..)` of a list that is not empty: the first least element, with its index.
  unfoldable pub least : K → List K → ℕ × K
  least x [] = (0, x)
  least x (y ∷ ys) = let m = least y ys in elim (o.cmp m.1 x) [ lt ↦ (suc m.0, m.1) | _ ↦ (0, x) ]

abbrev pub rotate_left {ℓ} : {A : Type ℓ} → ℕ → List A → List A
rotate_left n xs = drop n xs ++ take n xs

unfoldable pub rotate_to_smallest : List ModuleReference → Fallible (List ModuleReference)
unfolding least
rotate_to_smallest [] = fault panic
rotate_to_smallest (x ∷ xs) = ok (rotate_left (least x xs).0 (x ∷ xs))

-- `cycle.push(cycle[0].clone())`
unfoldable pub close_cycle : List ModuleReference → Fallible (List ModuleReference)
close_cycle [] = fault panic
close_cycle (x ∷ xs) = ok (x ∷ xs ++ x ∷ [])

-- What `visit` changes.
pub record Search : Type 0 where
  pub completed : List ModuleReference
  pub path : List ModuleReference
  pub on_path : Map ModuleReference ℕ

-- The reference stands on the path at `position`.
unfoldable pub report : ℕ → List ModuleReference → Fallible Search
unfolding rotate_to_smallest close_cycle
report position path =
    if leb position (length path)
    then (rotate_to_smallest (drop position path) >>= λ cycle.
        close_cycle cycle >>= λ closed. err (dependency_cycle closed))
    else fault panic

-- What `visit` does before its loop, and behind it.
unfoldable pub enter : ModuleReference → Search → Search
enter r s = record s { on_path = Map.insert s.on_path r (length s.path); path = s.path ++ r ∷ [] }

unfoldable pub leave : ModuleReference → Search → Search
leave r s = record {
  completed = Set.insert s.completed r;
  path = pop s.path;
  on_path = Map.remove s.on_path r;
}

module _ {R : Type 0} (catalog : ModuleCatalog R) where
  module _ (resolved : Discoveries) where
    -- The loop of `visit` over the dependencies; `visit'` is the recursive call.
    unfoldable pub visit_dependencies :
        (ModuleReference → Search → Fallible Search)
        → List ModuleReference
        → Search
        → Fallible Search
    visit_dependencies visit' [] s = ok s
    visit_dependencies visit' (d ∷ ds) s =
        (if Map.contains_key resolved d then visit' d s else ok s) >>= visit_dependencies visit' ds

    -- The fuel bounds the depth of the recursion.
    unfoldable pub visit : ℕ → ModuleReference → Search → Fallible Search
    unfolding visit_dependencies report enter leave
    visit zero r s = fault out_of_fuel
    visit (suc fuel) r s = elim (Set.contains s.completed r) [
      | true ↦ ok s
      | false ↦ elim (Map.get s.on_path r) [
        | some position ↦ report position s.path
        | none ↦ elim (get catalog r) [
          | none ↦ fault panic
          | some entry ↦
              visit_dependencies (visit fuel) (sorted_dependencies entry) (enter r s) >>= λ s'.
              ok (leave r s')
        ]
      ]
    ]

    -- The loop of `detect_cycles` over the roots.
    unfoldable pub visit_roots : ℕ → List ModuleReference → Search → Fallible Search
    unfolding visit
    visit_roots fuel [] s = ok s
    visit_roots fuel (r ∷ rs) s =
        elim (Set.contains s.completed r) [ true ↦ ok s | false ↦ visit fuel r s ]
        >>= visit_roots fuel rs

    -- A call puts a reference on the path that was not on it, so the calls nest at most one deeper
    -- than there are resolved references.
    unfoldable pub detect_cycles : List ModuleReference → Fallible Search
    unfolding visit_roots
    detect_cycles roots =
        visit_roots (suc (length (Map.keys resolved))) roots
          (record { completed = []; path = []; on_path = [] })

  -- What `resolve_graph` does behind its first phase.
  unfoldable pub check_closure : List ModuleReference → Round → Fallible Discoveries
  unfolding detect_cycles
  check_closure roots r = elim r.missing [
    | [] ↦ detect_cycles r.resolved roots >>= λ _. ok r.resolved
    | (requested, discovery) ∷ _ ↦
        err (missing_reference requested discovery.required_by discovery.path)
  ]

  -- `RuntimeLoader::resolve_graph`
  unfoldable pub resolve_graph : List ModuleReference → Fallible Discoveries
  unfolding closure check_closure
  resolve_graph roots = closure catalog roots >>= check_closure roots
