-- ===== src/Workflow/Graph/Link.antt =====
-- The map of dependencies after an edge was inserted, and after it was taken out again.
use kernis.Base.{
  ◌≡◌, ◌≢◌, refl, ap, ◌∙◌, false, ◌||◌, ◌&&◌, Option, none, some, List, [], arith, ==_iff, ◌==◌,
  if◌then◌else◌,
}
use kernis.Core.{TextId, id_ord}
use kernis.BTree.Map
use kernis.BTree.Map.{Map}
use kernis.BTree.Set
use kernis.Workflow.Graph.{entry_or_default, entry_set, link, unlink}

abbrev pub Links : Type 0
Links = Map TextId (List TextId)

pub get-link :
    (m : Links) (id d v : TextId)
    → Map.get (link m id d) v
      ≡ (if id == v then some (Set.insert (entry_set m id) d) else Map.get m v)
unfolding entry_set link
get-link m id d v = ground (
  arith,
  Map.get-update (entry_or_default m id) id (λ ds. Set.insert ds d) v,
  Map.get-insert m id [] v,
  ==_iff id v,
)

pub entry_set-link :
    (m : Links) (id d v : TextId)
    → entry_set (link m id d) v ≡ (if id == v then Set.insert (entry_set m id) d else entry_set m v)
unfolding entry_set
entry_set-link m id d v = ground (arith, get-link m id d v)

-- The edges are the old ones and the new one.
pub contains-link :
    (m : Links) (id d v e : TextId)
    → Set.contains (entry_set (link m id d) v) e
      ≡ (id == v && d == e || Set.contains (entry_set m v) e)
contains-link m id d v e =
    ground (arith, entry_set-link m id d v, Set.contains-insert (entry_set m id) d e, ==_iff id v)

-- No set in the map is empty.
abbrev pub HasNoEmpty : Links → Type 0
HasNoEmpty m = (v : TextId) → Map.get m v ≢ some []

pub link-HasNoEmpty : (m : Links) (id d : TextId) → HasNoEmpty m → HasNoEmpty (link m id d)
link-HasNoEmpty m id d h v e =
    ground (arith, h v, get-link m id d v, Set.insert-ne-nil (entry_set m id) d)

unlink-link_old :
    (m : Links) (id d : TextId) (ds : List TextId)
    → Map.get m id ≡ some ds
    → ds ≢ []
    → Set.contains ds d ≡ false
    → unlink (link m id d) id d ≡ m
unfolding link unlink
unlink-link_old m id d ds e ne c =
    let same : Map.update (Map.update m id (λ xs. Set.insert xs d)) id (λ xs. Set.remove xs d) ≡ m =
      Map.update-update m id (λ xs. Set.insert xs d) (λ xs. Set.remove xs d)
      ∙ Map.update_id m id (λ xs. Set.remove (Set.insert xs d) d) ds e (Set.remove-insert ds d c) in
    ground arith

unlink-link_new : (m : Links) (id d : TextId) → Map.get m id ≡ none → unlink (link m id d) id d ≡ m
unfolding link unlink
unlink-link_new m id d e =
    let same : Map.update (Map.update (Map.insert m id []) id (λ xs. Set.insert xs d)) id
          (λ xs. Set.remove xs d)
        ≡ Map.insert m id [] =
      Map.update-update (Map.insert m id []) id (λ xs. Set.insert xs d) (λ xs. Set.remove xs d)
      ∙ Map.update-insert m id [] (λ xs. Set.remove (Set.insert xs d) d) e
      ∙ ap (Map.insert m id) (Set.remove-insert [] d (unfold Set.contains in refl)) in
    ground (arith, Map.get-insert m id [] id, ==_iff id id, Map.remove-insert m id [])

-- An edge that was not there can be inserted and taken out again.
pub unlink-link :
    (m : Links) (id d : TextId)
    → HasNoEmpty m
    → Set.contains (entry_set m id) d ≡ false
    → unlink (link m id d) id d ≡ m
unfolding entry_set
unlink-link m id d h c = go (Map.get m id) refl
  where
    go : (o : Option (List TextId)) → Map.get m id ≡ o → unlink (link m id d) id d ≡ m
    go none e = unlink-link_new m id d e
    go (some ds) e = unlink-link_old m id d ds e (λ n. h id (e ∙ ap some n)) (ground arith)
