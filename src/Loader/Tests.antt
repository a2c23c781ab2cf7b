-- ===== src/Loader/Tests.antt =====
-- Runs of the loader's model on small inputs, and the theorems at them.
use kernis.Base.{
  ◌≡◌, refl, sym, ap, ◌∙◌, ◌↔◌, true, none, some, is_some, String, List, [], ◌∷◌, ok, err, Fault,
  fault, codes, arith, ◌==◌, Bool-cases, inl, inr,
}
use kernis.Core
use kernis.Core.{TextId, id, id_ord}
use kernis.BTree.Map
use kernis.BTree.Set
use kernis.Dfs.Path.{position}
use kernis.Loader.Reference.{ModuleReference, reference_ord}
use kernis.Loader.Error.{
  invalid_reference, reserved_version_delimiter, blank_version, dependency_cycle, missing_reference,
  duplicate_root_reference,
}
use kernis.Loader.Text.{new, contains_delimiter, serialize, deserialize, no_delimiter, refused}
use kernis.Loader.Text.RoundTrip.{deserialize_iff}
use kernis.Loader.Catalog.{
  Registration, ModuleCatalog, CatalogEntry, new_entry, depends_on, get, no_entries, register,
  RegisterEnsures, register-Ensures,
}
use kernis.Loader.Resolve.{Discoveries, set_of}
use kernis.Loader.Resolve.Cycles.{resolve_graph}
use kernis.Loader.Resolve.Graph.{ResolveEnsures, resolve_graph-Ensures}
use kernis.Loader.Resolve.Phases.{resolve, LoaderEnsures, resolve-LoaderEnsures}
use kernis.Loader.Resolve.Construct.{
  FactoriesReturn, ConstructEnsures, construct, construct-Ensures,
}

abbrev app : ModuleReference
app = record { id = id "org@app"; version = record { value = codes "1" } }

-- All that a run computes with.
runs : Unit {0}
unfolding new contains_delimiter serialize deserialize Core.new Core.is_blank Core.is_whitespace
runs = tt

new-app : new (codes "org@app") (codes "1") ≡ ok app
unfolding runs
new-app = refl

read-app : deserialize (codes "org@app@1") ≡ ok app
unfolding runs
read-app = refl

no_version : deserialize (codes "no-version") ≡ err no_delimiter
unfolding runs
no_version = refl

blank : deserialize (codes "app@") ≡ err (refused (invalid_reference [] blank_version))
unfolding runs
blank = refl

reserved :
    new (codes "app") (codes "v@1")
    ≡ err (invalid_reference (codes "v@1") reserved_version_delimiter)
unfolding runs
reserved = refl

deserialize_iff_example :
    (deserialize (codes "org@app@1") ≡ ok app) ↔ (codes "org@app@1" ≡ serialize app)
deserialize_iff_example =
    deserialize_iff (codes "org@app") (codes "1") app new-app (codes "org@app@1")

abbrev new_reference : String → ModuleReference
new_reference name = record { id = id name; version = record { value = codes "1" } }

-- A registration is an identifier with the identifiers that it depends on.
abbrev Module : Type 0
Module = TextId × List TextId

abbrev module_definition : Registration Module
module_definition = record { definition_id = λ m. m.0; definition_dependencies = λ m. m.1 }

abbrev entry : CatalogEntry Module
entry = new_entry app (λ _. ok (id "org@app", id "log" ∷ []))

abbrev log_entry : CatalogEntry Module
log_entry = new_entry (new_reference "log") (λ _. ok (id "log", []))

-- The application needs the log.
abbrev catalog : ModuleCatalog Module
catalog = record {
  entries = (new_reference "log", log_entry) ∷ (app, depends_on entry (new_reference "log")) ∷ [];
}

-- The log needs the application too.
abbrev circular : ModuleCatalog Module
circular = record {
  entries =
      (new_reference "log", depends_on log_entry app)
      ∷ (app, depends_on entry (new_reference "log"))
      ∷ [];
}

-- The log is not there.
abbrev partial : ModuleCatalog Module
partial = record { entries = (app, depends_on entry (new_reference "log")) ∷ [] }

abbrev found : Discoveries
found =
    (new_reference "log", record { required_by = some app; path = app ∷ new_reference "log" ∷ [] })
    ∷ (app, record { required_by = none; path = app ∷ [] })
    ∷ []

graph_runs : Unit {0}
unfolding resolve_graph construct depends_on get reference_ord id_ord Map.get Map.insert Map.remove
    Set.contains Set.insert position new_entry set_of
graph_runs = tt

found-catalog : resolve_graph catalog (app ∷ []) ≡ ok found
unfolding graph_runs
found-catalog = refl

circular-catalog :
    resolve_graph circular (app ∷ [])
    ≡ err (dependency_cycle (new_reference "log" ∷ app ∷ new_reference "log" ∷ []))
unfolding graph_runs
circular-catalog = refl

partial-catalog :
    resolve_graph partial (app ∷ [])
    ≡ err (missing_reference (new_reference "log") (some app) (app ∷ new_reference "log" ∷ []))
unfolding graph_runs
partial-catalog = refl

constructed :
    construct module_definition catalog found
    ≡ ok (
        record { reference = new_reference "log"; registration = (id "log", []) }
        ∷ record { reference = app; registration = (id "org@app", id "log" ∷ []) }
        ∷ [])
unfolding graph_runs
constructed = refl

resolve_graph-Ensures_example : ResolveEnsures catalog (app ∷ []) (resolve_graph catalog (app ∷ []))
resolve_graph-Ensures_example = resolve_graph-Ensures catalog (app ∷ [])

returns :
    (e w : CatalogEntry Module) (m : Module) (x : Fault)
    → w ≡ e
    → w.factory tt ≡ ok m
    → ¬ (e.factory tt ≡ fault x)
returns e w m x q p f = let z : ok m ≡ fault x = sym p ∙ ap (λ v. v.factory tt) q ∙ f in cc z

returning : FactoriesReturn module_definition catalog
unfolding get Map.get depends_on new_entry
returning r e x h = elim (Bool-cases (new_reference "log" == r)) [
  | inl a ↦ returns e log_entry (id "log", []) x (ground arith) refl
  | inr a ↦ elim (Bool-cases (app == r)) [
    | inl b ↦
        returns e (depends_on entry (new_reference "log")) (id "org@app", id "log" ∷ []) x
          (ground arith) refl
    | inr b ↦ λ f. absurd (ground arith)
  ]
]

found-known :
    (r : ModuleReference) → Map.contains_key found r ≡ true → is_some (get catalog r) ≡ true
unfolding get Map.get
found-known r h = ground arith

construct-Ensures_example :
    ConstructEnsures module_definition catalog
      (Map.keys found)
      (construct module_definition catalog found)
construct-Ensures_example = construct-Ensures module_definition catalog returning found found-known

register-Ensures_example : RegisterEnsures no_entries entry (register no_entries entry)
register-Ensures_example = register-Ensures no_entries entry

resolve-app :
    resolve module_definition catalog (app ∷ [])
    ≡ ok (
        record { reference = new_reference "log"; registration = (id "log", []) }
        ∷ record { reference = app; registration = (id "org@app", id "log" ∷ []) }
        ∷ [])
unfolding resolve graph_runs
resolve-app = refl

two_roots :
    resolve module_definition catalog (app ∷ new_reference "log" ∷ app ∷ [])
    ≡ err (duplicate_root_reference app)
unfolding resolve graph_runs
two_roots = refl

resolve-LoaderEnsures_example :
    LoaderEnsures module_definition catalog
      (app ∷ [])
      (resolve module_definition catalog (app ∷ []))
resolve-LoaderEnsures_example = resolve-LoaderEnsures module_definition catalog returning (app ∷ [])
