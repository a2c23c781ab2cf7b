-- ===== src/Loader/Resolve/Cycles/Promise.antt =====
-- What a call of `visit` promises.
use kernis.Base.{
  ℕ, ◌≡◌, ◌≤◌, ◌<◌, refl, subst, sym, ◌∙◌, true, some, List, [], ◌∷◌, ◌++◌, arith, length, drop, ok,
  err, fault, ◌>>=◌,
}
use kernis.BTree.Map
use kernis.BTree.Map.{Map}
use kernis.BTree.Set
use kernis.Dfs.Path.{IsChain, Grounded}
use kernis.Dfs.Marks.{unmarked, unmarked-le}
use kernis.Loader.Reference.{ModuleReference, reference_ord}
use kernis.Loader.Catalog.{ModuleCatalog}
use kernis.Loader.Resolve.{Discoveries}
use kernis.Loader.Resolve.Spec.{Needs}
use kernis.Loader.Resolve.Cycles.{Fallible, Search, visit}
use kernis.Loader.Resolve.Cycles.Rotate.{Reports}

module _ {R : Type 0} (catalog : ModuleCatalog R) (resolved : Discoveries) where
  -- A dependency that is resolved.
  abbrev pub Follows : ModuleReference → ModuleReference → Type 0
  Follows r d = Needs catalog r d × (Map.contains_key resolved d ≡ true)

  -- The position of a reference on the path.
  abbrev pub StandsAt : List ModuleReference → ModuleReference → ℕ → Type 0
  StandsAt path r n = (n ≤ length path) × (rest : List ModuleReference) × (drop n path ≡ r ∷ rest)

  pub record Inv (s : Search) : Type 0 where
    pub on_path : (r : ModuleReference) (n : ℕ) → Map.get s.on_path r ≡ some n → StandsAt s.path r n
    pub grounded : (r : ModuleReference) → Set.contains s.completed r ≡ true → Grounded Follows r

  pub record Leaves (s s' : Search) : Type 0 where
    pub same_path : s'.path ≡ s.path
    pub same_on_path : (r : ModuleReference) → Map.get s'.on_path r ≡ Map.get s.on_path r
    pub grows :
        (r : ModuleReference)
        → Set.contains s.completed r ≡ true
        → Set.contains s'.completed r ≡ true
    pub grounded : (r : ModuleReference) → Set.contains s'.completed r ≡ true → Grounded Follows r

  -- What a call promises for the references `rs`: they are completed, or a cycle is reported.
  abbrev pub Ensures : List ModuleReference → Search → Fallible Search → Type 0
  Ensures rs s (ok s') =
      Leaves s s'
      × ((r : ModuleReference) → Set.contains rs r ≡ true → Set.contains s'.completed r ≡ true)
  Ensures rs s (err e) = Reports Follows {A = Search} (err e)
  Ensures rs s (fault x) = ⊥

  pub Leaves-Inv : (s s' : Search) → Inv s → Leaves s s' → Inv s'
  Leaves-Inv s s' h l = record {
    on_path = λ r n e.
        subst (λ p. StandsAt p r n) (sym l.same_path) (h.on_path r n (sym (l.same_on_path r) ∙ e));
    grounded = l.grounded;
  }

  pub Leaves-refl : (s : Search) → Inv s → Leaves s s
  Leaves-refl s h = record {
    same_path = refl;
    same_on_path = λ r. refl;
    grows = λ r c. c;
    grounded = h.grounded;
  }

  Leaves-trans : (s s' s'' : Search) → Leaves s s' → Leaves s' s'' → Leaves s s''
  Leaves-trans s s' s'' h k = record {
    same_path = k.same_path ∙ h.same_path;
    same_on_path = λ r. k.same_on_path r ∙ h.same_on_path r;
    grows = λ r c. k.grows r (h.grows r c);
    grounded = k.grounded;
  }

  pub Ensures-nil : (s : Search) → Inv s → Ensures [] s (ok s)
  unfolding Set.contains
  Ensures-nil s h = (Leaves-refl s h, λ r c. cc)

  -- A call for `r`, and what is done behind it.
  pub Ensures-bind :
      (r : ModuleReference) (rs : List ModuleReference) (s : Search) (m : Fallible Search)
      (next : Search → Fallible Search)
      → Ensures (r ∷ []) s m
      → ((s' : Search) → Leaves s s' → Inv s' → Ensures rs s' (next s'))
      → Inv s
      → Ensures (r ∷ rs) s (m >>= next)
  unfolding Set.contains
  Ensures-bind r rs s (ok s') next h k inv =
      let l = h.0 in go (next s') (k s' l (Leaves-Inv s s' inv l))
    where
      go : (m : Fallible Search) → Ensures rs s' m → Ensures (r ∷ rs) s m
      go (ok s'') q =
          (Leaves-trans s s' s'' h.0 q.0, λ x c. ground (arith, q.1 x, q.0.grows x, h.1 x))
      go (err e) q = q
      go (fault x) q = q
  Ensures-bind r rs s (err e) next h k inv = h
  Ensures-bind r rs s (fault x) next h k inv = absurd h

  abbrev pub HasRoom : ℕ → Search → Type 0
  HasRoom fuel s = unmarked s.on_path (Map.keys resolved) < fuel

  pub HasRoom-Leaves : (fuel : ℕ) (s s' : Search) → HasRoom fuel s → Leaves s s' → HasRoom fuel s'
  HasRoom-Leaves fuel s s' room l =
      omega (arith, unmarked-le s.on_path s'.on_path (Map.keys resolved) (λ r e. l.same_on_path r))

  abbrev pub VisitEnsures : ℕ → Type 0
  VisitEnsures fuel =
      (r : ModuleReference) (s : Search)
      → Map.contains_key resolved r ≡ true
      → HasRoom fuel s
      → Inv s
      → IsChain Follows (s.path ++ r ∷ [])
      → Ensures (r ∷ []) s (visit catalog resolved fuel r s)
