-- ===== src/Loader/Resolve/Cycles/Visits.antt =====
-- The search of `detect_cycles` keeps its promise.
use mathlib.Core.WellFounded.{Acc}
use kernis.Base.{
  ℕ, zero, suc, ◌≡◌, ◌≤◌, refl, ap, subst, sym, ◌∙◌, true, none, some, List, [], ◌∷◌, ◌++◌, arith,
  is_some, ==_iff, ◌==◌, Bool-cases, Option-cases, inl, inr, length, drop, pop-snoc, if◌then◌else◌,
  ok, err, fault, ◌>>=◌,
}
use kernis.BTree.Map
use kernis.BTree.Map.{Map}
use kernis.BTree.Set
use kernis.BTree.Keys.{contains-keys}
use kernis.Dfs.Path.{IsChain, IsChain-snoc, Grounded}
use kernis.Dfs.Marks.{unmarked-insert-lt}
use kernis.Loader.Reference.{ModuleReference, reference_ord}
use kernis.Loader.Catalog.{CatalogEntry, ModuleCatalog, get}
use kernis.Loader.Resolve.{Discoveries, sorted_dependencies}
use kernis.Loader.Resolve.Spec.{Needs, declared, contains-sort}
use kernis.Loader.Resolve.Cycles.{Fallible, Search, enter, leave, visit_dependencies, visit}
use kernis.Loader.Resolve.Cycles.Rotate.{Reports, report-Reports}
use kernis.Loader.Resolve.Cycles.Promise.{
  Follows, Inv, Leaves, Ensures, Leaves-refl, Ensures-nil, Ensures-bind, HasRoom, HasRoom-Leaves,
  VisitEnsures,
}

module _ {A : Type 0} where
  drop-append : (n : ℕ) (xs ys : List A) → n ≤ length xs → drop n (xs ++ ys) ≡ drop n xs ++ ys
  drop-append zero xs ys h = refl
  drop-append (suc n) [] ys h = absurd (omega arith)
  drop-append (suc n) (x ∷ xs) ys h = drop-append n xs ys (omega arith)

  drop-length : (xs ys : List A) → drop (length xs) (xs ++ ys) ≡ ys
  drop-length [] ys = refl
  drop-length (x ∷ xs) ys = drop-length xs ys

  length-snoc : (xs : List A) (a : A) → length (xs ++ a ∷ []) ≡ suc (length xs)
  length-snoc [] a = refl
  length-snoc (x ∷ xs) a = ap suc (length-snoc xs a)

module _ {R : Type 0} (catalog : ModuleCatalog R) (resolved : Discoveries) where
  -- The dependencies that the loop visits.
  abbrev kept : List ModuleReference → List ModuleReference
  kept [] = []
  kept (d ∷ ds) = if Map.contains_key resolved d then d ∷ kept ds else kept ds

  contains-kept :
      (ds : List ModuleReference) (d : ModuleReference)
      → Set.contains ds d ≡ true
      → Map.contains_key resolved d ≡ true
      → Set.contains (kept ds) d ≡ true
  unfolding Set.contains
  contains-kept [] d h k = cc
  contains-kept (x ∷ ds) d h k = ground (arith, contains-kept ds d, ==_iff x d)

  -- The loop over the dependencies of `r`, which is at the end of the path.
  loop-Ensures :
      (fuel : ℕ)
      → VisitEnsures catalog resolved fuel
      → (r : ModuleReference) (p ds : List ModuleReference)
      → ((d : ModuleReference) → Set.contains ds d ≡ true → Needs catalog r d)
      → IsChain (Follows catalog resolved) (p ++ r ∷ [])
      → (s : Search) → s.path ≡ p ++ r ∷ []
      → HasRoom catalog resolved fuel s
      → Inv catalog resolved s
      → Ensures catalog resolved
          (kept ds)
          s
          (visit_dependencies catalog resolved (visit catalog resolved fuel) ds s)
  unfolding visit_dependencies Set.contains
  loop-Ensures fuel recurse r p [] needs chain s path room inv = Ensures-nil catalog resolved s inv
  loop-Ensures fuel recurse r p (d ∷ ds) needs chain s path room inv =
      let rest =
        λ (s' : Search) (l : Leaves catalog resolved s s') (inv' : Inv catalog resolved s').
          loop-Ensures fuel recurse r p ds (λ e k. needs e (ground arith)) chain s'
            (l.same_path ∙ path) (HasRoom-Leaves catalog resolved fuel s s' room l) inv' in
      elim (Bool-cases (Map.contains_key resolved d)) [
        | inl there ↦
            rw (there, visit_dependencies)
              (Ensures-bind catalog resolved d (kept ds) s _ _
                (recurse d s there room inv (
                  subst (λ q. IsChain (Follows catalog resolved) (q ++ d ∷ [])) (sym path)
                    (IsChain-snoc (Follows catalog resolved) p r d chain
                      (needs d (ground (arith, ==_iff d d)), there))))
                rest inv)
        | inr away ↦ rw (away, visit_dependencies) (rest s (Leaves-refl catalog resolved s inv) inv)
      ]

  Inv-enter :
      (r : ModuleReference) (s : Search) → Inv catalog resolved s → Inv catalog resolved (enter r s)
  unfolding enter
  Inv-enter r s h = record {
    on_path = λ x n e. elim (Bool-cases (r == x)) [
      | inl same ↦
          let q : length s.path ≡ n =
            ground (arith, Map.get-insert s.on_path r (length s.path) x) in
          (
            omega (arith, length-snoc s.path r, q),
            [],
            subst (λ m. drop m (s.path ++ r ∷ []) ≡ x ∷ []) q
                (drop-length s.path (r ∷ []) ∙ ap (λ z. z ∷ []) ((==_iff r x).0 same)),
          )
      | inr other ↦
          let (room, rest, q) =
            h.on_path x n (ground (arith, Map.get-insert s.on_path r (length s.path) x)) in
          (
            omega (arith, length-snoc s.path r),
            rest ++ r ∷ [],
            drop-append n s.path (r ∷ []) room ∙ ap (λ l. l ++ r ∷ []) q,
          )
    ];
    grounded = h.grounded;
  }

  -- The reference is completed when all that it needs is.
  leave-Ensures :
      (r : ModuleReference) (s : Search)
      → Map.get s.on_path r ≡ none
      → (ds : List ModuleReference)
      → ((d : ModuleReference) → Follows catalog resolved r d → Set.contains ds d ≡ true)
      → (m : Fallible Search) → Ensures catalog resolved ds (enter r s) m
      → Ensures catalog resolved (r ∷ []) s (m >>= λ s'. ok (leave r s'))
  unfolding enter leave Set.contains
  leave-Ensures r s e ds all (ok s') h = (
    record {
      same_path = rw h.0.same_path (pop-snoc s.path r);
      same_on_path = λ x. ground (
        arith,
        Map.get-remove s'.on_path r x,
        h.0.same_on_path x,
        Map.get-insert s.on_path r (length s.path) x,
        ==_iff r x,
      );
      grows = λ x c. ground (arith, h.0.grows x, Set.contains-insert s'.completed r x);
      grounded = λ x c. elim (Bool-cases (r == x)) [
        | inl same ↦
            subst (Grounded (Follows catalog resolved)) ((==_iff r x).0 same)
              (Acc.intro r (λ d f. h.0.grounded d (h.1 d (all d f))))
        | inr other ↦ h.0.grounded x (ground (arith, Set.contains-insert s'.completed r x))
      ];
    },
    λ x c. ground (arith, Set.contains-insert s'.completed r x),
  )
  leave-Ensures r s e ds all (err x) h = h
  leave-Ensures r s e ds all (fault x) h = absurd h

  -- Every resolved reference has an entry.
  abbrev pub IsKnown : Type 0
  IsKnown =
      (r : ModuleReference) → Map.contains_key resolved r ≡ true → is_some (get catalog r) ≡ true

  HasRoom-enter :
      (fuel : ℕ) (r : ModuleReference) (s : Search)
      → Map.contains_key resolved r ≡ true
      → Map.get s.on_path r ≡ none
      → HasRoom catalog resolved (suc fuel) s
      → HasRoom catalog resolved fuel (enter r s)
  unfolding enter
  HasRoom-enter fuel r s c e room = omega (
    arith,
    unmarked-insert-lt s.on_path r (length s.path) (Map.keys resolved) e
        (contains-keys resolved r ∙ c),
  )

  -- A call for a reference that is neither completed nor on the path.
  body-Ensures :
      (fuel : ℕ)
      → VisitEnsures catalog resolved fuel
      → (r : ModuleReference) (s : Search) → Map.contains_key resolved r ≡ true
      → HasRoom catalog resolved (suc fuel) s
      → Inv catalog resolved s
      → IsChain (Follows catalog resolved) (s.path ++ r ∷ [])
      → Map.get s.on_path r ≡ none
      → (entry : CatalogEntry R) → get catalog r ≡ some entry
      → Ensures catalog resolved (r ∷ []) s (
          visit_dependencies catalog resolved
            (visit catalog resolved fuel)
            (sorted_dependencies entry)
            (enter r s)
          >>= λ s'. ok (leave r s'))
  unfolding enter sorted_dependencies
  body-Ensures fuel recurse r s c room inv chain e entry here =
      let own : (d : ModuleReference)
          → Set.contains (sorted_dependencies entry) d ≡ Set.contains (declared catalog r) d =
        λ d. ground (arith, contains-sort entry.dependencies d) in
      leave-Ensures r s e (kept (sorted_dependencies entry))
        (λ d f. contains-kept (sorted_dependencies entry) d (own d ∙ f.0) f.1) _
        (loop-Ensures fuel recurse r s.path (sorted_dependencies entry) (λ d k. sym (own d) ∙ k)
          chain (enter r s) refl (HasRoom-enter fuel r s c e room) (Inv-enter r s inv))

  Reports-Ensures :
      (rs : List ModuleReference) (s : Search) (m : Fallible Search)
      → Reports (Follows catalog resolved) m
      → Ensures catalog resolved rs s m
  Reports-Ensures rs s (ok s') h = absurd h
  Reports-Ensures rs s (err e) h = h
  Reports-Ensures rs s (fault x) h = absurd h

  visit_next-Ensures :
      (fuel : ℕ)
      → IsKnown
      → VisitEnsures catalog resolved fuel
      → VisitEnsures catalog resolved (suc fuel)
  unfolding visit Set.contains
  visit_next-Ensures fuel known recurse r s c room inv chain =
      elim (Bool-cases (Set.contains s.completed r)) [
        | inl old ↦
            rw (old, visit) (Leaves-refl catalog resolved s inv, λ x k. ground (arith, ==_iff r x))
        | inr new ↦ elim (Option-cases (Map.get s.on_path r)) [
          | inr (n, e) ↦
              rw (new, e, visit)
                (let (there, rest, q) = inv.on_path r n e in
                  Reports-Ensures (r ∷ []) s _
                    (report-Reports (Follows catalog resolved) n s.path r rest there q chain))
          | inl e ↦ elim (Option-cases (get catalog r)) [
            | inl away ↦ absurd (ground (arith, known r c))
            | inr (entry, here) ↦
                rw (new, e, here, visit)
                  (body-Ensures fuel recurse r s c room inv chain e entry here)
          ]
        ]
      ]

  pub visit-Ensures : IsKnown → (fuel : ℕ) → VisitEnsures catalog resolved fuel
  visit-Ensures known zero r s c room inv chain = absurd (omega arith)
  visit-Ensures known (suc fuel) r s c room inv chain =
      visit_next-Ensures fuel known (visit-Ensures known fuel) r s c room inv chain
