-- ===== src/Loader/Text/RoundTrip.antt =====
-- The text of a reference determines it, and the other way round.
use kernis.Base.{
  ℕ, ◌≡◌, refl, subst, sym, ◌↔◌, false, none, some, List, [], ◌∷◌, ◌++◌, arith, Option-cases, inl,
  inr, Outcome, ok, err, fault, >>=-eq-ok,
}
use kernis.Core.{TextId, InvalidId, is_blank}
use kernis.Core
use kernis.Loader.Reference.{ModuleVersion, ModuleReference}
use kernis.Loader.Error.{LoaderError}
use kernis.Loader.Text.{
  delimiter, contains_delimiter, new_version, new_id, new, serialize, rsplit_once, refuse,
  deserialize,
}

rsplit_once-none : (v : List ℕ) → contains_delimiter v ≡ false → rsplit_once v ≡ none
unfolding contains_delimiter rsplit_once
rsplit_once-none [] h = refl
rsplit_once-none (c ∷ s) h = ground (arith, rsplit_once-none s)

rsplit_once-append :
    (a v : List ℕ) → contains_delimiter v ≡ false → rsplit_once (a ++ delimiter ∷ v) ≡ some (a, v)
unfolding rsplit_once
rsplit_once-append [] v h = ground (arith, rsplit_once-none v h)
rsplit_once-append (c ∷ a) v h = ground (arith, rsplit_once-append a v h)

rsplit_once-eq-some : (s a v : List ℕ) → rsplit_once s ≡ some (a, v) → s ≡ a ++ delimiter ∷ v
unfolding rsplit_once
rsplit_once-eq-some [] a v h = cc
rsplit_once-eq-some (c ∷ s) a v h = elim (Option-cases (rsplit_once s)) [
  | inl e ↦ ground arith
  | inr ((b, w), e) ↦ ground (arith, rsplit_once-eq-some s b w e)
]

new_id-eq-ok : (value : List ℕ) (id : TextId) → new_id value ≡ ok id → value ≡ id.value
unfolding new_id Core.new
new_id-eq-ok value id h = ground arith

new_version-eq-ok :
    (value : List ℕ) (v : ModuleVersion)
    → new_version value ≡ ok v
    → (value ≡ v.value) × (contains_delimiter value ≡ false)
unfolding new_version
new_version-eq-ok value v h = ground arith

-- A reference has the parts that it was made of, and no delimiter in its version.
new-eq-ok :
    (id version : List ℕ) (r : ModuleReference)
    → new id version ≡ ok r
    → (id ≡ r.id.value) × (version ≡ r.version.value) × (contains_delimiter version ≡ false)
unfolding new
new-eq-ok id version r h =
    let (i, e, h') = >>=-eq-ok (new_id id) _ h in
    let (v, f, k) = >>=-eq-ok (new_version version) _ h' in
    let a = new_id-eq-ok id i e in let b = new_version-eq-ok version v f in ground arith

refuse-eq-ok : {A : Type 0} (m : Outcome LoaderError A) (a : A) → refuse m ≡ ok a → m ≡ ok a
unfolding refuse
refuse-eq-ok (ok x) a h = ground arith
refuse-eq-ok (err e) a h = cc
refuse-eq-ok (fault x) a h = cc

deserialize-serialize :
    (id version : List ℕ) (r : ModuleReference)
    → new id version ≡ ok r
    → deserialize (serialize r) ≡ ok r
unfolding deserialize serialize
deserialize-serialize id version r h =
    let (a, b, c) = new-eq-ok id version r h in
    let e : rsplit_once (serialize r) ≡ some (id, version) =
      rw (sym a, sym b) (rsplit_once-append id version c) in
    rw (e, deserialize) (rw (h, refuse) refl)

serialize-deserialize : (s : List ℕ) (r : ModuleReference) → deserialize s ≡ ok r → serialize r ≡ s
unfolding deserialize serialize
serialize-deserialize s r h = elim (Option-cases (rsplit_once s)) [
  | inl e ↦ ground arith
  | inr ((id, version), e) ↦
      let k : refuse (new id version) ≡ ok r = ground arith in
      let (a, b, c) = new-eq-ok id version r (refuse-eq-ok (new id version) r k) in
      rw (sym a, sym b) (sym (rsplit_once-eq-some s id version e))
]

-- A reference that `new` makes is what is read from its own text and from no other text.
pub deserialize_iff :
    (id version : List ℕ) (r : ModuleReference)
    → new id version ≡ ok r
    → (s : List ℕ) → (deserialize s ≡ ok r) ↔ (s ≡ serialize r)
deserialize_iff id version r h s = (
  λ e. sym (serialize-deserialize s r e),
  λ e. subst (λ t. deserialize t ≡ ok r) (sym e) (deserialize-serialize id version r h),
)
