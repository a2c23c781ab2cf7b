-- ===== src/Loader/Text.antt =====
-- crates/runtime-loader/src/reference.rs: how references are made, printed and read.
pub mod RoundTrip
use kernis.Base.{
  ℕ, ◌≡◌, refl, ap, subst, sym, ◌∙◌, ◌↔◌, Bool, true, false, ◌||◌, Option, none, some, List, [],
  ◌∷◌, ◌++◌, arith, ◌=ℕ◌, Option-cases, Bool-cases, inl, inr, if◌then◌else◌, Outcome, ok, err,
  fault, ◌>>=◌, >>=-eq-ok,
}
use kernis.Core.{TextId, InvalidId, is_blank}
use kernis.Core
use kernis.Loader.Reference.{ModuleVersion, ModuleReference}
use kernis.Loader.Error.{
  LoaderError, invalid_reference, blank_module_id, blank_version, reserved_version_delimiter,
}

-- `'@'`
abbrev pub delimiter : ℕ
delimiter = 64

-- `value.contains('@')`
unfoldable pub contains_delimiter : List ℕ → Bool
contains_delimiter [] = false
contains_delimiter (c ∷ s) = c =ℕ delimiter || contains_delimiter s

-- `ModuleVersion::new`
unfoldable pub new_version : List ℕ → Outcome LoaderError ModuleVersion
new_version value =
    if is_blank value
    then err (invalid_reference value blank_version)
    else if contains_delimiter value
    then err (invalid_reference value reserved_version_delimiter)
    else ok (record { value = value })

-- `Id::new` with its error mapped.
unfoldable pub new_id : List ℕ → Outcome LoaderError TextId
new_id value = elim (Core.new value) [
  | ok id ↦ ok id
  | err e ↦ err (invalid_reference value blank_module_id)
  | fault x ↦ fault x
]

-- `ModuleReference::new`
unfoldable pub new : List ℕ → List ℕ → Outcome LoaderError ModuleReference
unfolding new_id new_version
new id version = do
  parsed_id ← new_id id
  parsed_version ← new_version version
  ok (record { id = parsed_id; version = parsed_version })

-- `Display` and `Serialize`: `write!(f, "{}@{}", self.id, self.version)`
unfoldable pub serialize : ModuleReference → List ℕ
serialize r = r.id.value ++ delimiter ∷ r.version.value

-- `str::rsplit_once('@')`
unfoldable pub rsplit_once : List ℕ → Option (List ℕ × List ℕ)
rsplit_once [] = none
rsplit_once (c ∷ s) =
    let last = rsplit_once s in
    elim last [
      | some (before, after) ↦ some (c ∷ before, after)
      | none ↦ if c =ℕ delimiter then some ([], s) else none
    ]

-- The errors of `deserialize`: a text with no delimiter, or parts that `new` refuses.
pub data TextError : Type 0 where
  no_delimiter : TextError
  refused : LoaderError → TextError

unfoldable pub refuse {ℓ} : {A : Type ℓ} → Outcome LoaderError A → Outcome TextError A
refuse (ok a) = ok a
refuse (err e) = err (refused e)
refuse (fault x) = fault x

-- `Deserialize`, of the text that the deserializer has.
unfoldable pub deserialize : List ℕ → Outcome TextError ModuleReference
unfolding rsplit_once refuse new
deserialize value = elim (rsplit_once value) [
  | none ↦ err no_delimiter
  | some (id, version) ↦ refuse (new id version)
]
