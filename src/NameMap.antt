-- ===== src/NameMap.antt =====
-- Go's maps with string keys, as association lists in the order in which a `range` would find the
-- keys. An assignment to a new key puts it last.
pub mod Laws
use play_apk_distributor.Prelude.{
  Bool, true, false, List, [], ◌∷◌, Option, none, some, map, if◌then◌else◌,
}
use play_apk_distributor.Text.{Text, text_eq}
use play_apk_distributor.NameSet.{has, IsSetList}

module _ {ℓ} {V : Type ℓ} where
  -- v, ok := m[key]
  unfoldable pub lookup : Text → List (Text × V) → Option V
  lookup key [] = none
  lookup key ((k, v) ∷ m) = if text_eq key k then some v else lookup key m

  -- m[key] = v
  unfoldable pub insert : Text → V → List (Text × V) → List (Text × V)
  insert key v [] = (key, v) ∷ []
  insert key v ((k, w) ∷ m) = if text_eq key k then (k, v) ∷ m else (k, w) ∷ insert key v m

  -- delete(m, key)
  unfoldable pub delete : Text → List (Text × V) → List (Text × V)
  delete key [] = []
  delete key ((k, w) ∷ m) = let rest = delete key m in if text_eq key k then rest else (k, w) ∷ rest

  abbrev pub keys : List (Text × V) → List Text
  keys [] = []
  keys ((k, v) ∷ m) = k ∷ keys m

  -- no key twice
  abbrev pub IsMap : List (Text × V) → Type 0
  IsMap m = IsSetList (keys m)
