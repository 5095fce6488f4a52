-- ===== src/NameMap/Laws.antt =====
-- Lookup after an assignment, and the keys of a map.
use play_apk_distributor.Prelude.{
  ◌≡◌, refl, ◌||◌, List, [], ◌∷◌, none, some, arith, if◌then◌else◌, Bool-cases, inl, inr,
}
use play_apk_distributor.Text.{Text, text_eq, is_some}
use play_apk_distributor.Text.Laws.{text_eq_iff}
use play_apk_distributor.NameSet.{has}
use play_apk_distributor.NameMap.{lookup, insert, delete, keys, IsMap}

module _ {ℓ} {V : Type ℓ} where
  pub lookup-insert :
      (key other : Text) (v : V) (m : List (Text × V))
      → lookup other (insert key v m) ≡ (if text_eq other key then some v else lookup other m)
  unfolding lookup insert
  lookup-insert key other v [] = refl
  lookup-insert key other v ((k, w) ∷ m) = ground (
    arith,
    lookup-insert key other v m,
    text_eq_iff key k,
    text_eq_iff other k,
    text_eq_iff other key,
  )

  pub lookup-delete :
      (key other : Text) (m : List (Text × V))
      → lookup other (delete key m) ≡ (if text_eq other key then none else lookup other m)
  unfolding lookup delete
  lookup-delete key other [] = ground arith
  lookup-delete key other ((k, w) ∷ m) = ground (
    arith,
    lookup-delete key other m,
    text_eq_iff key k,
    text_eq_iff other k,
    text_eq_iff other key,
  )

  pub has-keys : (key : Text) (m : List (Text × V)) → has key (keys m) ≡ is_some (lookup key m)
  unfolding lookup has
  has-keys key [] = refl
  has-keys key ((k, v) ∷ m) = ground (arith, has-keys key m)

  pub has-keys-insert :
      (key other : Text) (v : V) (m : List (Text × V))
      → has other (keys (insert key v m)) ≡ (text_eq other key || has other (keys m))
  unfolding has insert
  has-keys-insert key other v [] = refl
  has-keys-insert key other v ((k, w) ∷ m) = ground (
    arith,
    has-keys-insert key other v m,
    text_eq_iff key k,
    text_eq_iff other k,
    text_eq_iff other key,
  )

  pub insert-IsMap : (key : Text) (v : V) (m : List (Text × V)) → IsMap m → IsMap (insert key v m)
  unfolding insert has
  insert-IsMap key v [] h = (refl, tt)
  insert-IsMap key v ((k, w) ∷ m) (fresh, h) = elim (Bool-cases (text_eq key k)) [
    | inl same ↦ rw same (fresh, h)
    | inr other ↦ rw other (
      ground (arith, has-keys-insert key k v m, text_eq_iff k key, text_eq_iff key k),
      insert-IsMap key v m h,
    )
  ]
