-- ===== src/NameSet/Laws.antt =====
-- Membership after each operation on a set of names.
use play_apk_distributor.Prelude.{
  ◌≡◌, refl, false, ◌||◌, List, [], ◌∷◌, ◌++◌, arith, if◌then◌else◌, Bool-cases, inl, inr,
}
use play_apk_distributor.Text.{Text, text_eq}
use play_apk_distributor.Text.Laws.{text_eq_iff}
use play_apk_distributor.NameSet.{has, include, without, IsSetList}

pub has-include :
    (name other : Text) (set : List Text)
    → has other (include name set) ≡ (text_eq other name || has other set)
unfolding has include
has-include name other set = ground (arith, text_eq_iff other name)

pub has-without :
    (name other : Text) (set : List Text)
    → has other (without name set) ≡ (if text_eq other name then false else has other set)
unfolding has without
has-without name other [] = ground arith
has-without name other (x ∷ set) = ground (
  arith,
  has-without name other set,
  text_eq_iff name x,
  text_eq_iff other x,
  text_eq_iff other name,
)

pub has-append :
    (name : Text) (xs ys : List Text) → has name (xs ++ ys) ≡ (has name xs || has name ys)
unfolding has
has-append name [] ys = refl
has-append name (x ∷ xs) ys = ground (arith, has-append name xs ys)

pub without-has_not :
    (name : Text) (set : List Text) → has name set ≡ false → without name set ≡ set
unfolding has without
without-has_not name [] h = refl
without-has_not name (x ∷ set) h = ground (arith, without-has_not name set)

pub include-IsSetList :
    (name : Text) (set : List Text) → IsSetList set → IsSetList (include name set)
unfolding include
include-IsSetList name set h = elim (Bool-cases (has name set)) [
  | inl old ↦ rw old h
  | inr new ↦ rw new (new, h)
]

pub without-IsSetList :
    (name : Text) (set : List Text) → IsSetList set → IsSetList (without name set)
unfolding without
without-IsSetList name [] h = h
without-IsSetList name (x ∷ set) (fresh, h) = elim (Bool-cases (text_eq name x)) [
  | inl same ↦ rw same (without-IsSetList name set h)
  | inr other ↦
      rw other
        (ground (arith, has-without name x set, text_eq_iff x name), without-IsSetList name set h)
]
