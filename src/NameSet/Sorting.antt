-- ===== src/NameSet/Sorting.antt =====
-- A sorted list of names is determined by the set: the order of a map's `range` cannot be seen in it.
use play_apk_distributor.Prelude.{
  ◌≡◌, refl, sym, ◌∙◌, true, false, ◌||◌, List, [], ◌∷◌, arith, Bool-cases, inl, inr,
}
use play_apk_distributor.Text.{Text, text_eq, text_lt}
use play_apk_distributor.Text.Laws.{text_eq_iff, text_eq_refl}
use play_apk_distributor.Text.Order.{text_lt_irrefl, text_lt_trans, text_lt_total}
use play_apk_distributor.NameSet.{has, insert_sorted, sort_texts, IsSetList, SameNames}

-- strictly ascending, so without repetition
abbrev pub IsAscending : List Text → Type 0
IsAscending [] = Unit
IsAscending (x ∷ xs) = ((y : Text) → has y xs ≡ true → text_lt x y ≡ true) × IsAscending xs

has-insert_sorted :
    (name x : Text) (ys : List Text)
    → has name (insert_sorted x ys) ≡ (text_eq name x || has name ys)
unfolding has insert_sorted
has-insert_sorted name x [] = refl
has-insert_sorted name x (y ∷ ys) = ground (arith, has-insert_sorted name x ys)

-- sorting keeps exactly the names of the set
pub has-sort_texts : (name : Text) (xs : List Text) → has name (sort_texts xs) ≡ has name xs
unfolding has sort_texts
has-sort_texts name [] = refl
has-sort_texts name (x ∷ xs) = rw has-insert_sorted (rw (has-sort_texts name xs))

insert_sorted-IsAscending :
    (x : Text) (ys : List Text)
    → has x ys ≡ false
    → IsAscending ys
    → IsAscending (insert_sorted x ys)
unfolding has insert_sorted
insert_sorted-IsAscending x [] fresh h = (λ y m. cc, tt)
insert_sorted-IsAscending x (y ∷ ys) fresh (low, h) = elim (Bool-cases (text_lt y x)) [
  | inl below ↦ rw below (
    λ z m. ground (arith, has-insert_sorted z x ys, text_eq_iff z x, low z),
    insert_sorted-IsAscending x ys (ground arith) h,
  )
  | inr above ↦ rw above (
    λ z m.
        ground
          (arith, text_eq_iff z y, text_eq_iff x y, text_lt_total x y, low z, text_lt_trans x y z),
    (low, h),
  )
]

pub sort_texts-IsAscending : (xs : List Text) → IsSetList xs → IsAscending (sort_texts xs)
unfolding sort_texts
sort_texts-IsAscending [] h = tt
sort_texts-IsAscending (x ∷ xs) (fresh, h) =
    insert_sorted-IsAscending x (sort_texts xs) (has-sort_texts x xs ∙ fresh)
      (sort_texts-IsAscending xs h)

heads_equal :
    (x y : Text) (xs ys : List Text)
    → IsAscending (x ∷ xs)
    → IsAscending (y ∷ ys)
    → SameNames (x ∷ xs) (y ∷ ys)
    → x ≡ y
unfolding has
heads_equal x y xs ys (lx, _) (ly, _) same = ground (
  arith,
  text_eq_refl x,
  text_eq_refl y,
  text_eq_iff x y,
  text_eq_iff y x,
  same x,
  same y,
  lx y,
  ly x,
  text_lt_trans x y x,
  text_lt_irrefl x,
)

tails_same :
    (x y : Text) (xs ys : List Text)
    → IsAscending (x ∷ xs)
    → IsAscending (y ∷ ys)
    → SameNames (x ∷ xs) (y ∷ ys)
    → x ≡ y
    → SameNames xs ys
unfolding has
tails_same x y xs ys (lx, _) (ly, _) same e z = ground (
  arith,
  text_eq_iff z x,
  text_eq_iff z y,
  same z,
  lx z,
  ly z,
  text_lt_irrefl x,
  text_lt_irrefl y,
)

-- Two ascending lists with the same names are equal.
pub ascending_unique :
    (xs ys : List Text) → IsAscending xs → IsAscending ys → SameNames xs ys → xs ≡ ys
unfolding has
ascending_unique [] [] hx hy same = refl
ascending_unique [] (y ∷ ys) hx hy same = ground (arith, same y, text_eq_refl y)
ascending_unique (x ∷ xs) [] hx hy same = ground (arith, same x, text_eq_refl x)
ascending_unique (x ∷ xs) (y ∷ ys) hx hy same =
    let e = heads_equal x y xs ys hx hy same in
    cc (e, ascending_unique xs ys hx.1 hy.1 (tails_same x y xs ys hx hy same e))

pub sort_texts_same :
    (xs ys : List Text)
    → IsSetList xs
    → IsSetList ys
    → SameNames xs ys
    → sort_texts xs ≡ sort_texts ys
sort_texts_same xs ys hx hy same =
    ascending_unique (sort_texts xs) (sort_texts ys) (sort_texts-IsAscending xs hx)
      (sort_texts-IsAscending ys hy) (λ z. has-sort_texts z xs ∙ same z ∙ sym (has-sort_texts z ys))
