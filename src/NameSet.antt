-- ===== src/NameSet.antt =====
-- Go's `map[string]bool` used as a set of names: a list of its members in some order, the order in
-- which a `range` over the map would find them. `sort.Strings` is an insertion sort here.
pub mod Laws
pub mod Sorting
pub mod Quotient
use play_apk_distributor.Prelude.{
  ◌≡◌, Bool, true, false, not, ◌&&◌, ◌||◌, List, [], ◌∷◌, if◌then◌else◌,
}
use play_apk_distributor.Text.{Text, text_eq, text_lt}

-- set[name]
unfoldable pub has : Text → List Text → Bool
has name [] = false
has name (x ∷ set) = text_eq name x || has name set

-- set[name] = true
unfoldable pub include : Text → List Text → List Text
unfolding has
include name set = if has name set then set else name ∷ set

-- delete(set, name)
unfoldable pub without : Text → List Text → List Text
without name [] = []
without name (x ∷ set) = let rest = without name set in if text_eq name x then rest else x ∷ rest

insert_sorted : Text → List Text → List Text
insert_sorted x [] = x ∷ []
insert_sorted x (y ∷ ys) = if text_lt y x then y ∷ insert_sorted x ys else x ∷ y ∷ ys

-- sort.Strings
unfoldable pub sort_texts : List Text → List Text
unfolding insert_sorted
sort_texts [] = []
sort_texts (x ∷ xs) = insert_sorted x (sort_texts xs)

-- no key stands twice in a map
abbrev pub IsSetList : List Text → Type 0
IsSetList [] = Unit
IsSetList (x ∷ xs) = (has x xs ≡ false) × IsSetList xs

-- every name of the first list is in the second, and the other way round
abbrev pub SameNames : List Text → List Text → Type 0
SameNames xs ys = (name : Text) → has name xs ≡ has name ys
