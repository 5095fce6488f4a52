-- ===== src/NameSet/Quotient.antt =====
-- Sets of names without the order in which a map lists them.
use play_apk_distributor.Prelude.{◌≡◌, refl, Bool, false, ◌||◌, List, arith, if◌then◌else◌}
use mathlib.Core.Quot
use mathlib.Core.Quot.{Quot, Quot-set}
use play_apk_distributor.Text.{Text, text_eq}
use play_apk_distributor.NameSet.{has, include, without, SameNames}
use play_apk_distributor.NameSet.Laws.{has-include, has-without}

abbrev pub Names : Type 0
Names = Quot SameNames

abbrev pub names_of : List Text → Names
names_of xs = Quot.mk xs

pub member : Text → Names → Bool
member name = Quot.lift (hlevel) (has name) (λ xs ys h. h name)

include_same :
    (name : Text) (xs ys : List Text)
    → SameNames xs ys
    → SameNames (include name xs) (include name ys)
include_same name xs ys h other =
    ground (arith, has-include name other xs, has-include name other ys, h other)

without_same :
    (name : Text) (xs ys : List Text)
    → SameNames xs ys
    → SameNames (without name xs) (without name ys)
without_same name xs ys h other =
    ground (arith, has-without name other xs, has-without name other ys, h other)

pub with_name : Text → Names → Names
with_name name =
    Quot.lift Quot-set (λ xs. Quot.mk (include name xs))
      (λ xs ys h. Quot.sound (include_same name xs ys h))

pub without_name : Text → Names → Names
without_name name =
    Quot.lift Quot-set (λ xs. Quot.mk (without name xs))
      (λ xs ys h. Quot.sound (without_same name xs ys h))

-- sets with the same members are equal
pub names-ext : (s t : Names) → ((name : Text) → member name s ≡ member name t) → s ≡ t
unfolding member
names-ext =
    Quot.ind (λ s. hlevel (Quot-set))
      (λ xs. Quot.ind (λ t. hlevel (Quot-set)) (λ ys h. Quot.sound h))

pub member-with_name :
    (name other : Text) (s : Names)
    → member other (with_name name s) ≡ (text_eq other name || member other s)
unfolding member with_name
member-with_name name other = Quot.ind (λ s. hlevel) (λ xs. has-include name other xs)

pub member-without_name :
    (name other : Text) (s : Names)
    → member other (without_name name s) ≡ (if text_eq other name then false else member other s)
unfolding member without_name
member-without_name name other = Quot.ind (λ s. hlevel) (λ xs. has-without name other xs)

-- what is read of a list of names and of its set
pub member-names_of : (name : Text) (xs : List Text) → member name (names_of xs) ≡ has name xs
unfolding member
member-names_of name xs = refl

pub with_name-names_of :
    (name : Text) (xs : List Text) → with_name name (names_of xs) ≡ names_of (include name xs)
unfolding with_name
with_name-names_of name xs = refl

pub without_name-names_of :
    (name : Text) (xs : List Text) → without_name name (names_of xs) ≡ names_of (without name xs)
unfolding without_name
without_name-names_of name xs = refl
