-- ===== src/Space.antt =====
-- White space in Go strings: strings.TrimSpace and strings.Fields. White space is what
-- `unicode.IsSpace` accepts, read from its UTF-8 bytes.
pub mod Laws
use mathlib.Core.List.{reverse}
use play_apk_distributor.Prelude.{
  ℕ, Bool, true, false, ◌&&◌, ◌||◌, List, [], ◌∷◌, Option, none, some, leb, ◌==◌, if◌then◌else◌,
}
use play_apk_distributor.Text.{Text}

-- \t \n \v \f \r and the blank
abbrev pub is_ascii_space : ℕ → Bool
is_ascii_space c = (leb 9 c && leb c 13) || c == 32

-- U+0085 and U+00A0
abbrev is_space2 : ℕ → ℕ → Bool
is_space2 a b = a == 0xc2 && (b == 0x85 || b == 0xa0)

-- U+1680, U+2000 to U+200A, U+2028, U+2029, U+202F, U+205F and U+3000
abbrev is_space3 : ℕ → ℕ → ℕ → Bool
is_space3 a b c =
    (a == 0xe1 && b == 0x9a && c == 0x80)
    || (a == 0xe2
        && b == 0x80
        && ((leb 0x80 c && leb c 0x8a) || c == 0xa8 || c == 0xa9 || c == 0xaf))
    || (a == 0xe2 && b == 0x81 && c == 0x9f)
    || (a == 0xe3 && b == 0x80 && c == 0x80)

-- the bytes of the white-space character that the text begins with, 0 if there is none
pub space_width : Text → ℕ
space_width [] = 0
space_width (a ∷ []) = if is_ascii_space a then 1 else 0
space_width (a ∷ b ∷ []) = if is_ascii_space a then 1 else if is_space2 a b then 2 else 0
space_width (a ∷ b ∷ c ∷ s) =
    if is_ascii_space a then 1 else if is_space2 a b then 2 else if is_space3 a b c then 3 else 0

-- the same of a reversed text: the character that it ends with
pub end_width : Text → ℕ
end_width [] = 0
end_width (a ∷ []) = if is_ascii_space a then 1 else 0
end_width (a ∷ b ∷ []) = if is_ascii_space a then 1 else if is_space2 b a then 2 else 0
end_width (a ∷ b ∷ c ∷ s) =
    if is_ascii_space a then 1 else if is_space2 b a then 2 else if is_space3 c b a then 3 else 0

-- drop characters as long as the text begins with white space
pub trim_by : (Text → ℕ) → Text → Text
trim_by width [] = []
trim_by width (a ∷ []) = if width (a ∷ []) == 0 then a ∷ [] else []
trim_by width (a ∷ b ∷ []) =
    let one = trim_by width (b ∷ []) in
    if width (a ∷ b ∷ []) == 0 then a ∷ b ∷ [] else if width (a ∷ b ∷ []) == 1 then one else []
trim_by width (a ∷ b ∷ c ∷ s) =
    let one = trim_by width (b ∷ c ∷ s) in
    let two = trim_by width (c ∷ s) in
    let three = trim_by width s in
    let w = width (a ∷ b ∷ c ∷ s) in
    if w == 0 then a ∷ b ∷ c ∷ s else if w == 1 then one else if w == 2 then two else three

pub trim_left : Text → Text
trim_left s = trim_by space_width s

-- strings.TrimSpace
unfoldable pub trim_space : Text → Text
unfolding trim_by trim_left space_width end_width
trim_space s = reverse (trim_by end_width (reverse (trim_left s)))

until_space : Text → Text
until_space [] = []
until_space (c ∷ s) = let rest = c ∷ until_space s in if space_width (c ∷ s) == 0 then rest else []

-- strings.Fields(s)[0]; `none` where there is no field, and the index is out of range
unfoldable pub first_field : Text → Option Text
unfolding trim_by trim_left space_width until_space
first_field s = elim (trim_left s) [ [] ↦ none | c ∷ t ↦ some (until_space (c ∷ t)) ]
