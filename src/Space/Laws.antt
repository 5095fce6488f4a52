-- ===== src/Space/Laws.antt =====
-- A text with no white space is left alone.
use mathlib.Core.List.{reverse, reverse-reverse, reverse-cons}
use play_apk_distributor.Prelude.{ℕ, ◌<◌, ◌≡◌, refl, [], ◌∷◌, ◌++◌, All-append, some, arith, All}
use play_apk_distributor.Text.{Text}
use play_apk_distributor.Space.{
  space_width, end_width, trim_by, trim_left, trim_space, until_space, first_field,
}

-- printable ASCII, without the blank
abbrev pub IsVisible : ℕ → Type 0
IsVisible c = (32 < c) × (c < 127)

space_width-visible : (c : ℕ) (s : Text) → IsVisible c → space_width (c ∷ s) ≡ 0
unfolding space_width
space_width-visible c [] h = ground arith
space_width-visible c (b ∷ []) h = ground arith
space_width-visible c (b ∷ d ∷ s) h = ground arith

end_width-visible : (c : ℕ) (s : Text) → IsVisible c → end_width (c ∷ s) ≡ 0
unfolding end_width
end_width-visible c [] h = ground arith
end_width-visible c (b ∷ []) h = ground arith
end_width-visible c (b ∷ d ∷ s) h = ground arith

blank_width : (s : Text) → space_width (32 ∷ s) ≡ 1
unfolding space_width
blank_width [] = refl
blank_width (b ∷ []) = refl
blank_width (b ∷ d ∷ s) = refl

trim_by-visible :
    (width : Text → ℕ) (c : ℕ) (s : Text) → width (c ∷ s) ≡ 0 → trim_by width (c ∷ s) ≡ c ∷ s
unfolding trim_by
trim_by-visible width c [] h = ground arith
trim_by-visible width c (b ∷ []) h = ground arith
trim_by-visible width c (b ∷ d ∷ s) h = ground arith

reverse-All : (P : ℕ → Type 0) (s : Text) → All P s → All P (reverse s)
reverse-All P [] h = tt
reverse-All P (c ∷ s) (p, h) =
    rw reverse-cons (All-append P (reverse s) (c ∷ []) (reverse-All P s h) (p, tt))

trim_left-visible : (s : Text) → All IsVisible s → trim_left s ≡ s
unfolding trim_left trim_by
trim_left-visible [] h = refl
trim_left-visible (c ∷ s) (v, h) = trim_by-visible space_width c s (space_width-visible c s v)

trim_right-visible : (s : Text) → All IsVisible s → trim_by end_width s ≡ s
unfolding trim_by
trim_right-visible [] h = refl
trim_right-visible (c ∷ s) (v, h) = trim_by-visible end_width c s (end_width-visible c s v)

-- a text of visible ASCII characters is not trimmed
pub trim_space-visible : (s : Text) → All IsVisible s → trim_space s ≡ s
unfolding trim_space
trim_space-visible s h =
    rw (trim_left-visible s h, trim_right-visible (reverse s) (reverse-All IsVisible s h))
      (reverse-reverse s)

until_space-visible : (s : Text) → All IsVisible s → until_space s ≡ s
unfolding until_space
until_space-visible [] h = refl
until_space-visible (c ∷ s) (v, h) =
    ground (arith, space_width-visible c s v, until_space-visible s h)

until_space-append : (s rest : Text) → All IsVisible s → until_space (s ++ 32 ∷ rest) ≡ s
unfolding until_space
until_space-append [] rest h = ground (arith, blank_width rest)
until_space-append (c ∷ s) rest (v, h) =
    ground (arith, space_width-visible c (s ++ 32 ∷ rest) v, until_space-append s rest h)

-- the first field ends at a blank
pub first_field-visible :
    (c : ℕ) (s rest : Text)
    → All IsVisible (c ∷ s)
    → first_field ((c ∷ s) ++ 32 ∷ rest) ≡ some (c ∷ s)
unfolding first_field
first_field-visible c s rest (v, h) = ground (
  arith,
  trim_by-visible space_width c (s ++ 32 ∷ rest) (space_width-visible c (s ++ 32 ∷ rest) v),
  until_space-append (c ∷ s) rest (v, h),
)
