-- ===== src/Text.antt =====
-- Go strings as lists of bytes, with the functions of Go's `strings` package that the program
-- calls. The proofs about them are in the modules below.
pub mod Laws
pub mod Order
pub mod Split
use Prim.Native.Char.{code}
use Prim.Native.String.{String}
use play_apk_distributor.Prelude.{
  ℕ, ◌+◌, Bool, true, false, ◌&&◌, ◌||◌, List, [], ◌∷◌, ◌++◌, Option, none, some, leb, ltb, ◌==◌,
  if◌then◌else◌,
}

abbrev pub Text : Type 0
Text = List ℕ

-- the bytes of an ASCII literal
abbrev pub codes : String → Text
codes String.[] = []
codes (String.◌∷◌ c s) = code c ∷ codes s

-- s == t
unfoldable pub text_eq : Text → Text → Bool
text_eq [] [] = true
text_eq [] (y ∷ ys) = false
text_eq (x ∷ xs) [] = false
text_eq (x ∷ xs) (y ∷ ys) = x == y && text_eq xs ys

-- s < t: Go compares strings byte by byte
unfoldable pub text_lt : Text → Text → Bool
text_lt xs [] = false
text_lt [] (y ∷ ys) = true
text_lt (x ∷ xs) (y ∷ ys) = ltb x y || (x == y && text_lt xs ys)

-- strings.CutPrefix
unfoldable pub cut_prefix : Text → Text → Option Text
cut_prefix s [] = some s
cut_prefix [] (p ∷ ps) = none
cut_prefix (c ∷ s) (p ∷ ps) = if c == p then cut_prefix s ps else none

abbrev pub is_some {ℓ} : {A : Type ℓ} → Option A → Bool
is_some none = false
is_some (some a) = true

-- strings.HasPrefix
unfoldable pub has_prefix : Text → Text → Bool
has_prefix s p = is_some (cut_prefix s p)

-- strings.Contains
unfoldable pub contains : Text → Text → Bool
contains [] p = has_prefix [] p
contains (c ∷ s) p = has_prefix (c ∷ s) p || contains s p

abbrev pub keep_head : ℕ → Option Text → Option Text
keep_head c none = none
keep_head c (some r) = some (c ∷ r)

-- strings.CutSuffix
unfoldable pub cut_suffix : Text → Text → Option Text
cut_suffix [] p = if text_eq [] p then some [] else none
cut_suffix (c ∷ s) p = if text_eq (c ∷ s) p then some [] else keep_head c (cut_suffix s p)

-- strings.HasSuffix
unfoldable pub has_suffix : Text → Text → Bool
has_suffix s p = is_some (cut_suffix s p)

abbrev pub or_else {ℓ} : {A : Type ℓ} → Option A → A → A
or_else none d = d
or_else (some a) d = a

-- strings.TrimPrefix and strings.TrimSuffix
pub trim_prefix : Text → Text → Text
trim_prefix s p = or_else (cut_prefix s p) s

unfoldable pub trim_suffix : Text → Text → Text
trim_suffix s p = or_else (cut_suffix s p) s

-- strings.ReplaceAll(s, c, "") for a single byte c
unfoldable pub remove_byte : ℕ → Text → Text
remove_byte b [] = []
remove_byte b (c ∷ s) = let rest = remove_byte b s in if c == b then rest else c ∷ rest

-- strings.Split(s, c) for a single byte c: the first part, and the parts behind it
abbrev push_first : ℕ → List Text → List Text
push_first c [] = (c ∷ []) ∷ []
push_first c (p ∷ ps) = (c ∷ p) ∷ ps

unfoldable pub split : ℕ → Text → List Text
split b [] = [] ∷ []
split b (c ∷ s) = let rest = split b s in if c == b then [] ∷ rest else push_first c rest

abbrev pub is_lower : ℕ → Bool
is_lower c = leb b'a' c && leb c b'z'

abbrev pub is_upper : ℕ → Bool
is_upper c = leb b'A' c && leb c b'Z'

abbrev pub is_digit : ℕ → Bool
is_digit c = leb b'0' c && leb c b'9'
