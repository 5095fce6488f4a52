-- ===== src/Extractor/Filename.antt =====
-- `safeFilename` and `splitID` of extractor/extractor.go.
pub mod Laws
pub mod Parts
pub mod Accepted
use play_apk_distributor.Prelude.{
  ℕ, Bool, true, false, not, ◌&&◌, ◌||◌, List, [], ◌∷◌, Option, none, some, ◌==◌, if◌then◌else◌,
}
use play_apk_distributor.Text.{
  Text, codes, split, has_suffix, has_prefix, is_lower, is_upper, is_digit, text_eq, trim_prefix,
  trim_suffix,
}

-- drop the slashes at the end
pub strip_slashes : Text → Text
strip_slashes [] = []
strip_slashes (c ∷ s) =
    let rest = strip_slashes s in
    elim rest [ [] ↦ if c == b'/' then [] else c ∷ [] | d ∷ t ↦ c ∷ d ∷ t ]

pub last_part : List Text → Text
last_part [] = []
last_part (p ∷ []) = p
last_part (p ∷ q ∷ ps) = last_part (q ∷ ps)

-- path.Base: "." for the empty path, "/" for one of slashes alone
unfoldable pub base : Text → Text
unfolding strip_slashes last_part
base [] = codes "."
base (c ∷ s) = elim (last_part (split b'/' (strip_slashes (c ∷ s)))) [
  | [] ↦ codes "/"
  | d ∷ t ↦ d ∷ t
]

-- The loop runs over characters; one outside ASCII is refused, as each of its bytes is here.
abbrev pub is_safe_byte : ℕ → Bool
is_safe_byte c = is_lower c || is_upper c || is_digit c || c == b'_' || c == b'-' || c == b'.'

pub all_safe : Text → Bool
all_safe [] = true
all_safe (c ∷ s) = is_safe_byte c && all_safe s

pub data NameError : Type 0 where
  no_apk_extension disallowed_character not_allowed : NameError

pub data Named : Type 0 where
  named : Text → Named
  refused : NameError → Named

abbrev pub is_hidden : Text → Bool
is_hidden [] = true
is_hidden (c ∷ s) = c == b'.'

pub check_name : Text → Named
unfolding all_safe
check_name name =
    if not (has_suffix name (codes ".apk"))
    then refused no_apk_extension
    else if not (all_safe name)
    then refused disallowed_character
    else if is_hidden name
    then refused not_allowed
    else named name

unfoldable pub safe_filename : Text → Named
unfolding check_name
safe_filename device_path = check_name (base device_path)

-- splitID
pub split_id : Text → Text
split_id filename =
    let name = trim_suffix filename (codes ".apk") in
    if text_eq name (codes "base") then codes "base" else trim_prefix name (codes "split_")
