-- ===== src/PackageName.antt =====
-- The regular expression `validPackageName` of packages/packages.go and config/config.go:
-- ^[a-zA-Z][a-zA-Z0-9_]*(\.[a-zA-Z][a-zA-Z0-9_]*)+$ as a scan over the bytes of the name.
pub mod Laws
use play_apk_distributor.Prelude.{Bool, true, false, ◌&&◌, ◌||◌, [], ◌∷◌, ◌==◌, ℕ, if◌then◌else◌}
use play_apk_distributor.Text.{Text, is_lower, is_upper, is_digit}

-- [a-zA-Z]
abbrev pub is_letter : ℕ → Bool
is_letter c = is_lower c || is_upper c

-- [a-zA-Z0-9_]
abbrev pub is_word : ℕ → Bool
is_word c = is_letter c || is_digit c || c == b'_'

-- The first flag says that an identifier has begun, the second that a dot has been read.
scan_name : Bool → Bool → Text → Bool
scan_name begun dotted [] = begun && dotted
scan_name false dotted (c ∷ s) = is_letter c && scan_name true dotted s
scan_name true dotted (c ∷ s) =
    let next = scan_name false true s in
    let same = scan_name true dotted s in if c == b'.' then next else is_word c && same

unfoldable pub valid_package_name : Text → Bool
unfolding scan_name
valid_package_name name = scan_name false false name
