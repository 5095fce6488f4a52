-- ===== src/Config/Fingerprint.antt =====
-- `normalizeFingerprint` of config/config.go.
pub mod Laws
use play_apk_distributor.Prelude.{
  ℕ, ◌+◌, Bool, true, false, ◌&&◌, ◌||◌, List, [], ◌∷◌, map, Option, none, some, leb, ◌==◌, length,
  if◌then◌else◌,
}
use play_apk_distributor.Text.{Text, remove_byte, is_upper, is_digit}
use play_apk_distributor.Space.{trim_space}

-- strings.ToLower on the bytes. The only characters outside ASCII that it takes to ASCII are the dotted
-- capital I and the Kelvin sign, and `i` and `k` are no hexadecimal digits: a text with any such
-- character is refused, as it is here.
unfoldable pub to_lower : Text → Text
to_lower [] = []
to_lower (c ∷ s) = (if is_upper c then c + 32 else c) ∷ to_lower s

-- '0' <= r && r <= '9' || 'a' <= r && r <= 'f'
abbrev pub is_hex : ℕ → Bool
is_hex c = is_digit c || (leb b'a' c && leb c b'f')

pub all_hex : Text → Bool
all_hex [] = true
all_hex (c ∷ s) = is_hex c && all_hex s

-- `none` is either of the two errors
pub normalize_fingerprint : Text → Option Text
unfolding to_lower all_hex
normalize_fingerprint fp =
    let s = to_lower (trim_space (remove_byte b':' fp)) in
    if length s == 64 then (if all_hex s then some s else none) else none
