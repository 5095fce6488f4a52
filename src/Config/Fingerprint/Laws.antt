-- ===== src/Config/Fingerprint/Laws.antt =====
-- What `normalizeFingerprint` accepts, and the form of its result.
use play_apk_distributor.Prelude.{
  ℕ, ◌≡◌, refl, Bool, true, ◌&&◌, ◌||◌, [], ◌∷◌, some, arith, ◌==◌, leb, All, length,
}
use play_apk_distributor.Text.{Text, remove_byte}
use play_apk_distributor.Space.{trim_space}
use play_apk_distributor.Space.Laws.{IsVisible, trim_space-visible}
use play_apk_distributor.Config.Fingerprint.{to_lower, is_hex, all_hex, normalize_fingerprint}

-- 0-9a-f
abbrev pub IsHex : ℕ → Type 0
IsHex c = is_hex c ≡ true

-- the canonical form: 64 lowercase hexadecimal digits
abbrev pub IsCanonical : Text → Type 0
IsCanonical s = (length s ≡ 64) × All IsHex s

-- a hexadecimal digit of either case
abbrev pub is_hex_digit : ℕ → Bool
is_hex_digit c = is_hex c || (leb b'A' c && leb c b'F')

-- digits with colons anywhere between them
abbrev pub IsColonHex : Text → Type 0
IsColonHex = All (λ c. (c == b':' || is_hex_digit c) ≡ true)

all_hex_sound : (s : Text) → all_hex s ≡ true → All IsHex s
unfolding all_hex
all_hex_sound [] h = tt
all_hex_sound (c ∷ s) h = ground (arith, all_hex_sound s)

all_hex_complete : (s : Text) → All IsHex s → all_hex s ≡ true
unfolding all_hex
all_hex_complete [] h = refl
all_hex_complete (c ∷ s) (p, h) = ground (arith, all_hex_complete s h)

-- An accepted fingerprint is in canonical form.
pub normalize_fingerprint_sound : (fp s : Text) → normalize_fingerprint fp ≡ some s → IsCanonical s
unfolding normalize_fingerprint
normalize_fingerprint_sound fp s h =
    ground (arith, all_hex_sound (to_lower (trim_space (remove_byte b':' fp))))

remove_byte-hex : (s : Text) → All IsHex s → remove_byte b':' s ≡ s
unfolding remove_byte
remove_byte-hex [] h = refl
remove_byte-hex (c ∷ s) (p, h) = ground (arith, remove_byte-hex s h)

to_lower-hex : (s : Text) → All IsHex s → to_lower s ≡ s
unfolding to_lower
to_lower-hex [] h = refl
to_lower-hex (c ∷ s) (p, h) = ground (arith, to_lower-hex s h)

hex-IsVisible : (s : Text) → All IsHex s → All IsVisible s
hex-IsVisible [] h = tt
hex-IsVisible (c ∷ s) (p, h) = ((ground arith, ground arith), hex-IsVisible s h)

-- A fingerprint in canonical form is its own normal form, so that to normalise twice is to normalise once.
pub normalize_fingerprint_canonical : (s : Text) → IsCanonical s → normalize_fingerprint s ≡ some s
unfolding normalize_fingerprint
normalize_fingerprint_canonical s (n, h) =
    rw (remove_byte-hex s h, trim_space-visible s (hex-IsVisible s h), to_lower-hex s h)
      (ground (arith, all_hex_complete s h))

removed-IsVisible : (s : Text) → IsColonHex s → All IsVisible (remove_byte b':' s)
unfolding remove_byte
removed-IsVisible [] h = tt
removed-IsVisible (c ∷ s) (p, h) = ground (arith, removed-IsVisible s h)

lowered-IsHex : (s : Text) → IsColonHex s → All IsHex (to_lower (remove_byte b':' s))
unfolding remove_byte to_lower
lowered-IsHex [] h = tt
lowered-IsHex (c ∷ s) (p, h) = ground (arith, lowered-IsHex s h)

length-to_lower : (s : Text) → length (to_lower s) ≡ length s
unfolding to_lower
length-to_lower [] = refl
length-to_lower (c ∷ s) = omega (arith, length-to_lower s)

-- 64 digits of either case, with colons anywhere between them, are accepted: the colons go, and
-- the letters become lowercase.
pub normalize_fingerprint_accepts :
    (fp : Text)
    → IsColonHex fp
    → length (remove_byte b':' fp) ≡ 64
    → normalize_fingerprint fp ≡ some (to_lower (remove_byte b':' fp))
unfolding normalize_fingerprint
normalize_fingerprint_accepts fp h n =
    rw (trim_space-visible (remove_byte b':' fp) (removed-IsVisible fp h)) (
      ground (
        arith,
        length-to_lower (remove_byte b':' fp),
        all_hex_complete (to_lower (remove_byte b':' fp)) (lowered-IsHex fp h),
      ))
