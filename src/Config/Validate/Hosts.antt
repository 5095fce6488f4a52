-- ===== src/Config/Validate/Hosts.antt =====
-- The host pattern, and the addresses that it refuses.
use play_apk_distributor.Prelude.{ℕ, ◌≡◌, ◌↔◌, ◌⊎◌, refl, true, false, [], ◌∷◌, arith, All}
use play_apk_distributor.Text.{Text}
use play_apk_distributor.Config.Validate.{valid_host, all_host_bytes, is_host_byte, is_alphanumeric}

-- a letter or digit, then letters, digits, dots, dashes, colons and brackets
abbrev pub IsHost : Text → Type 0
IsHost [] = ⊥
IsHost (c ∷ s) = (is_alphanumeric c ≡ true) × All (λ d. is_host_byte d ≡ true) s

all_host_bytes_iff : (s : Text) → (all_host_bytes s ≡ true) ↔ All (λ d. is_host_byte d ≡ true) s
unfolding all_host_bytes
all_host_bytes_iff [] = (λ h. tt, λ h. refl)
all_host_bytes_iff (c ∷ s) =
    (λ h. ground (arith, all_host_bytes_iff s), λ h. ground (arith, (all_host_bytes_iff s).1 h.1))

pub valid_host_iff : (s : Text) → (valid_host s ≡ true) ↔ IsHost s
unfolding valid_host
valid_host_iff [] = (λ h. cc, λ h. absurd h)
valid_host_iff (c ∷ s) =
    (λ h. ground (arith, all_host_bytes_iff s), λ h. ground (arith, (all_host_bytes_iff s).1 h.1))

-- An IPv6 address in brackets, and one that begins with a colon, such as ::1, is refused.
pub valid_host_ipv6 : (c : ℕ) (s : Text) → (c ≡ b'[') ⊎ (c ≡ b':') → valid_host (c ∷ s) ≡ false
unfolding valid_host
valid_host_ipv6 c s h = ground arith
