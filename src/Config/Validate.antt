-- ===== src/Config/Validate.antt =====
-- The validation functions of config/config.go. A nil error is `none`; the first error wins.
pub mod Hosts
pub mod Emulators
pub mod Laws
use play_apk_distributor.Prelude.{
  ℕ, suc, Bool, true, false, ◌&&◌, ◌||◌, List, [], ◌∷◌, Option, none, some, ◌==◌, ltb, length,
  if◌then◌else◌,
}
use play_apk_distributor.Prelude.Int.{ℤ, pos, ltb_ℤ, leb_ℤ, eqb_ℤ, is_zero}
use play_apk_distributor.Text.{Text, codes, text_eq, is_lower, is_upper, is_digit}
use play_apk_distributor.NameSet.{has}
use play_apk_distributor.PackageName.{valid_package_name}
use play_apk_distributor.Config.Fingerprint.{normalize_fingerprint}

pub record Emulator : Type 0 where
  pub port : ℤ
  pub abi : Text

-- the struct `raw`, as the YAML library fills it
pub record Raw : Type 0 where
  pub adb_host : Text
  pub poll_interval : ℤ
  pub output_dir : Text
  pub emulators : List Emulator
  pub packages : List Text
  pub api_host : Text
  pub api_port : ℤ
  pub api_token : Text
  pub max_apk_size_mb : ℤ
  pub expected_certs : List (Text × Text)

-- The number of an error about an emulator is its index, the text that of a package.
pub data ConfigError : Type 0 where
  adb_host_required adb_host_invalid poll_interval_invalid output_dir_required : ConfigError
  max_apk_size_negative no_emulators : ConfigError
  port_out_of_range duplicate_port unknown_abi : ℕ → ConfigError
  invalid_package : Text → ConfigError
  api_port_out_of_range api_token_short : ConfigError
  invalid_cert_package invalid_cert : Text → ConfigError
  unreadable_config unparsable_config : ConfigError

abbrev pub Check : Type 0
Check = Option ConfigError

infixr 5 ◌then_check◌
abbrev pub ◌then_check◌ : Check → Check → Check
none then_check d = d
some e then_check d = some e

-- `if bad { return error }`, and `return nil` at the end
abbrev pub reject : Bool → ConfigError → Check
reject bad e = if bad then some e else none

abbrev is_empty : Text → Bool
is_empty [] = true
is_empty (c ∷ s) = false

-- validHost: ^[a-zA-Z0-9][a-zA-Z0-9.\-:\[\]]*$
abbrev pub is_alphanumeric : ℕ → Bool
is_alphanumeric c = is_lower c || is_upper c || is_digit c

abbrev pub is_host_byte : ℕ → Bool
is_host_byte c = is_alphanumeric c || c == b'.' || c == b'-' || c == b':' || c == b'[' || c == b']'

all_host_bytes : Text → Bool
all_host_bytes [] = true
all_host_bytes (c ∷ s) = is_host_byte c && all_host_bytes s

unfoldable pub valid_host : Text → Bool
unfolding all_host_bytes
valid_host [] = false
valid_host (c ∷ s) = is_alphanumeric c && all_host_bytes s

unfoldable pub known_abis : List Text
known_abis = codes "arm64-v8a" ∷ codes "armeabi-v7a" ∷ codes "x86_64" ∷ codes "x86" ∷ []

pub validate_core : Raw → Check
validate_core r =
    reject (is_empty r.adb_host) adb_host_required
    then_check reject (if valid_host r.adb_host then false else true) adb_host_invalid
    then_check reject (leb_ℤ r.poll_interval (pos 0)) poll_interval_invalid
    then_check reject (is_empty r.output_dir) output_dir_required
    then_check reject (ltb_ℤ r.max_apk_size_mb (pos 0)) max_apk_size_negative

-- seen[port]
unfoldable pub seen_port : ℤ → List ℤ → Bool
seen_port p [] = false
seen_port p (q ∷ seen) = eqb_ℤ p q || seen_port p seen

-- the loop over the emulators, from index i on
pub check_emulators : ℕ → List ℤ → List Emulator → Check
unfolding seen_port known_abis
check_emulators i seen [] = none
check_emulators i seen (e ∷ es) =
    let rest = check_emulators (suc i) (e.port ∷ seen) es in
    reject (ltb_ℤ e.port (pos 1) || ltb_ℤ (pos 65535) e.port) (port_out_of_range i)
    then_check reject (seen_port e.port seen) (duplicate_port i)
    then_check reject (if has e.abi known_abis then false else true) (unknown_abi i)
    then_check rest

pub validate_emulators : List Emulator → Check
unfolding check_emulators
validate_emulators [] = some no_emulators
validate_emulators (e ∷ es) = check_emulators 0 [] (e ∷ es)

pub validate_package_names : List Text → Check
validate_package_names [] = none
validate_package_names (p ∷ ps) =
    let rest = validate_package_names ps in
    if valid_package_name p then rest else some (invalid_package p)

pub validate_api : ℤ → Text → Check
validate_api port token =
    reject
      ((if is_zero port then false else true) && (ltb_ℤ port (pos 1) || ltb_ℤ (pos 65535) port))
      api_port_out_of_range
    then_check reject ((if is_empty token then false else true) && ltb (length token) 32)
        api_token_short

pub validate_expected_certs : List (Text × Text) → Check
validate_expected_certs [] = none
validate_expected_certs ((pkg, fp) ∷ certs) =
    let rest = validate_expected_certs certs in
    if valid_package_name pkg
    then elim (normalize_fingerprint fp) [ none ↦ some (invalid_cert pkg) | some s ↦ rest ]
    else some (invalid_cert_package pkg)

unfoldable pub validate : Raw → Check
unfolding validate_core validate_emulators validate_package_names validate_api
    validate_expected_certs
validate r =
    validate_core r
    then_check validate_emulators r.emulators
    then_check validate_package_names r.packages
    then_check validate_api r.api_port r.api_token
    then_check validate_expected_certs r.expected_certs
