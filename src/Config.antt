-- ===== src/Config.antt =====
-- config/config.go: the live configuration, its validation, normalisation and reload. A field of Go
-- type `int` is an integer. The YAML document is read by a library, whose result is an argument.
pub mod Fingerprint
pub mod Validate
pub mod Reload
pub mod Interval
use play_apk_distributor.Prelude.{
  ℕ, suc, Bool, true, false, not, ◌&&◌, ◌||◌, List, [], ◌∷◌, ◌++◌, map, Option, none, some,
  if◌then◌else◌,
}
use play_apk_distributor.Prelude.Int.{ℤ, pos, is_zero, mul64}
use play_apk_distributor.Text.{Text, codes, or_else}
use play_apk_distributor.Config.Fingerprint.{normalize_fingerprint}
use play_apk_distributor.Config.Validate.{
  Emulator, Raw, ConfigError, Check, validate, unreadable_config, unparsable_config,
}

-- `poll_interval` is a `time.Duration`, in nanoseconds
pub record Snapshot : Type 0 where
  pub adb_host : Text
  pub poll_interval : ℤ
  pub output_dir : Text
  pub emulators : List Emulator
  pub packages : List Text
  pub api_host : Text
  pub api_port : ℤ
  pub api_token : Text
  pub max_apk_size_mb : ℤ
  pub expected_certs : List (Text × Text)

-- A handler is known by a number; `calls` are the calls of handlers that were started.
pub record Config : Type 0 where
  pub snap : Snapshot
  pub handlers : List ℕ
  pub calls : List (ℕ × Snapshot)

-- what `os.ReadFile` and `yaml.Unmarshal` make of the file
pub data Document : Type 0 where
  parsed : Raw → Document
  unreadable : Document
  unparsable : Document

-- the fingerprints in canonical form; an error is ignored, and its fingerprint is ""
pub normalize_certs : List (Text × Text) → List (Text × Text)
normalize_certs [] = []
normalize_certs ((pkg, fp) ∷ certs) =
    (pkg, or_else (normalize_fingerprint fp) []) ∷ normalize_certs certs

abbrev pub default_api_host : Text
default_api_host = codes "127.0.0.1"

-- time.Second
abbrev pub second : ℕ
second = 1000000000

-- the value that `reload` stores for a document that is valid
unfoldable pub snapshot : Raw → Snapshot
unfolding normalize_certs
snapshot r = record {
  adb_host = r.adb_host;
  poll_interval = mul64 r.poll_interval second;
  output_dir = r.output_dir;
  emulators = r.emulators;
  packages = r.packages;
  api_host = elim r.api_host [ [] ↦ default_api_host | c ∷ s ↦ c ∷ s ];
  api_port = r.api_port;
  api_token = r.api_token;
  max_apk_size_mb = if is_zero r.max_apk_size_mb then pos 1024 else r.max_apk_size_mb;
  expected_certs = normalize_certs r.expected_certs;
}

unfoldable pub reload : Document → Config → Check × Config
unfolding snapshot
reload unreadable c = (some unreadable_config, c)
reload unparsable c = (some unparsable_config, c)
reload (parsed r) c = elim (validate r) [
  | some e ↦ (some e, c)
  | none ↦ (none, record c { snap = snapshot r })
]

-- Load: the zero value of the struct is reloaded
unfoldable pub load : Snapshot → Document → Option Config
unfolding reload
load zero_value d =
    let (e, c) = reload d (record { snap = zero_value; handlers = []; calls = [] }) in
    elim e [ some x ↦ none | none ↦ some c ]

-- Get: the copies of slices and maps are values here
unfoldable pub get : Config → Snapshot
get c = c.snap

-- OnChange
pub on_change : ℕ → Config → Config
on_change h c = record c { handlers = c.handlers ++ h ∷ [] }

-- one round of the `select` loop of `Watch`
unfoldable pub watch_event : Bool → Bool → Document → Config → Config
unfolding reload get
watch_event is_write is_create d c =
    if not is_write && not is_create
    then c
    else (let (e, c') = reload d c in
        elim e [
          | some x ↦ c'
          | none ↦ record c' { calls = c'.calls ++ map (λ h. (h, get c')) c'.handlers }
        ])
