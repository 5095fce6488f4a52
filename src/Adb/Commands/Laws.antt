-- ===== src/Adb/Commands/Laws.antt =====
-- What the commands of one client depend on, and what is read from their output.
use play_apk_distributor.Prelude.{
  ℕ, ◌↔◌, ◌≡◌, ◌≢◌, ◌≤◌, false, List, [], ◌∷◌, some, arith, All, length, inl, inr, Option-cases,
}
use play_apk_distributor.Prelude.Int.{is_zero}
use play_apk_distributor.Text.{Text, codes}
use play_apk_distributor.Decimal.RoundTrip.{IsInt}
use play_apk_distributor.Device.{Device}
use play_apk_distributor.Adb.Version.{VersionInfo, info, index_panic, parse_version_info}
use play_apk_distributor.Adb.Version.Laws.{parse_version_info_sound}
use play_apk_distributor.Adb.Paths.Laws.{print_paths, IsPath, parse_pm_paths-print}
use play_apk_distributor.Adb.Commands.{
  Adb, Client, shell, shell_args, client_connected, reconnect_client, parsed, get_installed_version,
  pull_apk_paths, pull_file,
}

-- two answers of `adb` that are the same for every command addressed to this client
abbrev pub SameFor : Client → Adb → Adb → Type 0
SameFor c adb adb' =
    (rest : List Text) → adb (codes "-s" ∷ c.serial ∷ rest) ≡ adb' (codes "-s" ∷ c.serial ∷ rest)

-- The installed version, the paths and the pulls of a client depend on nothing but the answers of
-- adb to commands addressed to its own serial.
pub commands_isolated :
    (adb adb' : Adb) (c : Client) (pkg path dest : Text)
    → SameFor c adb adb'
    → (get_installed_version adb c pkg ≡ get_installed_version adb' c pkg)
      × (pull_apk_paths adb c pkg ≡ pull_apk_paths adb' c pkg)
      × (pull_file adb c path dest ≡ pull_file adb' c path dest)
unfolding get_installed_version pull_apk_paths pull_file shell shell_args
commands_isolated adb adb' c pkg path dest h = (
  ground (arith, h (codes "shell" ∷ codes "dumpsys" ∷ codes "package" ∷ pkg ∷ [])),
  ground (arith, h (codes "shell" ∷ codes "pm" ∷ codes "path" ∷ pkg ∷ [])),
  ground (arith, h (codes "pull" ∷ path ∷ dest ∷ [])),
)

-- a code other than 0 that fits an `int`, and a name of at most 128 bytes
abbrev pub IsBoundedVersion : VersionInfo → Type 0
IsBoundedVersion v = (is_zero v.code ≡ false) × IsInt v.code × (length v.name ≤ 128)

pub get_installed_version_sound :
    (adb : Adb) (c : Client) (pkg : Text) (v : VersionInfo)
    → get_installed_version adb c pkg ≡ parsed (info v)
    → (out : Text) × (adb (shell_args c (codes "dumpsys" ∷ codes "package" ∷ pkg ∷ [])) ≡ some out)
      × (parse_version_info pkg out ≡ info v)
      × IsBoundedVersion v
unfolding get_installed_version shell
get_installed_version_sound adb c pkg v h =
    elim (Option-cases (adb (shell_args c (codes "dumpsys" ∷ codes "package" ∷ pkg ∷ [])))) [
      | inl e ↦ absurd (ground arith)
      | inr (out, e) ↦
          let same : parse_version_info pkg out ≡ info v = ground arith in
          (out, e, same, parse_version_info_sound pkg out v same)
    ]

-- If `pm path` of the package on the emulator prints lines for paths that are not empty and have
-- no blank or control character, at least one of them, `PullAPKPaths` gives those paths in order.
pub pull_apk_paths-print :
    (adb : Adb) (c : Client) (pkg : Text) (ps : List Text)
    → ps ≢ []
    → All IsPath ps
    → adb (shell_args c (codes "pm" ∷ codes "path" ∷ pkg ∷ [])) ≡ some (print_paths ps)
    → pull_apk_paths adb c pkg ≡ some ps
unfolding pull_apk_paths shell
pull_apk_paths-print adb c pkg ps n h e = ground (arith, e, parse_pm_paths-print ps n h)

-- the device of the watcher that stands for this client in a round in which `adb` answers so, and
-- `retries` at the attempts of `Reconnect`, if no listing makes the parser panic
pub record IsDeviceOf (adb : Adb) (retries : ℕ → Adb) (c : Client) (d : Device) : Type 0 where
  pub serial : d.serial ≡ c.serial
  pub abi : d.abi ≡ c.abi
  pub connected : d.connected ≡ client_connected adb c
  pub reconnected : d.reconnected ≡ (reconnect_client retries c).0
  pub no_panic : (pkg : Text) → get_installed_version adb c pkg ≢ parsed index_panic
  pub answered :
      (pkg : Text) (v : VersionInfo)
      → (d.installed pkg ≡ some v) ↔ (get_installed_version adb c pkg ≡ parsed (info v))
  pub paths : (pkg : Text) → d.apk_paths pkg ≡ pull_apk_paths adb c pkg
