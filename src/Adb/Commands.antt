-- ===== src/Adb/Commands.antt =====
-- The commands of `Client` in adb/adb.go. `adb` itself is a parameter: what it prints on its arguments,
-- `none` where `exec.Command(…).Output()` returned an error.
pub mod Laws
use play_apk_distributor.Prelude.{
  ℕ, Bool, true, false, not, List, [], ◌∷◌, ◌++◌, Option, none, some, if◌then◌else◌,
}
use play_apk_distributor.Prelude.Int.{ℤ}
use play_apk_distributor.Text.{Text, codes, is_some}
use play_apk_distributor.Device.{Device, Pulled}
use play_apk_distributor.Adb.Version.{VersionInfo, Outcome, not_found, parse_version_info}
use play_apk_distributor.Adb.Paths.{parse_pm_paths}
use play_apk_distributor.Adb.Client.{serial_of, connect, is_connected, reconnect}

abbrev pub Adb : Type 0
Adb = List Text → Option Text

pub record Client : Type 0 where
  pub serial : Text
  pub abi : Text

-- New
pub client_of : Text → ℤ → Text → Client
client_of host port abi = record { serial = serial_of host port; abi = abi }

-- run
abbrev pub run : Adb → List Text → Option Text
run adb args = adb args

-- the arguments that `shell` passes on
unfoldable pub shell_args : Client → List Text → List Text
shell_args c args = (codes "-s" ∷ c.serial ∷ codes "shell" ∷ []) ++ args

-- shell
unfoldable pub shell : Adb → Client → List Text → Option Text
unfolding shell_args
shell adb c args = run adb (shell_args c args)

-- Client.Connect
pub connect_client : Adb → Client → Bool
connect_client adb c = connect (run adb (codes "connect" ∷ c.serial ∷ []))

-- Client.IsConnected
unfoldable pub client_connected : Adb → Client → Bool
client_connected adb c = is_connected c.serial (run adb (codes "devices" ∷ []))

-- Client.Reconnect, where `adb` may answer otherwise at each attempt
pub reconnect_client : (ℕ → Adb) → Client → Bool × List ℕ
unfolding connect_client
reconnect_client adb c = reconnect (λ i. connect_client (adb i) c)

-- what GetInstalledVersion gives: a failed command, or what is read from its output
pub data Installed : Type 0 where
  dumpsys_failed : Installed
  parsed : Outcome → Installed

unfoldable pub get_installed_version : Adb → Client → Text → Installed
unfolding shell
get_installed_version adb c pkg =
    elim (shell adb c (codes "dumpsys" ∷ codes "package" ∷ pkg ∷ [])) [
      | none ↦ dumpsys_failed
      | some out ↦ parsed (parse_version_info pkg out)
    ]

-- PullAPKPaths: `none` is an error
pub pull_apk_paths : Adb → Client → Text → Option (List Text)
unfolding shell
pull_apk_paths adb c pkg = elim (shell adb c (codes "pm" ∷ codes "path" ∷ pkg ∷ [])) [
  | none ↦ none
  | some out ↦ parse_pm_paths out
]

-- PullFile: whether it returned nil
pub pull_file : Adb → Client → Text → Text → Bool
pull_file adb c device_path dest =
    is_some (run adb (codes "-s" ∷ c.serial ∷ codes "pull" ∷ device_path ∷ dest ∷ []))
