-- ===== src/Device.antt =====
-- The interface `Device` of adb/adb.go as the watcher and the extractor see it: what each method would
-- return in this round.
use play_apk_distributor.Prelude.{ℕ, Bool, List, Option}
use play_apk_distributor.Text.{Text}
use play_apk_distributor.Adb.Version.{VersionInfo}
use play_apk_distributor.Signing.{SignerRun}

-- a file that was pulled: what `os.Stat` says of its size, and what `apksigner` makes of it
pub record Pulled : Type 0 where
  pub size : Option ℕ
  pub signer_run : SignerRun

pub record Device : Type 0 where
  pub serial : Text
  pub abi : Text
  pub connected : Bool
  -- Reconnect: whether it returned nil
  pub reconnected : Bool
  -- GetInstalledVersion and PullAPKPaths; `none` is an error
  pub installed : Text → Option VersionInfo
  pub apk_paths : Text → Option (List Text)
  -- PullFile, by the path on the device; `none` is an error
  pub pull_file : Text → Option Pulled
