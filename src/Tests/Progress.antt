-- ===== src/Tests/Progress.antt =====
-- The theorems on the progress of a check, the versions that it records and its goroutines, at concrete
-- inputs.
use play_apk_distributor.Prelude.{
  Any, ℕ, ◌<◌, List, arith, some, true, false, inl, inr, ◌≡◌, refl, [], ◌∷◌,
}
use play_apk_distributor.Watcher.{answers, up_to_date, job_of, Turn, check_package, complete}
use play_apk_distributor.Watcher.Gather.{has_index, connected, end_all, zero_results}
use play_apk_distributor.Watcher.Gather.Laws.{connected-end_all}
use play_apk_distributor.Adb.Commands.{client_connected, get_installed_version, shell, shell_args}
use play_apk_distributor.Adb.Client.{is_connected}
use play_apk_distributor.Adb.Version.{parse_version_info, VersionInfo}
use play_apk_distributor.Space.{trim_space, first_field}
use play_apk_distributor.Decimal.{atoi, itoa}
use play_apk_distributor.Text.{
  has_prefix, cut_prefix, contains, trim_suffix, text_lt, text_eq, split, cut_suffix, has_suffix,
  Text, codes,
}
use play_apk_distributor.Extractor.Pull.{check_cert, Policy, pull_from_client}
use play_apk_distributor.Extractor.Pull.Succeeds.{Passes, Serves}
use play_apk_distributor.Extractor.Run.{policy_of, extract}
use play_apk_distributor.Watcher.Progress.{IsOffered, CanSave, entry_of, check_package_completes}
use play_apk_distributor.Watcher.Reported.{IsPrinted, check_package-IsPrinted}
use play_apk_distributor.Extractor.Publish.{write_latest, write_checksum}
use play_apk_distributor.Extractor.Folder.{write_file, commit_file}
use play_apk_distributor.NameMap.{delete, insert, lookup}
use play_apk_distributor.Storage.{save}
use play_apk_distributor.Store.{set_last_known, get_last_known}
use play_apk_distributor.NameSet.{sort_texts}
use play_apk_distributor.Extractor.Bundle.{write_xapk}
use play_apk_distributor.Extractor.Filename.{base, safe_filename}
use play_apk_distributor.Device.{Device}
use play_apk_distributor.Tests.Devices.{
  host-IsGoodHost, one_device-IsClientDevice, device_of, one_adb, one_client,
}
use play_apk_distributor.Tests.Samples.{
  tablet, apk_file, v7, encode, to_texts, table_codec, app, turn, two_devices, new_store, phone,
}

abbrev out : Text
out = codes "/o"

app_policy : Policy
app_policy = policy_of turn.host (job_of turn app out v7)

abbrev near : Device
near = record phone { connected = true }

base_Passes : Passes app_policy near (codes "/d/base.apk")
unfolding safe_filename has_suffix cut_suffix base split text_eq app_policy policy_of job_of
    check_cert lookup
base_Passes = record {
  filename = codes "base.apk";
  safe_name = refl;
  pulled = apk_file;
  from_device = refl;
  size = refl;
  signature = refl;
}

config_Passes : Passes app_policy near (codes "/d/config.apk")
unfolding safe_filename has_suffix cut_suffix base split text_eq app_policy policy_of job_of
    check_cert lookup
config_Passes = record {
  filename = codes "config.apk";
  safe_name = refl;
  pulled = apk_file;
  from_device = refl;
  size = refl;
  signature = refl;
}

near-Serves : Serves app_policy app near
near-Serves = record {
  connected = refl;
  first = codes "/d/base.apk";
  more = codes "/d/config.apk" ∷ [];
  paths = refl;
  each = (base_Passes, (config_Passes, tt));
}

-- the phone serves, and the tablet has gone
abbrev pub offering : Turn
offering = record turn { pulling = near ∷ record tablet { connected = false } ∷ [] }

pub turn_IsOffered : IsOffered offering app out v7
unfolding answers policy_of app_policy job_of
turn_IsOffered = record {
  others = v7 ∷ [];
  answered = refl;
  agreed = (refl, tt);
  host = host-IsGoodHost;
  ready = (inr (inr near-Serves), (inl refl, tt));
  served = inl near-Serves;
}

turn_CanSave : CanSave table_codec offering app v7 new_store
unfolding insert
turn_CanSave = record {
  bytes = encode (to_texts ((app, entry_of offering v7) ∷ []));
  marshalled = refl;
  tmp_written = refl;
  renamed = refl;
}

unknown : up_to_date (get_last_known new_store app) v7.code ≡ false
unfolding up_to_date get_last_known lookup
unknown = refl

check_package_completes_example :
    (check_package table_codec offering app out new_store).outcome ≡ complete
check_package_completes_example =
    check_package_completes table_codec offering app out new_store v7 turn_IsOffered unknown
      turn_CanSave

-- the only client is a client of adb
abbrev one_device : Turn
one_device = record turn { clients = device_of one_adb one_client ∷ [] }

one_complete : (check_package table_codec one_device app out new_store).outcome ≡ complete
unfolding check_package get_last_known lookup extract pull_from_client safe_filename has_suffix
    cut_suffix base split text_eq insert write_xapk sort_texts text_lt set_last_known save
    commit_file write_checksum delete itoa write_file write_latest client_connected is_connected
    one_adb has_prefix cut_prefix contains get_installed_version parse_version_info trim_space
    trim_suffix first_field atoi shell shell_args
one_complete = refl

check_package-IsPrinted_example :
    (v : VersionInfo) × Any (IsPrinted one_adb app v) one_device.clients
    × (get_last_known (check_package table_codec one_device app out new_store).store app
        ≡ some (entry_of one_device v))
check_package-IsPrinted_example =
    check_package-IsPrinted table_codec one_adb one_device app out new_store
      (one_device-IsClientDevice, tt) one_complete

-- the tablet answers first
abbrev order : List ℕ
order = 1 ∷ 0 ∷ []

order_complete : (i : ℕ) → i < 2 → has_index i order ≡ true
unfolding has_index
order_complete i h = ground arith

connected-end_all_example :
    connected (end_all app two_devices order (zero_results two_devices)) ≡ answers app two_devices
connected-end_all_example = connected-end_all app two_devices order order_complete
