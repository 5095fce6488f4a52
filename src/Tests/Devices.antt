-- ===== src/Tests/Devices.antt =====
-- Devices of clients for the tests, and hosts on which every call succeeds.
use play_apk_distributor.Prelude.{
  ◌≡◌, ◌≢◌, refl, ap, sym, ◌∙◌, not, false, [], ◌∷◌, ◌++◌, Option, none, some, arith, Bool-cases,
  inl, inr, if◌then◌else◌,
}
use play_apk_distributor.Decimal.{atoi}
use play_apk_distributor.Space.{first_field, trim_space}
use play_apk_distributor.Text.{
  cut_suffix, trim_suffix, cut_prefix, has_prefix, split, Text, codes, text_eq,
}
use play_apk_distributor.Adb.Version.{
  parse_version_info, VersionInfo, info, index_panic, bad_code, not_found,
}
use play_apk_distributor.Extractor.Bundle.{close_archive}
use play_apk_distributor.Text.Laws.{text_eq_iff}
use play_apk_distributor.Device.{Device}
use play_apk_distributor.Adb.Commands.{
  Adb, Client, Installed, dumpsys_failed, parsed, get_installed_version, pull_apk_paths,
  client_connected, reconnect_client,
}
use play_apk_distributor.Adb.Commands.Laws.{IsDeviceOf}
use play_apk_distributor.Extractor.Run.Succeeds.{IsGoodHost}
use play_apk_distributor.Watcher.Reported.{IsClientDevice}
use play_apk_distributor.Tests.Samples.{app, apk_file, host, v7}

-- the version, if one was read
abbrev pub read_version : Installed → Option VersionInfo
read_version dumpsys_failed = none
read_version (parsed (info v)) = some v
read_version (parsed bad_code) = none
read_version (parsed not_found) = none
read_version (parsed index_panic) = none

abbrev pub device_of : Adb → Client → Device
device_of adb c = record {
  serial = c.serial;
  abi = c.abi;
  connected = client_connected adb c;
  reconnected = (reconnect_client (λ _. adb) c).0;
  installed = λ pkg. read_version (get_installed_version adb c pkg);
  apk_paths = λ pkg. pull_apk_paths adb c pkg;
  pull_file = λ _. some apk_file;
}

read_version_sound :
    (i : Installed) (v : VersionInfo) → read_version i ≡ some v → i ≡ parsed (info v)
read_version_sound dumpsys_failed v h = cc
read_version_sound (parsed (info w)) v h = cc
read_version_sound (parsed bad_code) v h = cc
read_version_sound (parsed not_found) v h = cc
read_version_sound (parsed index_panic) v h = cc

pub device_of-IsDeviceOf :
    (adb : Adb) (c : Client)
    → ((pkg : Text) → get_installed_version adb c pkg ≢ parsed index_panic)
    → IsDeviceOf adb (λ _. adb) c (device_of adb c)
device_of-IsDeviceOf adb c h = record {
  serial = refl;
  abi = refl;
  connected = refl;
  reconnected = refl;
  no_panic = h;
  answered =
      λ pkg v. (read_version_sound (get_installed_version adb c pkg) v, λ e. ap read_version e);
  paths = λ pkg. refl;
}

abbrev pub listing : Text
listing =
    codes "  Package [a.b] (1f):"
    ++ 10 ∷ codes "    versionCode=7 minSdk=21"
    ++ 10 ∷ codes "    versionName=v7"
    ++ 10 ∷ []

abbrev pub devices : Text
devices = codes "List of devices attached" ++ 10 ∷ codes "h:5554" ++ 9 ∷ codes "device" ++ 10 ∷ []

abbrev pub path_line : Text
path_line = codes "package:/d" ++ 10 ∷ []

-- one emulator with one package
unfoldable pub one_adb : Adb
one_adb (flag ∷ serial ∷ sh ∷ cmd ∷ sub ∷ pkg ∷ []) =
    if not (text_eq pkg app)
    then none
    else if text_eq cmd (codes "pm")
    then some path_line
    else some listing
one_adb (cmd ∷ []) = some devices
one_adb args = none

abbrev pub one_client : Client
one_client = record { serial = codes "h:5554"; abi = codes "x86" }

listed : get_installed_version one_adb one_client app ≡ parsed (info v7)
unfolding get_installed_version one_adb text_eq parse_version_info split has_prefix cut_prefix
    trim_space trim_suffix cut_suffix first_field atoi
listed = refl

not_listed :
    (pkg : Text)
    → text_eq pkg app ≡ false
    → get_installed_version one_adb one_client pkg ≡ dumpsys_failed
unfolding get_installed_version one_adb
not_listed pkg h = ground arith

one_installed : (pkg : Text) → get_installed_version one_adb one_client pkg ≢ parsed index_panic
one_installed pkg h = elim (Bool-cases (text_eq pkg app)) [
  | inl same ↦
      let here : get_installed_version one_adb one_client app ≡ parsed index_panic =
        ap (get_installed_version one_adb one_client) (sym ((text_eq_iff pkg app).0 same)) ∙ h in
      apart (sym listed ∙ here)
  | inr other ↦ nothing (sym (not_listed pkg other) ∙ h)
]
  where
    apart : parsed (info v7) ≢ parsed index_panic
    apart e = cc

    nothing : dumpsys_failed ≢ parsed index_panic
    nothing e = cc

pub one_device-IsClientDevice : IsClientDevice one_adb (device_of one_adb one_client)
one_device-IsClientDevice = record {
  retries = λ _. one_adb;
  client = one_client;
  stands = device_of-IsDeviceOf one_adb one_client one_installed;
}

pub host-IsGoodHost : IsGoodHost host
unfolding close_archive
host-IsGoodHost = record {
  pkg_dir_ok = refl;
  tmp_base_ok = refl;
  tmp = codes "/t";
  tmp_dir = refl;
  emulator_dirs = λ abi. refl;
  bundled = record {
    source_opened = refl;
    tmp_opened = refl;
    copied = refl;
    entries = λ n. refl;
    closed = refl;
    renamed = refl;
  };
  published = record {
    opened = refl;
    read = refl;
    sum_written = refl;
    marshalled = refl;
    latest_written = refl;
    renamed = refl;
  };
}
