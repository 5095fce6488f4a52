-- ===== src/Tests/Adb.antt =====
-- The theorems on adb/adb.go at concrete inputs.
use play_apk_distributor.Prelude.{
  none, ℕ, ◌≡◌, refl, Bool, true, false, List, [], ◌∷◌, ◌++◌, some, arith, length, ltb,
  if◌then◌else◌,
}
use play_apk_distributor.Prelude.Int.{pos}
use play_apk_distributor.Adb.Commands.{
  Adb, shell_args, get_installed_version, pull_apk_paths, pull_file,
}
use play_apk_distributor.Adb.Commands.Laws.{SameFor, commands_isolated, pull_apk_paths-print}
use play_apk_distributor.Text.{
  contains, text_eq, cut_suffix, trim_suffix, cut_prefix, has_prefix, Text, codes, split,
}
use play_apk_distributor.Adb.Client.{lists_device, reconnect, is_connected}
use play_apk_distributor.Decimal.{itoa_ℕ, atoi}
use play_apk_distributor.Space.{first_field, trim_space}
use play_apk_distributor.Adb.Version.{
  info, index_panic, parse_version_info, scan_info, no_info, cap_name,
}
use play_apk_distributor.Adb.Version.Listing.{scan_info_reads, scan_info_panics}
use play_apk_distributor.Adb.Paths.Laws.{print_paths}
use play_apk_distributor.Adb.Client.Laws.{reconnect_success, is_connected_longer}
use play_apk_distributor.Tests.Devices.{one_adb, one_client}
use play_apk_distributor.Tests.Samples.{app, v7}

abbrev block : Text
block = codes "  Package [a.b] (1f):"

abbrev code_7 : Text
code_7 = codes "    versionCode=7 minSdk=21"

abbrev name_v7 : Text
name_v7 = codes "    versionName=v7"

abbrev listing : Text
listing = block ++ 10 ∷ code_7 ++ 10 ∷ name_v7 ++ 10 ∷ []

listing_read : parse_version_info app listing ≡ info v7
unfolding parse_version_info split has_prefix cut_prefix trim_space trim_suffix cut_suffix text_eq
    first_field atoi
listing_read = refl

scan_info_reads_example :
    scan_info app (block ∷ code_7 ∷ name_v7 ∷ []) false no_info
    ≡ info (record { code = pos 7; name = cap_name (codes "v7") })
unfolding has_prefix cut_prefix trim_space itoa_ℕ
scan_info_reads_example =
    scan_info_reads app [] block [] code_7 [] name_v7 [] 6 (codes "minSdk=21") (codes "v7") tt refl
      tt refl tt refl (omega arith) (λ h. cc)

scan_info_panics_example :
    scan_info app (block ∷ codes "    versionCode=" ∷ []) false no_info ≡ index_panic
unfolding has_prefix cut_prefix trim_space
scan_info_panics_example =
    scan_info_panics app [] block [] (codes "    versionCode=") [] tt refl tt refl

abbrev paths : List Text
paths = codes "/a" ∷ codes "/b" ∷ []

-- the third attempt is the first that succeeds
abbrev third : ℕ → Bool
third i = if ltb i 2 then false else true

reconnect_success_example : ((reconnect third).0 ≡ true) × (length (reconnect third).1 ≡ 2)
reconnect_success_example = reconnect_success third 2 (omega arith) (λ j h. ground arith) refl

abbrev connected_line : Text
connected_line = codes "h:5554" ++ 9 ∷ codes "device"

abbrev devices : Text
devices = codes "List of devices attached" ++ 10 ∷ connected_line ++ 10 ∷ []

devices_lines :
    split 10 devices ≡ (codes "List of devices attached" ∷ []) ++ connected_line ∷ ([] ∷ [])
unfolding split
devices_lines = refl

is_connected_longer_example : is_connected (codes "h:555") (some devices) ≡ true
unfolding lists_device has_prefix cut_prefix contains
is_connected_longer_example =
    is_connected_longer (codes "h:555") (codes "4") (connected_line) devices
      (codes "List of devices attached" ∷ []) ([] ∷ []) devices_lines refl

paths_printed :
    one_adb (shell_args one_client (codes "pm" ∷ codes "path" ∷ app ∷ []))
    ≡ some (print_paths (codes "/d" ∷ []))
unfolding one_adb shell_args text_eq
paths_printed = refl

pull_apk_paths-print_example : pull_apk_paths one_adb one_client app ≡ some (codes "/d" ∷ [])
pull_apk_paths-print_example =
    pull_apk_paths-print one_adb one_client app (codes "/d" ∷ []) (λ h. cc)
      (((λ h. cc), ((omega arith, omega arith), ((omega arith, omega arith), tt))), tt)
      paths_printed

abbrev is_single : List Text → Bool
is_single (a ∷ []) = true
is_single args = false

-- another answer to `adb devices`
abbrev no_devices : Adb
no_devices args = if is_single args then none else one_adb args

same_for : SameFor one_client one_adb no_devices
same_for rest = refl

commands_isolated_example :
    (get_installed_version one_adb one_client app ≡ get_installed_version no_devices one_client app)
    × (pull_apk_paths one_adb one_client app ≡ pull_apk_paths no_devices one_client app)
    × (pull_file one_adb one_client (codes "/d") (codes "/t")
        ≡ pull_file no_devices one_client (codes "/d") (codes "/t"))
commands_isolated_example =
    commands_isolated one_adb no_devices one_client app (codes "/d") (codes "/t") same_for
