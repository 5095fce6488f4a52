-- ===== src/Tests/Watcher.antt =====
-- The theorems on watcher/watcher.go at concrete inputs.
use play_apk_distributor.Prelude.{◌≡◌, refl, [], ◌∷◌, map, none}
use play_apk_distributor.Watcher.{
  Turn, check_package, complete, no_update, extraction_failed, poll, effective_packages,
  sync_clients,
}
use play_apk_distributor.Adb.Client.{serial_of}
use play_apk_distributor.Decimal.{itoa}
use play_apk_distributor.Text.{text_lt, text_eq, split, cut_suffix, has_suffix, Text, codes}
use play_apk_distributor.Extractor.Pull.{pull_from_client}
use play_apk_distributor.Extractor.Run.{extract, no_tmp_dir}
use play_apk_distributor.Extractor.Publish.{write_latest, write_checksum}
use play_apk_distributor.Extractor.Folder.{write_file, commit_file}
use play_apk_distributor.NameMap.{delete, insert, lookup}
use play_apk_distributor.Storage.{save}
use play_apk_distributor.Store.{set_last_known, get_last_known}
use play_apk_distributor.NameSet.{include, has, sort_texts}
use play_apk_distributor.Extractor.Bundle.{write_xapk}
use play_apk_distributor.Extractor.Filename.{base, safe_filename}
use play_apk_distributor.Config.Validate.{Emulator}
use play_apk_distributor.Device.{Device}
use play_apk_distributor.Watcher.Check.{IsDue, check_package-IsDue, IsNoOlder, poll-IsNoOlder}
use play_apk_distributor.Watcher.Complete.{
  IsComplete, check_package-IsComplete, check_package_again, check_package_unrecorded, IsUnrecorded,
}
use play_apk_distributor.Watcher.Effective.{IsMerged, effective_packages-IsMerged}
use play_apk_distributor.Watcher.Clients.{client_for, sync_clients_lem}
use play_apk_distributor.Tests.Samples.{
  table_codec, app, turn, host, job, two_devices, reached, new_store, phone, live,
}

abbrev out : Text
out = codes "/o"

check_package-IsDue_example : IsDue turn app out new_store (extract host job reached)
unfolding check_package get_last_known lookup extract pull_from_client safe_filename has_suffix
    cut_suffix base split text_eq insert write_xapk sort_texts text_lt commit_file write_checksum
    delete itoa write_file write_latest
check_package-IsDue_example =
    check_package-IsDue table_codec turn app out new_store (extract host job reached) refl

turn_complete : (check_package table_codec turn app out new_store).outcome ≡ complete
unfolding check_package get_last_known lookup extract pull_from_client safe_filename has_suffix
    cut_suffix base split text_eq insert write_xapk sort_texts text_lt set_last_known save
    commit_file write_checksum delete itoa write_file write_latest
turn_complete = refl

check_package-IsComplete_example :
    IsComplete turn app out (check_package table_codec turn app out new_store)
check_package-IsComplete_example =
    check_package-IsComplete table_codec turn app out new_store turn_complete

check_package_again_example :
    (check_package table_codec turn app out
      (check_package table_codec turn app out new_store).store).outcome
    ≡ no_update
check_package_again_example =
    check_package_again table_codec turn turn app out new_store turn_complete refl

poll-IsNoOlder_example : IsNoOlder new_store (poll table_codec (λ _. turn) out (app ∷ []) new_store)
poll-IsNoOlder_example = poll-IsNoOlder table_codec (λ _. turn) out (app ∷ []) new_store

-- no temporary directory can be made
abbrev full_disk : Turn
full_disk = record turn { host = record host { tmp_dir = none } }

full_disk_outcome :
    (check_package table_codec full_disk app out new_store).outcome ≡ extraction_failed no_tmp_dir
unfolding check_package get_last_known lookup extract
full_disk_outcome = refl

full_disk-IsUnrecorded :
    IsUnrecorded (check_package table_codec full_disk app out new_store).outcome
full_disk-IsUnrecorded = rw full_disk_outcome (λ h. cc, λ e h. cc)

check_package_unrecorded_example :
    (check_package table_codec full_disk app out new_store).store ≡ new_store
check_package_unrecorded_example =
    check_package_unrecorded table_codec full_disk app out new_store full_disk-IsUnrecorded

effective_packages-IsMerged_example :
    IsMerged
      (app ∷ [])
      (codes "c.d" ∷ app ∷ [])
      (effective_packages (app ∷ []) (codes "c.d" ∷ app ∷ []))
effective_packages-IsMerged_example =
    effective_packages-IsMerged (app ∷ []) (codes "c.d" ∷ app ∷ [])

effective_example : effective_packages (app ∷ []) (codes "c.d" ∷ app ∷ []) ≡ app ∷ codes "c.d" ∷ []
unfolding effective_packages has include text_eq
effective_example = refl

sync_clients_example :
    (sync_clients (λ _. phone) live two_devices
      ≡ map (client_for (λ _. phone) live.adb_host two_devices) live.emulators)
    × (map (λ (d : Device). d.serial) (sync_clients (λ _. phone) live two_devices)
        ≡ map (λ (e : Emulator). serial_of live.adb_host e.port) live.emulators)
sync_clients_example = sync_clients_lem (λ _. phone) live two_devices
