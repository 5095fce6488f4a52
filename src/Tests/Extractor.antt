-- ===== src/Tests/Extractor.antt =====
-- The theorems on extractor/extractor.go and extractor/signing.go at concrete inputs.
use play_apk_distributor.Prelude.{
  ℕ, zero, suc, ◌≡◌, ◌↔◌, refl, true, false, List, [], ◌∷◌, ◌++◌, none, some, All,
}
use play_apk_distributor.Prelude.Int.{pos}
use play_apk_distributor.Extractor.Publish.{write_latest, write_checksum, prune_folder}
use play_apk_distributor.Extractor.Folder.{write_file, commit_file, Folder, foreign, latest_name}
use play_apk_distributor.Decimal.{itoa, atoi}
use play_apk_distributor.NameMap.{delete, insert, lookup}
use play_apk_distributor.Text.{
  trim_suffix, text_lt, text_eq, split, cut_suffix, has_suffix, Text, codes,
}
use play_apk_distributor.NameSet.{sort_texts}
use play_apk_distributor.Extractor.Bundle.{write_xapk}
use play_apk_distributor.Extractor.Filename.{
  base, safe_filename, named, refused, disallowed_character,
}
use play_apk_distributor.Config.Fingerprint.{to_lower}
use play_apk_distributor.Config.Fingerprint.Laws.{IsCanonical, is_hex_digit}
use play_apk_distributor.Signing.{
  DirEntry, verify_apk_signature, printed, find_digest, digest_label,
}
use play_apk_distributor.Signing.Laws.{verify_apk_signature_sound, verify_apk_signature_accepts}
use play_apk_distributor.Device.{Device}
use play_apk_distributor.Extractor.Filename.Accepted.{IsApkFile, IsLastOf, safe_filename_iff}
use play_apk_distributor.Extractor.Pull.{Policy, pull_all, pull_from_client}
use play_apk_distributor.Extractor.Pull.Growth.{IsChecked, Grows}
use play_apk_distributor.Extractor.Pull.Laws.{pull_from_client-Grows}
use play_apk_distributor.Extractor.Pull.Complete.{IsCollected, pull_all_done}
use play_apk_distributor.Extractor.Prune.{prune_old_versions}
use play_apk_distributor.Extractor.Publish.Pruning.{IsPrunedFolder, prune_folder-IsPrunedFolder}
use play_apk_distributor.Extractor.Run.{Host, extract, no_tmp_dir, no_pulls}
use play_apk_distributor.Extractor.Run.Laws.{IsDone, extract-IsDone}
use play_apk_distributor.Extractor.Run.Failures.{IsClean, extract_failed}
use play_apk_distributor.Tests.Samples.{good_publish, app, host, job, reached, phone}

extract_ok : (extract host job reached).failure ≡ none
unfolding extract pull_from_client safe_filename has_suffix cut_suffix base split text_eq lookup
    insert write_xapk sort_texts text_lt commit_file write_checksum delete itoa write_file
    write_latest
extract_ok = refl

extract-IsDone_example : IsDone host job reached (extract host job reached)
extract-IsDone_example = extract-IsDone host job reached extract_ok

abbrev no_space : Host
no_space = record host { tmp_dir = none }

extract_failed_example : IsClean no_space job no_tmp_dir (extract no_space job reached)
unfolding extract
extract_failed_example = extract_failed no_space job reached no_tmp_dir refl

abbrev near : Device
near = record phone { connected = true }

abbrev policy : Policy
policy = record { max_bytes = pos 1048576; expected_cert = []; signer = none }

abbrev paths : List Text
paths = codes "/d/base.apk" ∷ codes "/d/config.apk" ∷ []

pull_from_client-Grows_example :
    Grows
      (IsChecked policy app (codes "/t") near)
      no_pulls
      (pull_from_client policy near app (codes "/t") true no_pulls).2
pull_from_client-Grows_example = pull_from_client-Grows policy near app (codes "/t") true no_pulls

pulled_ok : (pull_all policy near (codes "/t/x86") paths no_pulls).0 ≡ none
unfolding pull_all safe_filename has_suffix cut_suffix base split text_eq lookup insert
pulled_ok = refl

pull_all_done_example :
    All (IsCollected (pull_all policy near (codes "/t/x86") paths no_pulls).1) paths
pull_all_done_example = pull_all_done policy near (codes "/t/x86") paths no_pulls pulled_ok

safe_filename_iff_example :
    (safe_filename (codes "/d/base.apk") ≡ named (codes "base.apk"))
    ↔ (IsApkFile (codes "base.apk") × IsLastOf (codes "base.apk") (codes "/d/base.apk"))
safe_filename_iff_example = safe_filename_iff (codes "/d/base.apk") (codes "base.apk")

semicolon_refused : safe_filename (codes "file;rm.apk") ≡ refused disallowed_character
unfolding safe_filename has_suffix cut_suffix base split text_eq
semicolon_refused = refl

abbrev entries : List DirEntry
entries =
    record { name = codes "7.apk"; is_dir = false }
    ∷ record { name = codes "12.apk"; is_dir = false }
    ∷ record { name = codes "latest.json"; is_dir = false }
    ∷ []

abbrev archive_folder : Folder
archive_folder =
    (codes "7.apk", foreign)
    ∷ (codes "12.apk", foreign)
    ∷ (latest_name, foreign)
    ∷ (codes "7.apk.sha256", foreign)
    ∷ []

prune_folder-IsPrunedFolder_example :
    IsPrunedFolder good_publish 1 archive_folder (prune_folder good_publish 1 archive_folder)
prune_folder-IsPrunedFolder_example = prune_folder-IsPrunedFolder good_publish 1 archive_folder refl

prune_folder_result :
    prune_folder good_publish 1 archive_folder
    ≡ (codes "12.apk", foreign) ∷ (latest_name, foreign) ∷ []
unfolding prune_folder prune_old_versions has_suffix cut_suffix text_eq atoi trim_suffix delete
prune_folder_result = refl

pruned_example :
    prune_old_versions (some entries) 1 ≡ some (codes "7.apk" ∷ codes "7.apk.sha256" ∷ [])
unfolding prune_old_versions has_suffix cut_suffix text_eq atoi trim_suffix
pruned_example = refl

-- the fingerprint AAA…A
abbrev letters : ℕ → Text
letters zero = []
letters (suc n) = b'A' ∷ letters n

letters-hex : (n : ℕ) → All (λ x. is_hex_digit x ≡ true) (letters n)
letters-hex zero = tt
letters-hex (suc n) = (refl, letters-hex n)

abbrev signer_output : Text
signer_output = digest_label ++ 32 ∷ (letters 64 ++ [])

verify_apk_signature_accepts_example :
    verify_apk_signature (some (codes "/s")) (printed signer_output) (to_lower (letters 64)) ≡ none
verify_apk_signature_accepts_example =
    verify_apk_signature_accepts (codes "/s") (letters 64) [] refl (letters-hex 64)

signature_ok :
    verify_apk_signature (some (codes "/s")) (printed signer_output) (to_lower (letters 64)) ≡ none
unfolding verify_apk_signature find_digest text_eq to_lower
signature_ok = refl

verify_apk_signature_sound_example :
    (path : Text) × (out : Text) × (d : Text) × (some (codes "/s") ≡ some path)
    × (printed signer_output ≡ printed out)
    × (find_digest out ≡ some d)
    × (to_lower d ≡ to_lower (letters 64))
    × IsCanonical (to_lower (letters 64))
verify_apk_signature_sound_example =
    verify_apk_signature_sound (some (codes "/s")) (printed signer_output) (to_lower (letters 64))
      signature_ok
