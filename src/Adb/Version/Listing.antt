-- ===== src/Adb/Version/Listing.antt =====
-- What `parseVersionInfo` reads from a listing of `dumpsys package`, and where it panics.
use play_apk_distributor.Prelude.{
  ℕ, suc, ◌<◌, ◌^◌, ◌≡◌, ◌≢◌, refl, ◌∙◌, false, List, [], ◌∷◌, ◌++◌, All,
}
use play_apk_distributor.Prelude.Int.{pos}
use play_apk_distributor.Text.{Text, codes, has_prefix}
use play_apk_distributor.Space.{trim_space}
use play_apk_distributor.Adb.Version.{info, index_panic, header, no_info, cap_name, scan_info}
use play_apk_distributor.Adb.Version.Steps.{
  IsHeader, IsOther, code_line, name_line, skip_before, enter, skip_inside, incomplete, at_code,
  at_name, bare_code,
}

-- A listing with a block of the package, in it a line versionCode=n with more fields behind it, n
-- above 0 and below 2^63, and further down a line versionName= with a name that is not empty, is
-- read as n and the name cut at 128 bytes, if the lines before the block do not begin it and the
-- lines between name no version.
pub scan_info_reads :
    (pkg : Text) (pre : List Text) (h : Text) (mid : List Text) (c : Text) (mid' : List Text)
    (v : Text) (post : List Text) (n : ℕ) (rest name : Text)
    → All (λ l. has_prefix (trim_space l) (header pkg) ≡ false) pre
    → IsHeader pkg h
    → All (IsOther pkg) mid
    → trim_space c ≡ code_line (suc n) rest
    → All (IsOther pkg) mid'
    → trim_space v ≡ name_line name
    → suc n < 2 ^ 63
    → name ≢ []
    → scan_info pkg (pre ++ h ∷ (mid ++ c ∷ (mid' ++ v ∷ post))) false no_info
      ≡ info (record { code = pos (suc n); name = cap_name name })
scan_info_reads pkg pre h mid c mid' v post n rest name before head between code between' last fits
      some_name =
    skip_before pkg pre _ no_info before
    ∙ enter pkg h _ false no_info head
    ∙ skip_inside pkg mid _ no_info between (incomplete (pos 0))
    ∙ at_code pkg c rest _ (suc n) no_info fits code refl
    ∙ skip_inside pkg mid' _ (record { code = pos (suc n); name = [] }) between'
        (incomplete (pos (suc n)))
    ∙ at_name pkg v name post n last some_name

-- If the first line that names a version in the block of the package is versionCode= with nothing
-- behind it, the scan panics.
pub scan_info_panics :
    (pkg : Text) (pre : List Text) (h : Text) (mid : List Text) (c : Text) (post : List Text)
    → All (λ l. has_prefix (trim_space l) (header pkg) ≡ false) pre
    → IsHeader pkg h
    → All (IsOther pkg) mid
    → trim_space c ≡ codes "versionCode="
    → scan_info pkg (pre ++ h ∷ (mid ++ c ∷ post)) false no_info ≡ index_panic
scan_info_panics pkg pre h mid c post before head between bare =
    skip_before pkg pre _ no_info before
    ∙ enter pkg h _ false no_info head
    ∙ skip_inside pkg mid _ no_info between (incomplete (pos 0))
    ∙ bare_code pkg c post bare
