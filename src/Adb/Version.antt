-- ===== src/Adb/Version.antt =====
-- `parseVersionInfo` of adb/adb.go.
pub mod Laws
pub mod Steps
pub mod Listing
use play_apk_distributor.Prelude.{
  ℕ, ◌+◌, Bool, true, false, ◌&&◌, ◌||◌, List, [], ◌∷◌, ◌++◌, Option, none, some, ◌==◌, ltb, leb,
  length, take, if◌then◌else◌, not,
}
use play_apk_distributor.Prelude.Int.{ℤ, pos, is_zero}
use play_apk_distributor.Text.{Text, codes, cut_prefix, has_prefix, trim_suffix, split}
use play_apk_distributor.Space.{trim_space, first_field}
use play_apk_distributor.Decimal.{atoi}

pub record VersionInfo : Type 0 where
  pub code : ℤ
  pub name : Text

-- the result of the function; `index_panic` is the run-time panic of `Fields(…)[0]` on no field
pub data Outcome : Type 0 where
  info : VersionInfo → Outcome
  bad_code not_found index_panic : Outcome

abbrev pub max_version_name_len : ℕ
max_version_name_len = 128

-- the buffer of a `bufio.Scanner`: a line that does not fit with its newline ends the scan
abbrev pub max_token : ℕ
max_token = 65536

-- `bufio.ScanLines` on the parts between newlines; a carriage return before a newline goes
scan_parts : List Text → List Text
scan_parts [] = []
scan_parts (p ∷ []) =
    if length p == 0 || leb max_token (length p) then [] else trim_suffix p (13 ∷ []) ∷ []
scan_parts (p ∷ q ∷ ps) =
    let rest = trim_suffix p (13 ∷ []) ∷ scan_parts (q ∷ ps) in
    if leb max_token (length p) then [] else rest

pub scan_lines : Text → List Text
unfolding scan_parts
scan_lines output = scan_parts (split 10 output)

abbrev pub header : Text → Text
header pkg = codes "Package [" ++ pkg ++ codes "]"

abbrev pub no_info : VersionInfo
no_info = record { code = pos 0; name = [] }

-- what a line sets; `none` in the first place is no error
pub data Field : Type 0 where
  value : VersionInfo → Field
  wrong : Outcome → Field

pub read_code_field : Text → VersionInfo → Field
read_code_field rest i = elim (first_field rest) [
  | none ↦ wrong index_panic
  | some field ↦ elim (atoi field) [
    | none ↦ wrong bad_code
    | some c ↦ value (record i { code = c })
  ]
]

pub read_code : Text → VersionInfo → Field
unfolding read_code_field
read_code line i = elim (cut_prefix line (codes "versionCode=")) [
  | none ↦ value i
  | some rest ↦ read_code_field rest i
]

abbrev pub cap_name : Text → Text
cap_name name =
    if ltb max_version_name_len (length name) then take max_version_name_len name else name

pub read_name : Text → VersionInfo → VersionInfo
read_name line i = elim (cut_prefix line (codes "versionName=")) [
  | none ↦ i
  | some rest ↦ record i { name = cap_name rest }
]

pub is_complete : VersionInfo → Bool
is_complete i = not (is_zero i.code) && not (length i.name == 0)

unfoldable pub finish : VersionInfo → Outcome
finish i = if is_zero i.code then not_found else info i

-- the loop, from one line on
pub scan_info : Text → List Text → Bool → VersionInfo → Outcome
unfolding finish is_complete read_name read_code
scan_info pkg [] in_pkg i = finish i
scan_info pkg (l ∷ ls) in_pkg i =
    let line = trim_space l in
    let entered = scan_info pkg ls true i in
    let skipped = scan_info pkg ls false i in
    if has_prefix line (header pkg)
    then entered
    else if not in_pkg
    then skipped
    else (elim (read_code line i) [
      | wrong o ↦ o
      | value j ↦
          let k = read_name line j in
          let more = scan_info pkg ls true k in if is_complete k then finish k else more
    ])

unfoldable pub parse_version_info : Text → Text → Outcome
unfolding scan_info scan_lines
parse_version_info pkg output = scan_info pkg (scan_lines output) false no_info
