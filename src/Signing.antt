-- ===== src/Signing.antt =====
-- extractor/signing.go: the check of an APK's signing certificate with `apksigner`. What the system
-- answers (the search path, the environment, directories, the output of the tool) is an argument.
pub mod Laws
pub mod Search
use play_apk_distributor.Prelude.{
  ℕ, zero, suc, ◌+◌, Bool, true, false, ◌&&◌, ◌||◌, List, [], ◌∷◌, ◌++◌, Option, none, some, leb,
  ◌==◌, length, take, if◌then◌else◌,
}
use play_apk_distributor.Text.{Text, codes, text_eq, is_upper}
use play_apk_distributor.NameSet.{sort_texts}
use play_apk_distributor.Config.Fingerprint.{to_lower}
use play_apk_distributor.Config.Fingerprint.Laws.{is_hex_digit}
use mathlib.Core.List.{reverse}

abbrev pub lower_byte : ℕ → ℕ
lower_byte c = if is_upper c then c + 32 else c

-- (?i) on one character of the pattern: either case, and the long s for an s
pub fold_char : ℕ → Text → Option Text
fold_char p [] = none
fold_char p (c ∷ []) = if lower_byte c == lower_byte p then some [] else none
fold_char p (c ∷ d ∷ s) =
    if lower_byte c == lower_byte p
    then some (d ∷ s)
    else if lower_byte p == b's' && c == 0xc5 && d == 0xbf
    then some s
    else none

pub fold_prefix : Text → Text → Option Text
unfolding fold_char
fold_prefix [] s = some s
fold_prefix (p ∷ ps) s = elim (fold_char p s) [ none ↦ none | some rest ↦ fold_prefix ps rest ]

-- \s*
pub skip_blanks : Text → Text
skip_blanks [] = []
skip_blanks (c ∷ s) =
    let rest = skip_blanks s in
    if c == 9 || c == 10 || c == 12 || c == 13 || c == 32 then rest else c ∷ s

-- [0-9a-fA-F]{n}, as the digits matched
pub take_hex : ℕ → Text → Option Text
take_hex zero s = some []
take_hex (suc n) [] = none
take_hex (suc n) (c ∷ s) =
    let rest = take_hex n s in
    if is_hex_digit c then elim rest [ none ↦ none | some ds ↦ some (c ∷ ds) ] else none

abbrev pub digest_label : Text
digest_label = codes "Signer #1 certificate SHA-256 digest:"

pub digest_here : Text → Option Text
unfolding fold_prefix skip_blanks take_hex
digest_here s = elim (fold_prefix digest_label s) [
  | none ↦ none
  | some rest ↦ take_hex 64 (skip_blanks rest)
]

-- certDigestRE.FindSubmatch: the group of the leftmost match
unfoldable pub find_digest : Text → Option Text
unfolding digest_here
find_digest [] = digest_here []
find_digest (c ∷ s) =
    let later = find_digest s in elim (digest_here (c ∷ s)) [ some d ↦ some d | none ↦ later ]

-- how `apksigner verify` ended: with an error, or with its output
pub data SignerRun : Type 0 where
  rejected : SignerRun
  printed : Text → SignerRun

pub data SignatureError : Type 0 where
  signer_missing verify_failed no_fingerprint mismatch : SignatureError

-- verifyAPKSignature; `none` is a nil error
unfoldable pub verify_apk_signature : Option Text → SignerRun → Text → Option SignatureError
verify_apk_signature none run expected = some signer_missing
verify_apk_signature (some signer) rejected expected = some verify_failed
verify_apk_signature (some signer) (printed out) expected = elim (find_digest out) [
  | none ↦ some no_fingerprint
  | some d ↦ if text_eq (to_lower d) expected then none else some mismatch
]

-- truncateOutput
pub truncate_output : Text → ℕ → Text
truncate_output s max_len =
    if leb (length s) max_len then s else take max_len s ++ codes "...[truncated]"

pub data Os : Type 0 where
  windows darwin other_os : Os

pub record DirEntry : Type 0 where
  pub name : Text
  pub is_dir : Bool

-- filepath.Join on parts that are clean
abbrev pub join_path : Text → Text → Text
join_path a b = a ++ b'/' ∷ b

pub dir_names : List DirEntry → List Text
dir_names [] = []
dir_names (e ∷ es) = let rest = dir_names es in if e.is_dir then e.name ∷ rest else rest

-- the first of the directories that holds the tool; `exists` answers `os.Stat`
pub first_holding : (Text → Bool) → Text → Text → List Text → Option Text
first_holding exists root exe [] = none
first_holding exists root exe (d ∷ ds) =
    let p = join_path (join_path root d) exe in
    let rest = first_holding exists root exe ds in if exists p then some p else rest

-- latestBuildTool; `read_dir` answers `os.ReadDir`, and "" is `none`
pub latest_build_tool : (Text → Option (List DirEntry)) → (Text → Bool) → Text → Text → Option Text
unfolding dir_names first_holding
latest_build_tool read_dir exists sdk_root exe =
    let build_tools = join_path sdk_root (codes "build-tools") in
    elim (read_dir build_tools) [
      | none ↦ none
      | some entries ↦
          first_holding exists build_tools exe (reverse (sort_texts (dir_names entries)))
    ]

-- what `findApksigner` asks the system: `exec.LookPath`, and three variables, `none` if empty
pub record Environment : Type 0 where
  pub os : Os
  pub look_path : Text → Option Text
  pub android_home : Option Text
  pub local_app_data : Option Text
  pub home : Option Text
  pub read_dir : Text → Option (List DirEntry)
  pub exists : Text → Bool

abbrev pub tool_name : Os → Text
tool_name windows = codes "apksigner.bat"
tool_name darwin = codes "apksigner"
tool_name other_os = codes "apksigner"

abbrev pub default_sdk : Environment → Option Text
default_sdk sys = elim sys.os [
  | windows ↦ elim sys.local_app_data [
    | none ↦ none
    | some l ↦ some (join_path l (codes "Android/Sdk"))
  ]
  | darwin ↦ elim sys.home [
    | none ↦ none
    | some h ↦ some (join_path h (codes "Library/Android/sdk"))
  ]
  | other_os ↦ elim sys.home [ none ↦ none | some h ↦ some (join_path h (codes "Android/Sdk")) ]
]

pub tool_under : Environment → Option Text → Option Text
tool_under sys none = none
tool_under sys (some root) = latest_build_tool sys.read_dir sys.exists root (tool_name sys.os)

abbrev pub first_some : Option Text → Option Text → Option Text
first_some none b = b
first_some (some a) b = some a

-- findApksigner
pub find_apksigner : Environment → Option Text
unfolding tool_under
find_apksigner sys =
    first_some (sys.look_path (tool_name sys.os))
      (first_some (tool_under sys sys.android_home) (tool_under sys (default_sdk sys)))
