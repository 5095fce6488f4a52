-- ===== src/Extractor/Pull.antt =====
-- `pullOneAPK` and `pullFromClient` of extractor/extractor.go.
pub mod Growth
pub mod Laws
pub mod Complete
pub mod Succeeds
use play_apk_distributor.Prelude.{
  ℕ, suc, Bool, true, false, not, ◌&&◌, ◌||◌, List, [], ◌∷◌, Option, none, some, ltb, length,
  if◌then◌else◌,
}
use play_apk_distributor.Prelude.Int.{ℤ, pos, ltb_ℤ}
use play_apk_distributor.Text.{Text, is_some}
use play_apk_distributor.NameSet.{include, without}
use play_apk_distributor.NameMap.{lookup, insert}
use play_apk_distributor.Signing.{SignatureError, verify_apk_signature, join_path}
use play_apk_distributor.Device.{Device, Pulled}
use play_apk_distributor.Extractor.Filename.{NameError, Named, named, refused, safe_filename}

-- `collected` takes file names to local paths; `on_disk` are the local files that a pull has completed
-- and nothing has removed. What a pull that failed may have left is not among them.
pub record Pulls : Type 0 where
  pub collected : List (Text × Text)
  pub on_disk : List Text

pub data PullError : Type 0 where
  unsafe_path : NameError → PullError
  pull_failed : PullError
  too_large : PullError
  bad_signature : SignatureError → PullError
  mkdir_failed : PullError

-- what one extraction asks for: the size limit in bytes, the expected fingerprint, "" for none, and
-- what `findApksigner` finds
pub record Policy : Type 0 where
  pub max_bytes : ℤ
  pub expected_cert : Text
  pub signer : Option Text

-- info.Size() > maxBytes, if os.Stat gives an info
abbrev pub exceeds : Option ℕ → ℤ → Bool
exceeds none max_bytes = false
exceeds (some n) max_bytes = ltb_ℤ max_bytes (pos n)

-- the certificate is checked if one is expected
unfoldable pub check_cert : Policy → Pulled → Option SignatureError
check_cert policy p = elim policy.expected_cert [
  | [] ↦ none
  | c ∷ s ↦ verify_apk_signature policy.signer p.signer_run (c ∷ s)
]

-- `pullOneAPK` after the pull: both checks remove the file that they refuse
pub accept_file : Policy → Text → Text → Pulled → Pulls → Option PullError × Pulls
unfolding check_cert
accept_file policy filename local p st =
    if exceeds p.size policy.max_bytes
    then (some too_large, record st { on_disk = without local st.on_disk })
    else (elim (check_cert policy p) [
      | some e ↦ (some (bad_signature e), record st { on_disk = without local st.on_disk })
      | none ↦ (none, record st { collected = insert filename local st.collected })
    ])

pub pull_named : Policy → Device → Text → Text → Text → Pulls → Option PullError × Pulls
unfolding accept_file
pull_named policy d device_path emulator_dir filename st =
    if is_some (lookup filename st.collected) then (none, st) else (elim (d.pull_file device_path) [
      | none ↦ (some pull_failed, st)
      | some p ↦
          let local = join_path emulator_dir filename in
          accept_file policy filename local p (record st { on_disk = include local st.on_disk })
    ])

pub pull_one_apk : Policy → Device → Text → Text → Pulls → Option PullError × Pulls
unfolding pull_named
pull_one_apk policy d device_path emulator_dir st = elim (safe_filename device_path) [
  | refused e ↦ (some (unsafe_path e), st)
  | named filename ↦ pull_named policy d device_path emulator_dir filename st
]

-- the loop over the device paths
unfoldable pub pull_all : Policy → Device → Text → List Text → Pulls → Option PullError × Pulls
unfolding pull_one_apk
pull_all policy d emulator_dir [] st = (none, st)
pull_all policy d emulator_dir (p ∷ ps) st =
    let (e, st') = pull_one_apk policy d p emulator_dir st in
    let rest = pull_all policy d emulator_dir ps st' in
    elim e [ some x ↦ (some x, st') | none ↦ rest ]

-- `pullFromClient`: the error, whether the app has several splits, and the new state. The flag says
-- whether `os.MkdirAll` made the directory.
unfoldable pub pull_from_client :
    Policy → Device → Text → Text → Bool → Pulls → Option PullError × Bool × Pulls
unfolding pull_all
pull_from_client policy d pkg tmp_dir made st =
    if not d.connected then (none, false, st) else (elim (d.apk_paths pkg) [
      | none ↦ (none, false, st)
      | some paths ↦
          if not made
          then (some mkdir_failed, false, st)
          else (let (e, st') = pull_all policy d (join_path tmp_dir d.abi) paths st in
              elim e [ some x ↦ (some x, false, st') | none ↦ (none, ltb 1 (length paths), st') ])
    ])
