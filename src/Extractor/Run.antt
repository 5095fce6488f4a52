-- ===== src/Extractor/Run.antt =====
-- `Extract` of extractor/extractor.go.
pub mod Laws
pub mod Clients
pub mod Written
pub mod Content
pub mod Failures
pub mod Succeeds
use play_apk_distributor.Prelude.{
  ℕ, Bool, true, false, not, ◌&&◌, ◌||◌, List, [], ◌∷◌, ◌++◌, map, Option, none, some,
  if◌then◌else◌,
}
use play_apk_distributor.Prelude.Int.{ℤ, pos, leb_ℤ, mul64}
use play_apk_distributor.Text.{Text, codes, or_else}
use play_apk_distributor.NameMap.{lookup}
use play_apk_distributor.Signing.{DirEntry, join_path}
use play_apk_distributor.Sink.{Artifact, Sink}
use play_apk_distributor.Device.{Device}
use play_apk_distributor.Extractor.Pull.{Pulls, PullError, Policy, pull_from_client}
use play_apk_distributor.Extractor.Folder.{Document, Latest, Folder}
use play_apk_distributor.Extractor.Bundle.{
  BundleError, BundleIo, apk_name, xapk_name, write_single_apk, write_xapk,
}
use play_apk_distributor.Extractor.Publish.{PublishIo, write_checksum, write_latest, prune_folder}

-- what the system answers in one extraction
pub record Host : Type 0 where
  pub pkg_dir_ok : Bool
  pub tmp_base_ok : Bool
  -- os.MkdirTemp
  pub tmp_dir : Option Text
  -- os.MkdirAll for the files of an emulator, by its ABI
  pub emulator_dir_ok : Text → Bool
  pub signer : Option Text
  -- the directory of the package as the extraction finds it
  pub folder : Folder
  pub bundle : BundleIo
  pub publish : PublishIo
  -- SHA-256 in hexadecimal digits
  pub sha : Document → Text
  pub now : ℕ
  pub absolute : Text → Text

pub data ExtractError : Type 0 where
  no_pkg_dir no_tmp_base no_tmp_dir : ExtractError
  pull_error : PullError → ExtractError
  nothing_collected checksum_failed latest_failed : ExtractError
  bundle_failed : BundleError → ExtractError

-- what an extraction has done: its error, the path that it returns, the directory of the package, and
-- the artifacts that the sink was called with
pub record Extraction : Type 0 where
  pub failure : Option ExtractError
  pub path : Text
  pub folder : Folder
  pub artifacts : List Artifact

pub record Job : Type 0 where
  pub pkg : Text
  pub code : ℤ
  pub name : Text
  pub output_dir : Text
  pub max_apk_size_mb : ℤ
  pub expected_certs : List (Text × Text)

-- int64(maxAPKSizeMB) * 1024 * 1024, with the default for 0 and less
pub max_bytes_of : ℤ → ℤ
max_bytes_of mb = mul64 (mul64 (if leb_ℤ mb (pos 0) then pos 1024 else mb) 1024) 1024

unfoldable pub policy_of : Host → Job → Policy
unfolding max_bytes_of
policy_of host job = record {
  max_bytes = max_bytes_of job.max_apk_size_mb;
  expected_cert = or_else (lookup job.pkg job.expected_certs) [];
  signer = host.signer;
}

-- the loop over the clients
pub pull_clients :
    Host → Policy → Text → Text → List Device → Bool → Pulls → Option PullError × Bool × Pulls
pull_clients host policy pkg tmp [] is_split st = (none, is_split, st)
pull_clients host policy pkg tmp (d ∷ ds) is_split st =
    let (e, split, st') = pull_from_client policy d pkg tmp (host.emulator_dir_ok d.abi) st in
    let rest = pull_clients host policy pkg tmp ds (split || is_split) st' in
    elim e [ some x ↦ (some x, is_split, st') | none ↦ rest ]

abbrev pub failed : ExtractError → Folder → Extraction
failed e fs = record { failure = some e; path = []; folder = fs; artifacts = [] }

-- the name of the output file
abbrev pub output_name : Job → Bool → Text
output_name job is_split = if is_split then xapk_name job.code else apk_name job.code

abbrev pub latest_of : Host → Job → Bool → Latest
latest_of host job is_split = record {
  version_code = job.code;
  version_name = job.name;
  file = output_name job is_split;
  updated_at = host.now;
}

-- the end of `Extract`, once latest.json is in place: pruning and the sink, whose errors are logged
pub report : Host → Job → Bool → Text → Folder → Extraction
report host job is_split sum fs =
    let path = join_path (join_path job.output_dir job.pkg) (output_name job is_split) in
    record {
      failure = none;
      path = path;
      folder = prune_folder host.publish 3 fs;
      artifacts =
          record {
            package_name = job.pkg;
            version_code = job.code;
            version_name = job.name;
            path = host.absolute path;
            checksum = sum;
            is_xapk = is_split;
          }
          ∷ [];
    }

pub after_checksum : Host → Job → Bool → Option Text × Folder → Extraction
unfolding report
after_checksum host job is_split (none, fs) = failed checksum_failed fs
after_checksum host job is_split (some sum, fs) =
    let (ok, fs') = write_latest host.publish (latest_of host job is_split) fs in
    if not ok then failed latest_failed fs' else report host job is_split sum fs'

-- `Extract` behind the write of the output file
pub finish : Host → Job → Bool → Option BundleError × Folder → Extraction
unfolding after_checksum
finish host job is_split (some e, fs) = failed (bundle_failed e) fs
finish host job is_split (none, fs) =
    after_checksum host job is_split
      (write_checksum host.sha host.publish (output_name job is_split) fs)

pub bundle : Host → Job → List Device → Bool → Pulls → Option BundleError × Folder
bundle host job clients is_split st =
    if is_split
    then write_xapk host.bundle job.pkg job.code job.name st.collected
        (map (λ (d : Device). d.abi) clients) host.folder
    else write_single_apk host.bundle job.code st.collected host.folder

pub after_pull : Host → Job → List Device → Option PullError × Bool × Pulls → Extraction
unfolding finish bundle
after_pull host job clients (some e, is_split, st) = failed (pull_error e) host.folder
after_pull host job clients (none, is_split, st) = elim st.collected [
  | [] ↦ failed nothing_collected host.folder
  | c ∷ cs ↦ finish host job is_split (bundle host job clients is_split st)
]

abbrev pub no_pulls : Pulls
no_pulls = record { collected = []; on_disk = [] }

unfoldable pub extract : Host → Job → List Device → Extraction
unfolding pull_clients after_pull policy_of
extract host job clients =
    if not host.pkg_dir_ok
    then failed no_pkg_dir host.folder
    else if not host.tmp_base_ok
    then failed no_tmp_base host.folder
    else (elim host.tmp_dir [
      | none ↦ failed no_tmp_dir host.folder
      | some tmp ↦
          after_pull host job clients
            (pull_clients host (policy_of host job) job.pkg tmp clients false no_pulls)
    ])
