-- ===== src/Extractor/Run/Laws.antt =====
-- What an extraction writes and reports.
use play_apk_distributor.Prelude.{
  ◌≡◌, refl, ap, sym, ◌∙◌, inl, inr, Bool, true, false, ◌&&◌, List, [], ◌∷◌, Option, none, some,
  arith, Bool-cases, Option-cases,
}
use play_apk_distributor.Text.{Text}
use play_apk_distributor.NameMap.{lookup}
use play_apk_distributor.Sink.{Artifact}
use play_apk_distributor.Device.{Device}
use play_apk_distributor.Signing.{join_path}
use play_apk_distributor.Extractor.Pull.{Pulls, PullError}
use play_apk_distributor.Extractor.Folder.{Document, latest_file, Folder, latest_name}
use play_apk_distributor.Extractor.Bundle.{BundleError}
use play_apk_distributor.Extractor.Bundle.Laws.{IsWrite}
use play_apk_distributor.Extractor.Publish.{write_checksum, write_latest, prune_folder}
use play_apk_distributor.Extractor.Publish.Laws.{
  write_checksum-Touches, write_checksum_done, write_latest-Touches, write_latest_done,
}
use play_apk_distributor.Extractor.Publish.Pruning.{prune_folder-latest}
use play_apk_distributor.Extractor.Run.{
  Host, Job, Extraction, nothing_collected, policy_of, pull_clients, failed, finish, after_checksum,
  report, bundle, after_pull, no_pulls, extract, output_name, latest_of,
}
use play_apk_distributor.Extractor.Run.Written.{IsWritten, write_latest-IsWritten}
use play_apk_distributor.Extractor.Run.Content.{
  is_archive, content_of, bundle-IsWrite, is_archive-content_of, IsMadeFrom, content_of-IsMadeFrom,
}

-- all that a successful extraction has done
pub record IsDone (host : Host) (job : Job) (clients : List Device) (x : Extraction) : Type 0 where
  -- the sink was called once, with this package and version
  pub artifact : Artifact
  pub reported : x.artifacts ≡ artifact ∷ []
  pub package_name : artifact.package_name ≡ job.pkg
  pub version_code : artifact.version_code ≡ job.code
  pub version_name : artifact.version_name ≡ job.name
  pub path : artifact.path ≡ host.absolute x.path
  -- the name of the output file says whether it is an archive
  pub output :
      x.path ≡ join_path (join_path job.output_dir job.pkg) (output_name job artifact.is_xapk)
  -- what was put there was made from files that the emulators gave and that passed the checks
  pub tmp : Text
  pub made_in : host.tmp_dir ≡ some tmp
  pub content : Document
  pub form : is_archive content ≡ artifact.is_xapk
  pub made_from : IsMadeFrom (policy_of host job) job tmp clients content
  pub checksum : artifact.checksum ≡ host.sha content
  -- the pruning found the files in place
  pub written : Folder
  pub placed : IsWritten host job artifact.is_xapk content written
  pub folder : x.folder ≡ prune_folder host.publish 3 written
  -- and left latest.json, which names the output file
  pub latest :
      lookup latest_name x.folder ≡ some (latest_file (latest_of host job artifact.is_xapk))

abbrev artifact_of : Host → Job → Bool → Text → Artifact
artifact_of host job is_split sum = record {
  package_name = job.pkg;
  version_code = job.code;
  version_name = job.name;
  path = host.absolute (join_path (join_path job.output_dir job.pkg) (output_name job is_split));
  checksum = sum;
  is_xapk = is_split;
}

after_checksum_ok :
    (host : Host) (job : Job) (is_split : Bool) (c : Option Text × Folder) (sum : Text)
    → c.0 ≡ some sum
    → (write_latest host.publish (latest_of host job is_split) c.1).0 ≡ true
    → after_checksum host job is_split c
      ≡ report host job is_split sum (write_latest host.publish (latest_of host job is_split) c.1).1
unfolding after_checksum
after_checksum_ok host job is_split (none, fs) sum e k = cc
after_checksum_ok host job is_split (some s, fs) sum e k = ground arith

module _ (host : Host) (job : Job) (clients : List Device) (tmp : Text) (is_split : Bool)
    (d : Document) (made_in : host.tmp_dir ≡ some tmp) (form : is_archive d ≡ is_split)
    (made : IsMadeFrom (policy_of host job) job tmp clients d) where
  report-IsDone :
      (sum : Text) (fs : Folder)
      → sum ≡ host.sha d
      → IsWritten host job is_split d fs
      → IsDone host job clients (report host job is_split sum fs)
  unfolding report
  report-IsDone sum fs s w = record {
    artifact = artifact_of host job is_split sum;
    reported = refl;
    package_name = refl;
    version_code = refl;
    version_name = refl;
    path = refl;
    output = refl;
    tmp = tmp;
    made_in = made_in;
    content = d;
    form = form;
    made_from = made;
    checksum = s;
    written = fs;
    placed = w;
    folder = refl;
    latest = prune_folder-latest host.publish 3 fs ∙ w.latest;
  }

  finish-IsDone :
      (r : Option BundleError × Folder)
      → IsWrite (output_name job is_split) d host.folder r
      → (finish host job is_split r).failure ≡ none
      → IsDone host job clients (finish host job is_split r)
  unfolding finish after_checksum
  finish-IsDone (some e, fs) w h = cc
  finish-IsDone (none, fs) w h =
      let out = output_name job is_split in
      let l = latest_of host job is_split in
      let c = write_checksum host.sha host.publish out fs in
      let (o, t) = w.done refl in
      elim (Option-cases c.0) [
        | inl e ↦ absurd (ground arith)
        | inr (sum, e) ↦ elim (Bool-cases (write_latest host.publish l c.1).0) [
          | inr f ↦ absurd (ground arith)
          | inl k ↦
              let (same, s) = write_checksum_done host.sha host.publish out d fs sum o e in
              let (found, clean) = write_latest_done host.publish l c.1 k in
              let placed =
                write_latest-IsWritten host job is_split d fs c.1
                  (write_latest host.publish l c.1).1 o t w.changed
                  (write_checksum-Touches host.sha host.publish out fs) s
                  (write_latest-Touches host.publish l c.1) found clean in
              rw (after_checksum_ok host job is_split c sum e k)
                (report-IsDone sum (write_latest host.publish l c.1).1 same placed)
        ]
      ]

pub extract_pulls :
    (host : Host) (job : Job) (clients : List Device) (tmp : Text)
    → (host.pkg_dir_ok && host.tmp_base_ok) ≡ true
    → host.tmp_dir ≡ some tmp
    → extract host job clients
      ≡ after_pull host job clients
          (pull_clients host (policy_of host job) job.pkg tmp clients false no_pulls)
unfolding extract
extract_pulls host job clients tmp t e = ground arith

after_pull-IsDone :
    (host : Host) (job : Job) (clients : List Device) (tmp : Text)
    (r : Option PullError × Bool × Pulls)
    → host.tmp_dir ≡ some tmp
    → pull_clients host (policy_of host job) job.pkg tmp clients false no_pulls ≡ r
    → (after_pull host job clients r).failure ≡ none
    → IsDone host job clients (after_pull host job clients r)
unfolding after_pull
after_pull-IsDone host job clients tmp (some e, is_split, st) m s k = cc
after_pull-IsDone host job clients tmp (none, is_split, st) m s k = go st.collected refl k
  where
    end : List (Text × Text) → Extraction
    end c = elim c [
      | [] ↦ failed nothing_collected host.folder
      | x ∷ xs ↦ finish host job is_split (bundle host job clients is_split st)
    ]

    go :
        (c : List (Text × Text))
        → st.collected ≡ c
        → (end c).failure ≡ none
        → IsDone host job clients (end c)
    go [] e f = cc
    go (x ∷ xs) e f =
        finish-IsDone host job clients tmp is_split (content_of host job clients is_split st) m
          (is_archive-content_of host job clients is_split st)
          (content_of-IsMadeFrom host job tmp clients (none, is_split, st) s refl (λ n. cc (e, n))
            is_split refl)
          (bundle host job clients is_split st) (bundle-IsWrite host job clients is_split st) f

-- An extraction without error has put a document at a name given by the version code and by
-- whether it is an archive. It is made of files that connected emulators list for the package and
-- gave, each within the size limit, if its size is known, and with its signature verified, if a
-- certificate is expected: a copy of one such file, and no connected emulator lists more than one
-- path; or an archive of such files, not empty, with an entry for each path that a connected
-- emulator lists, under its safe name, and a manifest with the package, the version, the ABIs and
-- the names of the entries. Its sum is beside it, and a latest.json that names it; no temporary
-- file is left and no other file is changed before the pruning to three versions, after which
-- latest.json is still there. The sink was called once, with the package, the version, the path
-- and the sum.
pub extract-IsDone :
    (host : Host) (job : Job) (clients : List Device)
    → (extract host job clients).failure ≡ none
    → IsDone host job clients (extract host job clients)
extract-IsDone host job clients h = elim (Bool-cases (host.pkg_dir_ok && host.tmp_base_ok)) [
  | inr f ↦ absurd (unfold extract in ground arith)
  | inl t ↦ elim (Option-cases host.tmp_dir) [
    | inl e ↦ absurd (unfold extract in ground arith)
    | inr (tmp, e) ↦
        let same = extract_pulls host job clients tmp t e in
        rw same
          (after_pull-IsDone host job clients tmp _ e refl (ap (λ x. x.failure) (sym same) ∙ h))
  ]
]
