-- ===== src/Extractor/Run/Failures.antt =====
-- What an extraction that fails leaves behind.
use play_apk_distributor.Prelude.{
  ◌⊎◌, ◌≡◌, refl, ap, sym, ◌∙◌, inl, inr, Bool, false, ◌&&◌, List, [], ◌∷◌, Option, none, some,
  arith, Bool-cases, Option-cases,
}
use play_apk_distributor.Text.{Text}
use play_apk_distributor.NameSet.{has}
use play_apk_distributor.NameMap.{lookup}
use play_apk_distributor.Device.{Device}
use play_apk_distributor.Extractor.Pull.{Pulls, PullError}
use play_apk_distributor.Extractor.Folder.{Folder, Document, tmp_of, sum_of, latest_name}
use play_apk_distributor.Extractor.Folder.Names.{latest-apart, has-none, has-nil, tmp_of-ne}
use play_apk_distributor.Extractor.Folder.Laws.{Touches, Touches-refl}
use play_apk_distributor.Extractor.Bundle.{BundleError}
use play_apk_distributor.Extractor.Bundle.Laws.{IsWrite}
use play_apk_distributor.Extractor.Publish.{write_checksum, write_latest}
use play_apk_distributor.Extractor.Publish.Laws.{write_checksum-Touches, write_latest_failed}
use play_apk_distributor.Extractor.Run.{
  Host, Job, Extraction, ExtractError, checksum_failed, latest_failed, bundle_failed, policy_of,
  pull_clients, failed, finish, after_checksum, bundle, after_pull, no_pulls, extract, no_pkg_dir,
  no_tmp_base, no_tmp_dir, pull_error, nothing_collected, output_name, latest_of, report,
}
use play_apk_distributor.Extractor.Run.Laws.{extract_pulls}
use play_apk_distributor.Extractor.Run.Written.{output-IsOther}
use play_apk_distributor.Extractor.Run.Content.{content_of, bundle-IsWrite}

-- the files that an error may have changed, for an archive or a single APK
pub left_by : Job → Bool → ExtractError → List Text
left_by job is_split no_pkg_dir = []
left_by job is_split no_tmp_base = []
left_by job is_split no_tmp_dir = []
left_by job is_split (pull_error e) = []
left_by job is_split nothing_collected = []
left_by job is_split (bundle_failed e) = tmp_of (output_name job is_split) ∷ []
left_by job is_split checksum_failed =
    output_name job is_split
    ∷ tmp_of (output_name job is_split)
    ∷ sum_of (output_name job is_split)
    ∷ []
left_by job is_split latest_failed =
    tmp_of latest_name
    ∷ output_name job is_split
    ∷ tmp_of (output_name job is_split)
    ∷ sum_of (output_name job is_split)
    ∷ []

-- nothing was reported, latest.json is the old one, and only those files may differ
pub record IsClean (host : Host) (job : Job) (e : ExtractError) (x : Extraction) : Type 0 where
  pub silent : x.artifacts ≡ []
  pub latest : lookup latest_name x.folder ≡ lookup latest_name host.folder
  pub is_split : Bool
  pub rest : Touches (left_by job is_split e) host.folder x.folder

latest-left_by :
    (job : Job) (is_split : Bool) (e : ExtractError)
    → has latest_name (left_by job is_split e) ≡ false
unfolding left_by
latest-left_by job is_split no_pkg_dir = has-nil latest_name
latest-left_by job is_split no_tmp_base = has-nil latest_name
latest-left_by job is_split no_tmp_dir = has-nil latest_name
latest-left_by job is_split (pull_error e) = has-nil latest_name
latest-left_by job is_split nothing_collected = has-nil latest_name
latest-left_by job is_split (bundle_failed e) =
    unfold has in
    ground (arith, latest-apart (output_name job is_split) (output-IsOther job is_split))
latest-left_by job is_split checksum_failed =
    latest-apart (output_name job is_split) (output-IsOther job is_split)
latest-left_by job is_split latest_failed =
    has-none latest_name (tmp_of latest_name) _ (λ e. tmp_of-ne latest_name (sym e))
      (latest-apart (output_name job is_split) (output-IsOther job is_split))

failed-IsClean :
    (host : Host) (job : Job) (e k : ExtractError) (is_split : Bool) (fs : Folder)
    → Touches (left_by job is_split k) host.folder fs
    → (failed k fs).failure ≡ some e
    → IsClean host job e (failed k fs)
failed-IsClean host job e k is_split fs t h = record {
  silent = refl;
  latest = t latest_name (latest-left_by job is_split k);
  is_split = is_split;
  rest = λ n f. t n (ap (λ x. has n (left_by job is_split x)) (same k e h) ∙ f);
}
  where
    same : (a b : ExtractError) → some a ≡ some b → a ≡ b
    same a b h = cc

-- with the directory as it was
early-IsClean :
    (host : Host) (job : Job) (e k : ExtractError)
    → (failed k host.folder).failure ≡ some e
    → IsClean host job e (failed k host.folder)
early-IsClean host job e k h =
    failed-IsClean host job e k false host.folder (Touches-refl (left_by job false k) host.folder) h

after_checksum_failed :
    (host : Host) (job : Job) (is_split : Bool) (r : Option Text × Folder) (e : ExtractError)
    → Touches (left_by job is_split checksum_failed) host.folder r.1
    → (after_checksum host job is_split r).failure ≡ some e
    → IsClean host job e (after_checksum host job is_split r)
unfolding after_checksum report
after_checksum_failed host job is_split (none, fs) e t h =
    failed-IsClean host job e checksum_failed is_split fs t h
after_checksum_failed host job is_split (some sum, fs) e t h =
    let w = write_latest host.publish (latest_of host job is_split) fs in
    elim (Bool-cases w.0) [
      | inl ok ↦ absurd (ground arith)
      | inr f ↦
          let last = write_latest_failed host.publish (latest_of host job is_split) fs f in
          rw f (
            failed-IsClean host job e latest_failed is_split w.1
              (λ n k.
                last n (unfold left_by has in ground arith)
                ∙ t n (unfold left_by has in ground arith))
              (ground arith))
    ]

finish_failed :
    (host : Host) (job : Job) (is_split : Bool) (d : Document) (r : Option BundleError × Folder)
    (e : ExtractError)
    → IsWrite (output_name job is_split) d host.folder r
    → (finish host job is_split r).failure ≡ some e
    → IsClean host job e (finish host job is_split r)
unfolding finish
finish_failed host job is_split d (some x, fs) e w h =
    failed-IsClean host job e (bundle_failed x) is_split fs (unfold left_by in w.kept x refl) h
finish_failed host job is_split d (none, fs) e w h =
    let out = output_name job is_split in
    after_checksum_failed host job is_split (write_checksum host.sha host.publish out fs) e
      (λ n k.
        write_checksum-Touches host.sha host.publish out fs n (unfold left_by has in ground arith)
        ∙ w.changed n (unfold left_by has in ground arith))
      h

after_pull_failed :
    (host : Host) (job : Job) (clients : List Device) (r : Option PullError × Bool × Pulls)
    (e : ExtractError)
    → (after_pull host job clients r).failure ≡ some e
    → IsClean host job e (after_pull host job clients r)
unfolding after_pull
after_pull_failed host job clients (some x, is_split, st) e k =
    failed-IsClean host job e (pull_error x) is_split host.folder (λ n f. refl) k
after_pull_failed host job clients (none, is_split, st) e k = go st.collected k
  where
    end : List (Text × Text) → Extraction
    end c = elim c [
      | [] ↦ failed nothing_collected host.folder
      | x ∷ xs ↦ finish host job is_split (bundle host job clients is_split st)
    ]

    go : (c : List (Text × Text)) → (end c).failure ≡ some e → IsClean host job e (end c)
    go [] f = early-IsClean host job e nothing_collected f
    go (x ∷ xs) f =
        finish_failed host job is_split (content_of host job clients is_split st)
          (bundle host job clients is_split st) e (bundle-IsWrite host job clients is_split st) f

extract_stops :
    (host : Host) (job : Job) (clients : List Device)
    → ((host.pkg_dir_ok && host.tmp_base_ok) ≡ false) ⊎ (host.tmp_dir ≡ none)
    → (k : ExtractError) × (extract host job clients ≡ failed k host.folder)
unfolding extract
extract_stops host job clients h = elim (Bool-cases host.pkg_dir_ok) [
  | inr f ↦ (no_pkg_dir, ground arith)
  | inl t ↦ elim (Bool-cases host.tmp_base_ok) [
    | inr f ↦ (no_tmp_base, ground arith)
    | inl u ↦ elim h [ inl f ↦ absurd (ground arith) | inr f ↦ (no_tmp_dir, ground arith) ]
  ]
]

-- An extraction with an error has called no sink and left latest.json as it was. Before the
-- bundling the directory is as it was; an error of the bundling has changed no file but the
-- temporary one; an error of the checksum has changed at most the output file, its temporary file
-- and its checksum file; an error of latest.json these and the temporary file of latest.json.
pub extract_failed :
    (host : Host) (job : Job) (clients : List Device) (e : ExtractError)
    → (extract host job clients).failure ≡ some e
    → IsClean host job e (extract host job clients)
extract_failed host job clients e h = elim (Bool-cases (host.pkg_dir_ok && host.tmp_base_ok)) [
  | inr f ↦ stops (extract_stops host job clients (inl f))
  | inl t ↦ elim (Option-cases host.tmp_dir) [
    | inl f ↦ stops (extract_stops host job clients (inr f))
    | inr (tmp, f) ↦
        let same = extract_pulls host job clients tmp t f in
        rw same (
          after_pull_failed host job clients
            (pull_clients host (policy_of host job) job.pkg tmp clients false no_pulls) e
            (ap (λ x. x.failure) (sym same) ∙ h))
  ]
]
  where
    stops :
        (k : ExtractError) × (extract host job clients ≡ failed k host.folder)
        → IsClean host job e (extract host job clients)
    stops (k, same) = rw same (early-IsClean host job e k (ap (λ x. x.failure) (sym same) ∙ h))
