-- ===== src/Extractor/Run/Content.antt =====
-- What the bundling of an extraction writes.
use play_apk_distributor.Prelude.{
  ◌≡◌, ◌≢◌, ◌≤◌, inl, inr, refl, ap, sym, ◌∙◌, Bool, true, false, map, List, [], ◌∷◌, Option, none,
  some, arith, All, length,
}
use mathlib.Core.Path.{subst}
use play_apk_distributor.Text.{Text}
use play_apk_distributor.Text.Laws.{text_eq_refl}
use play_apk_distributor.Decimal.{itoa}
use play_apk_distributor.NameSet.{has, sort_texts}
use play_apk_distributor.NameMap.{lookup, keys}
use play_apk_distributor.Device.{Device}
use play_apk_distributor.Extractor.Filename.{named, safe_filename}
use play_apk_distributor.Extractor.Pull.{Pulls, PullError, Policy}
use play_apk_distributor.Extractor.Pull.Complete.{IsCollected}
use play_apk_distributor.Extractor.Folder.{SplitEntry, Manifest, Document, copy_of, archive}
use play_apk_distributor.Extractor.Bundle.{
  BundleIo, first_local, write_single_apk, apk_name, split_entries, manifest_of,
}
use play_apk_distributor.Extractor.Bundle.Laws.{
  IsWrite, archive_of, atomic_copy-IsWrite, write_xapk-IsWrite, entries_for, entries_for-All,
  entries_for-names, entries_for-has, first_local-found,
}
use play_apk_distributor.Extractor.Run.{
  Host, Job, policy_of, pull_clients, no_pulls, bundle, output_name,
}
use play_apk_distributor.Extractor.Run.Clients.{
  FromSome, AllListed, pull_clients-Grows, pull_clients_done, pull_clients_single,
}

pub is_archive : Document → Bool
is_archive (copy_of src) = false
is_archive (archive entries manifest) = true

-- what the bundling writes when no call fails
pub content_of : Host → Job → List Device → Bool → Pulls → Document
content_of host job clients true st =
    archive_of host.bundle job.pkg job.code job.name st.collected
      (map (λ (d : Device). d.abi) clients)
content_of host job clients false st = copy_of (first_local host.bundle.picked st.collected)

pub bundle-IsWrite :
    (host : Host) (job : Job) (clients : List Device) (is_split : Bool) (st : Pulls)
    → IsWrite
        (output_name job is_split)
        (content_of host job clients is_split st)
        host.folder
        (bundle host job clients is_split st)
unfolding bundle write_single_apk content_of
bundle-IsWrite host job clients true st =
    write_xapk-IsWrite host.bundle job.pkg job.code job.name st.collected
      (map (λ (d : Device). d.abi) clients) host.folder
bundle-IsWrite host job clients false st =
    atomic_copy-IsWrite host.bundle (first_local host.bundle.picked st.collected)
      (apk_name job.code) host.folder

pub is_archive-content_of :
    (host : Host) (job : Job) (clients : List Device) (is_split : Bool) (st : Pulls)
    → is_archive (content_of host job clients is_split st) ≡ is_split
unfolding content_of is_archive
is_archive-content_of host job clients true st = refl
is_archive-content_of host job clients false st = refl

-- the path was pulled to one of the entries, under its safe name
abbrev pub IsEntry : List (Text × Text) → Text → Type 0
IsEntry entries path =
    (name : Text) × (safe_filename path ≡ named name) × (has name (keys entries) ≡ true)

-- the manifest tells of the job, the emulators and the entries
pub record IsManifestOf (job : Job) (clients : List Device) (entries : List (Text × Text))
    (m : Manifest) : Type 0 where
  pub package_name : m.package_name ≡ job.pkg
  pub version_code : m.version_code ≡ itoa job.code
  pub version_name : m.version_name ≡ job.name
  pub architectures : m.architectures ≡ map (λ (d : Device). d.abi) clients
  pub files : map (λ (e : SplitEntry). e.file) m.split_apks ≡ keys entries

-- the archive holds files pulled from the clients that passed every check, one for each path that a
-- connected client lists
pub record IsArchiveOf (policy : Policy) (job : Job) (tmp : Text) (clients : List Device)
    (entries : List (Text × Text)) (m : Manifest) : Type 0 where
  pub checked : All (λ (e : Text × Text). FromSome policy job.pkg tmp clients e.0 e.1) entries
  pub complete : AllListed (All (IsEntry entries)) job.pkg clients
  pub some_entry : entries ≢ []
  pub manifest : IsManifestOf job clients entries m

-- a copy is one such file, and no connected client lists more than one path
abbrev pub IsMadeFrom : Policy → Job → Text → List Device → Document → Type 0
IsMadeFrom policy job tmp clients (copy_of src) =
    ((name : Text) × FromSome policy job.pkg tmp clients name src)
    × AllListed (λ paths. length paths ≤ 1) job.pkg clients
IsMadeFrom policy job tmp clients (archive entries m) = IsArchiveOf policy job tmp clients entries m

split_entries-files : (ns : List Text) → map (λ (e : SplitEntry). e.file) (split_entries ns) ≡ ns
unfolding split_entries
split_entries-files [] = refl
split_entries-files (n ∷ ns) = ap (◌∷◌ n) (split_entries-files ns)

entries_for-ne-nil :
    (io : BundleIo) (collected : List (Text × Text))
    → collected ≢ []
    → entries_for io collected ≢ []
entries_for-ne-nil io [] n e = n refl
entries_for-ne-nil io ((f, l) ∷ c) n e =
    let found =
      entries_for-has io ((f, l) ∷ c) f l (unfold lookup in ground (arith, text_eq_refl f)) in
    absurd (unfold has in cc)

Listed-IsEntry :
    (io : BundleIo) (st : Pulls) (paths : List Text)
    → All (IsCollected st) paths
    → All (IsEntry (entries_for io st.collected)) paths
Listed-IsEntry io st [] h = tt
Listed-IsEntry io st (p ∷ ps) ((f, l, s, e), h) =
    ((f, s, entries_for-has io st.collected f l e), Listed-IsEntry io st ps h)

AllListed-mono :
    (P Q : List Text → Type 0) (pkg : Text) (ds : List Device)
    → ((paths : List Text) → P paths → Q paths)
    → AllListed P pkg ds
    → AllListed Q pkg ds
AllListed-mono P Q pkg [] h k = tt
AllListed-mono P Q pkg (d ∷ ds) h (k, ks) =
    (λ c paths e. h paths (k c paths e), AllListed-mono P Q pkg ds h ks)

module _ (host : Host) (job : Job) (tmp : Text) (clients : List Device)
    (r : Option PullError × Bool × Pulls)
    (same : pull_clients host (policy_of host job) job.pkg tmp clients false no_pulls ≡ r)
    (fine : r.0 ≡ none) (some_file : r.2.collected ≢ []) where
  collected-FromSome :
      (f l : Text)
      → lookup f r.2.collected ≡ some l
      → FromSome (policy_of host job) job.pkg tmp clients f l
  collected-FromSome f l e =
      let g = pull_clients-Grows host (policy_of host job) job.pkg tmp clients false no_pulls in
      elim (g.0 f l (ap (λ x. lookup f x.2.collected) same ∙ e)) [
        | inl old ↦ absurd (unfold lookup in cc)
        | inr new ↦ new
      ]

  made_archive :
      IsArchiveOf (policy_of host job) job tmp clients (entries_for host.bundle r.2.collected) (
        manifest_of job.pkg job.code job.name
          (sort_texts (keys r.2.collected))
          (map (λ (d : Device). d.abi) clients))
  unfolding manifest_of
  made_archive = record {
    checked =
        entries_for-All (FromSome (policy_of host job) job.pkg tmp clients) host.bundle
          r.2.collected collected-FromSome;
    complete =
        AllListed-mono (All (IsCollected r.2))
          (All (IsEntry (entries_for host.bundle r.2.collected))) job.pkg clients
          (Listed-IsEntry host.bundle r.2)
          (subst (λ x. AllListed (All (IsCollected x)) job.pkg clients) (ap (λ x. x.2) same)
            (pull_clients_done host (policy_of host job) job.pkg tmp clients false no_pulls
              (ap (λ x. x.0) same ∙ fine)));
    some_entry = entries_for-ne-nil host.bundle r.2.collected some_file;
    manifest = record {
      package_name = refl;
      version_code = refl;
      version_name = refl;
      architectures = refl;
      files =
          split_entries-files (sort_texts (keys r.2.collected))
          ∙ sym (entries_for-names host.bundle r.2.collected);
    };
  }

  -- what the bundling writes is made from all that the clients list
  pub content_of-IsMadeFrom :
      (is_split : Bool)
      → r.1 ≡ is_split
      → IsMadeFrom (policy_of host job) job tmp clients (content_of host job clients is_split r.2)
  unfolding content_of
  content_of-IsMadeFrom true k = made_archive
  content_of-IsMadeFrom false k = (
    first_local-found (FromSome (policy_of host job) job.pkg tmp clients) host.bundle.picked
        r.2.collected collected-FromSome some_file,
    pull_clients_single host (policy_of host job) job.pkg tmp clients false no_pulls
        (ap (λ x. x.0) same ∙ fine) (ap (λ x. x.1) same ∙ k),
  )
