-- ===== src/Extractor/Run/Succeeds.antt =====
-- When an extraction has no error.
use play_apk_distributor.Prelude.{
  ◌≡◌, refl, inl, inr, Bool, true, false, ◌||◌, List, [], ◌∷◌, map, Option, none, some, arith, All,
}
use play_apk_distributor.Text.{Text}
use play_apk_distributor.NameMap.{lookup}
use play_apk_distributor.Device.{Device}
use play_apk_distributor.Extractor.Folder.{Document, Folder}
use play_apk_distributor.Extractor.Pull.{Pulls, PullError, Policy, pull_from_client}
use play_apk_distributor.Extractor.Pull.Succeeds.{
  IsReady, SomeServes, pull_from_client_ok, pull_from_client-collects,
}
use play_apk_distributor.Extractor.Bundle.{BundleError}
use play_apk_distributor.Extractor.Bundle.Laws.{IsWrite}
use play_apk_distributor.Extractor.Bundle.Succeeds.{
  IsGoodBundle, write_xapk_ok, write_single_apk_ok,
}
use play_apk_distributor.Extractor.Publish.Succeeds.{
  IsGoodPublish, write_checksum_ok, write_latest_ok,
}
use play_apk_distributor.Extractor.Publish.{write_checksum}
use play_apk_distributor.Extractor.Run.{
  Host, Job, Extraction, failed, nothing_collected, policy_of, pull_clients, finish, after_checksum,
  report, bundle, after_pull, no_pulls, extract, output_name, latest_of,
}
use play_apk_distributor.Extractor.Run.Laws.{extract_pulls}
use play_apk_distributor.Extractor.Run.Clients.{pull_clients-Grows}
use play_apk_distributor.Extractor.Run.Content.{content_of, bundle-IsWrite}

-- every call that an extraction makes of the system succeeds, but for those of the pruning
pub record IsGoodHost (host : Host) : Type 0 where
  pub pkg_dir_ok : host.pkg_dir_ok ≡ true
  pub tmp_base_ok : host.tmp_base_ok ≡ true
  pub tmp : Text
  pub tmp_dir : host.tmp_dir ≡ some tmp
  pub emulator_dirs : (abi : Text) → host.emulator_dir_ok abi ≡ true
  pub bundled : IsGoodBundle host.bundle
  pub published : IsGoodPublish host.publish

bundle_ok :
    (host : Host) (job : Job) (clients : List Device) (is_split : Bool) (st : Pulls)
    → IsGoodBundle host.bundle
    → (bundle host job clients is_split st).0 ≡ none
unfolding bundle
bundle_ok host job clients true st g =
    write_xapk_ok host.bundle job.pkg job.code job.name st.collected
      (map (λ (d : Device). d.abi) clients) host.folder g
bundle_ok host job clients false st g =
    write_single_apk_ok host.bundle job.code st.collected host.folder g

finish_ok :
    (host : Host) (job : Job) (is_split : Bool) (d : Document) (r : Option BundleError × Folder)
    → IsGoodHost host
    → IsWrite (output_name job is_split) d host.folder r
    → r.0 ≡ none
    → (finish host job is_split r).failure ≡ none
unfolding finish after_checksum report
finish_ok host job is_split d (some e, fs) g w n = cc
finish_ok host job is_split d (none, fs) g w n =
    let out = output_name job is_split in
    ground (
      arith,
      write_checksum_ok host.sha host.publish out d fs g.published (w.done n).0,
      write_latest_ok host.publish (latest_of host job is_split)
          (write_checksum host.sha host.publish out fs).1 g.published,
    )

pull_clients_ok :
    (host : Host) (policy : Policy) (pkg tmp : Text) (ds : List Device) (is_split : Bool)
    (st : Pulls)
    → IsGoodHost host
    → All (IsReady policy pkg) ds
    → (pull_clients host policy pkg tmp ds is_split st).0 ≡ none
unfolding pull_clients
pull_clients_ok host policy pkg tmp [] is_split st g h = refl
pull_clients_ok host policy pkg tmp (d ∷ ds) is_split st g (h, hs) =
    let r = pull_from_client policy d pkg tmp true st in
    ground (
      arith,
      g.emulator_dirs d.abi,
      pull_from_client_ok policy d pkg tmp st h,
      pull_clients_ok host policy pkg tmp ds (r.1 || is_split) r.2 g hs,
    )

-- something is collected, before the loop or by a device that serves
HasSome : Pulls → Type 0
HasSome st = (name : Text) × (local : Text) × (lookup name st.collected ≡ some local)

pull_clients-keeps :
    (host : Host) (policy : Policy) (pkg tmp : Text) (ds : List Device) (is_split : Bool)
    (st : Pulls)
    → HasSome st
    → HasSome (pull_clients host policy pkg tmp ds is_split st).2
unfolding HasSome
pull_clients-keeps host policy pkg tmp ds is_split st (name, local, e) =
    (name, local, (pull_clients-Grows host policy pkg tmp ds is_split st).1 name local e)

pull_clients-next :
    (host : Host) (policy : Policy) (pkg tmp : Text) (d : Device) (ds : List Device)
    (is_split : Bool) (st : Pulls)
    → IsGoodHost host
    → IsReady policy pkg d
    → let r = pull_from_client policy d pkg tmp true st in
      pull_clients host policy pkg tmp (d ∷ ds) is_split st
      ≡ pull_clients host policy pkg tmp ds (r.1 || is_split) r.2
unfolding pull_clients
pull_clients-next host policy pkg tmp d ds is_split st g h =
    ground (arith, g.emulator_dirs d.abi, pull_from_client_ok policy d pkg tmp st h)

pull_clients-collects :
    (host : Host) (policy : Policy) (pkg tmp : Text) (ds : List Device) (is_split : Bool)
    (st : Pulls)
    → IsGoodHost host
    → All (IsReady policy pkg) ds
    → SomeServes policy pkg ds
    → HasSome (pull_clients host policy pkg tmp ds is_split st).2
pull_clients-collects host policy pkg tmp [] is_split st g h k = absurd k
pull_clients-collects host policy pkg tmp (d ∷ ds) is_split st g (h, hs) (inl s) =
    rw (pull_clients-next host policy pkg tmp d ds is_split st g h) (
      pull_clients-keeps host policy pkg tmp ds _ _
        (unfold HasSome in pull_from_client-collects policy d pkg tmp st s))
pull_clients-collects host policy pkg tmp (d ∷ ds) is_split st g (h, hs) (inr k) =
    rw (pull_clients-next host policy pkg tmp d ds is_split st g h)
      (pull_clients-collects host policy pkg tmp ds _ _ g hs k)

after_pull_ok :
    (host : Host) (job : Job) (clients : List Device) (r : Option PullError × Bool × Pulls)
    → IsGoodHost host
    → r.0 ≡ none
    → HasSome r.2
    → (after_pull host job clients r).failure ≡ none
unfolding after_pull HasSome
after_pull_ok host job clients (some e, is_split, st) g n h = cc
after_pull_ok host job clients (none, is_split, st) g n (name, local, found) = go st.collected found
  where
    go :
        (c : List (Text × Text))
        → lookup name c ≡ some local
        → (elim c as (λ x. Extraction) [
          | [] ↦ failed nothing_collected host.folder
          | x ∷ xs ↦ finish host job is_split (bundle host job clients is_split st)
        ]).failure
          ≡ none
    go [] f = absurd (unfold lookup in cc)
    go (x ∷ xs) f =
        finish_ok host job is_split (content_of host job clients is_split st)
          (bundle host job clients is_split st) g (bundle-IsWrite host job clients is_split st)
          (bundle_ok host job clients is_split st g.bundled)

pub extract_ok :
    (host : Host) (job : Job) (clients : List Device)
    → IsGoodHost host
    → All (IsReady (policy_of host job) job.pkg) clients
    → SomeServes (policy_of host job) job.pkg clients
    → (extract host job clients).failure ≡ none
extract_ok host job clients g h k =
    let policy = policy_of host job in
    rw
      (extract_pulls host job clients g.tmp (ground (arith, g.pkg_dir_ok, g.tmp_base_ok)) g.tmp_dir)
      (after_pull_ok host job clients _ g
        (pull_clients_ok host policy job.pkg g.tmp clients false no_pulls g h)
        (pull_clients-collects host policy job.pkg g.tmp clients false no_pulls g h k))
