-- ===== src/Extractor/Pull/Laws.antt =====
-- What a pull collects was listed by the device and has passed every check; nothing is replaced.
use play_apk_distributor.Prelude.{
  ◌≡◌, inl, inr, refl, Bool, true, ◌&&◌, List, [], ◌∷◌, Option, none, some, arith, Bool-cases,
  Option-cases,
}
use play_apk_distributor.Text.{Text}
use play_apk_distributor.Text.Laws.{text_eq_refl}
use play_apk_distributor.NameSet.{has, include}
use play_apk_distributor.NameMap.{lookup}
use play_apk_distributor.Signing.{join_path}
use play_apk_distributor.Device.{Device, Pulled}
use play_apk_distributor.Extractor.Filename.{Named, named, refused, safe_filename}
use play_apk_distributor.Extractor.Pull.{
  Pulls, PullError, unsafe_path, Policy, exceeds, check_cert, accept_file, pull_named, pull_one_apk,
  pull_all, pull_from_client,
}
use play_apk_distributor.Extractor.Pull.Growth.{
  IsPulled, IsChecked, Grows, same_collected, Grows-trans, Grows-mono, Grows-eq, inserted,
  within_limit, signed_if_expected,
}

module _ (policy : Policy) (d : Device) (device_path dir filename : Text) (p : Pulled) where
  accept_file-Grows :
      (st : Pulls)
      → d.pull_file device_path ≡ some p
      → safe_filename device_path ≡ named filename
      → lookup filename st.collected ≡ none
      → Grows
          (IsPulled policy d (device_path ∷ []) dir)
          st
          (accept_file policy filename (join_path dir filename) p st).1
  unfolding accept_file has
  accept_file-Grows st from_device safe_name fresh =
      let P = IsPulled policy d (device_path ∷ []) dir in
      let end = (accept_file policy filename (join_path dir filename) p st).1 in
      elim (Bool-cases (exceeds p.size policy.max_bytes)) [
        | inl large ↦ same_collected P st end (ground arith)
        | inr small ↦ elim (Option-cases (check_cert policy p)) [
          | inr (x, bad) ↦ same_collected P st end (ground arith)
          | inl good ↦
              inserted P filename (join_path dir filename) st end
                (record {
                  device_path = device_path;
                  on_list = ground (arith, text_eq_refl device_path);
                  pulled = p;
                  from_device = from_device;
                  safe_name = safe_name;
                  placed = refl;
                  within = within_limit policy p small;
                  signed = signed_if_expected policy p good;
                })
                fresh (ground arith)
        ]
      ]

module _ (policy : Policy) (d : Device) where
  pull_named-Grows :
      (device_path dir filename : Text) (st : Pulls)
      → safe_filename device_path ≡ named filename
      → Grows
          (IsPulled policy d (device_path ∷ []) dir)
          st
          (pull_named policy d device_path dir filename st).1
  unfolding pull_named
  pull_named-Grows device_path dir filename st safe_name =
      let P = IsPulled policy d (device_path ∷ []) dir in
      let after = (pull_named policy d device_path dir filename st).1 in
      elim (Option-cases (lookup filename st.collected)) [
        | inr (l, old) ↦ same_collected P st after (ground arith)
        | inl fresh ↦ elim (Option-cases (d.pull_file device_path)) [
          | inl failed ↦ same_collected P st after (ground arith)
          | inr (p, pulled) ↦
              let start : Pulls = record st {
                on_disk = include (join_path dir filename) st.on_disk;
              } in
              let end = (accept_file policy filename (join_path dir filename) p start).1 in
              Grows-eq P st end after
                (Grows-trans P st start end (same_collected P st start refl) (
                  accept_file-Grows policy d device_path dir filename p start pulled safe_name
                    fresh))
                (ground arith)
        ]
      ]

  pull_one_apk-Grows :
      (device_path dir : Text) (st : Pulls)
      → Grows
          (IsPulled policy d (device_path ∷ []) dir)
          st
          (pull_one_apk policy d device_path dir st).1
  unfolding pull_one_apk
  pull_one_apk-Grows device_path dir st = go (safe_filename device_path) refl
    where
      go :
          (n : Named)
          → safe_filename device_path ≡ n
          → Grows
              (IsPulled policy d (device_path ∷ []) dir)
              st
              (elim n as (λ x. Option PullError × Pulls) [
                | refused e ↦ (some (unsafe_path e), st)
                | named filename ↦ pull_named policy d device_path dir filename st
              ]).1
      go (refused e) h = same_collected (IsPulled policy d (device_path ∷ []) dir) st st refl
      go (named filename) h = pull_named-Grows device_path dir filename st h

  IsPulled-mono :
      (dir : Text) (ps qs : List Text)
      → ((p : Text) → has p ps ≡ true → has p qs ≡ true)
      → (f l : Text) → IsPulled policy d ps dir f l
      → IsPulled policy d qs dir f l
  IsPulled-mono dir ps qs h f l c = record {
    device_path = c.device_path;
    on_list = h c.device_path c.on_list;
    pulled = c.pulled;
    from_device = c.from_device;
    safe_name = c.safe_name;
    placed = c.placed;
    within = c.within;
    signed = c.signed;
  }

  pub pull_all-Grows :
      (dir : Text) (paths : List Text) (st : Pulls)
      → Grows (IsPulled policy d paths dir) st (pull_all policy d dir paths st).1
  unfolding pull_all has
  pull_all-Grows dir [] st = same_collected (IsPulled policy d [] dir) st st refl
  pull_all-Grows dir (p ∷ ps) st =
      let P = IsPulled policy d (p ∷ ps) dir in
      let mid = (pull_one_apk policy d p dir st).1 in
      let first : Grows P st mid =
        Grows-mono (IsPulled policy d (p ∷ []) dir) P st mid
          (IsPulled-mono dir (p ∷ []) (p ∷ ps) (λ q k. ground arith))
          (pull_one_apk-Grows p dir st) in
      let more : Grows P mid (pull_all policy d dir ps mid).1 =
        Grows-mono (IsPulled policy d ps dir) P mid (pull_all policy d dir ps mid).1
          (IsPulled-mono dir ps (p ∷ ps) (λ q k. ground arith)) (pull_all-Grows dir ps mid) in
      elim (Option-cases (pull_one_apk policy d p dir st).0) [
        | inr (e, h) ↦ Grows-eq P st mid (pull_all policy d dir (p ∷ ps) st).1 first (ground arith)
        | inl h ↦
            Grows-eq P st (pull_all policy d dir ps mid).1 (pull_all policy d dir (p ∷ ps) st).1
              (Grows-trans P st mid (pull_all policy d dir ps mid).1 first more) (ground arith)
      ]

  -- With or without an error, what a pull from a device adds to the collection is a file that
  -- this device, being connected, lists for the package and gave: it is collected under the safe
  -- base name of its path, in the directory of the ABI of the device, is within the size limit,
  -- if its size is known, and has its signature verified, if a certificate is expected. Every
  -- file collected before is still there, at the same local path.
  pub pull_from_client-Grows :
      (pkg tmp_dir : Text) (made : Bool) (st : Pulls)
      → Grows (IsChecked policy pkg tmp_dir d) st (pull_from_client policy d pkg tmp_dir made st).2
  unfolding pull_from_client
  pull_from_client-Grows pkg tmp_dir made st = elim (Option-cases (d.apk_paths pkg)) [
    | inl e ↦ Grows-eq P st st end (same_collected P st st refl) (ground arith)
    | inr (paths, e) ↦ elim (Bool-cases (d.connected && made)) [
      | inr f ↦ Grows-eq P st st end (same_collected P st st refl) (ground arith)
      | inl t ↦
          let dir = join_path tmp_dir d.abi in
          let all = (pull_all policy d dir paths st).1 in
          Grows-eq P st all end
            (Grows-mono (IsPulled policy d paths dir) P st all
              (λ f l c. record { online = ground arith; paths = paths; listed = e; file = c })
              (pull_all-Grows dir paths st))
            (ground arith)
    ]
  ]
    where
      P : Text → Text → Type 0
      P = IsChecked policy pkg tmp_dir d

      end : Pulls
      end = (pull_from_client policy d pkg tmp_dir made st).2
