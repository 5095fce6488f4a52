-- ===== src/Extractor/Pull/Complete.antt =====
-- A pull without error has collected every file that the device named.
use play_apk_distributor.Prelude.{
  ◌≡◌, refl, ap, sym, ◌∙◌, inl, inr, List, [], ◌∷◌, Option, none, some, arith, All, Option-cases,
}
use play_apk_distributor.Text.{Text}
use play_apk_distributor.Text.Laws.{text_eq_iff}
use play_apk_distributor.NameMap.{lookup}
use play_apk_distributor.NameMap.Laws.{lookup-insert}
use play_apk_distributor.NameSet.{include}
use play_apk_distributor.Signing.{join_path}
use play_apk_distributor.Device.{Device, Pulled}
use play_apk_distributor.Extractor.Filename.{Named, named, refused, safe_filename}
use play_apk_distributor.Extractor.Pull.{
  Pulls, PullError, Policy, accept_file, pull_named, pull_one_apk, pull_all, unsafe_path,
}
use play_apk_distributor.Extractor.Pull.Laws.{pull_all-Grows}

-- the file that the path names is in the collection
abbrev pub IsCollected : Pulls → Text → Type 0
IsCollected st path =
    (filename : Text) × (local : Text) × (safe_filename path ≡ named filename)
    × (lookup filename st.collected ≡ some local)

accept_file_done :
    (policy : Policy) (filename local : Text) (p : Pulled) (st : Pulls)
    → (accept_file policy filename local p st).0 ≡ none
    → lookup filename (accept_file policy filename local p st).1.collected ≡ some local
unfolding accept_file
accept_file_done policy filename local p st h =
    ground
      (arith, lookup-insert filename filename local st.collected, text_eq_iff filename filename)

pull_named_done :
    (policy : Policy) (d : Device) (path dir filename : Text) (st : Pulls)
    → (pull_named policy d path dir filename st).0 ≡ none
    → (local : Text) × (lookup filename (pull_named policy d path dir filename st).1.collected
        ≡ some local)
unfolding pull_named
pull_named_done policy d path dir filename st h =
    elim (Option-cases (lookup filename st.collected)) [
      | inr (l, old) ↦ (l, ground arith)
      | inl fresh ↦ elim (Option-cases (d.pull_file path)) [
        | inl failed ↦ absurd (ground arith)
        | inr (p, pulled) ↦
            let start : Pulls = record st {
              on_disk = include (join_path dir filename) st.on_disk;
            } in
            (
              join_path dir filename,
              ground (arith, accept_file_done policy filename (join_path dir filename) p start),
            )
      ]
    ]

pull_one_apk_done :
    (policy : Policy) (d : Device) (path dir : Text) (st : Pulls)
    → (pull_one_apk policy d path dir st).0 ≡ none
    → IsCollected (pull_one_apk policy d path dir st).1 path
unfolding pull_one_apk
pull_one_apk_done policy d path dir st h = go (safe_filename path) refl h
  where
    step : Named → Option PullError × Pulls
    step n = elim n [
      | refused e ↦ (some (unsafe_path e), st)
      | named filename ↦ pull_named policy d path dir filename st
    ]

    go : (n : Named) → safe_filename path ≡ n → (step n).0 ≡ none → IsCollected (step n).1 path
    go (refused e) s k = cc
    go (named filename) s k =
        let (l, e) = pull_named_done policy d path dir filename st k in (filename, l, s, e)

moved :
    (paths : List Text) (a b : Option PullError × Pulls)
    → a ≡ b
    → All (IsCollected b.1) paths
    → All (IsCollected a.1) paths
moved paths a b e h = rw e h

-- After a pull of all paths of a device without error every path has a safe name and is collected
-- under it.
pub pull_all_done :
    (policy : Policy) (d : Device) (dir : Text) (paths : List Text) (st : Pulls)
    → (pull_all policy d dir paths st).0 ≡ none
    → All (IsCollected (pull_all policy d dir paths st).1) paths
pull_all_done policy d dir [] st h = tt
pull_all_done policy d dir (p ∷ ps) st h = elim (Option-cases (pull_one_apk policy d p dir st).0) [
  | inr (e, f) ↦ absurd (unfold pull_all in ground arith)
  | inl f ↦
      let mid = (pull_one_apk policy d p dir st).1 in
      let same : pull_all policy d dir (p ∷ ps) st ≡ pull_all policy d dir ps mid =
        unfold pull_all in ground arith in
      let (filename, l, s, e) = pull_one_apk_done policy d p dir st f in
      moved (p ∷ ps) (pull_all policy d dir (p ∷ ps) st) (pull_all policy d dir ps mid) same (
        (filename, l, s, (pull_all-Grows policy d dir ps mid).1 filename l e),
        pull_all_done policy d dir ps mid (ap (λ r. r.0) (sym same) ∙ h),
      )
]
