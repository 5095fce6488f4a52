-- ===== src/Extractor/Prune/Names.antt =====
-- The names that a pruning can remove.
use play_apk_distributor.Prelude.{
  ℕ, ◌≡◌, refl, ap, ◌∙◌, inl, inr, false, List, [], ◌∷◌, ◌++◌, none, some, arith, Bool-cases,
  Option-cases, All, drop,
}
use play_apk_distributor.Text.{Text, codes, cut_suffix, has_suffix, text_eq, or_else}
use play_apk_distributor.Text.Laws.{text_eq_iff, cut_suffix-append}
use play_apk_distributor.NameSet.{has}
use play_apk_distributor.Signing.{DirEntry}
use play_apk_distributor.Extractor.Folder.{latest_name}
use play_apk_distributor.Extractor.Prune.{
  Versioned, extension, version_of, versioned_files, sort_versions, doomed, prune_old_versions,
}
use play_apk_distributor.Extractor.Prune.Laws.{All-drop, insert_version-All}

-- neither a versioned file nor the checksum file of one
pub record IsPlain (n : Text) : Type 0 where
  pub no_version : version_of n ≡ none
  pub no_sidecar : (b : Text) → cut_suffix n (codes ".sha256") ≡ some b → version_of b ≡ none

-- a file whose version is read from its name
IsVersioned : Versioned → Type 0
IsVersioned v = version_of v.name ≡ some v

version_of-name : (n : Text) (v : Versioned) → version_of n ≡ some v → v.name ≡ n
unfolding version_of extension
version_of-name n v h = ground arith

versioned_files-IsVersioned : (es : List DirEntry) → All IsVersioned (versioned_files es)
unfolding versioned_files IsVersioned
versioned_files-IsVersioned [] = tt
versioned_files-IsVersioned (e ∷ es) =
    let rest = versioned_files-IsVersioned es in
    elim (Bool-cases e.is_dir) [
      | inl d ↦ rw d rest
      | inr d ↦ elim (Option-cases (version_of e.name)) [
        | inl n ↦ rw d (rw n rest)
        | inr (v, n) ↦ rw d (rw n ((ap version_of (version_of-name e.name v n) ∙ n), rest))
      ]
    ]

sort_versions-IsVersioned :
    (vs : List Versioned) → All IsVersioned vs → All IsVersioned (sort_versions vs)
unfolding sort_versions
sort_versions-IsVersioned [] h = tt
sort_versions-IsVersioned (v ∷ vs) (p, h) =
    insert_version-All IsVersioned v (sort_versions vs) p (sort_versions-IsVersioned vs h)

plain-doomed :
    (n : Text) (vs : List Versioned) → IsPlain n → All IsVersioned vs → has n (doomed vs) ≡ false
unfolding doomed has IsVersioned
plain-doomed n [] p h = refl
plain-doomed n (v ∷ vs) p (e, h) = ground (
  arith,
  plain-doomed n vs p h,
  text_eq_iff n v.name,
  text_eq_iff n (v.name ++ codes ".sha256"),
  p.no_version,
  p.no_sidecar v.name,
  cut_suffix-append v.name (codes ".sha256"),
)

pub latest-IsPlain : IsPlain latest_name
unfolding version_of extension has_suffix cut_suffix text_eq
latest-IsPlain = record { no_version = refl; no_sidecar = λ b h. cc }

-- a pruning leaves every plain name alone
pub prune_old_versions-plain :
    (es : List DirEntry) (keep : ℕ) (n : Text)
    → IsPlain n
    → has n (or_else (prune_old_versions (some es) keep) []) ≡ false
unfolding prune_old_versions has
prune_old_versions-plain es keep n p =
    let vs = sort_versions (versioned_files es) in
    let good = sort_versions-IsVersioned (versioned_files es) (versioned_files-IsVersioned es) in
    ground (arith, plain-doomed n (drop keep vs) p (All-drop IsVersioned keep vs good))
