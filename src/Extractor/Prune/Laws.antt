-- ===== src/Extractor/Prune/Laws.antt =====
-- Which files survive a pruning.
use Prim.Native.Nat.{min}
use play_apk_distributor.Prelude.{
  ℕ, zero, suc, ◌≤◌, ◌≡◌, refl, ap, sym, ◌∙◌, inl, inr, true, false, List, [], ◌∷◌, ◌++◌, some,
  arith, All, Bool-cases, length, take, drop, length-take, take-append-drop, leb,
}
use play_apk_distributor.Prelude.Int.{ℤ, pos, negsuc, ltb_ℤ}
use mathlib.Core.List.{Perm}
use mathlib.Core.List.Perm
use play_apk_distributor.Text.{Text}
use play_apk_distributor.Signing.{DirEntry}
use play_apk_distributor.Extractor.Prune.{
  Versioned, versioned_files, insert_version, sort_versions, doomed, prune_old_versions,
}

-- the code of the first file is not below that of the second
abbrev pub NotOlder : Versioned → Versioned → Type 0
NotOlder v w = ltb_ℤ v.code w.code ≡ false

abbrev pub IsDescending : List Versioned → Type 0
IsDescending [] = Unit
IsDescending (v ∷ vs) = All (NotOlder v) vs × IsDescending vs

ltb_ℤ_trans : (a b c : ℤ) → ltb_ℤ a b ≡ false → ltb_ℤ b c ≡ false → ltb_ℤ a c ≡ false
ltb_ℤ_trans (pos a) (pos b) (pos c) h k = ground arith
ltb_ℤ_trans (pos a) (pos b) (negsuc c) h k = refl
ltb_ℤ_trans (pos a) (negsuc b) (pos c) h k = cc
ltb_ℤ_trans (pos a) (negsuc b) (negsuc c) h k = refl
ltb_ℤ_trans (negsuc a) (pos b) c h k = cc
ltb_ℤ_trans (negsuc a) (negsuc b) (pos c) h k = cc
ltb_ℤ_trans (negsuc a) (negsuc b) (negsuc c) h k = ground arith

ltb_ℤ_asymm : (a b : ℤ) → ltb_ℤ a b ≡ true → ltb_ℤ b a ≡ false
ltb_ℤ_asymm (pos a) (pos b) h = ground arith
ltb_ℤ_asymm (pos a) (negsuc b) h = cc
ltb_ℤ_asymm (negsuc a) (pos b) h = refl
ltb_ℤ_asymm (negsuc a) (negsuc b) h = ground arith

All-below :
    (v w : Versioned) (ws : List Versioned)
    → NotOlder v w
    → All (NotOlder w) ws
    → All (NotOlder v) ws
All-below v w [] h k = tt
All-below v w (x ∷ ws) h (k, ks) = (ltb_ℤ_trans v.code w.code x.code h k, All-below v w ws h ks)

pub insert_version-All :
    (P : Versioned → Type 0) (v : Versioned) (ws : List Versioned)
    → P v
    → All P ws
    → All P (insert_version v ws)
unfolding insert_version
insert_version-All P v [] p h = (p, tt)
insert_version-All P v (w ∷ ws) p (q, h) = elim (Bool-cases (ltb_ℤ v.code w.code)) [
  | inl less ↦ rw less (q, insert_version-All P v ws p h)
  | inr not_less ↦ rw not_less (p, (q, h))
]

insert_version-IsDescending :
    (v : Versioned) (ws : List Versioned) → IsDescending ws → IsDescending (insert_version v ws)
unfolding insert_version
insert_version-IsDescending v [] h = (tt, tt)
insert_version-IsDescending v (w ∷ ws) (low, h) = elim (Bool-cases (ltb_ℤ v.code w.code)) [
  | inl less ↦ rw less (
    insert_version-All (NotOlder w) v ws (ltb_ℤ_asymm v.code w.code less) low,
    insert_version-IsDescending v ws h,
  )
  | inr not_less ↦ rw not_less ((not_less, All-below v w ws not_less low), (low, h))
]

pub sort_versions-IsDescending : (vs : List Versioned) → IsDescending (sort_versions vs)
unfolding sort_versions
sort_versions-IsDescending [] = tt
sort_versions-IsDescending (v ∷ vs) =
    insert_version-IsDescending v (sort_versions vs) (sort_versions-IsDescending vs)

length-insert_version :
    (v : Versioned) (ws : List Versioned) → length (insert_version v ws) ≡ suc (length ws)
unfolding insert_version
length-insert_version v [] = refl
length-insert_version v (w ∷ ws) = ground (arith, length-insert_version v ws)

pub length-sort_versions : (vs : List Versioned) → length (sort_versions vs) ≡ length vs
unfolding sort_versions
length-sort_versions [] = refl
length-sort_versions (v ∷ vs) =
    length-insert_version v (sort_versions vs) ∙ ap suc (length-sort_versions vs)

pub All-drop : (P : Versioned → Type 0) (n : ℕ) (vs : List Versioned) → All P vs → All P (drop n vs)
All-drop P zero vs h = h
All-drop P (suc n) [] h = h
All-drop P (suc n) (v ∷ vs) (p, h) = All-drop P n vs h

-- whatever is taken from the front of a descending list is not older than what is left
take-NotOlder :
    (n : ℕ) (vs : List Versioned)
    → IsDescending vs
    → All (λ kept. All (NotOlder kept) (drop n vs)) (take n vs)
take-NotOlder zero vs h = tt
take-NotOlder (suc n) [] h = tt
take-NotOlder (suc n) (v ∷ vs) (low, h) = (All-drop (NotOlder v) n vs low, take-NotOlder n vs h)

insert_version-perm : (v : Versioned) (ws : List Versioned) → Perm (insert_version v ws) (v ∷ ws)
unfolding insert_version
insert_version-perm v [] = Perm.rfl
insert_version-perm v (w ∷ ws) = elim (Bool-cases (ltb_ℤ v.code w.code)) [
  | inl less ↦ rw less (Perm.trans (Perm.cons w (insert_version-perm v ws)) (Perm.swap v w ws))
  | inr not_less ↦ rw not_less Perm.rfl
]

sort_versions-perm : (vs : List Versioned) → Perm (sort_versions vs) vs
unfolding sort_versions
sort_versions-perm [] = Perm.rfl
sort_versions-perm (v ∷ vs) =
    Perm.trans (insert_version-perm v (sort_versions vs)) (Perm.cons v (sort_versions-perm vs))

drop_all : (n : ℕ) (vs : List Versioned) → length vs ≤ n → drop n vs ≡ []
drop_all zero [] h = refl
drop_all zero (v ∷ vs) h = absurd (omega arith)
drop_all (suc n) [] h = refl
drop_all (suc n) (v ∷ vs) h = drop_all n vs (omega arith)

doomed_nil : doomed [] ≡ []
unfolding doomed
doomed_nil = refl

pruned :
    (entries : List DirEntry) (keep : ℕ)
    → prune_old_versions (some entries) keep
      ≡ some (doomed (drop keep (sort_versions (versioned_files entries))))
unfolding prune_old_versions
pruned entries keep =
    let files = versioned_files entries in
    elim (Bool-cases (leb (length files) keep)) [
      | inl few ↦ rw few (
          rw (drop_all keep (sort_versions files) (ground (arith, length-sort_versions files)))
            (ap some (sym doomed_nil)))
      | inr many ↦ rw many
    ]

-- what a pruning leaves and removes, of the versioned files of a directory
pub record IsPruned (entries : List DirEntry) (keep : ℕ) (removed : List Text) : Type 0 where
  pub kept : List Versioned
  pub gone : List Versioned
  -- together they are the versioned files
  pub all_files : Perm (kept ++ gone) (versioned_files entries)
  -- what goes goes with its checksum file
  pub removed_files : removed ≡ doomed gone
  pub number : length kept ≡ min keep (length (versioned_files entries))
  pub newest : All (λ k. All (NotOlder k) gone) kept

-- A pruning of a directory that can be read keeps as many versioned files as asked for, or all if
-- there are no more, removes the others with their checksum files, and none that stays has a
-- lower code than one that goes.
pub prune_old_versions-IsPruned :
    (entries : List DirEntry) (keep : ℕ)
    → (removed : List Text) × (prune_old_versions (some entries) keep ≡ some removed)
      × IsPruned entries keep removed
prune_old_versions-IsPruned entries keep =
    let vs = sort_versions (versioned_files entries) in
    (
      doomed (drop keep vs),
      pruned entries keep,
      record {
        kept = take keep vs;
        gone = drop keep vs;
        all_files = rw (take-append-drop keep vs) (sort_versions-perm (versioned_files entries));
        removed_files = refl;
        number =
            length-take keep vs ∙ ap (min keep) (length-sort_versions (versioned_files entries));
        newest = take-NotOlder keep vs (sort_versions-IsDescending (versioned_files entries));
      },
    )
