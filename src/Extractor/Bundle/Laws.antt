-- ===== src/Extractor/Bundle/Laws.antt =====
-- What a write of an output file does to the directory, and what is in the file then.
use play_apk_distributor.Prelude.{
  ℕ, zero, suc, ◌≡◌, ◌≢◌, refl, ap, sym, ◌∙◌, inl, inr, Bool, true, List, [], ◌∷◌, Option, none,
  some, arith, All, Bool-cases, Option-cases,
}
use play_apk_distributor.Prelude.Int.{ℤ}
use play_apk_distributor.Text.{Text, is_some}
use play_apk_distributor.Text.Laws.{text_eq_refl}
use play_apk_distributor.NameSet.{has, sort_texts}
use play_apk_distributor.NameSet.Sorting.{has-sort_texts}
use play_apk_distributor.NameMap.{lookup, insert, keys}
use play_apk_distributor.NameMap.Laws.{has-keys}
use play_apk_distributor.Extractor.Folder.{
  Document, copy_of, archive, File, document, unfinished, Folder, tmp_of, remove_file,
}
use play_apk_distributor.Extractor.Folder.Names.{tmp_of-ne}
use play_apk_distributor.Extractor.Folder.Laws.{
  Touches, Touches-refl, Touches-trans, insert-Touches, remove_file-Touches, commit_file-Touches,
  commit_file_failed, commit_file_done,
}
use play_apk_distributor.Extractor.Bundle.{
  BundleError, BundleIo, pick, first_local, xapk_name, commit_output, atomic_copy, write_xapk,
  add_entries, manifest_of, close_archive,
}

-- a write of this document: all of it, or none of it
pub record IsWrite (name : Text) (d : Document) (old : Folder) (r : Option BundleError × Folder)
    : Type 0 where
  pub kept : (e : BundleError) → r.0 ≡ some e → Touches (tmp_of name ∷ []) old r.1
  pub changed : Touches (name ∷ tmp_of name ∷ []) old r.1
  pub done : r.0 ≡ none → (lookup name r.1 ≡ some (document d)) × (lookup (tmp_of name) r.1 ≡ none)

stopped-IsWrite :
    (name : Text) (d : Document) (old : Folder) (e : BundleError) (fs : Folder)
    → Touches (tmp_of name ∷ []) old fs
    → IsWrite name d old (some e, fs)
stopped-IsWrite name d old e fs h = record {
  kept = λ x k. h;
  changed = λ n k. h n (unfold has in ground arith);
  done = λ k. cc;
}

-- the temporary file is removed, or stays
give_up-Touches :
    (removed : Bool) (tmp : Text) (f : File) (fs : Folder)
    → Touches (tmp ∷ []) fs (remove_file removed tmp (insert tmp f fs))
give_up-Touches removed tmp f fs =
    let here : has tmp (tmp ∷ []) ≡ true = unfold has in ground (arith, text_eq_refl tmp) in
    Touches-trans (tmp ∷ []) fs (insert tmp f fs) _ (insert-Touches (tmp ∷ []) tmp f fs here)
      (remove_file-Touches (tmp ∷ []) removed tmp (insert tmp f fs) here)

commit_output-IsWrite :
    (io : BundleIo) (name : Text) (d : Document) (fs : Folder)
    → IsWrite name d fs (commit_output io name (document d) (insert (tmp_of name) (document d) fs))
unfolding commit_output
commit_output-IsWrite io name d fs =
    let tmp = tmp_of name in
    let fs' = insert tmp (document d) fs in
    let one : has tmp (tmp ∷ []) ≡ true = unfold has in ground (arith, text_eq_refl tmp) in
    let two : has tmp (name ∷ tmp ∷ []) ≡ true = unfold has in ground (arith, text_eq_refl tmp) in
    let top : has name (name ∷ tmp ∷ []) ≡ true = unfold has in ground (arith, text_eq_refl name) in
    record {
      kept = λ e k.
          Touches-trans (tmp ∷ []) fs fs' _ (insert-Touches (tmp ∷ []) tmp (document d) fs one) (
            commit_file_failed (tmp ∷ []) io.renamed io.removed tmp name (document d) fs' one
              (ground arith));
      changed =
          Touches-trans (name ∷ tmp ∷ []) fs fs' _
            (insert-Touches (name ∷ tmp ∷ []) tmp (document d) fs two)
            (commit_file-Touches (name ∷ tmp ∷ []) io.renamed io.removed tmp name (document d) fs'
              two top);
      done = λ k.
          commit_file_done io.renamed io.removed tmp name (document d) fs' (tmp_of-ne name)
            (ground arith);
    }

pub atomic_copy-IsWrite :
    (io : BundleIo) (src name : Text) (fs : Folder)
    → IsWrite name (copy_of src) fs (atomic_copy io src name fs)
unfolding atomic_copy
atomic_copy-IsWrite io src name fs = elim (Bool-cases io.source_opened) [
  | inr f ↦ rw f (stopped-IsWrite name (copy_of src) fs _ fs (Touches-refl _ fs))
  | inl a ↦ elim (Bool-cases io.tmp_opened) [
    | inr f ↦ rw a (rw f (stopped-IsWrite name (copy_of src) fs _ fs (Touches-refl _ fs)))
    | inl b ↦ elim (Bool-cases io.copied) [
      | inr f ↦ rw a (
          rw b (
            rw f (
              stopped-IsWrite name (copy_of src) fs _ _
                (give_up-Touches io.removed (tmp_of name) unfinished fs))))
      | inl c ↦ rw a (rw b (rw c (commit_output-IsWrite io name (copy_of src) fs)))
    ]
  ]
]

-- what `writeXAPK` writes when no call fails
abbrev pub archive_of : BundleIo → Text → ℤ → Text → List (Text × Text) → List Text → Document
archive_of io pkg code name collected abis =
    let filenames = sort_texts (keys collected) in
    archive (add_entries io collected filenames).1 (manifest_of pkg code name filenames abis)

pub write_xapk-IsWrite :
    (io : BundleIo) (pkg : Text) (code : ℤ) (name : Text) (collected : List (Text × Text))
    (abis : List Text) (fs : Folder)
    → IsWrite
        (xapk_name code)
        (archive_of io pkg code name collected abis)
        fs
        (write_xapk io pkg code name collected abis fs)
unfolding write_xapk
write_xapk-IsWrite io pkg code name collected abis fs =
    let d = archive_of io pkg code name collected abis in
    let out = xapk_name code in
    let given_up = give_up-Touches io.removed (tmp_of out) unfinished fs in
    elim (Bool-cases io.tmp_opened) [
      | inr f ↦ rw f (stopped-IsWrite out d fs _ fs (Touches-refl _ fs))
      | inl a ↦ elim (Option-cases (add_entries io collected (sort_texts (keys collected))).0) [
        | inr (x, f) ↦ rw a (rw f (stopped-IsWrite out d fs x _ given_up))
        | inl b ↦ elim (Option-cases (close_archive io)) [
          | inr (x, f) ↦ rw a (rw b (rw f (stopped-IsWrite out d fs x _ given_up)))
          | inl c ↦ rw a (rw b (rw c (commit_output-IsWrite io out d fs)))
        ]
      ]
    ]

-- the names in the archive are those asked for
add_entries-names :
    (io : BundleIo) (collected : List (Text × Text)) (ns : List Text)
    → keys (add_entries io collected ns).1 ≡ ns
unfolding add_entries
add_entries-names io collected [] = refl
add_entries-names io collected (n ∷ ns) = ap (◌∷◌ n) (add_entries-names io collected ns)

-- each entry holds the local file that is collected under its name
pub add_entries-All :
    (P : Text → Text → Type 0) (io : BundleIo) (collected : List (Text × Text)) (ns : List Text)
    → ((f l : Text) → lookup f collected ≡ some l → P f l)
    → ((n : Text) → has n ns ≡ true → has n (keys collected) ≡ true)
    → All (λ (e : Text × Text). P e.0 e.1) (add_entries io collected ns).1
unfolding add_entries has
add_entries-All P io collected [] h k = tt
add_entries-All P io collected (n ∷ ns) h k = (
  elim (Option-cases (lookup n collected)) [
    | inr (l, e) ↦ rw e (h n l e)
    | inl e ↦ absurd (ground (arith, k n, text_eq_refl n, has-keys n collected))
  ],
  add_entries-All P io collected ns h (λ m j. k m (ground arith)),
)

-- the entries of the archive that `writeXAPK` makes
abbrev pub entries_for : BundleIo → List (Text × Text) → List (Text × Text)
entries_for io collected = (add_entries io collected (sort_texts (keys collected))).1

pub entries_for-All :
    (P : Text → Text → Type 0) (io : BundleIo) (collected : List (Text × Text))
    → ((f l : Text) → lookup f collected ≡ some l → P f l)
    → All (λ (e : Text × Text). P e.0 e.1) (entries_for io collected)
entries_for-All P io collected h =
    add_entries-All P io collected (sort_texts (keys collected)) h
      (λ n k. sym (has-sort_texts n (keys collected)) ∙ k)

pub entries_for-names :
    (io : BundleIo) (collected : List (Text × Text))
    → keys (entries_for io collected) ≡ sort_texts (keys collected)
entries_for-names io collected = add_entries-names io collected (sort_texts (keys collected))

-- and no collected file is left out
pub entries_for-has :
    (io : BundleIo) (collected : List (Text × Text)) (f l : Text)
    → lookup f collected ≡ some l
    → has f (keys (entries_for io collected)) ≡ true
entries_for-has io collected f l e =
    ap (has f) (entries_for-names io collected)
    ∙ has-sort_texts f (keys collected)
    ∙ has-keys f collected
    ∙ ap is_some e

has-pick : (n : ℕ) (x : Text) (xs : List Text) → has (pick n (x ∷ xs)) (x ∷ xs) ≡ true
unfolding pick has
has-pick n x [] = ground (arith, text_eq_refl x)
has-pick zero x (y ∷ ys) = ground (arith, text_eq_refl x)
has-pick (suc n) x (y ∷ ys) = ground (arith, has-pick n y ys)

pub first_local-found :
    (P : Text → Text → Type 0) (n : ℕ) (collected : List (Text × Text))
    → ((f l : Text) → lookup f collected ≡ some l → P f l)
    → collected ≢ []
    → (name : Text) × P name (first_local n collected)
unfolding first_local
first_local-found P n [] h k = absurd (k refl)
first_local-found P n ((f, l) ∷ c) h k =
    let all = (f, l) ∷ c in
    let name = pick n (keys all) in
    elim (Option-cases (lookup name all)) [
      | inr (local, e) ↦ (name, rw e (h name local e))
      | inl e ↦ absurd (ground (arith, has-pick n f (keys c), has-keys name all))
    ]
