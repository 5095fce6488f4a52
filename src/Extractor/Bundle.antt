-- ===== src/Extractor/Bundle.antt =====
-- `atomicCopy`, `writeSingleAPK` and `writeXAPK` of extractor/extractor.go, on the directory of the
-- package, with the removal of the temporary file on each error.
pub mod Laws
pub mod Succeeds
use play_apk_distributor.Prelude.{
  ℕ, zero, suc, Bool, true, false, not, List, [], ◌∷◌, ◌++◌, Option, none, some, if◌then◌else◌,
}
use play_apk_distributor.Prelude.Int.{ℤ}
use play_apk_distributor.Text.{Text, codes, or_else}
use play_apk_distributor.Decimal.{itoa}
use play_apk_distributor.NameSet.{sort_texts}
use play_apk_distributor.NameMap.{lookup, insert, keys}
use play_apk_distributor.Extractor.Filename.{split_id}
use play_apk_distributor.Extractor.Folder.{
  SplitEntry, Manifest, Document, copy_of, archive, File, document, unfinished, Folder, remove_file,
  commit_file, tmp_of,
}

-- why an output could not be written; the text is the entry
pub data BundleError : Type 0 where
  open_failed source_failed copy_failed rename_failed : BundleError
  entry_not_created entry_not_opened entry_not_copied : Text → BundleError
  manifest_not_marshalled manifest_not_created manifest_not_written : BundleError
  archive_not_closed file_not_closed : BundleError

-- the answers to the calls for one entry of the archive
pub record EntryIo : Type 0 where
  pub created : Bool
  pub opened : Bool
  pub copied : Bool

-- what the calls of one write answer
pub record BundleIo : Type 0 where
  -- where a `range` over the collected files begins
  pub picked : ℕ
  pub source_opened : Bool
  pub tmp_opened : Bool
  pub copied : Bool
  pub entry : Text → EntryIo
  pub marshalled : Bool
  pub manifest_created : Bool
  pub manifest_written : Bool
  pub archive_closed : Bool
  pub file_closed : Bool
  pub renamed : Bool
  -- os.Remove of the temporary file
  pub removed : Bool

-- `if !ok { return e }`, and the checks behind it
abbrev pub ensure : Bool → BundleError → Option BundleError → Option BundleError
ensure true e next = next
ensure false e next = some e

-- an error with the temporary file removed
abbrev pub give_up : BundleIo → Text → BundleError → Folder → Option BundleError × Folder
give_up io tmp e fs = (some e, remove_file io.removed tmp fs)

-- the end of a write: the rename
pub commit_output : BundleIo → Text → File → Folder → Option BundleError × Folder
commit_output io name f fs =
    let (ok, fs') = commit_file io.renamed io.removed (tmp_of name) name f fs in
    (if ok then none else some rename_failed, fs')

-- atomicCopy
pub atomic_copy : BundleIo → Text → Text → Folder → Option BundleError × Folder
unfolding commit_output
atomic_copy io src name fs =
    if not io.source_opened
    then (some source_failed, fs)
    else if not io.tmp_opened
    then (some open_failed, fs)
    else if not io.copied
    then give_up io (tmp_of name) copy_failed (insert (tmp_of name) unfinished fs)
    else commit_output io name (document (copy_of src))
        (insert (tmp_of name) (document (copy_of src)) fs)

abbrev pub apk_name : ℤ → Text
apk_name code = itoa code ++ codes ".apk"

abbrev pub xapk_name : ℤ → Text
xapk_name code = itoa code ++ codes ".xapk"

-- the key at this place of the list, or the last; "" if there is none
pub pick : ℕ → List Text → Text
pick n [] = []
pick n (x ∷ []) = x
pick zero (x ∷ y ∷ ys) = x
pick (suc n) (x ∷ y ∷ ys) = pick n (y ∷ ys)

-- the first file that a `range` over the map finds, whose order Go leaves open: any of its entries
pub first_local : ℕ → List (Text × Text) → Text
unfolding pick
first_local n collected = or_else (lookup (pick n (keys collected)) collected) []

-- writeSingleAPK
unfoldable pub write_single_apk :
    BundleIo → ℤ → List (Text × Text) → Folder → Option BundleError × Folder
unfolding first_local atomic_copy
write_single_apk io code collected fs =
    atomic_copy io (first_local io.picked collected) (apk_name code) fs

-- the loop over the sorted names: the entries written, or the error that stopped it
pub add_entries :
    BundleIo → List (Text × Text) → List Text → Option BundleError × List (Text × Text)
add_entries io collected [] = (none, [])
add_entries io collected (n ∷ ns) =
    let (e, entries) = add_entries io collected ns in
    let here = io.entry n in
    (
      ensure here.created (entry_not_created n)
          (ensure here.opened (entry_not_opened n) (ensure here.copied (entry_not_copied n) e)),
      (n, or_else (lookup n collected) []) ∷ entries,
    )

unfoldable pub split_entries : List Text → List SplitEntry
split_entries [] = []
split_entries (n ∷ ns) = record { file = n; id = split_id n } ∷ split_entries ns

unfoldable pub manifest_of : Text → ℤ → Text → List Text → List Text → Manifest
unfolding split_entries
manifest_of pkg code name filenames abis = record {
  xapk_version = 2;
  package_name = pkg;
  version_code = itoa code;
  version_name = name;
  architectures = abis;
  split_apks = split_entries filenames;
}

-- the manifest behind the entries, and the closing of both writers
unfoldable pub close_archive : BundleIo → Option BundleError
close_archive io = ensure io.marshalled manifest_not_marshalled (
    ensure io.manifest_created manifest_not_created (
      ensure io.manifest_written manifest_not_written
        (ensure io.archive_closed archive_not_closed (ensure io.file_closed file_not_closed none))))

-- writeXAPK: entries in the order of their names, and the manifest last
unfoldable pub write_xapk :
    BundleIo
    → Text
    → ℤ
    → Text
    → List (Text × Text)
    → List Text
    → Folder
    → Option BundleError × Folder
unfolding add_entries manifest_of close_archive commit_output
write_xapk io pkg code name collected abis fs =
    let out = xapk_name code in
    let filenames = sort_texts (keys collected) in
    let (e, entries) = add_entries io collected filenames in
    let doc = document (archive entries (manifest_of pkg code name filenames abis)) in
    if not io.tmp_opened then (some open_failed, fs) else (elim e [
      | some x ↦ give_up io (tmp_of out) x (insert (tmp_of out) unfinished fs)
      | none ↦ elim (close_archive io) [
        | some x ↦ give_up io (tmp_of out) x (insert (tmp_of out) unfinished fs)
        | none ↦ commit_output io out doc (insert (tmp_of out) doc fs)
      ]
    ])
