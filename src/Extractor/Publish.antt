-- ===== src/Extractor/Publish.antt =====
-- `writeChecksum`, `writeLatestJSON`, and the removals of `pruneOldVersions` in extractor/extractor.go.
-- The sum of a document is a parameter, for SHA-256 of its bytes.
pub mod Laws
pub mod Succeeds
pub mod Pruning
use play_apk_distributor.Prelude.{
  ℕ, Bool, true, false, not, List, [], ◌∷◌, ◌++◌, Option, none, some, if◌then◌else◌,
}
use play_apk_distributor.Text.{Text, codes, or_else}
use play_apk_distributor.NameMap.{lookup}
use play_apk_distributor.Extractor.Folder.{
  Document, Latest, File, document, sum_file, latest_file, unfinished, foreign, directory, Folder,
  Write, write_file, remove_file, commit_file, tmp_of, sum_of, latest_name, entries_of,
}
use play_apk_distributor.Extractor.Prune.{prune_old_versions}

pub record PublishIo : Type 0 where
  -- os.Open and io.Copy of the output file
  pub opened : Bool
  pub read : Bool
  pub sum_write : Write
  -- json.MarshalIndent, os.WriteFile, os.Rename, os.Remove for latest.json
  pub marshalled : Bool
  pub latest_write : Write
  pub renamed : Bool
  pub removed : Bool
  -- os.ReadDir and os.Remove of the pruning, by the name
  pub listed : Bool
  pub pruned : Text → Bool

-- the document of a file, if it is there and holds one
pub document_at : Text → Folder → Option Document
document_at name fs = elim (lookup name fs) [
  | none ↦ none
  | some (document d) ↦ some d
  | some (sum_file s) ↦ none
  | some (latest_file l) ↦ none
  | some unfinished ↦ none
  | some directory ↦ none
  | some foreign ↦ none
]

-- writeChecksum: `none` is an error
unfoldable pub write_checksum : (Document → Text) → PublishIo → Text → Folder → Option Text × Folder
unfolding document_at
write_checksum sha io name fs = if not io.opened then (none, fs) else (elim (document_at name fs) [
  | none ↦ (none, fs)
  | some d ↦
      if not io.read
      then (none, fs)
      else (let (ok, fs') = write_file io.sum_write (sum_of name) (sum_file (sha d)) fs in
          (if ok then some (sha d) else none, fs'))
])

-- writeLatestJSON: whether it returned nil
unfoldable pub write_latest : PublishIo → Latest → Folder → Bool × Folder
write_latest io l fs =
    if not io.marshalled
    then (false, fs)
    else (let (ok, fs') = write_file io.latest_write (tmp_of latest_name) (latest_file l) fs in
        if ok
        then commit_file io.renamed io.removed (tmp_of latest_name) latest_name (latest_file l) fs'
        else (false, fs'))

pub remove_files : (Text → Bool) → List Text → Folder → Folder
unfolding remove_file
remove_files pruned [] fs = fs
remove_files pruned (n ∷ ns) fs = remove_files pruned ns (remove_file (pruned n) n fs)

-- pruneOldVersions, whose error `Extract` logs
unfoldable pub prune_folder : PublishIo → ℕ → Folder → Folder
unfolding remove_files entries_of
prune_folder io keep fs =
    remove_files io.pruned
      (or_else (prune_old_versions (if io.listed then some (entries_of fs) else none) keep) []) fs
