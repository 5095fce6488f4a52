-- ===== src/Extractor/Publish/Pruning.antt =====
-- What the pruning does to the directory.
use play_apk_distributor.Prelude.{
  ℕ, ◌≡◌, refl, ap, ◌∙◌, inl, inr, Bool, true, false, List, [], ◌∷◌, none, some, arith, Bool-cases,
  ◌&&◌, if◌then◌else◌,
}
use play_apk_distributor.Text.{Text, text_eq, or_else}
use play_apk_distributor.Text.Laws.{text_eq_iff}
use play_apk_distributor.NameSet.{has}
use play_apk_distributor.NameMap.{lookup}
use play_apk_distributor.NameMap.Laws.{lookup-delete}
use play_apk_distributor.Signing.{DirEntry}
use play_apk_distributor.Extractor.Folder.{Folder, remove_file, entries_of, latest_name}
use play_apk_distributor.Extractor.Folder.Laws.{Touches}
use play_apk_distributor.Extractor.Prune.{prune_old_versions}
use play_apk_distributor.Extractor.Prune.Laws.{IsPruned, prune_old_versions-IsPruned}
use play_apk_distributor.Extractor.Prune.Names.{IsPlain, latest-IsPlain, prune_old_versions-plain}
use play_apk_distributor.Extractor.Publish.{PublishIo, remove_files, prune_folder}

remove_file-lookup :
    (removed : Bool) (name n : Text) (fs : Folder)
    → lookup n (remove_file removed name fs)
      ≡ (if removed && text_eq n name then none else lookup n fs)
unfolding remove_file
remove_file-lookup true name n fs = ground (arith, lookup-delete name n fs)
remove_file-lookup false name n fs = ground arith

remove_files-Touches :
    (pruned : Text → Bool) (ns : List Text) (fs : Folder)
    → Touches ns fs (remove_files pruned ns fs)
unfolding remove_files has
remove_files-Touches pruned [] fs n h = refl
remove_files-Touches pruned (x ∷ ns) fs n h =
    remove_files-Touches pruned ns (remove_file (pruned x) x fs) n (ground arith)
    ∙ ground (arith, remove_file-lookup (pruned x) x n fs)

remove_files_absent :
    (pruned : Text → Bool) (ns : List Text) (fs : Folder) (n : Text)
    → lookup n fs ≡ none
    → lookup n (remove_files pruned ns fs) ≡ none
unfolding remove_files
remove_files_absent pruned [] fs n h = h
remove_files_absent pruned (x ∷ ns) fs n h =
    remove_files_absent pruned ns (remove_file (pruned x) x fs) n
      (ground (arith, remove_file-lookup (pruned x) x n fs))

remove_files_done :
    (pruned : Text → Bool) (ns : List Text) (fs : Folder) (n : Text)
    → pruned n ≡ true
    → has n ns ≡ true
    → lookup n (remove_files pruned ns fs) ≡ none
unfolding remove_files has
remove_files_done pruned [] fs n h k = cc
remove_files_done pruned (x ∷ ns) fs n h k = elim (Bool-cases (text_eq n x)) [
  | inl same ↦
      let e = (text_eq_iff n x).0 same in
      remove_files_absent pruned ns (remove_file (pruned x) x fs) n
        (ground (arith, remove_file-lookup (pruned x) x n fs))
  | inr apart ↦ remove_files_done pruned ns (remove_file (pruned x) x fs) n h (ground arith)
]

-- what a pruning of a directory that was listed has done to it
pub record IsPrunedFolder (io : PublishIo) (keep : ℕ) (old new : Folder) : Type 0 where
  pub removed : List Text
  pub chosen : IsPruned (entries_of old) keep removed
  pub touched : Touches removed old new
  -- a name whose removal succeeds is gone
  pub gone : (n : Text) → io.pruned n ≡ true → has n removed ≡ true → lookup n new ≡ none
  -- a file that is neither a version nor the checksum of one is as it was
  pub plain : (n : Text) → IsPlain n → lookup n new ≡ lookup n old

chosen-IsPruned :
    (es : List DirEntry) (keep : ℕ)
    → IsPruned es keep (or_else (prune_old_versions (some es) keep) [])
chosen-IsPruned es keep =
    let (removed, same, chosen) = prune_old_versions-IsPruned es keep in rw same chosen

-- A pruning of a directory that was listed keeps as many versioned files as asked for, or all if
-- there are no more, none of them with a lower code than one that goes, calls the removal for the
-- others and their checksum files, changes no other file, and the names whose removal succeeds
-- are gone; latest.json and whatever is neither a versioned file nor the checksum file of one
-- stays as it was.
pub prune_folder-IsPrunedFolder :
    (io : PublishIo) (keep : ℕ) (fs : Folder)
    → io.listed ≡ true
    → IsPrunedFolder io keep fs (prune_folder io keep fs)
unfolding prune_folder
prune_folder-IsPrunedFolder io keep fs t =
    let names = or_else (prune_old_versions (some (entries_of fs)) keep) [] in
    rw t (record {
      removed = names;
      chosen = chosen-IsPruned (entries_of fs) keep;
      touched = remove_files-Touches io.pruned names fs;
      gone = λ n p h. remove_files_done io.pruned names fs n p h;
      plain = λ n p.
          remove_files-Touches io.pruned names fs n
            (prune_old_versions-plain (entries_of fs) keep n p);
    })

prune_folder_unlisted :
    (io : PublishIo) (keep : ℕ) (fs : Folder) → io.listed ≡ false → prune_folder io keep fs ≡ fs
unfolding prune_folder remove_files prune_old_versions
prune_folder_unlisted io keep fs f = ground arith

pub prune_folder-latest :
    (io : PublishIo) (keep : ℕ) (fs : Folder)
    → lookup latest_name (prune_folder io keep fs) ≡ lookup latest_name fs
prune_folder-latest io keep fs = elim (Bool-cases io.listed) [
  | inl t ↦ (prune_folder-IsPrunedFolder io keep fs t).plain latest_name latest-IsPlain
  | inr f ↦ ap (lookup latest_name) (prune_folder_unlisted io keep fs f)
]
