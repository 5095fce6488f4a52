-- ===== src/Extractor/Folder/Laws.antt =====
-- Which files a call changes.
use play_apk_distributor.Prelude.{◌≡◌, ◌≢◌, refl, ◌∙◌, Bool, true, false, List, none, some, arith}
use play_apk_distributor.Text.{Text}
use play_apk_distributor.Text.Laws.{text_eq_iff}
use play_apk_distributor.NameSet.{has}
use play_apk_distributor.NameMap.{lookup, insert, delete}
use play_apk_distributor.NameMap.Laws.{lookup-insert, lookup-delete}
use play_apk_distributor.Extractor.Folder.{
  File, Folder, Write, written, untouched, spoiled, write_file, remove_file, commit_file,
}

-- only the files of these names may differ
abbrev pub Touches : List Text → Folder → Folder → Type 0
Touches names old new = (n : Text) → has n names ≡ false → lookup n new ≡ lookup n old

pub Touches-refl : (names : List Text) (fs : Folder) → Touches names fs fs
Touches-refl names fs n h = refl

pub Touches-trans :
    (names : List Text) (a b c : Folder) → Touches names a b → Touches names b c → Touches names a c
Touches-trans names a b c h k n f = k n f ∙ h n f

-- a file that may differ under fewer names
pub Touches-more :
    (names more : List Text) (old new : Folder)
    → ((n : Text) → has n more ≡ false → has n names ≡ false)
    → Touches names old new
    → Touches more old new
Touches-more names more old new h k n f = k n (h n f)

pub insert-Touches :
    (names : List Text) (name : Text) (f : File) (fs : Folder)
    → has name names ≡ true
    → Touches names fs (insert name f fs)
insert-Touches names name f fs h n k = ground (arith, lookup-insert name n f fs, text_eq_iff n name)

pub delete-Touches :
    (names : List Text) (name : Text) (fs : Folder)
    → has name names ≡ true
    → Touches names fs (delete name fs)
delete-Touches names name fs h n k = ground (arith, lookup-delete name n fs, text_eq_iff n name)

pub write_file-Touches :
    (names : List Text) (w : Write) (name : Text) (f : File) (fs : Folder)
    → has name names ≡ true
    → Touches names fs (write_file w name f fs).1
unfolding write_file
write_file-Touches names written name f fs h = insert-Touches names name f fs h
write_file-Touches names untouched name f fs h = Touches-refl names fs
write_file-Touches names spoiled name f fs h = insert-Touches names name _ fs h

pub remove_file-Touches :
    (names : List Text) (removed : Bool) (name : Text) (fs : Folder)
    → has name names ≡ true
    → Touches names fs (remove_file removed name fs)
unfolding remove_file
remove_file-Touches names true name fs h = delete-Touches names name fs h
remove_file-Touches names false name fs h = Touches-refl names fs

-- a commit that fails touches the temporary file alone
pub commit_file_failed :
    (names : List Text) (renamed removed : Bool) (tmp name : Text) (f : File) (fs : Folder)
    → has tmp names ≡ true
    → (commit_file renamed removed tmp name f fs).0 ≡ false
    → Touches names fs (commit_file renamed removed tmp name f fs).1
unfolding commit_file
commit_file_failed names true removed tmp name f fs h k = cc
commit_file_failed names false removed tmp name f fs h k =
    remove_file-Touches names removed tmp fs h

pub commit_file-Touches :
    (names : List Text) (renamed removed : Bool) (tmp name : Text) (f : File) (fs : Folder)
    → has tmp names ≡ true
    → has name names ≡ true
    → Touches names fs (commit_file renamed removed tmp name f fs).1
unfolding commit_file
commit_file-Touches names true removed tmp name f fs h k =
    Touches-trans names fs (delete tmp fs) (insert name f (delete tmp fs))
      (delete-Touches names tmp fs h) (insert-Touches names name f (delete tmp fs) k)
commit_file-Touches names false removed tmp name f fs h k =
    remove_file-Touches names removed tmp fs h

-- a commit that succeeds has put the content in place and left no temporary file
pub commit_file_done :
    (renamed removed : Bool) (tmp name : Text) (f : File) (fs : Folder)
    → tmp ≢ name
    → (commit_file renamed removed tmp name f fs).0 ≡ true
    → (lookup name (commit_file renamed removed tmp name f fs).1 ≡ some f)
      × (lookup tmp (commit_file renamed removed tmp name f fs).1 ≡ none)
unfolding commit_file
commit_file_done false removed tmp name f fs d h = cc
commit_file_done true removed tmp name f fs d h = (
  ground (arith, lookup-insert name name f (delete tmp fs), text_eq_iff name name),
  ground (
    arith,
    lookup-insert name tmp f (delete tmp fs),
    text_eq_iff tmp name,
    lookup-delete tmp tmp fs,
    text_eq_iff tmp tmp,
  ),
)
