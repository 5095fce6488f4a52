-- ===== src/Extractor/Folder.antt =====
-- The directory of one package as a map from names to files, and the calls of extractor/extractor.go
-- that write to it: `os.WriteFile`, `os.Remove`, `os.Rename`. What a call answers is an argument.
pub mod Names
pub mod Laws
use play_apk_distributor.Prelude.{
  ℕ, Bool, true, false, List, [], ◌∷◌, ◌++◌, Option, none, some, if◌then◌else◌,
}
use play_apk_distributor.Prelude.Int.{ℤ}
use play_apk_distributor.Text.{Text, codes}
use play_apk_distributor.NameMap.{lookup, insert, delete}
use play_apk_distributor.Signing.{DirEntry}

-- splitEntry
pub record SplitEntry : Type 0 where
  pub file : Text
  pub id : Text

-- xapkManifest
pub record Manifest : Type 0 where
  pub xapk_version : ℕ
  pub package_name : Text
  pub version_code : Text
  pub version_name : Text
  pub architectures : List Text
  pub split_apks : List SplitEntry

-- the bytes of an output file: a copy of one local file, or an archive
pub data Document : Type 0 where
  copy_of : Text → Document
  -- the entries in their order, each with the local file that it holds, and the manifest behind them
  archive : List (Text × Text) → Manifest → Document

-- latestJSON
pub record Latest : Type 0 where
  pub version_code : ℤ
  pub version_name : Text
  pub file : Text
  pub updated_at : ℕ

pub data File : Type 0 where
  document : Document → File
  -- the hexadecimal sum and a newline
  sum_file : Text → File
  latest_file : Latest → File
  -- what a call that failed has left
  unfinished : File
  directory : File
  foreign : File

abbrev pub Folder : Type 0
Folder = List (Text × File)

-- `os.WriteFile` writes all, or fails before it opens the file, or behind that
pub data Write : Type 0 where
  written untouched spoiled : Write

-- os.WriteFile: whether it returned nil
unfoldable pub write_file : Write → Text → File → Folder → Bool × Folder
write_file written name f fs = (true, insert name f fs)
write_file untouched name f fs = (false, fs)
write_file spoiled name f fs = (false, insert name unfinished fs)

-- os.Remove, whose error is ignored
unfoldable pub remove_file : Bool → Text → Folder → Folder
remove_file removed name fs = if removed then delete name fs else fs

-- `os.Rename` of a file with this content, and `os.Remove` of it on an error: whether there was none
unfoldable pub commit_file : Bool → Bool → Text → Text → File → Folder → Bool × Folder
unfolding remove_file
commit_file renamed removed tmp name f fs =
    if renamed then (true, insert name f (delete tmp fs)) else (false, remove_file removed tmp fs)

-- the names with the suffixes of the temporary file and of the checksum
abbrev pub tmp_of : Text → Text
tmp_of name = name ++ codes ".tmp"

abbrev pub sum_of : Text → Text
sum_of name = name ++ codes ".sha256"

abbrev pub latest_name : Text
latest_name = codes "latest.json"

-- os.ReadDir
unfoldable pub entries_of : Folder → List DirEntry
entries_of [] = []
entries_of ((name, directory) ∷ fs) = record { name = name; is_dir = true } ∷ entries_of fs
entries_of ((name, document d) ∷ fs) = record { name = name; is_dir = false } ∷ entries_of fs
entries_of ((name, sum_file s) ∷ fs) = record { name = name; is_dir = false } ∷ entries_of fs
entries_of ((name, latest_file l) ∷ fs) = record { name = name; is_dir = false } ∷ entries_of fs
entries_of ((name, unfinished) ∷ fs) = record { name = name; is_dir = false } ∷ entries_of fs
entries_of ((name, foreign) ∷ fs) = record { name = name; is_dir = false } ∷ entries_of fs
