-- ===== src/Storage.antt =====
-- A file that is replaced by `os.WriteFile` to a temporary file and `os.Rename`, the way that
-- `flush` of packages/packages.go and of store/store.go and `writeLatestJSON` of
-- extractor/extractor.go do it. What the file system answers is an argument.
pub mod Laws
use play_apk_distributor.Prelude.{Bool, true, false, Option, none, some, if◌then◌else◌}
use play_apk_distributor.Text.{Text}
use play_apk_distributor.Result.{Result, ok, err, done, marshal_failed, write_failed, rename_failed}

-- the contents of the file and of its `.tmp` neighbour, if they exist
pub record Slot : Type 0 where
  pub main : Option Text
  pub tmp : Option Text

-- `os.WriteFile` writes all, or fails and leaves anything in the temporary file
pub data Write : Type 0 where
  written : Write
  broken : Option Text → Write

-- the answers to the calls that one `flush` may make
pub record Answers : Type 0 where
  pub write : Write
  pub rename_ok : Bool
  pub remove_ok : Bool

-- every call succeeds
abbrev pub all_ok : Answers
all_ok = record { write = written; rename_ok = true; remove_ok = true }

commit : Text → Answers → Slot → Result (Unit {0}) × Slot
commit b io f =
    if io.rename_ok
    then (done, record { main = some b; tmp = none })
    else (err rename_failed, record f { tmp = if io.remove_ok then none else some b })

put_file : Text → Write → Answers → Slot → Result (Unit {0}) × Slot
put_file b written io f = commit b io f
put_file b (broken left) io f = (err write_failed, record f { tmp = left })

-- `none` is an error of `json.MarshalIndent`, which comes before any file is touched
unfoldable pub save : Option Text → Answers → Slot → Result (Unit {0}) × Slot
unfolding put_file commit
save none io f = (err marshal_failed, f)
save (some b) io f = put_file b io.write io f

-- what `os.ReadFile` gives back: the content, `os.ErrNotExist`, or another error
pub data Read : Type 0 where
  content : Text → Read
  absent : Read
  unreadable : Read

abbrev pub read_slot : Slot → Read
read_slot f = elim f.main [ none ↦ absent | some b ↦ content b ]

-- JSON documents of one type: `json.MarshalIndent` and `json.Unmarshal`
pub record Codec {ℓ} (A : Type ℓ) : Type ℓ where
  pub marshal : A → Option Text
  pub unmarshal : Text → Option A
