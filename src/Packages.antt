-- ===== src/Packages.antt =====
-- `Manager` of packages/packages.go: the tracked package names, their file packages.json and the
-- change handlers. Each method returns its error and the new state. The mutex makes each method one
-- step, and the goroutines that run handlers are the list of the calls that they make.
pub mod Flush
pub mod Edits
pub mod Adding
pub mod Removing
pub mod Seeding
pub mod Loading
pub mod Invariant
pub mod Contract
pub mod Refinement
pub mod Opening
pub mod Watching
use play_apk_distributor.Prelude.{
  ℕ, suc, zero, Bool, true, false, not, ◌&&◌, ◌||◌, List, [], ◌∷◌, ◌++◌, map, Option, none, some,
  if◌then◌else◌,
}
use play_apk_distributor.Text.{Text}
use play_apk_distributor.NameSet.{has, include, without, sort_texts}
use play_apk_distributor.PackageName.{valid_package_name}
use play_apk_distributor.Result.{
  Error, Result, ok, err, done, invalid_name, already_tracked, not_tracked, read_failed,
  parse_failed,
}
use play_apk_distributor.Storage.{Slot, Answers, save, Read, content, absent, unreadable, Codec}

-- A handler is known by a number; `calls` are the calls of handlers with their arguments.
pub record Manager : Type 0 where
  pub set : List Text
  pub file : Slot
  pub handlers : List ℕ
  pub calls : List (ℕ × List Text)

unfoldable pub validate_package_name : Text → Result (Unit {0})
validate_package_name name = if valid_package_name name then done else err invalid_name

-- List and sorted
unfoldable pub list : Manager → List Text
list m = sort_texts m.set

-- Has
unfoldable pub tracked : Manager → Text → Bool
tracked m name = has name m.set

-- notify
pub notify : Manager → Manager
unfolding list
notify m = record m { calls = m.calls ++ map (λ h. (h, list m)) m.handlers }

-- OnChange
pub on_change : ℕ → Manager → Manager
on_change h m = record m { handlers = m.handlers ++ h ∷ [] }

abbrev pub with_set : Manager → List Text → Manager
with_set m set = record m { set = set }

-- `json.Unmarshal` of nil error followed by the validation of each name
pub fill_set : List Text → List Text → Result (List Text)
fill_set [] set = ok set
fill_set (name ∷ names) set =
    let rest = fill_set names (include name set) in
    if valid_package_name name then rest else err invalid_name

-- the loop of `load` that reads the file at most three times; `i` counts the reads
pub read_file : ℕ → ℕ → (ℕ → Read) → Read
read_file zero i reads = unreadable
read_file (suc left) i reads =
    let again = read_file left (suc i) reads in
    elim (reads i) [ content b ↦ content b | absent ↦ absent | unreadable ↦ again ]

-- what `Add`, `Remove` and `Seed` do with the result of `flush`: notify, or put the set back
pub conclude : List Text → Result (Unit {0}) × Manager → Result (Unit {0}) × Manager
unfolding notify
conclude back (ok _, m) = (done, notify m)
conclude back (err e, m) = (err e, with_set m back)

-- the loop of `Seed`: the set and the names added so far, beside the error that stopped it
pub seed_names : List Text → List Text → List Text → Result (Unit {0}) × List Text × List Text
seed_names [] set added = (done, set, added)
seed_names (name ∷ names) set added =
    let old = seed_names names set added in
    let new = seed_names names (include name set) (added ++ name ∷ []) in
    elim (validate_package_name name) [
      | err e ↦ (err e, set, added)
      | ok _ ↦ elim (has name set) [ true ↦ old | false ↦ new ]
    ]

pub without_all : List Text → List Text → List Text
without_all [] set = set
without_all (name ∷ names) set = without_all names (without name set)

module _ (codec : Codec (List Text)) where
  unfoldable pub flush : Answers → Manager → Result (Unit {0}) × Manager
  unfolding list
  flush io m = let (r, f) = save (codec.marshal (list m)) io m.file in (r, record m { file = f })

  unfoldable pub add : Text → Answers → Manager → Result (Unit {0}) × Manager
  unfolding validate_package_name tracked flush conclude
  add name io m = elim (validate_package_name name) [
    | err e ↦ (err e, m)
    | ok _ ↦
        if tracked m name
        then (err already_tracked, m)
        else (let set = include name m.set in
            conclude (without name set) (flush io (with_set m set)))
  ]

  unfoldable pub remove : Text → Answers → Manager → Result (Unit {0}) × Manager
  unfolding tracked flush conclude
  remove name io m =
      if tracked m name
      then (let set = without name m.set in conclude (include name set) (flush io (with_set m set)))
      else (err not_tracked, m)

  pub finish_seed :
      Answers → Manager → Result (Unit {0}) × List Text × List Text → Result (Unit {0}) × Manager
  unfolding flush conclude
  finish_seed io m (err e, set, added) = (err e, with_set m set)
  finish_seed io m (ok _, set, []) = (done, with_set m set)
  finish_seed io m (ok _, set, name ∷ added) =
      conclude (without_all (name ∷ added) set) (flush io (with_set m set))

  unfoldable pub seed : List Text → Answers → Manager → Result (Unit {0}) × Manager
  unfolding seed_names without_all finish_seed validate_package_name
  seed names io m = finish_seed io m (seed_names names m.set [])

  -- `load` after the file has been read
  pub load_read : Read → Manager → Result (Unit {0}) × Manager
  load_read absent m = (done, m)
  load_read unreadable m = (err read_failed, m)
  load_read (content b) m = elim (codec.unmarshal b) [
    | none ↦ (err parse_failed, m)
    | some names ↦ elim (fill_set names []) [ err e ↦ (err e, m) | ok set ↦ (done, with_set m set) ]
  ]

  unfoldable pub load : (ℕ → Read) → Manager → Result (Unit {0}) × Manager
  unfolding load_read read_file fill_set
  load reads m = load_read (read_file 3 0 reads) m

  -- New: an empty manager loads the file
  unfoldable pub open_manager : Slot → (ℕ → Read) → Result Manager
  unfolding load
  open_manager f reads =
      let (r, m) = load reads (record { set = []; file = f; handlers = []; calls = [] }) in
      elim r [ ok _ ↦ ok m | err e ↦ err e ]

  -- one round of the `select` loop of `Watch`, for an event of the directory
  unfoldable pub watch_event : Bool → Bool → Bool → (ℕ → Read) → Manager → Manager
  unfolding load list
  watch_event for_file is_write is_create reads m =
      if not for_file
      then m
      else if not is_write && not is_create
      then m
      else (let (r, m') = load reads m in elim r [ ok _ ↦ notify m' | err e ↦ m' ])
