-- ===== src/Packages/Contract.antt =====
-- What a list of packages promises as a set of names without order: the answer to each request, and
-- the set that it leaves.
use play_apk_distributor.Prelude.{◌≡◌, Bool, true, false, List, [], ◌∷◌}
use play_apk_distributor.Text.{Text}
use play_apk_distributor.NameSet.Quotient.{Names, member, with_name, without_name}
use play_apk_distributor.PackageName.{valid_package_name}
use play_apk_distributor.Result.{
  Error, Result, err, done, invalid_name, already_tracked, not_tracked, marshal_failed,
  write_failed, rename_failed, read_failed, parse_failed, mkdir_failed,
}
use play_apk_distributor.Packages.Invariant.{Request, adding, removing}

-- what is asked of a set of names
pub data Asked : Type 0 where
  add_name remove_name : Text → Asked

unfoldable pub asked : Request → Asked
asked (adding name io) = add_name name
asked (removing name io) = remove_name name

-- the errors of writing packages.json
unfoldable pub is_disk_error : Error → Bool
is_disk_error marshal_failed = true
is_disk_error write_failed = true
is_disk_error rename_failed = true
is_disk_error invalid_name = false
is_disk_error already_tracked = false
is_disk_error not_tracked = false
is_disk_error read_failed = false
is_disk_error parse_failed = false
is_disk_error mkdir_failed = false

-- the contract: the answer, and the set before and after
pub data Promises (s : Names) : Asked → Result (Unit {0}) → Names → Type 0 where
  added :
      (name : Text)
      → valid_package_name name ≡ true
      → member name s ≡ false
      → Promises s (add_name name) done (with_name name s)
  invalid :
      (name : Text)
      → valid_package_name name ≡ false
      → Promises s (add_name name) (err invalid_name) s
  old :
      (name : Text)
      → valid_package_name name ≡ true
      → member name s ≡ true
      → Promises s (add_name name) (err already_tracked) s
  not_added :
      (name : Text) (e : Error)
      → valid_package_name name ≡ true
      → member name s ≡ false
      → is_disk_error e ≡ true
      → Promises s (add_name name) (err e) s
  removed :
      (name : Text)
      → member name s ≡ true
      → Promises s (remove_name name) done (without_name name s)
  unknown :
      (name : Text) → member name s ≡ false → Promises s (remove_name name) (err not_tracked) s
  not_removed :
      (name : Text) (e : Error)
      → member name s ≡ true
      → is_disk_error e ≡ true
      → Promises s (remove_name name) (err e) s

-- a sequence of requests with their answers
pub data PromisesAll : Names → List Asked → List (Result (Unit {0})) → Names → Type 0 where
  nothing : (s : Names) → PromisesAll s [] [] s
  next :
      (s : Names) (q : Asked) (r : Result (Unit {0})) (t : Names) (qs : List Asked)
      (rs : List (Result (Unit {0}))) (u : Names)
      → Promises s q r t
      → PromisesAll t qs rs u
      → PromisesAll s (q ∷ qs) (r ∷ rs) u
