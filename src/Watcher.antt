-- ===== src/Watcher.antt =====
-- watcher/watcher.go: which packages are polled, when an extraction starts, what the store records of
-- it, and the reconciliation of the emulators with a new configuration.
pub mod Effective
pub mod Check
pub mod Clients
pub mod Complete
pub mod Progress
pub mod Reported
pub mod Gather
use play_apk_distributor.Prelude.{
  Bool, true, false, not, ◌&&◌, ◌||◌, List, [], ◌∷◌, ◌++◌, ℕ, Option, none, some, if◌then◌else◌,
}
use play_apk_distributor.Prelude.Int.{ℤ, leb_ℤ, eqb_ℤ}
use play_apk_distributor.Text.{Text}
use play_apk_distributor.NameSet.{has, include}
use play_apk_distributor.NameMap.{lookup, insert}
use play_apk_distributor.Result.{Error, Result, ok, err}
use play_apk_distributor.Storage.{Answers, Codec}
use play_apk_distributor.Store.{Entry, Table, Store, get_last_known, set_last_known}
use play_apk_distributor.Config.{Snapshot}
use play_apk_distributor.Config.Validate.{Emulator}
use play_apk_distributor.Adb.Version.{VersionInfo}
use play_apk_distributor.Adb.Client.{serial_of}
use play_apk_distributor.Device.{Device}
use play_apk_distributor.Extractor.Run.{Host, Job, Extraction, ExtractError, extract}

-- the closure `add` of `effectivePackages`, over the set `seen` and the result
pub add_name : Text → List Text × List Text → List Text × List Text
add_name p (seen, result) =
    if has p seen then (seen, result) else (include p seen, result ++ p ∷ [])

pub add_names : List Text → List Text × List Text → List Text × List Text
unfolding add_name
add_names [] acc = acc
add_names (p ∷ ps) acc = add_names ps (add_name p acc)

-- effectivePackages, of the packages of the configuration and of those of the manager
unfoldable pub effective_packages : List Text → List Text → List Text
unfolding add_names
effective_packages static dynamic = (add_names dynamic (add_names static ([], []))).1

-- what one goroutine of `checkPackage` finds; `none` is an error
pub query : Text → Device → Option VersionInfo
query pkg d = if not d.connected && not d.reconnected then none else d.installed pkg

-- the results without an error
unfoldable pub answers : Text → List Device → List VersionInfo
unfolding query
answers pkg [] = []
answers pkg (d ∷ ds) =
    let rest = answers pkg ds in elim (query pkg d) [ none ↦ rest | some v ↦ v ∷ rest ]

pub agree : ℤ → List VersionInfo → Bool
agree code [] = true
agree code (v ∷ vs) = eqb_ℤ v.code code && agree code vs

-- last, known := GetLastKnown(pkg); known && last.VersionCode >= agreedCode
unfoldable pub up_to_date : Option Entry → ℤ → Bool
up_to_date none code = false
up_to_date (some e) code = leb_ℤ code e.version_code

-- what the check of one package meets: the clients as they answer, the live configuration, the file
-- system and the time
pub record Turn : Type 0 where
  pub cancelled : Bool
  pub clients : List Device
  -- the same clients, as they answer when the extraction asks them again
  pub pulling : List Device
  pub live : Snapshot
  pub host : Host
  pub now : ℕ
  pub io : Answers

pub data Outcome : Type 0 where
  no_device disagreement no_update : Outcome
  extraction_failed : ExtractError → Outcome
  store_failed : Error → Outcome
  complete : Outcome

-- the outcome that is logged, the extraction if there was one, and the store
pub record Checked : Type 0 where
  pub outcome : Outcome
  pub extraction : Option Extraction
  pub store : Store

unfoldable pub job_of : Turn → Text → Text → VersionInfo → Job
job_of turn pkg output_dir v = record {
  pkg = pkg;
  code = v.code;
  name = v.name;
  output_dir = output_dir;
  max_apk_size_mb = turn.live.max_apk_size_mb;
  expected_certs = turn.live.expected_certs;
}

module _ (codec : Codec Table) where
  -- the end of `checkPackage`, after the extraction `x`
  pub record_version : Turn → Text → VersionInfo → Store → Extraction → Checked
  record_version turn pkg v st x = elim x.failure [
    | some e ↦ record { outcome = extraction_failed e; extraction = some x; store = st }
    | none ↦
        let (r, st') = set_last_known codec pkg v.code v.name turn.now turn.io st in
        record {
          outcome = elim r [ ok _ ↦ complete | err e ↦ store_failed e ];
          extraction = some x;
          store = st';
        }
  ]

  -- `checkPackage` from the results of the connected emulators on
  pub decide : Turn → Text → Text → Store → List VersionInfo → Checked
  unfolding agree up_to_date record_version job_of
  decide turn pkg output_dir st [] = record { outcome = no_device; extraction = none; store = st }
  decide turn pkg output_dir st (base ∷ others) =
      if not (agree base.code others)
      then record { outcome = disagreement; extraction = none; store = st }
      else if up_to_date (get_last_known st pkg) base.code
      then record { outcome = no_update; extraction = none; store = st }
      else record_version turn pkg base st
          (extract turn.host (job_of turn pkg output_dir base) turn.pulling)

  -- checkPackage
  unfoldable pub check_package : Turn → Text → Text → Store → Checked
  unfolding answers decide
  check_package turn pkg output_dir st = decide turn pkg output_dir st (answers pkg turn.clients)

  -- poll: the turn of each package, and the loop that stops once the context is cancelled
  pub poll : (Text → Turn) → Text → List Text → Store → Store
  unfolding check_package
  poll turns output_dir [] st = st
  poll turns output_dir (pkg ∷ pkgs) st =
      let rest = poll turns output_dir pkgs (check_package (turns pkg) pkg output_dir st).store in
      if (turns pkg).cancelled then st else rest

-- bySerial: of clients with one serial the last is kept
pub by_serial : List Device → List (Text × Device) → List (Text × Device)
by_serial [] m = m
by_serial (c ∷ cs) m = by_serial cs (insert c.serial c m)

-- adb.New; what the device will answer is given by its serial
unfoldable pub new_client : (Text → Device) → Text → Emulator → Device
new_client world adb_host e = record (world (serial_of adb_host e.port)) {
  serial = serial_of adb_host e.port;
  abi = e.abi;
}

pub next_clients : (Text → Device) → Text → List (Text × Device) → List Emulator → List Device
unfolding new_client
next_clients world adb_host m [] = []
next_clients world adb_host m (e ∷ es) =
    elim (lookup (serial_of adb_host e.port) m) [ some c ↦ c | none ↦ new_client world adb_host e ]
    ∷ next_clients world adb_host m es

-- syncClients
pub sync_clients : (Text → Device) → Snapshot → List Device → List Device
unfolding by_serial next_clients
sync_clients world snap clients =
    next_clients world snap.adb_host (by_serial clients []) snap.emulators
