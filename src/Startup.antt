-- ===== src/Startup.antt =====
-- main.go: what is opened before the watcher runs, in which order, what stops the program, and the
-- warnings. What the system answers in one start is an argument.
pub mod Laws
use play_apk_distributor.Prelude.{
  ℕ, ◌/◌, ◌%◌, ◌^◌, Bool, true, false, not, ◌&&◌, ◌||◌, List, [], ◌∷◌, map, Option, none, some,
  ◌==◌, if◌then◌else◌,
}
use play_apk_distributor.Prelude.Int.{ℤ, pos, ltb_ℤ}
use play_apk_distributor.Text.{Text, codes, text_eq}
use play_apk_distributor.Result.{Error, Result, ok, err, done}
use play_apk_distributor.Storage.{Slot, Read, Answers, Codec}
use play_apk_distributor.Store.{Store, Table, open_store}
use play_apk_distributor.Packages.{Manager, open_manager, seed}
use play_apk_distributor.Config.{Config, Snapshot, Document, load}
use play_apk_distributor.Config.Validate.{Emulator}
use play_apk_distributor.Device.{Device}
use play_apk_distributor.Signing.{DirEntry, dir_names, join_path}
use play_apk_distributor.Watcher.{new_client}

pub record Boot : Type 0 where
  pub document : Document
  pub config_watch_ok : Bool
  pub output_dir_ok : Bool
  pub state_dir_ok : Bool
  pub store_file : Slot
  pub store_read : Read
  pub packages_file : Slot
  pub packages_reads : ℕ → Read
  pub packages_watch_ok : Bool
  pub seed_io : Answers
  -- the devices by their serials
  pub world : Text → Device

-- why `os.Exit(1)` was called
pub data Exit : Type 0 where
  config_failed config_watch_failed output_dir_failed packages_watch_failed : Exit
  store_failed packages_failed seed_failed : Error → Exit

pub record Running : Type 0 where
  pub config : Config
  pub store : Store
  pub manager : Manager
  pub clients : List Device
  pub api : Bool

pub data Start : Type 0 where
  stopped : Exit → Start
  running : Running → Start

-- connectEmulators: an emulator that does not answer is kept, and tried again when it is polled
pub connect_emulators : (Text → Device) → Snapshot → List Device
unfolding new_client
connect_emulators world snap = map (new_client world snap.adb_host) snap.emulators

module _ (names : Codec (List Text)) (table : Codec Table) where
  -- openPackages after `New` and `Watch`
  unfoldable pub seed_packages : Answers → List Text → Manager → Result (Unit {0}) × Manager
  seed_packages io [] m = (done, m)
  seed_packages io (p ∷ ps) m = seed names (p ∷ ps) io m

  pub seeded : Boot → Config → Store → Result (Unit {0}) × Manager → Start
  unfolding connect_emulators
  seeded b c st (err e, m) = stopped (seed_failed e)
  seeded b c st (ok _, m) = running (record {
    config = c;
    store = st;
    manager = m;
    clients = connect_emulators b.world c.snap;
    api = ltb_ℤ (pos 0) c.snap.api_port;
  })

  -- openPackages
  pub open_packages : Boot → Config → Store → Result Manager → Start
  unfolding seeded seed_packages
  open_packages b c st (err e) = stopped (packages_failed e)
  open_packages b c st (ok m) =
      if not b.packages_watch_ok
      then stopped packages_watch_failed
      else seeded b c st (seed_packages b.seed_io c.snap.packages m)

  -- openStore
  pub with_store : Boot → Config → Result Store → Start
  unfolding open_packages
  with_store b c (err e) = stopped (store_failed e)
  with_store b c (ok st) =
      open_packages b c st (open_manager names b.packages_file b.packages_reads)

  -- loadConfig
  pub with_config : Boot → Option Config → Start
  unfolding with_store
  with_config b none = stopped config_failed
  with_config b (some c) =
      if not b.config_watch_ok
      then stopped config_watch_failed
      else if not b.output_dir_ok
      then stopped output_dir_failed
      else with_store b c (open_store table b.state_dir_ok b.store_file b.store_read)

  -- main, up to `w.Run`
  unfoldable pub start : Snapshot → Boot → Start
  unfolding with_config
  start zero_value b = with_config b (load zero_value b.document)

-- cleanTmpDir: the directories that `os.RemoveAll` is called for
pub clean_tmp_dir : Text → Option (List DirEntry) → List Text
clean_tmp_dir tmp_base none = []
clean_tmp_dir tmp_base (some entries) = map (join_path tmp_base) (dir_names entries)

abbrev bit : ℕ → ℕ → Bool
bit mode i = (mode / 2 ^ i) % 2 == 1

-- checkConfigPermissions: whether it warns that the file can be read, or written, by others; 0o044 are
-- the bits 5 and 2, and 0o022 the bits 4 and 1
unfoldable pub config_warnings : Bool → Option ℕ → Bool × Bool
config_warnings windows none = (false, false)
config_warnings true (some mode) = (false, false)
config_warnings false (some mode) = (bit mode 5 || bit mode 2, bit mode 4 || bit mode 1)

-- warnAPISecurityPosture: whether it warns of a missing token, and of an address that is not local
pub api_warnings : Snapshot → Bool × Bool
api_warnings snap = (
  text_eq snap.api_token [],
  not (
      text_eq snap.api_host (codes "127.0.0.1")
      || text_eq snap.api_host (codes "::1")
      || text_eq snap.api_host (codes "localhost")),
)
