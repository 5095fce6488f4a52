-- ===== src/System/Begun.antt =====
-- A program that comes to run is healthy, and stays so.
use play_apk_distributor.Prelude.{◌≡◌, ap, sym, List, [], ◌∷◌}
use mathlib.Core.Path.{subst}
use play_apk_distributor.Text.{Text}
use play_apk_distributor.Result.{done}
use play_apk_distributor.Storage.{Answers, Codec}
use play_apk_distributor.Store.{Table}
use play_apk_distributor.Packages.{Manager}
use play_apk_distributor.Packages.Seeding.{AllValid}
use play_apk_distributor.Packages.Invariant.{RoundTrips, IsSound}
use play_apk_distributor.Packages.Opening.{ReadsFile, opened-IsSound, seed-IsSound}
use play_apk_distributor.Config.{Snapshot, snapshot}
use play_apk_distributor.Config.Reload.{IsGood, snapshot-IsGood}
use play_apk_distributor.Startup.{Boot, Running, running, seed_packages, start}
use play_apk_distributor.Startup.Laws.{IsRunning, start_running}
use play_apk_distributor.Watcher.Check.{IsNoOlder}
use play_apk_distributor.System.{System, Steps}
use play_apk_distributor.System.Laws.{IsHealthy, Steps-IsHealthy}

-- the state with which the watcher and the API begin
pub begun : Running → System
begun r = record {
  config = r.config;
  manager = r.manager;
  store = r.store;
  clients = r.clients;
  pending = [];
}

module _ (names : Codec (List Text)) (table : Codec Table) (json : RoundTrips names) where
  seed_packages-IsSound :
      (io : Answers) (ps : List Text) (m : Manager)
      → AllValid ps
      → IsSound names m
      → (seed_packages names table io ps m).0 ≡ done
      → IsSound names (seed_packages names table io ps m).1
  unfolding seed_packages
  seed_packages-IsSound io [] m v h d = h
  seed_packages-IsSound io (p ∷ ps) m v h d = seed-IsSound names json (p ∷ ps) io m v h d

  begun-IsHealthy :
      (b : Boot) (r : Running)
      → ReadsFile b.packages_reads b.packages_file
      → IsRunning names table b r
      → IsHealthy names table (begun r)
  unfolding begun snapshot
  begun-IsHealthy b r reads run =
      let good = subst IsGood (sym run.config) (snapshot-IsGood run.raw run.valid) in
      let sound =
        opened-IsSound names b.packages_file b.packages_reads run.loaded reads run.packages_file in
      let seeded =
        seed_packages-IsSound b.seed_io run.raw.packages run.loaded run.valid.packages sound
          (ap (λ p. p.0) run.seeding) in
      record {
        config = good;
        pending = tt;
        manager = subst (IsSound names) (ap (λ p. p.1) run.seeding) seeded;
        clients = record {
          snap = snapshot run.raw;
          good = snapshot-IsGood run.raw run.valid;
          serials = run.emulators;
        };
      }

  -- If the JSON library reads back the lists of valid names that it writes, a program whose start
  -- comes to run, each read of packages.json having given the file or failed, is healthy after
  -- any steps of ticks, edits of the configuration file, runs of its handler in any order, and
  -- requests, whatever the devices and the file system answer: the configuration in use and those
  -- under way to the watcher are good, the packages are valid, none twice, and in their file, and
  -- there is one client for each emulator of a good configuration; and the store knows every
  -- package that it knew at the start, with no lower version code.
  pub start-IsHealthy :
      (zero_value : Snapshot) (b : Boot) (r : Running) (t : System)
      → start names table zero_value b ≡ running r
      → ReadsFile b.packages_reads b.packages_file
      → Steps names table (begun r) t
      → IsHealthy names table t × IsNoOlder r.store t.store
  unfolding begun
  start-IsHealthy zero_value b r t h reads steps =
      Steps-IsHealthy names table json (begun r) t steps
        (begun-IsHealthy b r reads (start_running names table zero_value b r h))
