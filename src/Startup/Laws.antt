-- ===== src/Startup/Laws.antt =====
-- What a program that runs has opened.
use play_apk_distributor.Prelude.{
  ◌≡◌, refl, ap, sym, ◌∙◌, inl, inr, true, ◌||◌, List, [], ◌∷◌, map, Option, none, some, arith, All,
  Bool-cases, Option-cases,
}
use play_apk_distributor.Text.{Text}
use play_apk_distributor.NameSet.{has}
use play_apk_distributor.PackageName.{valid_package_name}
use play_apk_distributor.Result.{Result, ok, err, done}
use play_apk_distributor.Storage.{Answers, Codec}
use play_apk_distributor.Store.{Store, Table, open_store}
use play_apk_distributor.Packages.{Manager, tracked, open_manager}
use play_apk_distributor.Packages.Seeding.{seed-done}
use play_apk_distributor.Config.{Config, Snapshot, Document, parsed, load, reload, snapshot}
use play_apk_distributor.Config.Reload.{reload_done}
use play_apk_distributor.Config.Validate.{Raw, Emulator}
use play_apk_distributor.Config.Validate.Laws.{IsValidConfig}
use play_apk_distributor.Adb.Client.{serial_of}
use play_apk_distributor.Device.{Device}
use play_apk_distributor.Watcher.{new_client}
use play_apk_distributor.Startup.{
  Boot, Running, running, connect_emulators, seed_packages, seeded, open_packages, with_store,
  with_config, start,
}

load_valid :
    (zero_value : Snapshot) (d : Document) (c : Config)
    → load zero_value d ≡ some c
    → (r : Raw) × (d ≡ parsed r) × IsValidConfig r × (c.snap ≡ snapshot r)
unfolding load
load_valid zero_value d c h =
    let first : Config = record { snap = zero_value; handlers = []; calls = [] } in
    elim (Option-cases (reload d first).0) [
      | inr (e, f) ↦ absurd (ground arith)
      | inl f ↦
          let (r, doc, v, e) = reload_done d first f in
          let same : c ≡ (reload d first).1 = ground arith in
          (r, doc, v, ap (λ k. k.snap) (same ∙ e))
    ]

connected_serials :
    (world : Text → Device) (adb_host : Text) (es : List Emulator)
    → map (λ (d : Device). d.serial) (map (new_client world adb_host) es)
      ≡ map (λ (e : Emulator). serial_of adb_host e.port) es
unfolding new_client
connected_serials world adb_host [] = refl
connected_serials world adb_host (e ∷ es) = rw (connected_serials world adb_host es) refl

pair_eq : (p : Result (Unit {0}) × Manager) (m : Manager) → p.0 ≡ done → m ≡ p.1 → p ≡ (done, m)
pair_eq (r, k) m e f = cc

module _ (names : Codec (List Text)) (table : Codec Table) where
  -- the program runs with a valid configuration, its emulators, and its packages beside those of
  -- packages.json
  pub record IsRunning (b : Boot) (r : Running) : Type 0 where
    pub raw : Raw
    pub document : b.document ≡ parsed raw
    pub valid : IsValidConfig raw
    pub config : r.config.snap ≡ snapshot raw
    pub store : open_store table b.state_dir_ok b.store_file b.store_read ≡ ok r.store
    pub loaded : Manager
    pub packages_file : open_manager names b.packages_file b.packages_reads ≡ ok loaded
    -- and has been seeded
    pub seeding : seed_packages names table b.seed_io raw.packages loaded ≡ (done, r.manager)
    pub packages :
        (name : Text) → tracked r.manager name ≡ (tracked loaded name || has name raw.packages)
    pub emulators :
        map (λ (d : Device). d.serial) r.clients
        ≡ map (λ (e : Emulator). serial_of raw.adb_host e.port) raw.emulators

  seed_packages-done :
      (io : Answers) (ps : List Text) (m : Manager)
      → All (λ p. valid_package_name p ≡ true) ps
      → (seed_packages names table io ps m).0 ≡ done
      → (name : Text)
      → tracked (seed_packages names table io ps m).1 name ≡ (tracked m name || has name ps)
  unfolding seed_packages has
  seed_packages-done io [] m v h name = ground arith
  seed_packages-done io (p ∷ ps) m v h name =
      seed-done names (p ∷ ps) io m v h name ∙ unfold has in refl

  seeded_running :
      (b : Boot) (c : Config) (st : Store) (p : Result (Unit {0}) × Manager) (r : Running)
      → seeded names table b c st p ≡ running r
      → (p.0 ≡ done)
        × (r.config ≡ c)
        × (r.store ≡ st)
        × (r.manager ≡ p.1)
        × (r.clients ≡ connect_emulators b.world c.snap)
  unfolding seeded
  seeded_running b c st (err e, m) r h = cc
  seeded_running b c st (ok u, m) r h = (refl, cc, cc, cc, cc)

  open_packages_running :
      (b : Boot) (c : Config) (st : Store) (o : Result Manager) (r : Running)
      → open_packages names table b c st o ≡ running r
      → (m : Manager) × (o ≡ ok m)
        × (seeded names table b c st (seed_packages names table b.seed_io c.snap.packages m)
            ≡ running r)
  unfolding open_packages
  open_packages_running b c st (err e) r h = cc
  open_packages_running b c st (ok m) r h = elim (Bool-cases b.packages_watch_ok) [
    | inl t ↦ (m, refl, ground arith)
    | inr f ↦ absurd (ground arith)
  ]

  with_store_running :
      (b : Boot) (c : Config) (o : Result Store) (r : Running)
      → with_store names table b c o ≡ running r
      → (st : Store) × (o ≡ ok st)
        × (open_packages names table b c st (open_manager names b.packages_file b.packages_reads)
            ≡ running r)
  unfolding with_store
  with_store_running b c (err e) r h = cc
  with_store_running b c (ok st) r h = (st, refl, h)

  with_config_running :
      (b : Boot) (o : Option Config) (r : Running)
      → with_config names table b o ≡ running r
      → (c : Config) × (o ≡ some c)
        × (with_store names table b c (open_store table b.state_dir_ok b.store_file b.store_read)
            ≡ running r)
  unfolding with_config
  with_config_running b none r h = cc
  with_config_running b (some c) r h = elim (Bool-cases b.config_watch_ok) [
    | inr f ↦ absurd (ground arith)
    | inl t ↦ elim (Bool-cases b.output_dir_ok) [
      | inr f ↦ absurd (ground arith)
      | inl u ↦ (c, refl, ground arith)
    ]
  ]

  -- A program that comes to run has the snapshot of a valid configuration file, the store that
  -- its file gives, the packages of packages.json and those of the configuration, and one client
  -- for each emulator, in order and with its serial.
  pub start_running :
      (zero_value : Snapshot) (b : Boot) (r : Running)
      → start names table zero_value b ≡ running r
      → IsRunning b r
  unfolding start connect_emulators
  start_running zero_value b r h =
      let (c, loaded_config, h1) = with_config_running b (load zero_value b.document) r h in
      let (st, opened, h2) =
        with_store_running b c (open_store table b.state_dir_ok b.store_file b.store_read) r h1 in
      let (m, read, h3) =
        open_packages_running b c st (open_manager names b.packages_file b.packages_reads) r h2 in
      let (fine, config, store, manager, clients) =
        seeded_running b c st (seed_packages names table b.seed_io c.snap.packages m) r h3 in
      let (raw, document, valid, snap) = load_valid zero_value b.document c loaded_config in
      let same_packages : c.snap.packages ≡ raw.packages =
        ap (λ s. s.packages) snap ∙ unfold snapshot in refl in
      let packages_valid : All (λ p. valid_package_name p ≡ true) c.snap.packages =
        rw same_packages valid.packages in
      record {
        raw = raw;
        document = document;
        valid = valid;
        config = ap (λ k. k.snap) config ∙ snap;
        store = opened ∙ ap ok (sym store);
        loaded = m;
        packages_file = read;
        seeding =
            ap (λ ps. seed_packages names table b.seed_io ps m) (sym same_packages)
            ∙ pair_eq (seed_packages names table b.seed_io c.snap.packages m) r.manager fine
                manager;
        packages = λ name.
            ap (λ k. tracked k name) manager
            ∙ seed_packages-done b.seed_io c.snap.packages m packages_valid fine name
            ∙ ap (λ ps. tracked m name || has name ps) same_packages;
        emulators =
            ap (map (λ (d : Device). d.serial)) clients
            ∙ connected_serials b.world c.snap.adb_host c.snap.emulators
            ∙ ap (λ s. map (λ (e : Emulator). serial_of s.adb_host e.port) s.emulators) snap
            ∙ unfold snapshot in refl;
      }
