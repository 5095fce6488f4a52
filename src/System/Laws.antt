-- ===== src/System/Laws.antt =====
-- What no order of the steps of the running program breaks.
use play_apk_distributor.Prelude.{
  ◌≡◌, List, [], ◌∷◌, ◌++◌, map, none, some, arith, All, All-append, Option-cases, inl, inr,
}
use play_apk_distributor.Text.{Text}
use play_apk_distributor.Storage.{Codec}
use play_apk_distributor.Store.{Table}
use play_apk_distributor.Packages.{Manager}
use play_apk_distributor.Packages.Invariant.{RoundTrips, IsSound, run-IsSound}
use play_apk_distributor.Config.{Snapshot, Document, get, reload}
use play_apk_distributor.Config.Validate.{Emulator, ConfigError}
use play_apk_distributor.Config.Reload.{IsGood, reload-IsGood}
use play_apk_distributor.Adb.Client.{serial_of}
use play_apk_distributor.Device.{Device}
use play_apk_distributor.Watcher.Check.{IsNoOlder, IsNoOlder-refl, IsNoOlder-trans, poll-IsNoOlder}
use play_apk_distributor.Watcher.Clients.{sync_clients_lem}
use play_apk_distributor.Api.Requests.{IsRun, serve-IsRun}
use play_apk_distributor.System.{
  System, on_edit, on_tick, Step, tick, edit, handle, serve_request, Steps, here, step,
}

-- the clients are those of the emulators of a good configuration
pub record IsServed (clients : List Device) : Type 0 where
  pub snap : Snapshot
  pub good : IsGood snap
  pub serials :
      map (λ (d : Device). d.serial) clients
      ≡ map (λ (e : Emulator). serial_of snap.adb_host e.port) snap.emulators

module _ (names : Codec (List Text)) (table : Codec Table) where
  -- the configuration in use and those on their way to the watcher are good, the packages are sound and
  -- in their file, and the clients are those of a good configuration
  pub record IsHealthy (s : System) : Type 0 where
    pub config : IsGood s.config.snap
    pub pending : All IsGood s.pending
    pub manager : IsSound names s.manager
    pub clients : IsServed s.clients

All-middle :
    (before : List Snapshot) (snap : Snapshot) (after : List Snapshot)
    → All IsGood (before ++ snap ∷ after)
    → IsGood snap × All IsGood (before ++ after)
All-middle [] snap after (g, h) = (g, h)
All-middle (b ∷ before) snap after (p, h) =
    let (g, k) = All-middle before snap after h in (g, (p, k))

edit_refused :
    (d : Document) (s : System) (e : ConfigError) → (reload d s.config).0 ≡ some e → on_edit d s ≡ s
unfolding on_edit
edit_refused d s e h = ground arith

edit_taken :
    (d : Document) (s : System)
    → (reload d s.config).0 ≡ none
    → on_edit d s ≡ record s {
      config = (reload d s.config).1;
      pending = s.pending ++ (reload d s.config).1.snap ∷ [];
    }
unfolding on_edit get
edit_taken d s h = ground arith

module _ (names : Codec (List Text)) (table : Codec Table) where
  Step-IsNoOlder : (s t : System) → Step names table s t → IsNoOlder s.store t.store
  unfolding on_tick
  Step-IsNoOlder s t (tick turns) = poll-IsNoOlder table turns _ _ s.store
  Step-IsNoOlder s t (edit d) = elim (Option-cases (reload d s.config).0) [
    | inr (e, bad) ↦ rw (edit_refused d s e bad) (IsNoOlder-refl s.store)
    | inl fine ↦ rw (edit_taken d s fine) (IsNoOlder-refl s.store)
  ]
  Step-IsNoOlder s t (handle world before snap after e) = IsNoOlder-refl s.store
  Step-IsNoOlder s t (serve_request token r io) = IsNoOlder-refl s.store

  pub Steps-IsNoOlder : (s t : System) → Steps names table s t → IsNoOlder s.store t.store
  Steps-IsNoOlder s t here = IsNoOlder-refl s.store
  Steps-IsNoOlder s t (step u v before last) =
      IsNoOlder-trans s.store u.store v.store (Steps-IsNoOlder s u before) (Step-IsNoOlder u v last)

module _ (names : Codec (List Text)) (table : Codec Table) (json : RoundTrips names) where
  edit-IsHealthy :
      (d : Document) (s : System) → IsHealthy names table s → IsHealthy names table (on_edit d s)
  edit-IsHealthy d s h = elim (Option-cases (reload d s.config).0) [
    | inr (e, bad) ↦ rw (edit_refused d s e bad) h
    | inl fine ↦
        let good = reload-IsGood d s.config h.config in
        rw (edit_taken d s fine) (record {
          config = good;
          pending =
              All-append IsGood s.pending ((reload d s.config).1.snap ∷ []) h.pending (good, tt);
          manager = h.manager;
          clients = h.clients;
        })
  ]

  run-healthy : (m m' : Manager) → IsRun names m m' → IsSound names m → IsSound names m'
  run-healthy m m' (rs, e) h = rw e (run-IsSound names json rs m h)

  Step-IsHealthy :
      (s t : System) → Step names table s t → IsHealthy names table s → IsHealthy names table t
  unfolding on_tick
  Step-IsHealthy s t (tick turns) h = record {
    config = h.config;
    pending = h.pending;
    manager = h.manager;
    clients = h.clients;
  }
  Step-IsHealthy s t (edit d) h = edit-IsHealthy d s h
  Step-IsHealthy s t (handle world before snap after e) h =
      let all : All IsGood (before ++ snap ∷ after) = rw (← e) h.pending in
      let (good, rest) = All-middle before snap after all in
      record {
        config = h.config;
        pending = rest;
        manager = h.manager;
        clients = record {
          snap = snap;
          good = good;
          serials = (sync_clients_lem world snap s.clients).1;
        };
      }
  Step-IsHealthy s t (serve_request token r io) h = record {
    config = h.config;
    pending = h.pending;
    clients = h.clients;
    manager = run-healthy s.manager _ (serve-IsRun names token r io s.store s.manager) h.manager;
  }

  kept : (s t : System) → Steps names table s t → IsHealthy names table s → IsHealthy names table t
  kept s t here h = h
  kept s t (step u v before last) h = Step-IsHealthy u v last (kept s u before h)

  -- If the JSON library reads back the lists of valid names that it writes, and the configuration
  -- in use, the snapshots under way to the watcher, the packages and the clients are healthy,
  -- they are so after any steps of ticks, edits of the configuration file, runs of its handler in
  -- any order, and requests, whatever the devices and the file system answer; and the store then
  -- knows every package that it knew, with no lower version code.
  pub Steps-IsHealthy :
      (s t : System)
      → Steps names table s t
      → IsHealthy names table s
      → IsHealthy names table t × IsNoOlder s.store t.store
  Steps-IsHealthy s t steps h = (kept s t steps h, Steps-IsNoOlder names table s t steps)
