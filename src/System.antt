-- ===== src/System.antt =====
-- The running program: the watcher of watcher/watcher.go beside the API of api/server.go and the watch
-- of the configuration file, as the steps that change the state; the watch of packages.json is in
-- Packages.Watching. Go runs them in goroutines; any order of the steps may happen. The handler that
-- `watcher.New` registers runs in a goroutine of its own: between the reload that starts it and its run
-- other steps may come.
pub mod Laws
pub mod Begun
pub mod Progress
use play_apk_distributor.Prelude.{
  ℕ, ◌≡◌, Bool, true, false, List, [], ◌∷◌, ◌++◌, map, Option, none, some, if◌then◌else◌,
}
use play_apk_distributor.Text.{Text}
use play_apk_distributor.Storage.{Codec, Answers, Read}
use play_apk_distributor.Store.{Table, Store}
use play_apk_distributor.Packages.{Manager, list}
use play_apk_distributor.Config.{Config, Snapshot, Document, get, reload}
use play_apk_distributor.Device.{Device}
use play_apk_distributor.Watcher.{Turn, effective_packages, poll, sync_clients}
use play_apk_distributor.Api.{Request, serve}

-- `pending` are the snapshots of the calls of the handler that were started and have not run
pub record System : Type 0 where
  pub config : Config
  pub manager : Manager
  pub store : Store
  pub clients : List Device
  pub pending : List Snapshot

-- an event of the configuration file that writes or creates it, as `Watch` treats it
unfoldable pub on_edit : Document → System → System
on_edit d s =
    let (e, c) = reload d s.config in
    elim e [ some x ↦ s | none ↦ record s { config = c; pending = s.pending ++ get c ∷ [] } ]

-- a tick of `Run`: the poll with the current snapshot and the current packages
pub on_tick : Codec Table → (Text → Turn) → System → System
on_tick table turns s = record s {
  store =
      poll table turns (get s.config).output_dir
        (effective_packages (get s.config).packages (list s.manager)) s.store;
}

module _ (names : Codec (List Text)) (table : Codec Table) where
  pub data Step (s : System) : System → Type 0 where
    -- The clients of a turn are those that the watcher has when the check of its package begins. A
    -- handler may have replaced them since the tick began, so that each turn may have any, and they
    -- answer as they like. A poll changes the store alone, and a handler the clients alone.
    tick : (turns : Text → Turn) → Step s (on_tick table turns s)
    edit : (d : Document) → Step s (on_edit d s)
    -- a handler runs; goroutines may overtake each other
    handle :
        (world : Text → Device) (before : List Snapshot) (snap : Snapshot) (after : List Snapshot)
        → s.pending ≡ before ++ snap ∷ after
        → Step s
            (record s { clients = sync_clients world snap s.clients; pending = before ++ after })
    serve_request :
        (token : Text) (r : Request) (io : Answers)
        → Step s (record s { manager = (serve names token r io s.store s.manager).1 })

  pub data Steps (s : System) : System → Type 0 where
    here : Steps s s
    step : (t u : System) → Steps s t → Step t u → Steps s u
