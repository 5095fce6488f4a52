-- ===== src/Packages/Watching.antt =====
-- The goroutine of `Watch` in packages/packages.go beside the requests. `load` reads packages.json
-- before it takes the lock, so that requests may come between its reading and its taking of the set.
pub mod Laws
pub mod Lost
use play_apk_distributor.Prelude.{◌≡◌, ◌⊎◌, List, [], ◌∷◌, Option, none, some}
use play_apk_distributor.Text.{Text}
use play_apk_distributor.Result.{ok, err}
use play_apk_distributor.Storage.{Codec, Read, unreadable, read_slot}
use play_apk_distributor.Packages.{Manager, load_read, notify}
use play_apk_distributor.Packages.Invariant.{Request, run}

-- the manager, and what a `load` under way has read
pub record Watched : Type 0 where
  pub manager : Manager
  pub reading : Option Read

module _ (codec : Codec (List Text)) where
  -- `Watch` behind the reading: the set is replaced and the handlers are called, if there is no error
  pub after_read : Read → Manager → Manager
  after_read r m = let (e, m') = load_read codec r m in elim e [ ok _ ↦ notify m' | err x ↦ m' ]

  pub data Step (s : Watched) : Watched → Type 0 where
    request : (r : Request) → Step s (record s { manager = run codec (r ∷ []) s.manager })
    -- an event of the file: it is read, or cannot be in three attempts
    begin :
        (r : Read)
        → s.reading ≡ none
        → (r ≡ read_slot s.manager.file) ⊎ (r ≡ unreadable)
        → Step s (record s { reading = some r })
    finish :
        (r : Read)
        → s.reading ≡ some r
        → Step s (record { manager = after_read r s.manager; reading = none })
    -- another program replaces the file, or removes it
    edit :
        (main : Option Text)
        → Step s (record s {
          manager = record s.manager { file = record s.manager.file { main = main } };
        })

  pub data Steps (s : Watched) : Watched → Type 0 where
    here : Steps s s
    step : (t u : Watched) → Steps s t → Step t u → Steps s u
