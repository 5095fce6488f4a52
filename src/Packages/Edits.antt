-- ===== src/Packages/Edits.antt =====
-- What a method of `Manager` that succeeded, or failed, has done to the state.
use play_apk_distributor.Prelude.{ap, ◌≡◌, refl, List, map, ◌++◌, ◌∙◌}
use play_apk_distributor.Text.{Text}
use play_apk_distributor.NameSet.{has, SameNames}
use play_apk_distributor.Result.{Error, err, done}
use play_apk_distributor.Storage.{Answers, Codec}
use play_apk_distributor.Packages.{Manager, list, tracked, flush, conclude, with_set}
use play_apk_distributor.Packages.Flush.{IsSaved, conclude-done, conclude_failed}

-- the handlers stay, and each is called with the new list
pub record Notified (m m' : Manager) : Type 0 where
  pub handlers : m'.handlers ≡ m.handlers
  pub calls : m'.calls ≡ m.calls ++ map (λ h. (h, list m')) m.handlers

-- what a method that returns an error leaves: nothing that can be seen has changed
pub record Unchanged (m m' : Manager) : Type 0 where
  pub names : SameNames m'.set m.set
  pub file : m'.file.main ≡ m.file.main
  pub handlers : m'.handlers ≡ m.handlers
  pub calls : m'.calls ≡ m.calls

pub unchanged : (m : Manager) → Unchanged m m
unchanged m = record { names = λ n. refl; file = refl; handlers = refl; calls = refl }

module _ (codec : Codec (List Text)) where
  pub put_back :
      (back set : List Text) (io : Answers) (m : Manager) (e : Error)
      → SameNames back m.set
      → (conclude back (flush codec io (with_set m set))).0 ≡ err e
      → Unchanged m (conclude back (flush codec io (with_set m set))).1
  put_back back set io m e same h =
      let (names, file, handlers, calls) = conclude_failed codec back set io m e h in
      record {
        names = λ n. ap (has n) names ∙ same n;
        file = file;
        handlers = handlers;
        calls = calls;
      }

  pub saved_change :
      (back set : List Text) (io : Answers) (m : Manager)
      → (conclude back (flush codec io (with_set m set))).0 ≡ done
      → ((other : Text)
          → tracked (conclude back (flush codec io (with_set m set))).1 other ≡ has other set)
        × IsSaved codec (conclude back (flush codec io (with_set m set))).1
        × Notified m (conclude back (flush codec io (with_set m set))).1
  unfolding tracked list
  saved_change back set io m h =
      let (e, saved, handlers, calls) = conclude-done codec back set io m h in
      (λ other. ap (has other) e, saved, record { handlers = handlers; calls = rw e calls })
