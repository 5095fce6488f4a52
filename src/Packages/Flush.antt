-- ===== src/Packages/Flush.antt =====
-- `flush` of packages/packages.go, and what `Add`, `Remove` and `Seed` do with its result.
use play_apk_distributor.Prelude.{◌≡◌, inl, inr, some, none, List, arith, map, ◌++◌}
use play_apk_distributor.Text.{Text}
use play_apk_distributor.NameSet.{sort_texts}
use play_apk_distributor.Result.{Error, err, done, Result-cases}
use play_apk_distributor.Storage.{Answers, Codec, save}
use play_apk_distributor.Storage.Laws.{save-done, save_failed}
use play_apk_distributor.Packages.{Manager, list, flush, conclude, with_set}

module _ (codec : Codec (List Text)) where
  -- the set and its file after a change that succeeded
  pub record IsSaved (m : Manager) : Type 0 where
    pub document : Text
    pub encoded : codec.marshal (list m) ≡ some document
    pub in_place : m.file ≡ record { main = some document; tmp = none }

  -- a change to `set` that succeeded: the set is in the file, and every handler is called with it
  pub conclude-done :
      (back set : List Text) (io : Answers) (m : Manager)
      → (conclude back (flush codec io (with_set m set))).0 ≡ done
      → ((conclude back (flush codec io (with_set m set))).1.set ≡ set)
        × IsSaved (conclude back (flush codec io (with_set m set))).1
        × ((conclude back (flush codec io (with_set m set))).1.handlers ≡ m.handlers)
        × ((conclude back (flush codec io (with_set m set))).1.calls
            ≡ m.calls ++ map (λ h. (h, sort_texts set)) m.handlers)
  unfolding conclude flush
  conclude-done back set io m h =
      let doc = codec.marshal (sort_texts set) in
      elim (Result-cases (save doc io m.file).0) [
        | inl (_, e) ↦
            let (b, encoded, in_place) = save-done doc io m.file e in
            (
              ground arith,
              record { document = b; encoded = ground arith; in_place = ground arith },
              ground arith,
              ground arith,
            )
        | inr (x, e) ↦ ground arith
      ]

  -- a change that failed: the set is put back, and file and calls are as before
  pub conclude_failed :
      (back set : List Text) (io : Answers) (m : Manager) (e : Error)
      → (conclude back (flush codec io (with_set m set))).0 ≡ err e
      → ((conclude back (flush codec io (with_set m set))).1.set ≡ back)
        × ((conclude back (flush codec io (with_set m set))).1.file.main ≡ m.file.main)
        × ((conclude back (flush codec io (with_set m set))).1.handlers ≡ m.handlers)
        × ((conclude back (flush codec io (with_set m set))).1.calls ≡ m.calls)
  unfolding conclude flush
  conclude_failed back set io m e h =
      ground (arith, save_failed (codec.marshal (sort_texts set)) io m.file e)
