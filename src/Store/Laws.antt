-- ===== src/Store/Laws.antt =====
-- What `SetLastKnown` records, on every answer of the file system, and what `Open` reads back.
use play_apk_distributor.Prelude.{ℕ, ◌≡◌, refl, ap, true, none, some, arith, if◌then◌else◌}
use play_apk_distributor.Prelude.Int.{ℤ}
use play_apk_distributor.Text.{Text, text_eq}
use play_apk_distributor.NameMap.{insert}
use play_apk_distributor.NameMap.Laws.{lookup-insert}
use play_apk_distributor.Result.{Error, ok, err, done}
use play_apk_distributor.Storage.{Slot, Answers, Codec, read_slot}
use play_apk_distributor.Storage.Laws.{save-done, save_failed}
use play_apk_distributor.Store.{Table, Store, get_last_known, set_last_known, open_store}

module _ (codec : Codec Table) where
  -- The entry is in memory after `SetLastKnown` whether or not the file could be written, and the
  -- entries of other packages are as before.
  pub get-set_last_known :
      (pkg other : Text) (code : ℤ) (name : Text) (now : ℕ) (io : Answers) (s : Store)
      → get_last_known (set_last_known codec pkg code name now io s).1 other ≡ (
          if text_eq other pkg
          then some (record { version_code = code; version_name = name; updated_at = now })
          else get_last_known s other)
  unfolding get_last_known set_last_known
  get-set_last_known pkg other code name now io s =
      lookup-insert pkg other
        (record { version_code = code; version_name = name; updated_at = now }) s.table

  -- a failed `SetLastKnown` leaves store.json as it was
  pub set_last_known_failed :
      (pkg : Text) (code : ℤ) (name : Text) (now : ℕ) (io : Answers) (s : Store) (e : Error)
      → (set_last_known codec pkg code name now io s).0 ≡ err e
      → (set_last_known codec pkg code name now io s).1.file.main ≡ s.file.main
  unfolding set_last_known
  set_last_known_failed pkg code name now io s e h =
      save_failed (codec.marshal (insert pkg _ s.table)) io s.file e h

  set_last_known_file :
      (pkg : Text) (code : ℤ) (name : Text) (now : ℕ) (io : Answers) (s : Store)
      → (set_last_known codec pkg code name now io s).0 ≡ done
      → (b : Text) × (codec.marshal (set_last_known codec pkg code name now io s).1.table ≡ some b)
        × ((set_last_known codec pkg code name now io s).1.file
            ≡ record { main = some b; tmp = none })
  unfolding set_last_known
  set_last_known_file pkg code name now io s h =
      save-done (codec.marshal (insert pkg _ s.table)) io s.file h

  open_written :
      (f : Slot) (b : Text) (t : Table)
      → f.main ≡ some b
      → codec.unmarshal b ≡ some t
      → open_store codec true f (read_slot f) ≡ ok (record { table = t; file = f })
  unfolding open_store
  open_written f b t e d = ground arith

  -- If the document that `SetLastKnown` writes is read back as what it encodes, then after a
  -- `SetLastKnown` without error `Open` gives a store that knows of every package what is known
  -- in memory.
  pub open-set_last_known :
      (pkg : Text) (code : ℤ) (name : Text) (now : ℕ) (io : Answers) (s : Store)
      → ((b : Text)
          → codec.marshal (set_last_known codec pkg code name now io s).1.table ≡ some b
          → codec.unmarshal b ≡ some (set_last_known codec pkg code name now io s).1.table)
      → (set_last_known codec pkg code name now io s).0 ≡ done
      → (again : Store) × (open_store codec true
            (set_last_known codec pkg code name now io s).1.file
            (read_slot (set_last_known codec pkg code name now io s).1.file)
          ≡ ok again)
        × ((other : Text)
            → get_last_known again other
              ≡ get_last_known (set_last_known codec pkg code name now io s).1 other)
  unfolding open_store get_last_known
  open-set_last_known pkg code name now io s json h =
      let (b, encoded, in_place) = set_last_known_file pkg code name now io s h in
      let s' = (set_last_known codec pkg code name now io s).1 in
      (
        record { table = s'.table; file = s'.file },
        open_written s'.file b s'.table (ap (λ f. f.main) in_place) (json b encoded),
        λ other. refl,
      )
