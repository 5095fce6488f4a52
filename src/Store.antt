-- ===== src/Store.antt =====
-- store/store.go: the last extracted version of each package, and its file store.json. The time of
-- day is an argument of `set_last_known`.
pub mod Laws
use play_apk_distributor.Prelude.{
  ℕ, Bool, true, false, List, [], ◌∷◌, Option, none, some, if◌then◌else◌,
}
use play_apk_distributor.Prelude.Int.{ℤ}
use play_apk_distributor.Text.{Text}
use play_apk_distributor.NameMap.{lookup, insert}
use play_apk_distributor.Result.{
  Error, Result, ok, err, done, read_failed, parse_failed, mkdir_failed,
}
use play_apk_distributor.Storage.{Slot, Answers, save, Read, content, absent, unreadable, Codec}

pub record Entry : Type 0 where
  pub version_code : ℤ
  pub version_name : Text
  pub updated_at : ℕ

abbrev pub Table : Type 0
Table = List (Text × Entry)

pub record Store : Type 0 where
  pub table : Table
  pub file : Slot

-- GetLastKnown
unfoldable pub get_last_known : Store → Text → Option Entry
get_last_known s pkg = lookup pkg s.table

module _ (codec : Codec Table) where
  unfoldable pub flush : Answers → Store → Result (Unit {0}) × Store
  flush io s = let (r, f) = save (codec.marshal s.table) io s.file in (r, record s { file = f })

  -- SetLastKnown: an entry that could not be written stays in memory
  unfoldable pub set_last_known : Text → ℤ → Text → ℕ → Answers → Store → Result (Unit {0}) × Store
  unfolding flush
  set_last_known pkg code name now io s =
      let entry : Entry = record { version_code = code; version_name = name; updated_at = now } in
      flush io (record s { table = insert pkg entry s.table })

  -- Where the content is `null`, Go's map is nil, and `SetLastKnown` panics later; a codec gives a
  -- table for each document that it decodes.
  open_read : Slot → Read → Result Store
  open_read f absent = ok (record { table = []; file = f })
  open_read f unreadable = err read_failed
  open_read f (content b) = elim (codec.unmarshal b) [
    | none ↦ err parse_failed
    | some table ↦ ok (record { table = table; file = f })
  ]

  -- Open; the flag says whether `os.MkdirAll` made the state directory
  unfoldable pub open_store : Bool → Slot → Read → Result Store
  unfolding open_read
  open_store made f r = if made then open_read f r else err mkdir_failed
