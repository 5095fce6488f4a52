-- ===== src/Packages/Removing.antt =====
-- `Remove` of packages/packages.go, on every branch.
use play_apk_distributor.Prelude.{
  ap, sym, ◌≡◌, true, false, List, arith, some, if◌then◌else◌, Bool-cases, inl, inr, ◌∙◌,
}
use play_apk_distributor.Text.{Text, text_eq}
use play_apk_distributor.Text.Laws.{text_eq_iff}
use play_apk_distributor.NameSet.{has, include, without, sort_texts, SameNames}
use play_apk_distributor.NameSet.Laws.{has-include, has-without}
use play_apk_distributor.Result.{Error, err, done, not_tracked}
use play_apk_distributor.Storage.{Answers, Codec, written}
use play_apk_distributor.Storage.Laws.{save_all_ok}
use play_apk_distributor.Packages.{Manager, tracked, remove, flush, conclude, with_set}
use play_apk_distributor.Packages.Flush.{IsSaved}
use play_apk_distributor.Packages.Edits.{Notified, Unchanged, unchanged, put_back, saved_change}

include-without :
    (name : Text) (set : List Text)
    → has name set ≡ true
    → SameNames (include name (without name set)) set
include-without name set h other = ground (
  arith,
  has-without name other set,
  has-include name other (without name set),
  text_eq_iff other name,
)

module _ (codec : Codec (List Text)) where
  pub remove_new :
      (name : Text) (io : Answers) (m : Manager)
      → tracked m name ≡ false
      → remove codec name io m ≡ (err not_tracked, m)
  unfolding remove
  remove_new name io m h = ground arith

  pub remove_old :
      (name : Text) (io : Answers) (m : Manager)
      → tracked m name ≡ true
      → remove codec name io m
        ≡ conclude
            (include name (without name m.set))
            (flush codec io (with_set m (without name m.set)))
  unfolding remove
  remove_old name io m h = ground arith

  -- what a `Remove` without error has found and done
  pub record Removed (name : Text) (m m' : Manager) : Type 0 where
    pub present : tracked m name ≡ true
    pub names :
        (other : Text) → tracked m' other ≡ (if text_eq other name then false else tracked m other)
    pub saved : IsSaved codec m'
    pub notified : Notified m m'

  old_done :
      (name : Text) (io : Answers) (m : Manager)
      → tracked m name ≡ true
      → (conclude
          (include name (without name m.set))
          (flush codec io (with_set m (without name m.set)))).0
        ≡ done
      → Removed name m (remove codec name io m).1
  unfolding tracked
  old_done name io m old h =
      let (names, saved, notified) =
        saved_change codec (include name (without name m.set)) (without name m.set) io m h in
      rw (remove_old name io m old) (record {
        present = old;
        saved = saved;
        notified = notified;
        names = λ other. names other ∙ has-without name other m.set;
      })

  -- A `Remove` without error was of a name that was tracked; that name alone is tracked no more,
  -- packages.json holds the sorted list, and every handler was called with it.
  pub remove-done :
      (name : Text) (io : Answers) (m : Manager)
      → (remove codec name io m).0 ≡ done
      → Removed name m (remove codec name io m).1
  remove-done name io m h = elim (Bool-cases (tracked m name)) [
    | inr new ↦ cc (h, remove_new name io m new)
    | inl old ↦ old_done name io m old (ap (λ p. p.0) (sym (remove_old name io m old)) ∙ h)
  ]

  -- A `Remove` with an error leaves the tracked names, the file, the handlers and their calls as
  -- they were.
  pub remove_failed :
      (name : Text) (io : Answers) (m : Manager) (e : Error)
      → (remove codec name io m).0 ≡ err e
      → Unchanged m (remove codec name io m).1
  unfolding tracked
  remove_failed name io m e h = elim (Bool-cases (tracked m name)) [
    | inr new ↦ rw (remove_new name io m new) (unchanged m)
    | inl old ↦ rw (remove_old name io m old) (
        put_back codec (include name (without name m.set)) (without name m.set) io m e
          (include-without name m.set old) (ap (λ p. p.0) (sym (remove_old name io m old)) ∙ h))
  ]

  -- A `Remove` of a tracked name succeeds when the file can be written.
  pub remove_succeeds :
      (name : Text) (io : Answers) (m : Manager) (b : Text)
      → tracked m name ≡ true
      → codec.marshal (sort_texts (without name m.set)) ≡ some b
      → io.write ≡ written
      → io.rename_ok ≡ true
      → (remove codec name io m).0 ≡ done
  unfolding flush conclude
  remove_succeeds name io m b old encoded w r =
      rw (remove_old name io m old) (ground (arith, encoded, save_all_ok b io m.file w r))
