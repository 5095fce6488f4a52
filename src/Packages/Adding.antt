-- ===== src/Packages/Adding.antt =====
-- `Add` of packages/packages.go, on every branch.
use play_apk_distributor.Prelude.{
  ap, sym, ◌≡◌, true, false, ◌||◌, List, arith, some, Bool-cases, inl, inr, ◌∙◌,
}
use play_apk_distributor.Text.{Text, text_eq}
use play_apk_distributor.Text.Laws.{text_eq_iff}
use play_apk_distributor.NameSet.{has, include, without, sort_texts, SameNames}
use play_apk_distributor.NameSet.Laws.{has-include, has-without}
use play_apk_distributor.PackageName.{valid_package_name}
use play_apk_distributor.Result.{Error, err, done, invalid_name, already_tracked}
use play_apk_distributor.Storage.{Answers, Codec, written}
use play_apk_distributor.Storage.Laws.{save_all_ok}
use play_apk_distributor.Packages.{
  Manager, tracked, add, flush, conclude, validate_package_name, with_set,
}
use play_apk_distributor.Packages.Flush.{IsSaved}
use play_apk_distributor.Packages.Edits.{Notified, Unchanged, unchanged, put_back, saved_change}

without-include :
    (name : Text) (set : List Text)
    → has name set ≡ false
    → SameNames (without name (include name set)) set
without-include name set h other = ground (
  arith,
  has-without name other (include name set),
  has-include name other set,
  text_eq_iff other name,
)

module _ (codec : Codec (List Text)) where
  -- what an `Add` without error has found and done
  pub record Added (name : Text) (m m' : Manager) : Type 0 where
    pub valid : valid_package_name name ≡ true
    pub fresh : tracked m name ≡ false
    pub names : (other : Text) → tracked m' other ≡ (text_eq other name || tracked m other)
    pub saved : IsSaved codec m'
    pub notified : Notified m m'

  pub add_invalid :
      (name : Text) (io : Answers) (m : Manager)
      → valid_package_name name ≡ false
      → add codec name io m ≡ (err invalid_name, m)
  unfolding add validate_package_name
  add_invalid name io m h = ground arith

  pub add_old :
      (name : Text) (io : Answers) (m : Manager)
      → valid_package_name name ≡ true
      → tracked m name ≡ true
      → add codec name io m ≡ (err already_tracked, m)
  unfolding add validate_package_name
  add_old name io m h k = ground arith

  pub add_new :
      (name : Text) (io : Answers) (m : Manager)
      → valid_package_name name ≡ true
      → tracked m name ≡ false
      → add codec name io m
        ≡ conclude
            (without name (include name m.set))
            (flush codec io (with_set m (include name m.set)))
  unfolding add validate_package_name
  add_new name io m h k = ground arith

  new_done :
      (name : Text) (io : Answers) (m : Manager)
      → valid_package_name name ≡ true
      → tracked m name ≡ false
      → (conclude
          (without name (include name m.set))
          (flush codec io (with_set m (include name m.set)))).0
        ≡ done
      → Added name m (add codec name io m).1
  unfolding tracked
  new_done name io m good new h =
      let (names, saved, notified) =
        saved_change codec (without name (include name m.set)) (include name m.set) io m h in
      rw (add_new name io m good new) (record {
        valid = good;
        fresh = new;
        saved = saved;
        notified = notified;
        names = λ other. names other ∙ has-include name other m.set;
      })

  -- An `Add` without error was of a valid name that was not tracked; that name is tracked now
  -- beside those before, packages.json holds the sorted list, and every handler was called with
  -- it.
  pub add-done :
      (name : Text) (io : Answers) (m : Manager)
      → (add codec name io m).0 ≡ done
      → Added name m (add codec name io m).1
  add-done name io m h = elim (Bool-cases (valid_package_name name)) [
    | inr bad ↦ cc (h, add_invalid name io m bad)
    | inl good ↦ elim (Bool-cases (tracked m name)) [
      | inl old ↦ cc (h, add_old name io m good old)
      | inr new ↦ new_done name io m good new (ap (λ p. p.0) (sym (add_new name io m good new)) ∙ h)
    ]
  ]

  -- An `Add` with an error leaves the tracked names, the file, the handlers and their calls as
  -- they were.
  pub add_failed :
      (name : Text) (io : Answers) (m : Manager) (e : Error)
      → (add codec name io m).0 ≡ err e
      → Unchanged m (add codec name io m).1
  unfolding tracked
  add_failed name io m e h = elim (Bool-cases (valid_package_name name)) [
    | inr bad ↦ rw (add_invalid name io m bad) (unchanged m)
    | inl good ↦ elim (Bool-cases (tracked m name)) [
      | inl old ↦ rw (add_old name io m good old) (unchanged m)
      | inr new ↦ rw (add_new name io m good new) (
          put_back codec (without name (include name m.set)) (include name m.set) io m e
            (without-include name m.set new) (ap (λ p. p.0) (sym (add_new name io m good new)) ∙ h))
    ]
  ]

  -- An `Add` of a valid name that is not tracked succeeds when the file can be written.
  pub add_succeeds :
      (name : Text) (io : Answers) (m : Manager) (b : Text)
      → valid_package_name name ≡ true
      → tracked m name ≡ false
      → codec.marshal (sort_texts (include name m.set)) ≡ some b
      → io.write ≡ written
      → io.rename_ok ≡ true
      → (add codec name io m).0 ≡ done
  unfolding flush conclude
  add_succeeds name io m b good new encoded w r =
      rw (add_new name io m good new) (ground (arith, encoded, save_all_ok b io m.file w r))
