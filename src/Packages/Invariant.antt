-- ===== src/Packages/Invariant.antt =====
-- What holds of a manager after any requests, and what a restart reads back.
use play_apk_distributor.Prelude.{
  ◌≡◌, refl, ap, sym, ◌∙◌, ◌⊎◌, inl, inr, true, false, List, [], ◌∷◌, arith, Option, some, none,
}
use mathlib.Core.Path.{subst}
use play_apk_distributor.Text.{Text}
use play_apk_distributor.Text.Laws.{text_eq_iff, text_eq_refl}
use play_apk_distributor.NameSet.{has, IsSetList, SameNames, include, without}
use play_apk_distributor.NameSet.Laws.{include-IsSetList, without-IsSetList}
use play_apk_distributor.NameSet.Sorting.{has-sort_texts, sort_texts_same}
use play_apk_distributor.PackageName.{valid_package_name}
use play_apk_distributor.Result.{ok, Result-cases}
use play_apk_distributor.Storage.{Answers, Codec, Slot, absent, read_slot}
use play_apk_distributor.Packages.{
  Manager, tracked, list, add, remove, open_manager, fill_set, validate_package_name, flush,
  conclude,
}
use play_apk_distributor.Packages.Edits.{Unchanged}
use play_apk_distributor.Packages.Flush.{IsSaved}
use play_apk_distributor.Packages.Adding.{add-done, add_failed}
use play_apk_distributor.Packages.Removing.{remove-done, remove_failed}
use play_apk_distributor.Packages.Seeding.{AllValid}
use play_apk_distributor.Packages.Loading.{fill_set_valid}

-- what the HTTP API can ask of a manager, with the answers of the file system
pub data Request : Type 0 where
  adding removing : Text → Answers → Request

-- names that `encoding/json` writes are read back
pub record RoundTrips (codec : Codec (List Text)) : Type 0 where
  pub back :
      (names : List Text) (b : Text)
      → AllValid names
      → codec.marshal names ≡ some b
      → codec.unmarshal b ≡ some names

module _ (codec : Codec (List Text)) where
  unfoldable pub run : List Request → Manager → Manager
  run [] m = m
  run (adding name io ∷ rs) m = run rs (add codec name io m).1
  run (removing name io ∷ rs) m = run rs (remove codec name io m).1

  pub record IsSound (m : Manager) : Type 0 where
    -- no name twice
    pub distinct : IsSetList m.set
    -- every tracked name is valid
    pub valid : (name : Text) → tracked m name ≡ true → valid_package_name name ≡ true
    -- packages.json holds the list, or has never been written
    pub in_file :
        ((m.file.main ≡ none) × ((name : Text) → tracked m name ≡ false))
        ⊎ ((b : Text) × (names : List Text) × (m.file.main ≡ some b)
            × (codec.unmarshal b ≡ some names)
            × AllValid names
            × SameNames names m.set)

  pub add-distinct :
      (name : Text) (io : Answers) (m : Manager)
      → IsSetList m.set
      → IsSetList (add codec name io m).1.set
  unfolding add validate_package_name flush conclude
  add-distinct name io m h =
      ground (arith, include-IsSetList name m.set h, without-IsSetList name (include name m.set))

  pub remove-distinct :
      (name : Text) (io : Answers) (m : Manager)
      → IsSetList m.set
      → IsSetList (remove codec name io m).1.set
  unfolding remove flush conclude
  remove-distinct name io m h =
      ground (arith, without-IsSetList name m.set h, include-IsSetList name (without name m.set))

ok-injective : (a b : Manager) → ok a ≡ ok b → a ≡ b
ok-injective a b h = cc

all_valid :
    (xs : List Text) → ((n : Text) → has n xs ≡ true → valid_package_name n ≡ true) → AllValid xs
unfolding has
all_valid [] h = tt
all_valid (x ∷ xs) h =
    (h x (ground (arith, text_eq_refl x)), all_valid xs (λ n k. h n (ground arith)))

module _ (codec : Codec (List Text)) where
  open_absent :
      (f : Slot)
      → f.main ≡ none
      → open_manager codec f (λ _. read_slot f)
        ≡ ok (record { set = []; file = f; handlers = []; calls = [] })
  unfolding open_manager
  open_absent f e = ground arith

  open_content :
      (f : Slot) (b : Text) (names set : List Text)
      → f.main ≡ some b
      → codec.unmarshal b ≡ some names
      → fill_set names [] ≡ ok set
      → open_manager codec f (λ _. read_slot f)
        ≡ ok (record { set = set; file = f; handlers = []; calls = [] })
  unfolding open_manager
  open_content f b names set e d g = ground arith

module _ (codec : Codec (List Text)) (json : RoundTrips codec) where
  pub saved-IsSound :
      (m : Manager)
      → IsSetList m.set
      → ((name : Text) → tracked m name ≡ true → valid_package_name name ≡ true)
      → IsSaved codec m
      → IsSound codec m
  unfolding tracked list
  saved-IsSound m distinct valid saved =
      let names_valid = all_valid (list m) (λ n k. valid n (sym (has-sort_texts n m.set) ∙ k)) in
      record {
        distinct = distinct;
        valid = valid;
        in_file = inr (
          saved.document,
          list m,
          ap (λ f. f.main) saved.in_place,
          json.back (list m) saved.document names_valid saved.encoded,
          names_valid,
          λ n. has-sort_texts n m.set,
        );
      }

  Unchanged-IsSound :
      (m m' : Manager) → IsSound codec m → IsSetList m'.set → Unchanged m m' → IsSound codec m'
  unfolding tracked
  Unchanged-IsSound m m' s distinct u = record {
    distinct = distinct;
    valid = λ n h. s.valid n (sym (u.names n) ∙ h);
    in_file = elim s.in_file [
      | inl (e, empty) ↦ inl (u.file ∙ e, λ n. u.names n ∙ empty n)
      | inr (b, names, e, d, v, same) ↦
          inr (b, names, u.file ∙ e, d, v, λ n. same n ∙ sym (u.names n))
    ];
  }

  add-IsSound :
      (name : Text) (io : Answers) (m : Manager)
      → IsSound codec m
      → IsSound codec (add codec name io m).1
  add-IsSound name io m s =
      let distinct = add-distinct codec name io m s.distinct in
      elim (Result-cases (add codec name io m).0) [
        | inr (e, h) ↦
            Unchanged-IsSound m (add codec name io m).1 s distinct (add_failed codec name io m e h)
        | inl (_, h) ↦
            let a = add-done codec name io m h in
            saved-IsSound (add codec name io m).1 distinct
              (λ n k. ground (arith, a.names n, a.valid, text_eq_iff n name, s.valid n)) a.saved
      ]

  remove-IsSound :
      (name : Text) (io : Answers) (m : Manager)
      → IsSound codec m
      → IsSound codec (remove codec name io m).1
  remove-IsSound name io m s =
      let distinct = remove-distinct codec name io m s.distinct in
      elim (Result-cases (remove codec name io m).0) [
        | inr (e, h) ↦
            Unchanged-IsSound m (remove codec name io m).1 s distinct
              (remove_failed codec name io m e h)
        | inl (_, h) ↦
            let a = remove-done codec name io m h in
            saved-IsSound (remove codec name io m).1 distinct
              (λ n k. ground (arith, a.names n, s.valid n)) a.saved
      ]

  -- If the JSON library reads back the lists of valid names that it writes, a sound manager stays
  -- sound under any requests to add and to remove, whatever the file system answers: no name
  -- twice, valid names alone, and in packages.json, once it exists, the names in memory.
  pub run-IsSound :
      (rs : List Request) (m : Manager) → IsSound codec m → IsSound codec (run codec rs m)
  unfolding run
  run-IsSound [] m s = s
  run-IsSound (adding name io ∷ rs) m s =
      run-IsSound rs (add codec name io m).1 (add-IsSound name io m s)
  run-IsSound (removing name io ∷ rs) m s =
      run-IsSound rs (remove codec name io m).1 (remove-IsSound name io m s)

  -- Opening the file that a sound manager left gives a manager with the same list.
  pub open_manager-IsSound :
      (m : Manager)
      → IsSound codec m
      → (again : Manager) × (open_manager codec m.file (λ _. read_slot m.file) ≡ ok again)
        × (list again ≡ list m)
  unfolding list tracked has
  open_manager-IsSound m s = elim s.in_file [
    | inl (e, empty) ↦ (
      record { set = []; file = m.file; handlers = []; calls = [] },
      open_absent codec m.file e,
      sort_texts_same [] m.set tt s.distinct (λ n. sym (empty n)),
    )
    | inr (b, names, e, d, v, same) ↦
        let (set, filled, distinct, names_of) = fill_set_valid names [] v tt in
        (
          record { set = set; file = m.file; handlers = []; calls = [] },
          open_content codec m.file b names set e d filled,
          sort_texts_same set m.set distinct s.distinct (λ n. names_of n ∙ same n),
        )
  ]

  -- what `New` returns for a file is sound, if it is the file that was read
  empty-IsSound :
      (f : Slot)
      → f.main ≡ none
      → IsSound codec (record { set = []; file = f; handlers = []; calls = [] })
  unfolding tracked has
  empty-IsSound f e = record { distinct = tt; valid = λ n h. cc; in_file = inl (e, λ n. refl) }

  -- If the JSON library reads back the lists of valid names that it writes, then after a start
  -- without packages.json and any requests, whatever the file system answers, the next start
  -- reads back the list that was last in memory.
  pub restart :
      (tmp : Option Text) (rs : List Request) (m : Manager)
      → open_manager codec (record { main = none; tmp = tmp }) (λ _. absent) ≡ ok m
      → (again : Manager) × (open_manager codec
            (run codec rs m).file
            (λ _. read_slot (run codec rs m).file)
          ≡ ok again)
        × (list again ≡ list (run codec rs m))
  restart tmp rs m h =
      let f : Slot = record { main = none; tmp = tmp } in
      open_manager-IsSound (run codec rs m) (
        run-IsSound rs m (
          subst (IsSound codec) (ok-injective _ _ (sym (open_absent codec f refl) ∙ h))
            (empty-IsSound f refl)))
