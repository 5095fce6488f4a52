-- ===== src/Packages/Opening.antt =====
-- The managers that `New` and `Seed` give are sound.
use play_apk_distributor.Prelude.{
  ℕ, zero, suc, ◌⊎◌, ◌≡◌, refl, ap, sym, ◌∙◌, inl, inr, true, false, ◌||◌, ◌&&◌, not, List, [], ◌∷◌,
  ◌++◌, none, some, arith, Bool-cases, Option-cases,
}
use mathlib.Core.Path.{subst}
use play_apk_distributor.Text.{Text, text_eq}
use play_apk_distributor.Text.Laws.{text_eq_iff}
use play_apk_distributor.NameSet.{has, include, IsSetList}
use play_apk_distributor.NameSet.Laws.{include-IsSetList}
use play_apk_distributor.PackageName.{valid_package_name}
use play_apk_distributor.Result.{Result, ok, err, done, Result-cases}
use play_apk_distributor.Storage.{
  Answers, Codec, Slot, Read, content, absent, unreadable, read_slot,
}
use play_apk_distributor.Packages.{
  Manager, tracked, validate_package_name, seed_names, finish_seed, without_all, seed, read_file,
  load_read, load, open_manager,
}
use play_apk_distributor.Packages.Flush.{IsSaved, conclude-done}
use play_apk_distributor.Packages.Seeding.{AllValid, seed_names_lem, has_nil, seed-done}
use play_apk_distributor.Packages.Loading.{decided, Loaded, load-done}
use play_apk_distributor.Packages.Invariant.{IsSound, RoundTrips, saved-IsSound}

-- every read gives the file, or cannot be done
abbrev pub ReadsFile : (ℕ → Read) → Slot → Type 0
ReadsFile reads f = (i : ℕ) → (reads i ≡ read_slot f) ⊎ (reads i ≡ unreadable)

read_file-slot :
    (left i : ℕ) (reads : ℕ → Read) (f : Slot)
    → ReadsFile reads f
    → (read_file left i reads ≡ read_slot f) ⊎ (read_file left i reads ≡ unreadable)
unfolding read_file
read_file-slot zero i reads f h = inr refl
read_file-slot (suc left) i reads f h =
    go (reads i) refl (h i) (read_file-slot left (suc i) reads f h)
  where
    go :
        (r : Read)
        → reads i ≡ r
        → (reads i ≡ read_slot f) ⊎ (reads i ≡ unreadable)
        → (read_file left (suc i) reads ≡ read_slot f) ⊎ (read_file left (suc i) reads ≡ unreadable)
        → (read_file (suc left) i reads ≡ read_slot f) ⊎ (read_file (suc left) i reads ≡ unreadable)
    go (content b) e (inl k) more = inl (decided left i reads (content b) e (λ x. cc) ∙ sym e ∙ k)
    go (content b) e (inr k) more = absurd (ground arith)
    go absent e (inl k) more = inl (decided left i reads absent e (λ x. cc) ∙ sym e ∙ k)
    go absent e (inr k) more = absurd (ground arith)
    go unreadable e k more = rw (e, read_file) more

pub has-valid :
    (names : List Text) (n : Text)
    → AllValid names
    → has n names ≡ true
    → valid_package_name n ≡ true
unfolding has
has-valid [] n h k = cc
has-valid (x ∷ names) n (v, h) k = elim (Bool-cases (text_eq n x)) [
  | inl same ↦ ap valid_package_name ((text_eq_iff n x).0 same) ∙ v
  | inr apart ↦ has-valid names n h (ground arith)
]

seed_names-IsSetList :
    (names set added : List Text) → IsSetList set → IsSetList (seed_names names set added).1
unfolding seed_names validate_package_name
seed_names-IsSetList [] set added h = h
seed_names-IsSetList (name ∷ names) set added h =
    let old = seed_names-IsSetList names set added h in
    let new =
      seed_names-IsSetList names (include name set) (added ++ name ∷ [])
        (include-IsSetList name set h) in
    elim (Bool-cases (valid_package_name name)) [
      | inr bad ↦
          let same : set ≡ (seed_names (name ∷ names) set added).1 = ground arith in
          subst IsSetList same h
      | inl good ↦ elim (Bool-cases (has name set)) [
        | inl there ↦
            let same : (seed_names names set added).1 ≡ (seed_names (name ∷ names) set added).1 =
              ground arith in
            subst IsSetList same old
        | inr fresh ↦
            let same : (seed_names names (include name set) (added ++ name ∷ [])).1
                ≡ (seed_names (name ∷ names) set added).1 =
              ground arith in
            subst IsSetList same new
      ]
    ]

module _ (codec : Codec (List Text)) where
  load-file : (reads : ℕ → Read) (m : Manager) → (load codec reads m).1.file ≡ m.file
  unfolding load load_read
  load-file reads m = ground arith

  -- a `Seed` without error has noted no new name and kept the file, or saved the set
  finish_seed-kept :
      (io : Answers) (m : Manager) (t : Result (Unit {0}) × List Text × List Text)
      → t.0 ≡ done
      → (finish_seed codec io m t).0 ≡ done
      → ((finish_seed codec io m t).1.set ≡ t.1)
        × (((t.2 ≡ []) × ((finish_seed codec io m t).1.file ≡ m.file))
            ⊎ IsSaved codec (finish_seed codec io m t).1)
  unfolding finish_seed
  finish_seed-kept io m (err x, set, added) d h = cc
  finish_seed-kept io m (ok _, set, []) d h = (refl, inl (refl, refl))
  finish_seed-kept io m (ok _, set, name ∷ added) d h =
      let (e, saved, handlers, calls) =
        conclude-done codec (without_all (name ∷ added) set) set io m h in
      (e, inr saved)

  load_read-slot : (f : Slot) (b : Text) → content b ≡ read_slot f → f.main ≡ some b
  load_read-slot f b h = elim (Option-cases f.main) [
    | inl e ↦ absurd (ground arith)
    | inr (c, e) ↦ ground arith
  ]

  absent-slot : (f : Slot) → absent ≡ read_slot f → f.main ≡ none
  absent-slot f h = elim (Option-cases f.main) [ inl e ↦ e | inr (c, e) ↦ absurd (ground arith) ]

  abbrev first_manager : Slot → Manager
  first_manager f = record { set = []; file = f; handlers = []; calls = [] }

  open_manager-load :
      (f : Slot) (reads : ℕ → Read) (m : Manager)
      → open_manager codec f reads ≡ ok m
      → ((load codec reads (first_manager f)).0 ≡ done)
        × ((load codec reads (first_manager f)).1 ≡ m)
  unfolding open_manager
  open_manager-load f reads m h = elim (Result-cases (load codec reads (first_manager f)).0) [
    | inl (u, e) ↦ (e, ground arith)
    | inr (x, e) ↦ absurd (ground arith)
  ]

  first-IsSound : (f : Slot) → f.main ≡ none → IsSound codec (first_manager f)
  unfolding tracked has
  first-IsSound f e = record { distinct = tt; valid = λ n h. cc; in_file = inl (e, λ n. refl) }

  Loaded-IsSound :
      (b : Text) (m : Manager) → Loaded codec b m → m.file.main ≡ some b → IsSound codec m
  unfolding tracked
  Loaded-IsSound b m l e = record {
    distinct = l.distinct;
    valid = λ n k. has-valid l.names n l.valid (sym (l.same n) ∙ k);
    in_file = inr (b, l.names, e, l.decoded, l.valid, λ n. sym (l.same n));
  }

  pub opened-IsSound :
      (f : Slot) (reads : ℕ → Read) (m : Manager)
      → ReadsFile reads f
      → open_manager codec f reads ≡ ok m
      → IsSound codec m
  opened-IsSound f reads m h o =
      let (d, e) = open_manager-load f reads m o in
      let kept : m.file ≡ f = ap (λ x. x.file) (sym e) ∙ load-file reads (first_manager f) in
      let read = read_file-slot 3 0 reads f h in
      elim (load-done codec reads (first_manager f) d) [
        | inl (a, same) ↦ elim read [
          | inl k ↦
              subst (IsSound codec) (sym same ∙ e) (first-IsSound f (absent-slot f (sym a ∙ k)))
          | inr k ↦ absurd (ground arith)
        ]
        | inr (b, r, l) ↦ elim read [
          | inr k ↦ absurd (ground arith)
          | inl k ↦
              Loaded-IsSound b m (subst (Loaded codec b) e l)
                (ap (λ x. x.main) kept ∙ load_read-slot f b (sym r ∙ k))
        ]
      ]

-- nothing was noted, so that the set has the same names
no_new :
    (names set added filled : List Text) (n : Text)
    → added ≡ []
    → has n filled ≡ (has n set || has n names)
    → has n added ≡ (has n [] || (has n names && not (has n set)))
    → has n filled ≡ has n set
no_new names set added filled n e s a =
    let none_added : has n added ≡ false = ap (has n) e ∙ has_nil n in ground (arith, has_nil n)

module _ (codec : Codec (List Text)) (json : RoundTrips codec) where
  pub seed-IsSound :
      (names : List Text) (io : Answers) (m : Manager)
      → AllValid names
      → IsSound codec m
      → (seed codec names io m).0 ≡ done
      → IsSound codec (seed codec names io m).1
  unfolding seed
  seed-IsSound names io m v sound h =
      let t = seed_names names m.set [] in
      let m' = (seed codec names io m).1 in
      let (d, s, a) = seed_names_lem names m.set [] v in
      let (set, kept) = finish_seed-kept codec io m t d h in
      let distinct : IsSetList m'.set =
        subst IsSetList (sym set) (seed_names-IsSetList names m.set [] sound.distinct) in
      let valid : (n : Text) → tracked m' n ≡ true → valid_package_name n ≡ true = λ n k.
        elim (Bool-cases (tracked m n)) [
          | inl old ↦ sound.valid n old
          | inr new ↦ has-valid names n v (ground (arith, seed-done codec names io m v h n))
        ] in
      elim kept [
        | inr saved ↦ saved-IsSound codec json m' distinct valid saved
        | inl (nil, file) ↦
            let same : (n : Text) → tracked m' n ≡ tracked m n = λ n.
              unfold tracked in (ap (has n) set ∙ no_new names m.set t.2 t.1 n nil (s n) (a n)) in
            record {
              distinct = distinct;
              valid = valid;
              in_file = elim sound.in_file [
                | inl (e, empty) ↦ inl (ap (λ x. x.main) file ∙ e, λ n. same n ∙ empty n)
                | inr (b, ns, e, decoded, good, names_of) ↦ inr (
                  b,
                  ns,
                  ap (λ x. x.main) file ∙ e,
                  decoded,
                  good,
                  λ n. names_of n ∙ sym (unfold tracked in same n),
                )
              ];
            }
      ]
