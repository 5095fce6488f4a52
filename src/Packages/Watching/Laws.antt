-- ===== src/Packages/Watching/Laws.antt =====
-- What the reload keeps under every order of the steps.
use play_apk_distributor.Prelude.{◌≡◌, ap, sym, ◌∙◌, inl, inr, true, List, [], ◌∷◌, some, arith}
use play_apk_distributor.Text.{Text}
use play_apk_distributor.Text.Laws.{text_eq_iff}
use play_apk_distributor.NameSet.{has, IsSetList}
use play_apk_distributor.PackageName.{valid_package_name}
use play_apk_distributor.Result.{Error, err, done, Result-cases}
use play_apk_distributor.Storage.{Answers, Codec, Read, content, absent, unreadable, read_slot}
use play_apk_distributor.Packages.{Manager, tracked, add, remove, load_read, notify}
use play_apk_distributor.Packages.Adding.{add-done, add_failed}
use play_apk_distributor.Packages.Removing.{remove-done, remove_failed}
use play_apk_distributor.Packages.Seeding.{AllValid}
use play_apk_distributor.Packages.Opening.{has-valid}
use play_apk_distributor.Packages.Loading.{load_content, fill_set_valid, load_read_ok}
use play_apk_distributor.Packages.Invariant.{
  Request, adding, removing, run, IsSound, add-distinct, remove-distinct,
}
use play_apk_distributor.Packages.Watching.{
  Watched, after_read, Step, request, begin, finish, edit, Steps, here, step,
}

-- no name twice, and valid names alone
pub record IsTracked (m : Manager) : Type 0 where
  pub distinct : IsSetList m.set
  pub valid : (name : Text) → tracked m name ≡ true → valid_package_name name ≡ true

module _ (codec : Codec (List Text)) where
  add-IsTracked :
      (name : Text) (io : Answers) (m : Manager) → IsTracked m → IsTracked (add codec name io m).1
  add-IsTracked name io m t = record {
    distinct = add-distinct codec name io m t.distinct;
    valid = elim (Result-cases (add codec name io m).0) [
      | inl (u, h) ↦
          let a = add-done codec name io m h in
          λ n k. ground (arith, a.names n, a.valid, text_eq_iff n name, t.valid n)
      | inr (e, h) ↦
          λ n k. t.valid n (unfold tracked in (sym ((add_failed codec name io m e h).names n) ∙ k))
    ];
  }

  remove-IsTracked :
      (name : Text) (io : Answers) (m : Manager)
      → IsTracked m
      → IsTracked (remove codec name io m).1
  remove-IsTracked name io m t = record {
    distinct = remove-distinct codec name io m t.distinct;
    valid = elim (Result-cases (remove codec name io m).0) [
      | inl (u, h) ↦
          let a = remove-done codec name io m h in λ n k. ground (arith, a.names n, t.valid n)
      | inr (e, h) ↦ λ n k.
          t.valid n (unfold tracked in (sym ((remove_failed codec name io m e h).names n) ∙ k))
    ];
  }

  after_read_ok :
      (r : Read) (m : Manager)
      → (load_read codec r m).0 ≡ done
      → after_read codec r m ≡ notify (load_read codec r m).1
  unfolding after_read
  after_read_ok r m h = ground arith

  after_read_failed :
      (b : Text) (m : Manager) (e : Error)
      → (load_read codec (content b) m).0 ≡ err e
      → after_read codec (content b) m ≡ m
  unfolding after_read load_read
  after_read_failed b m e h = ground arith

  notify-IsTracked : (m : Manager) → IsTracked m → IsTracked (notify m)
  unfolding notify tracked
  notify-IsTracked m t = record { distinct = t.distinct; valid = t.valid }

  after_read-IsTracked : (r : Read) (m : Manager) → IsTracked m → IsTracked (after_read codec r m)
  after_read-IsTracked absent m t = unfold after_read load_read in notify-IsTracked m t
  after_read-IsTracked unreadable m t = unfold after_read load_read in t
  after_read-IsTracked (content b) m t = elim (Result-cases (load_read codec (content b) m).0) [
    | inr (e, h) ↦ rw (after_read_failed b m e h) t
    | inl (u, h) ↦
        let l = load_content codec b m h in
        rw (after_read_ok (content b) m h) (
          notify-IsTracked _ (record {
            distinct = l.distinct;
            valid = λ n k. has-valid l.names n l.valid (sym (l.same n) ∙ k);
          }))
  ]

  run-IsTracked : (r : Request) (m : Manager) → IsTracked m → IsTracked (run codec (r ∷ []) m)
  unfolding run
  run-IsTracked (adding name io) m t = add-IsTracked name io m t
  run-IsTracked (removing name io) m t = remove-IsTracked name io m t

  Step-IsTracked : (s t : Watched) → Step codec s t → IsTracked s.manager → IsTracked t.manager
  Step-IsTracked s t (request r) h = run-IsTracked r s.manager h
  Step-IsTracked s t (begin r free e) h = h
  Step-IsTracked s t (finish r e) h = after_read-IsTracked r s.manager h
  Step-IsTracked s t (edit main) h = record {
    distinct = h.distinct;
    valid = unfold tracked in h.valid;
  }

  -- A manager that tracks valid names alone, none twice, does so after any order of requests,
  -- reloads, whose reading and taking of the set other steps may part, and edits of packages.json
  -- by other programs, whatever these write.
  pub Steps-IsTracked :
      (s t : Watched) → Steps codec s t → IsTracked s.manager → IsTracked t.manager
  Steps-IsTracked s t here h = h
  Steps-IsTracked s t (step u v before last) h =
      Step-IsTracked u v last (Steps-IsTracked s u before h)

  -- a document of names that was read before gives those names, whatever has been asked since
  after_read-names :
      (b : Text) (names : List Text) (m : Manager)
      → codec.unmarshal b ≡ some names
      → AllValid names
      → (name : Text) → tracked (after_read codec (content b) m) name ≡ has name names
  unfolding tracked notify has
  after_read-names b names m e v name =
      let (set, filled, d, same) = fill_set_valid names [] v tt in
      let read = load_read_ok codec b m names set e filled in
      ap (λ x. has name x.set) (after_read_ok (content b) m (ap (λ x. x.0) read))
      ∙ ap (λ x. has name x.1.set) read
      ∙ same name

  -- a reload of the file that a sound manager left takes the names it had then, whatever it tracks
  -- now
  pub reload_of :
      (m : Manager) (b : Text)
      → IsSound codec m
      → m.file.main ≡ some b
      → (now : Manager) (name : Text)
      → tracked (after_read codec (read_slot m.file) now) name ≡ tracked m name
  unfolding tracked
  reload_of m b s e now name = elim s.in_file [
    | inl (f, empty) ↦ absurd (ground arith)
    | inr (c, names, f, d, v, same) ↦
        let here : read_slot m.file ≡ content c = ground arith in
        ap (λ r. has name (after_read codec r now).set) here
        ∙ after_read-names c names now d v name
        ∙ same name
  ]

  -- If a manager is sound and packages.json exists, a reload of that file, as its own writes
  -- start one, changes no tracked name.
  pub reload_same :
      (m : Manager) (b : Text)
      → IsSound codec m
      → m.file.main ≡ some b
      → (name : Text) → tracked (after_read codec (read_slot m.file) m) name ≡ tracked m name
  reload_same m b s e name = reload_of m b s e m name
