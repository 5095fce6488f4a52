-- ===== src/Packages/Refinement.antt =====
-- A manager as a set of names: what `Add` and `Remove` promise of it, whatever the file system answers.
use play_apk_distributor.Prelude.{
  ◌≡◌, refl, ap, sym, ◌∙◌, inl, inr, true, List, [], ◌∷◌, arith, Bool-cases, Option-cases, map,
}
use mathlib.Core.Quot
use play_apk_distributor.Text.{Text}
use play_apk_distributor.NameSet.{include, without, IsSetList}
use play_apk_distributor.NameSet.Sorting.{sort_texts_same}
use play_apk_distributor.NameSet.Quotient.{
  Names, names_of, member, with_name, without_name, member-names_of, names-ext, member-with_name,
  member-without_name,
}
use play_apk_distributor.PackageName.{valid_package_name}
use play_apk_distributor.Result.{
  Error, Result, err, done, invalid_name, already_tracked, not_tracked, Result-cases,
}
use play_apk_distributor.Storage.{Answers, Codec, save, Write, written, broken}
use play_apk_distributor.Packages.{Manager, list, tracked, add, remove, flush, conclude, with_set}
use play_apk_distributor.Packages.Edits.{Unchanged}
use play_apk_distributor.Packages.Adding.{add_invalid, add_old, add_new, add-done, add_failed}
use play_apk_distributor.Packages.Removing.{remove_new, remove_old, remove-done, remove_failed}
use play_apk_distributor.Packages.Invariant.{Request, adding, removing, run}
use play_apk_distributor.Packages.Contract.{
  Asked, add_name, remove_name, asked, is_disk_error, Promises, added, invalid, old, not_added,
  removed, unknown, not_removed, PromisesAll, nothing, next,
}

-- the set that a manager stands for
pub abstract : Manager → Names
abstract m = names_of m.set

abstract_same : (m m' : Manager) → Unchanged m m' → abstract m' ≡ abstract m
unfolding abstract
abstract_same m m' u = Quot.sound u.names

member-abstract : (name : Text) (m : Manager) → member name (abstract m) ≡ tracked m name
unfolding abstract tracked
member-abstract name m = member-names_of name m.set

fit :
    (s : Names) (q : Asked) (r r' : Result (Unit {0})) (t t' : Names)
    → r ≡ r'
    → t ≡ t'
    → Promises s q r' t'
    → Promises s q r t
fit s q r r' t t' e k p = rw e (rw k p)

module _ (codec : Codec (List Text)) where
  disk_error :
      (back : List Text) (io : Answers) (m : Manager) (e : Error)
      → (conclude back (flush codec io m)).0 ≡ err e
      → is_disk_error e ≡ true
  unfolding conclude flush is_disk_error save
  disk_error back io m e h = elim (Option-cases (codec.marshal (list m))) [
    | inl n ↦ ground arith
    | inr (b, n) ↦ go io.write refl
  ]
    where
      go : (w : Write) → io.write ≡ w → is_disk_error e ≡ true
      go written w = ground arith
      go (broken left) w = ground arith

  added_names :
      (name : Text) (io : Answers) (m : Manager)
      → (add codec name io m).0 ≡ done
      → abstract (add codec name io m).1 ≡ with_name name (abstract m)
  added_names name io m h =
      let m' = (add codec name io m).1 in
      let a = add-done codec name io m h in
      names-ext (abstract m') (with_name name (abstract m)) (λ n.
        member-abstract n m'
        ∙ a.names n
        ∙ ground (arith, member-with_name name n (abstract m), member-abstract n m))

  pub add-Promises :
      (name : Text) (io : Answers) (m : Manager)
      → Promises
          (abstract m)
          (add_name name)
          (add codec name io m).0
          (abstract (add codec name io m).1)
  add-Promises name io m =
      let q = add_name name in
      let r = add codec name io m in
      elim (Bool-cases (valid_package_name name)) [
        | inr bad ↦
            let same = add_invalid codec name io m bad in
            fit (abstract m) q r.0 (err invalid_name) (abstract r.1) (abstract m)
              (ap (λ x. x.0) same) (ap (λ x. abstract x.1) same) (invalid name bad)
        | inl good ↦ elim (Bool-cases (tracked m name)) [
          | inl there ↦
              let same = add_old codec name io m good there in
              fit (abstract m) q r.0 (err already_tracked) (abstract r.1) (abstract m)
                (ap (λ x. x.0) same) (ap (λ x. abstract x.1) same)
                (old name good (member-abstract name m ∙ there))
          | inr new ↦
              let fresh = member-abstract name m ∙ new in
              elim (Result-cases r.0) [
                | inl (u, h) ↦
                    fit (abstract m) q r.0 done (abstract r.1) (with_name name (abstract m)) h
                      (added_names name io m h) (added name good fresh)
                | inr (e, h) ↦
                    fit (abstract m) q r.0 (err e) (abstract r.1) (abstract m) h
                      (abstract_same m r.1 (add_failed codec name io m e h))
                      (not_added name e good fresh (
                        disk_error (without name (include name m.set)) io
                          (with_set m (include name m.set)) e
                          (ap (λ x. x.0) (sym (add_new codec name io m good new)) ∙ h)))
              ]
        ]
      ]

  removed_names :
      (name : Text) (io : Answers) (m : Manager)
      → (remove codec name io m).0 ≡ done
      → abstract (remove codec name io m).1 ≡ without_name name (abstract m)
  removed_names name io m h =
      let m' = (remove codec name io m).1 in
      let a = remove-done codec name io m h in
      names-ext (abstract m') (without_name name (abstract m)) (λ n.
        member-abstract n m'
        ∙ a.names n
        ∙ ground (arith, member-without_name name n (abstract m), member-abstract n m))

  pub remove-Promises :
      (name : Text) (io : Answers) (m : Manager)
      → Promises
          (abstract m)
          (remove_name name)
          (remove codec name io m).0
          (abstract (remove codec name io m).1)
  remove-Promises name io m =
      let q = remove_name name in
      let r = remove codec name io m in
      elim (Bool-cases (tracked m name)) [
        | inr new ↦
            let same = remove_new codec name io m new in
            fit (abstract m) q r.0 (err not_tracked) (abstract r.1) (abstract m)
              (ap (λ x. x.0) same) (ap (λ x. abstract x.1) same)
              (unknown name (member-abstract name m ∙ new))
        | inl there ↦
            let present = member-abstract name m ∙ there in
            elim (Result-cases r.0) [
              | inl (u, h) ↦
                  fit (abstract m) q r.0 done (abstract r.1) (without_name name (abstract m)) h
                    (removed_names name io m h) (removed name present)
              | inr (e, h) ↦
                  fit (abstract m) q r.0 (err e) (abstract r.1) (abstract m) h
                    (abstract_same m r.1 (remove_failed codec name io m e h))
                    (not_removed name e present (
                      disk_error (include name (without name m.set)) io
                        (with_set m (without name m.set)) e
                        (ap (λ x. x.0) (sym (remove_old codec name io m there)) ∙ h)))
            ]
      ]

  -- the answers of a run
  unfoldable pub results : List Request → Manager → List (Result (Unit {0}))
  results [] m = []
  results (adding name io ∷ rs) m = (add codec name io m).0 ∷ results rs (add codec name io m).1
  results (removing name io ∷ rs) m =
      (remove codec name io m).0 ∷ results rs (remove codec name io m).1

  -- Whatever the file system answers, a manager under requests to add and to remove does what a
  -- set of names, without order, promises: each request is answered as its name and the set
  -- demand, or by an error of writing the file, and the set changes exactly at the answers
  -- without error, by that name.
  pub run-PromisesAll :
      (rs : List Request) (m : Manager)
      → PromisesAll (abstract m) (map asked rs) (results rs m) (abstract (run codec rs m))
  unfolding results run asked
  run-PromisesAll [] m = nothing (abstract m)
  run-PromisesAll (adding name io ∷ rs) m =
      next (abstract m) (add_name name) _ _ (map asked rs) _ _ (add-Promises name io m)
        (run-PromisesAll rs (add codec name io m).1)
  run-PromisesAll (removing name io ∷ rs) m =
      next (abstract m) (remove_name name) _ _ (map asked rs) _ _ (remove-Promises name io m)
        (run-PromisesAll rs (remove codec name io m).1)

  -- Two managers that stand for one set list the same names in the same order.
  pub list-abstract :
      (m m' : Manager)
      → IsSetList m.set
      → IsSetList m'.set
      → abstract m ≡ abstract m'
      → list m ≡ list m'
  unfolding list tracked
  list-abstract m m' h k e =
      sort_texts_same m.set m'.set h k
        (λ n. sym (member-abstract n m) ∙ ap (member n) e ∙ member-abstract n m')
