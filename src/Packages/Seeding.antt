-- ===== src/Packages/Seeding.antt =====
-- `Seed` of packages/packages.go: all names valid, and the branch of an invalid name.
use play_apk_distributor.Prelude.{
  ◌≡◌, refl, ◌∙◌, true, false, not, ◌&&◌, ◌||◌, List, [], ◌∷◌, ◌++◌, All, arith, Bool-cases, inl,
  inr,
}
use play_apk_distributor.Text.{Text}
use play_apk_distributor.Text.Laws.{text_eq_iff}
use play_apk_distributor.NameSet.{has, include, without, SameNames}
use play_apk_distributor.NameSet.Laws.{has-include, has-without, has-append}
use play_apk_distributor.PackageName.{valid_package_name}
use play_apk_distributor.Result.{Error, Result, ok, err, done, invalid_name}
use play_apk_distributor.Storage.{Answers, Codec}
use play_apk_distributor.Packages.{
  Manager, tracked, seed, seed_names, without_all, finish_seed, validate_package_name,
}
use play_apk_distributor.Packages.Edits.{Unchanged, put_back, saved_change}

abbrev pub AllValid : List Text → Type 0
AllValid = All (λ name. valid_package_name name ≡ true)

pub has_nil : (other : Text) → has other [] ≡ false
unfolding has
has_nil other = refl

-- the loop over valid names: no error, the names are in the set, and those that were new are noted
pub seed_names_lem :
    (names set added : List Text)
    → AllValid names
    → ((seed_names names set added).0 ≡ done)
      × ((other : Text)
          → has other (seed_names names set added).1 ≡ (has other set || has other names))
      × ((other : Text)
          → has other (seed_names names set added).2
            ≡ (has other added || (has other names && not (has other set))))
unfolding seed_names validate_package_name has
seed_names_lem [] set added h = (refl, λ other. ground arith, λ other. ground arith)
seed_names_lem (name ∷ names) set added (good, h) = elim (Bool-cases (has name set)) [
  | inl old ↦
      let (d, s, a) = seed_names_lem names set added h in
      (
        ground arith,
        λ other. ground (arith, s other, text_eq_iff other name),
        λ other. ground (arith, a other, text_eq_iff other name),
      )
  | inr new ↦
      let (d, s, a) = seed_names_lem names (include name set) (added ++ name ∷ []) h in
      (
        ground arith,
        λ other. ground (arith, s other, text_eq_iff other name, has-include name other set),
        λ other. ground (
          arith,
          a other,
          text_eq_iff other name,
          has-include name other set,
          has-append other added (name ∷ []),
        ),
      )
]

has-without_all :
    (other : Text) (names set : List Text)
    → has other (without_all names set) ≡ (has other set && not (has other names))
unfolding without_all has
has-without_all other [] set = ground arith
has-without_all other (name ∷ names) set =
    ground (arith, has-without_all other names (without name set), has-without name other set)

module _ (codec : Codec (List Text)) where
  finish_seed_failed :
      (io : Answers) (m : Manager) (e : Error) (t : Result (Unit {0}) × List Text × List Text)
      → t.0 ≡ done
      → SameNames (without_all t.2 t.1) m.set
      → (finish_seed codec io m t).0 ≡ err e
      → Unchanged m (finish_seed codec io m t).1
  unfolding finish_seed
  finish_seed_failed io m e (err x, set, added) d same h = cc
  finish_seed_failed io m e (ok _, set, []) d same h = cc
  finish_seed_failed io m e (ok _, set, name ∷ added) d same h =
      put_back codec (without_all (name ∷ added) set) set io m e same h

  -- A `Seed` of valid names that fails puts everything back.
  pub seed_failed :
      (names : List Text) (io : Answers) (m : Manager) (e : Error)
      → AllValid names
      → (seed codec names io m).0 ≡ err e
      → Unchanged m (seed codec names io m).1
  unfolding seed
  seed_failed names io m e h failed =
      let (d, s, a) = seed_names_lem names m.set [] h in
      let t = seed_names names m.set [] in
      finish_seed_failed io m e t d
        (λ other. ground (arith, s other, a other, has_nil other, has-without_all other t.2 t.1))
        failed

  finish_seed-done :
      (io : Answers) (m : Manager) (t : Result (Unit {0}) × List Text × List Text)
      → t.0 ≡ done
      → (finish_seed codec io m t).0 ≡ done
      → (other : Text) → tracked (finish_seed codec io m t).1 other ≡ has other t.1
  unfolding finish_seed tracked
  finish_seed-done io m (err x, set, added) d h = cc
  finish_seed-done io m (ok _, set, []) d h = λ other. refl
  finish_seed-done io m (ok _, set, name ∷ added) d h =
      (saved_change codec (without_all (name ∷ added) set) set io m h).0

  -- After a `Seed` of valid names without error a name is tracked if it was tracked before or is
  -- one of them, and no other is.
  pub seed-done :
      (names : List Text) (io : Answers) (m : Manager)
      → AllValid names
      → (seed codec names io m).0 ≡ done
      → (other : Text)
      → tracked (seed codec names io m).1 other ≡ (tracked m other || has other names)
  unfolding seed tracked
  seed-done names io m h succeeded other =
      let (d, s, a) = seed_names_lem names m.set [] h in
      finish_seed-done io m (seed_names names m.set []) d succeeded other ∙ s other

  -- A `Seed` of a valid name and an invalid one behind it returns the error of an invalid name,
  -- leaves the first name tracked in memory, and does not write packages.json.
  pub seed_leaks :
      (name bad : Text) (names : List Text) (io : Answers) (m : Manager)
      → valid_package_name name ≡ true
      → valid_package_name bad ≡ false
      → ((seed codec (name ∷ bad ∷ names) io m).0 ≡ err invalid_name)
        × (tracked (seed codec (name ∷ bad ∷ names) io m).1 name ≡ true)
        × ((seed codec (name ∷ bad ∷ names) io m).1.file ≡ m.file)
  unfolding seed validate_package_name tracked
  seed_leaks name bad names io m good wrong =
      ground (arith, has-include name name m.set, text_eq_iff name name)
