-- ===== src/Tests/Packages.antt =====
-- The theorems on packages/packages.go and store/store.go at concrete inputs.
use play_apk_distributor.Prelude.{
  map, ℕ, ◌≡◌, ◌↔◌, ◌⊎◌, ◌≤◌, inl, refl, ap, sym, ◌∙◌, true, false, List, [], ◌∷◌, none, some, All,
  length,
}
use play_apk_distributor.Prelude.Int.{pos}
use play_apk_distributor.Packages.Watching.{after_read, Watched, Steps, step, here, edit}
use play_apk_distributor.Packages.Watching.Laws.{reload_same, IsTracked, Steps-IsTracked}
use play_apk_distributor.Packages.Invariant.{
  IsSound, Request, adding, removing, run, run-IsSound, restart,
}
use play_apk_distributor.Result.{done, ok, err, write_failed}
use play_apk_distributor.Packages.Contract.{PromisesAll, asked}
use play_apk_distributor.Packages.Refinement.{abstract, results, run-PromisesAll}
use play_apk_distributor.NameMap.{insert}
use play_apk_distributor.NameSet.{without, include, sort_texts, has}
use play_apk_distributor.Storage.{save, all_ok, Answers, broken, absent, read_slot, Read, content}
use play_apk_distributor.Text.{Text, codes, text_eq, split}
use play_apk_distributor.PackageName.{valid_package_name}
use play_apk_distributor.PackageName.Laws.{IsIdentifier, valid_package_name_iff}
use play_apk_distributor.Packages.{
  Manager, add, remove, load, list, open_manager, tracked, read_file,
}
use play_apk_distributor.Packages.Loading.{Loaded, load-done}
use play_apk_distributor.Store.{Store, get_last_known, set_last_known, open_store}
use play_apk_distributor.Store.Laws.{open-set_last_known}
use play_apk_distributor.Tests.Samples.{
  encode, to_texts, of_texts, decode, names_codec, names_round, table_codec, app, new_store,
  new_manager,
}

-- the temporary file cannot be written
abbrev full_disk : Answers
full_disk = record { write = broken none; rename_ok = true; remove_ok = true }

abbrev other : Text
other = codes "com.example"

abbrev saved : ℕ → Read
saved n = content (encode (app ∷ other ∷ []))

load-done_example :
    ((read_file 3 0 saved ≡ absent) × ((load names_codec saved new_manager).1 ≡ new_manager))
    ⊎ ((b : Text) × (read_file 3 0 saved ≡ content b)
        × Loaded names_codec b (load names_codec saved new_manager).1)
unfolding load decode encode valid_package_name
load-done_example = load-done names_codec saved new_manager refl

pub new_manager-IsSound : IsSound names_codec new_manager
unfolding tracked has
new_manager-IsSound = record { distinct = tt; valid = λ n h. cc; in_file = inl (refl, λ n. refl) }

abbrev requests : List Request
requests =
    adding app all_ok ∷ adding other full_disk ∷ adding other all_ok ∷ removing app all_ok ∷ []

run-IsSound_example : IsSound names_codec (run names_codec requests new_manager)
run-IsSound_example = run-IsSound names_codec names_round requests new_manager new_manager-IsSound

restart_example :
    (again : Manager) × (open_manager names_codec
        (run names_codec requests (record new_manager { handlers = [] })).file
        (λ _. read_slot (run names_codec requests (record new_manager { handlers = [] })).file)
      ≡ ok again)
    × (list again ≡ list (run names_codec requests (record new_manager { handlers = [] })))
unfolding open_manager
restart_example =
    restart names_codec names_round none requests (record new_manager { handlers = [] }) refl

run-PromisesAll_example :
    PromisesAll
      (abstract new_manager)
      (map asked requests)
      (results names_codec requests new_manager)
      (abstract (run names_codec requests new_manager))
run-PromisesAll_example = run-PromisesAll names_codec requests new_manager

results_example :
    results names_codec requests new_manager ≡ done ∷ err write_failed ∷ done ∷ done ∷ []
unfolding results remove has add valid_package_name save include text_eq without
results_example = refl

requests_example : list (run names_codec requests new_manager) ≡ other ∷ []
unfolding list sort_texts run remove has add valid_package_name save include text_eq without
requests_example = refl

valid_package_name_example :
    (valid_package_name app ≡ true)
    ↔ (All IsIdentifier (split b'.' app) × (2 ≤ length (split b'.' app)))
valid_package_name_example = valid_package_name_iff app

empty_part_example : valid_package_name (codes "com..x") ≡ false
unfolding valid_package_name
empty_part_example = refl

digit_part_example : valid_package_name (codes "com.1x") ≡ false
unfolding valid_package_name
digit_part_example = refl

set_ok : (set_last_known table_codec app (pos 7) (codes "v7") 5 all_ok new_store).0 ≡ done
unfolding set_last_known save
set_ok = refl

abbrev after : Store
after = (set_last_known table_codec app (pos 7) (codes "v7") 5 all_ok new_store).1

json :
    (b : Text)
    → table_codec.marshal after.table ≡ some b
    → table_codec.unmarshal b ≡ some after.table
unfolding set_last_known of_texts insert decode encode to_texts
json b h = ap (λ o. elim o [ none ↦ none | some c ↦ table_codec.unmarshal c ]) (sym h) ∙ refl

open-set_last_known_example :
    (again : Store) × (open_store table_codec true after.file (read_slot after.file) ≡ ok again)
    × ((o : Text) → get_last_known again o ≡ get_last_known after o)
open-set_last_known_example =
    open-set_last_known table_codec app (pos 7) (codes "v7") 5 all_ok new_store json set_ok

abbrev saved_manager : Manager
saved_manager = run names_codec (adding app all_ok ∷ []) new_manager

saved_manager-IsSound : IsSound names_codec saved_manager
saved_manager-IsSound =
    run-IsSound names_codec names_round (adding app all_ok ∷ []) new_manager new_manager-IsSound

in_place : saved_manager.file.main ≡ some (encode (app ∷ []))
unfolding run add valid_package_name has save sort_texts include
in_place = refl

reload_same_example :
    tracked (after_read names_codec (read_slot saved_manager.file) saved_manager) app
    ≡ tracked saved_manager app
reload_same_example =
    reload_same names_codec saved_manager (encode (app ∷ [])) saved_manager-IsSound in_place app

abbrev between : List Request
between = adding other all_ok ∷ []

abbrev reloaded : Manager
reloaded =
    after_read names_codec (read_slot saved_manager.file) (run names_codec between saved_manager)

-- another program has put an empty list in the file
abbrev edited : Watched
edited = record {
  manager = record new_manager { file = record new_manager.file { main = some (encode []) } };
  reading = none;
}

edited-Steps : Steps names_codec (record { manager = new_manager; reading = none }) edited
edited-Steps = step _ _ here (edit (some (encode [])))

new_manager-IsTracked : IsTracked new_manager
unfolding tracked has
new_manager-IsTracked = record { distinct = tt; valid = λ n h. cc }

Steps-IsTracked_example : IsTracked edited.manager
Steps-IsTracked_example =
    Steps-IsTracked names_codec (record { manager = new_manager; reading = none }) edited
      edited-Steps new_manager-IsTracked
