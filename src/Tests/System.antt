-- ===== src/Tests/System.antt =====
-- The running program through a request, a broken edit of the configuration and a tick.
use play_apk_distributor.Prelude.{true, false, ◌||◌, All, inl, ◌≡◌, refl, [], ◌∷◌}
use play_apk_distributor.NameSet.{sort_texts, has}
use play_apk_distributor.Packages.{list, tracked}
use play_apk_distributor.Watcher.{effective_packages, Turn}
use play_apk_distributor.Text.{text_eq}
use play_apk_distributor.Config.{get, unparsable}
use play_apk_distributor.Watcher.Progress.{IsOffered, Reaches}
use play_apk_distributor.System.Progress.{polled, tick-Reaches}
use play_apk_distributor.Packages.Opening.{ReadsFile}
use play_apk_distributor.System.Begun.{begun, start-IsHealthy}
use play_apk_distributor.Decimal.{itoa}
use play_apk_distributor.Adb.Client.{serial_of}
use play_apk_distributor.Storage.{all_ok}
use play_apk_distributor.Api.{serve}
use play_apk_distributor.Watcher.Check.{IsNoOlder}
use play_apk_distributor.System.{
  System, on_edit, on_tick, Steps, here, step, serve_request, edit, tick,
}
use play_apk_distributor.System.Laws.{IsHealthy, Steps-IsHealthy}
use play_apk_distributor.Tests.Progress.{offering, turn_IsOffered}
use play_apk_distributor.Tests.Samples.{
  app, v7, names_codec, names_round, table_codec, new_store, new_manager, phone, turn, live,
}
use play_apk_distributor.Tests.Startup.{boot, first_run, first_start}
use play_apk_distributor.Tests.Config.{started, live-IsGood}
use play_apk_distributor.Tests.Packages.{new_manager-IsSound}
use play_apk_distributor.Tests.Api.{token, post}

abbrev first : System
first = record {
  config = started;
  manager = new_manager;
  store = new_store;
  clients = phone ∷ [];
  pending = [];
}

abbrev second : System
second = record first {
  manager = (serve names_codec token post all_ok first.store first.manager).1;
}

abbrev third : System
third = on_edit unparsable second

abbrev lone : Turn
lone = record turn { clients = phone ∷ [] }

abbrev last : System
last = on_tick table_codec (λ _. lone) third

steps : Steps names_codec table_codec first last
steps =
    step third last
      (step second third (step first second here (serve_request token post all_ok))
        (edit unparsable))
      (tick (λ _. lone))

first-IsHealthy : IsHealthy names_codec table_codec first
unfolding serial_of itoa
first-IsHealthy = record {
  config = live-IsGood;
  pending = tt;
  manager = new_manager-IsSound;
  clients = record { snap = live; good = live-IsGood; serials = refl };
}

Steps-IsHealthy_example : IsHealthy names_codec table_codec last × IsNoOlder first.store last.store
Steps-IsHealthy_example =
    Steps-IsHealthy names_codec table_codec names_round first last steps first-IsHealthy

boot_ReadsFile : ReadsFile boot.packages_reads boot.packages_file
boot_ReadsFile i = inl refl

edited : Steps names_codec table_codec (begun first_run) (on_edit unparsable (begun first_run))
edited = step (begun first_run) (on_edit unparsable (begun first_run)) here (edit unparsable)

start-IsHealthy_example :
    IsHealthy names_codec table_codec (on_edit unparsable (begun first_run))
    × IsNoOlder first_run.store (on_edit unparsable (begun first_run)).store
start-IsHealthy_example =
    start-IsHealthy names_codec table_codec names_round live boot first_run
      (on_edit unparsable (begun first_run)) first_start boot_ReadsFile edited

All-go : All (λ p. offering.cancelled ≡ false) (polled first)
unfolding get effective_packages list sort_texts has
All-go = (refl, tt)

offered : IsOffered offering app (get first.config).output_dir v7
unfolding get
offered = turn_IsOffered

in_config : (has app (get first.config).packages || tracked first.manager app) ≡ true
unfolding get has text_eq
in_config = refl

tick-Reaches_example :
    Reaches table_codec
      (on_edit unparsable (on_tick table_codec (λ _. offering) first)).store
      app
      v7.code
tick-Reaches_example =
    tick-Reaches names_codec table_codec first
      (on_edit unparsable (on_tick table_codec (λ _. offering) first)) (λ _. offering) app v7
      in_config All-go offered
      (step (on_tick table_codec (λ _. offering) first)
        (on_edit unparsable (on_tick table_codec (λ _. offering) first)) here (edit unparsable))
