-- ===== src/Tests/Startup.antt =====
-- The theorem on main.go at a concrete start.
use play_apk_distributor.Prelude.{◌≡◌, refl, Bool, true, false, [], ◌∷◌, none, some}
use play_apk_distributor.NameSet.{sort_texts, include, has}
use play_apk_distributor.Storage.{save, absent, all_ok}
use play_apk_distributor.Packages.{seed, open_manager, Manager}
use play_apk_distributor.Store.{open_store}
use play_apk_distributor.PackageName.{valid_package_name}
use play_apk_distributor.Text.{text_eq}
use play_apk_distributor.Config.Validate.{valid_host, validate}
use play_apk_distributor.Config.{load, Config, parsed, snapshot}
use play_apk_distributor.Startup.{Boot, Running, start, running, config_warnings, connect_emulators}
use play_apk_distributor.Startup.Laws.{IsRunning, start_running}
use play_apk_distributor.Tests.Samples.{
  names_codec, table_codec, app, no_file, new_store, live, raw, phone, encode,
}

abbrev pub boot : Boot
boot = record {
  document = parsed raw;
  config_watch_ok = true;
  output_dir_ok = true;
  state_dir_ok = true;
  store_file = no_file;
  store_read = absent;
  packages_file = no_file;
  packages_reads = λ _. absent;
  packages_watch_ok = true;
  seed_io = all_ok;
  world = λ _. phone;
}

abbrev seeded_manager : Manager
seeded_manager = record {
  set = app ∷ [];
  file = record { main = some (encode (app ∷ [])); tmp = none };
  handlers = [];
  calls = [];
}

abbrev first_config : Config
first_config = record { snap = snapshot raw; handlers = []; calls = [] }

abbrev pub first_run : Running
first_run = record {
  config = first_config;
  store = new_store;
  manager = seeded_manager;
  clients = connect_emulators (λ _. phone) (snapshot raw);
  api = false;
}

pub first_start : start names_codec table_codec live boot ≡ running first_run
unfolding start load validate valid_host has text_eq valid_package_name open_store open_manager seed
    save include sort_texts
first_start = refl

start_running_example : IsRunning names_codec table_codec boot first_run
start_running_example = start_running names_codec table_codec live boot first_run first_start

-- mode 0640 is readable by the group, and not writable
warnings_example : ◌≡◌ {A = Bool × Bool} (config_warnings false (some 416)) (true, false)
unfolding config_warnings
warnings_example = refl
