-- ===== src/System/Progress.antt =====
-- A version that the emulators offer to a tick is known from then on.
use play_apk_distributor.Prelude.{◌≡◌, ap, ◌∙◌, true, false, ◌||◌, List, All}
use play_apk_distributor.Text.{Text}
use play_apk_distributor.NameSet.{has}
use play_apk_distributor.NameSet.Sorting.{has-sort_texts}
use play_apk_distributor.Storage.{Codec}
use play_apk_distributor.Store.{Table}
use play_apk_distributor.Packages.{list, tracked}
use play_apk_distributor.Config.{get}
use play_apk_distributor.Adb.Version.{VersionInfo}
use play_apk_distributor.Watcher.{Turn, effective_packages}
use play_apk_distributor.Watcher.Effective.{effective_packages-IsMerged}
use play_apk_distributor.Watcher.Progress.{IsOffered, Reaches, Reaches-later, poll-Reaches}
use play_apk_distributor.System.{System, on_tick, Steps}
use play_apk_distributor.System.Laws.{Steps-IsNoOlder}

-- the packages that a tick polls
abbrev pub polled : System → List Text
polled s = effective_packages (get s.config).packages (list s.manager)

module _ (names : Codec (List Text)) (table : Codec Table) where
  on_tick-Reaches :
      (s : System) (turns : Text → Turn) (pkg : Text) (base : VersionInfo)
      → has pkg (polled s) ≡ true
      → All (λ p. (turns p).cancelled ≡ false) (polled s)
      → IsOffered (turns pkg) pkg (get s.config).output_dir base
      → Reaches table (on_tick table turns s).store pkg base.code
  unfolding on_tick
  on_tick-Reaches s turns pkg base h c o =
      poll-Reaches table turns pkg (get s.config).output_dir (polled s) s.store base h c o

  polled-has :
      (s : System) (pkg : Text)
      → (has pkg (get s.config).packages || tracked s.manager pkg) ≡ true
      → has pkg (polled s) ≡ true
  unfolding tracked list
  polled-has s pkg h =
      (effective_packages-IsMerged (get s.config).packages (list s.manager)).members pkg
      ∙ ap (λ b. has pkg (get s.config).packages || b) (has-sort_texts pkg s.manager.set)
      ∙ h

  -- If a package is in the configuration or tracked, no turn of a tick is cancelled, and in the
  -- turn of the package the emulators that answer agree on a version code, every call for the
  -- files of its extraction but those of the pruning succeeds, and every emulator gives its files
  -- or is passed over, one of them the former, then after the tick and any steps behind it the
  -- store knows the package with that version code or a higher one.
  pub tick-Reaches :
      (s t : System) (turns : Text → Turn) (pkg : Text) (base : VersionInfo)
      → (has pkg (get s.config).packages || tracked s.manager pkg) ≡ true
      → All (λ p. (turns p).cancelled ≡ false) (polled s)
      → IsOffered (turns pkg) pkg (get s.config).output_dir base
      → Steps names table (on_tick table turns s) t
      → Reaches table t.store pkg base.code
  tick-Reaches s t turns pkg base h c o steps =
      Reaches-later table (on_tick table turns s).store t.store pkg base.code
        (Steps-IsNoOlder names table (on_tick table turns s) t steps)
        (on_tick-Reaches s turns pkg base (polled-has s pkg h) c o)
