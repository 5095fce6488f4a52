-- ===== src/Tests/Config.antt =====
-- The theorems on config/config.go at concrete inputs.
use play_apk_distributor.Prelude.{inr, ◌≡◌, ◌↔◌, refl, inl, true, false, List, [], ◌∷◌, none, arith}
use play_apk_distributor.Prelude.Int.{pos, leb_ℤ}
use play_apk_distributor.Config.Validate.{known_abis, seen_port, valid_host, Raw, validate}
use play_apk_distributor.PackageName.{valid_package_name}
use play_apk_distributor.Text.{text_eq}
use play_apk_distributor.NameSet.{has}
use play_apk_distributor.NameMap.{lookup}
use play_apk_distributor.Config.{Config, parsed, unparsable, reload}
use play_apk_distributor.Config.Validate.Laws.{IsValidConfig, validate_iff}
use play_apk_distributor.Config.Reload.{Edit, IsGood, run, run-IsGood}
use play_apk_distributor.Config.Interval.{interval_wraps}
use play_apk_distributor.Tests.Samples.{live, raw}

validate_iff_example : (validate raw ≡ none) ↔ IsValidConfig raw
validate_iff_example = validate_iff raw

validate_example : validate raw ≡ none
unfolding validate valid_host has text_eq valid_package_name
validate_example = refl

raw-IsValidConfig : IsValidConfig raw
raw-IsValidConfig = (validate_iff raw).0 validate_example

abbrev pub started : Config
started = record { snap = live; handlers = 1 ∷ []; calls = [] }

pub live-IsGood : IsGood live
unfolding lookup seen_port has known_abis text_eq
live-IsGood = record {
  some_emulator = λ h. cc;
  emulators = ((5555, refl, omega arith, omega arith), tt, inr (inr (inr refl)), tt);
  size = (0, refl);
  api_host = λ h. cc;
  api_port = inl refl;
  certs = λ pkg fp h. absurd (cc (h));
}

abbrev edits : List Edit
edits =
    record { is_write = true; is_create = false; document = unparsable }
    ∷ record { is_write = false; is_create = true; document = parsed raw }
    ∷ []

run-IsGood_example : IsGood (run edits started).snap
run-IsGood_example = run-IsGood edits started live-IsGood

abbrev slow : Raw
slow = record raw { poll_interval = pos 9223372037 }

slow_ok : validate slow ≡ none
unfolding validate valid_host has text_eq valid_package_name
slow_ok = refl

slow-IsValidConfig : IsValidConfig slow
slow-IsValidConfig = (validate_iff slow).0 slow_ok

interval_wraps_example :
    ((reload (parsed slow) started).0 ≡ none)
    × (leb_ℤ (reload (parsed slow) started).1.snap.poll_interval (pos 0) ≡ true)
interval_wraps_example =
    interval_wraps slow started 9223372037 slow-IsValidConfig refl (omega arith) (omega arith)
