-- ===== src/Sink.antt =====
-- sink/sink.go. A sink is a function of the artifact into an error or nil; the calls that a fan-out
-- makes are returned beside its result. The context is not modelled.
pub mod Laws
use play_apk_distributor.Prelude.{ℕ, suc, Bool, List, [], ◌∷◌, Option, none, some}
use play_apk_distributor.Prelude.Int.{ℤ}
use play_apk_distributor.Text.{Text}

pub record Artifact : Type 0 where
  pub package_name : Text
  pub version_code : ℤ
  pub version_name : Text
  pub path : Text
  pub checksum : Text
  pub is_xapk : Bool

-- `none` is a nil error; an error is known by a number
abbrev pub Sink : Type 0
Sink = Artifact → Option ℕ

-- Noop.OnArtifact
pub noop : Sink
noop a = none

-- Fanout.OnArtifact: the result, and how many sinks were called
pub fan_out : List Sink → Artifact → Option ℕ × ℕ
fan_out [] a = (none, 0)
fan_out (s ∷ sinks) a =
    let (r, n) = fan_out sinks a in elim (s a) [ some e ↦ (some e, 1) | none ↦ (r, suc n) ]
