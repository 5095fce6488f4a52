-- ===== src/Sink/Laws.antt =====
-- The first error of a fan-out ends it.
use play_apk_distributor.Prelude.{
  ℕ, ◌≡◌, refl, List, [], ◌∷◌, ◌++◌, none, some, arith, All, length, ◌+◌,
}
use play_apk_distributor.Sink.{Artifact, Sink, fan_out}

abbrev pub Accepts : Artifact → Sink → Type 0
Accepts a s = s a ≡ none

-- A fan-out returns nil exactly when every sink does, and then it has called them all.
pub fan_out-Accepts :
    (sinks : List Sink) (a : Artifact)
    → All (Accepts a) sinks
    → fan_out sinks a ≡ (none, length sinks)
unfolding fan_out
fan_out-Accepts [] a h = refl
fan_out-Accepts (s ∷ sinks) a (h, hs) = rw h (rw (fan_out-Accepts sinks a hs))

-- The first sink that fails gives the result, and no sink behind it is called.
pub fan_out_aborts :
    (before : List Sink) (s : Sink) (behind : List Sink) (a : Artifact) (e : ℕ)
    → All (Accepts a) before
    → s a ≡ some e
    → fan_out (before ++ s ∷ behind) a ≡ (some e, length before + 1)
unfolding fan_out
fan_out_aborts [] s behind a e h f = ground arith
fan_out_aborts (t ∷ before) s behind a e (h, hs) f =
    ground (arith, fan_out_aborts before s behind a e hs f)
