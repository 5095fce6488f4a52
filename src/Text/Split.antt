-- ===== src/Text/Split.antt =====
-- `split` read as a first part and the parts behind it.
use play_apk_distributor.Prelude.{ℕ, ◌≡◌, refl, List, [], ◌∷◌, arith, ◌==◌, if◌then◌else◌}
use play_apk_distributor.Text.{Text, split}

unfoldable pub first_part : ℕ → Text → Text
first_part b [] = []
first_part b (c ∷ s) = if c == b then [] else c ∷ first_part b s

unfoldable pub more_parts : ℕ → Text → List Text
unfolding first_part
more_parts b [] = []
more_parts b (c ∷ s) = let rest = more_parts b s in if c == b then first_part b s ∷ rest else rest

pub split-parts : (b : ℕ) (s : Text) → split b s ≡ first_part b s ∷ more_parts b s
unfolding split first_part more_parts
split-parts b [] = refl
split-parts b (c ∷ s) = ground (arith, split-parts b s)
