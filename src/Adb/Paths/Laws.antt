-- ===== src/Adb/Paths/Laws.antt =====
-- Every path that `parsePMPaths` returns is what a line names, and no line is lost.
use play_apk_distributor.Prelude.{
  ℕ, ap, ◌∙◌, All-append, ◌≡◌, ◌≢◌, inl, inr, refl, List, [], ◌∷◌, ◌++◌, none, some, arith, All,
  Option-cases,
}
use play_apk_distributor.Text.{Text, codes, cut_prefix, split}
use play_apk_distributor.Text.Laws.{cut_prefix-append}
use play_apk_distributor.Space.{trim_space}
use play_apk_distributor.Space.Laws.{IsVisible, trim_space-visible}
use play_apk_distributor.Adb.Paths.{line_path, collect_paths, parse_pm_paths}

-- a line that `pm path` prints for a path
abbrev pub path_line : Text → Text
path_line p = codes "package:" ++ p

line_path-ne-nil : (line p : Text) → line_path line ≡ some p → p ≢ []
unfolding line_path
line_path-ne-nil line p h = ground arith

collect_paths-ne-nil : (lines : List Text) → All (λ p. p ≢ []) (collect_paths lines)
unfolding collect_paths
collect_paths-ne-nil [] = tt
collect_paths-ne-nil (line ∷ lines) = elim (Option-cases (line_path line)) [
  | inl e ↦ rw (e, collect_paths) (collect_paths-ne-nil lines)
  | inr (p, e) ↦ rw (e, collect_paths) (line_path-ne-nil line p e, collect_paths-ne-nil lines)
]

line_path_of :
    (line t a p : Text) (c : ℕ)
    → trim_space line ≡ t
    → cut_prefix t (codes "package:") ≡ some a
    → trim_space a ≡ c ∷ p
    → line_path line ≡ some (c ∷ p)
unfolding line_path
line_path_of line t a p c e f g = ground arith

path_line-IsVisible : (p : Text) → All IsVisible p → All IsVisible (path_line p)
path_line-IsVisible p h = All-append IsVisible (codes "package:") p (omega arith) h

-- a path of visible characters is read from its line
line_path-path_line :
    (c : ℕ) (p : Text) → All IsVisible (c ∷ p) → line_path (path_line (c ∷ p)) ≡ some (c ∷ p)
line_path-path_line c p h =
    line_path_of (path_line (c ∷ p)) (path_line (c ∷ p)) (c ∷ p) p c
      (trim_space-visible (path_line (c ∷ p)) (path_line-IsVisible (c ∷ p) h))
      (cut_prefix-append (codes "package:") (c ∷ p)) (trim_space-visible (c ∷ p) h)

-- what `pm path` prints: a line for each path
abbrev pub print_paths : List Text → Text
print_paths [] = []
print_paths (p ∷ ps) = path_line p ++ 10 ∷ print_paths ps

-- a path that is not empty and has no blank or control character
abbrev pub IsPath : Text → Type 0
IsPath p = (p ≢ []) × All IsVisible p

split-line : (p rest : Text) → All IsVisible p → split 10 (p ++ 10 ∷ rest) ≡ p ∷ split 10 rest
unfolding split
split-line [] rest h = refl
split-line (c ∷ p) rest (v, h) = ground (arith, split-line p rest h)

collect_paths-empty : collect_paths ([] ∷ []) ≡ []
unfolding collect_paths line_path trim_space cut_prefix
collect_paths-empty = refl

collect_paths-cons :
    (line p : Text) (lines : List Text)
    → line_path line ≡ some p
    → collect_paths (line ∷ lines) ≡ p ∷ collect_paths lines
unfolding collect_paths
collect_paths-cons line p lines e = ground arith

collect_paths-print :
    (ps : List Text) → All IsPath ps → collect_paths (split 10 (print_paths ps)) ≡ ps
collect_paths-print [] h = unfold split in collect_paths-empty
collect_paths-print ([] ∷ ps) ((n, v), h) = absurd (n refl)
collect_paths-print ((c ∷ p) ∷ ps) ((n, v), h) =
    rw (split-line (path_line (c ∷ p)) (print_paths ps) (path_line-IsVisible (c ∷ p) v)) (
      collect_paths-cons (path_line (c ∷ p)) (c ∷ p) _ (line_path-path_line c p v)
      ∙ ap (◌∷◌ (c ∷ p)) (collect_paths-print ps h))

parsed_of :
    (out : Text) (p : Text) (ps : List Text)
    → collect_paths (split 10 out) ≡ p ∷ ps
    → parse_pm_paths out ≡ some (p ∷ ps)
unfolding parse_pm_paths
parsed_of out p ps e = ground arith

-- Paths that are not empty and have no blank or control character, at least one of them, are read
-- back in order from the lines that `pm path` prints for them.
pub parse_pm_paths-print :
    (ps : List Text) → ps ≢ [] → All IsPath ps → parse_pm_paths (print_paths ps) ≡ some ps
parse_pm_paths-print [] n h = absurd (n refl)
parse_pm_paths-print (p ∷ ps) n h =
    parsed_of (print_paths (p ∷ ps)) p ps (collect_paths-print (p ∷ ps) h)

-- No output at all gives an empty list or an empty path.
pub parse_pm_paths_sound :
    (out : Text) (ps : List Text) → parse_pm_paths out ≡ some ps → (ps ≢ []) × All (λ p. p ≢ []) ps
unfolding parse_pm_paths
parse_pm_paths_sound out ps h =
    go (collect_paths (split 10 out)) (collect_paths-ne-nil (split 10 out)) h
  where
    go :
        (qs : List Text)
        → All (λ p. p ≢ []) qs
        → (elim qs [ [] ↦ none | q ∷ r ↦ some (q ∷ r) ]) ≡ some ps
        → (ps ≢ []) × All (λ p. p ≢ []) ps
    go [] k e = cc
    go (q ∷ r) k e = let same : q ∷ r ≡ ps = cc in (rw (← same) (λ x. cc), rw (← same) k)
