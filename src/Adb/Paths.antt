-- ===== src/Adb/Paths.antt =====
-- `parsePMPaths` of adb/adb.go. An error is `none`.
pub mod Laws
use play_apk_distributor.Prelude.{
  Bool, true, false, List, [], ◌∷◌, Option, none, some, if◌then◌else◌,
}
use play_apk_distributor.Text.{Text, codes, cut_prefix, split}
use play_apk_distributor.Space.{trim_space}

-- the path that a line of the output gives, if it is not empty
pub line_path : Text → Option Text
line_path line = elim (cut_prefix (trim_space line) (codes "package:")) [
  | none ↦ none
  | some after ↦ elim (trim_space after) [ [] ↦ none | c ∷ p ↦ some (c ∷ p) ]
]

pub collect_paths : List Text → List Text
unfolding line_path
collect_paths [] = []
collect_paths (line ∷ lines) =
    let rest = collect_paths lines in elim (line_path line) [ none ↦ rest | some p ↦ p ∷ rest ]

pub parse_pm_paths : Text → Option (List Text)
unfolding collect_paths
parse_pm_paths output = elim (collect_paths (split 10 output)) [
  | [] ↦ none
  | p ∷ ps ↦ some (p ∷ ps)
]
