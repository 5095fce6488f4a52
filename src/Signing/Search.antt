-- ===== src/Signing/Search.antt =====
-- Which `apksigner` is found: the order of the places, and the directory that `latestBuildTool` picks.
use play_apk_distributor.Prelude.{
  ◌≡◌, ◌⊎◌, Bool, true, false, List, [], ◌∷◌, ◌++◌, none, some, arith, All,
}
use play_apk_distributor.Text.{Text}
use play_apk_distributor.Signing.{
  Environment, join_path, first_holding, find_apksigner, tool_under, tool_name, default_sdk,
}

-- The tool of the first directory of the list that holds it.
pub first_holding_lem :
    (exists : Text → Bool) (root exe : Text) (before : List Text) (d : Text) (behind : List Text)
    → All (λ b. exists (join_path (join_path root b) exe) ≡ false) before
    → exists (join_path (join_path root d) exe) ≡ true
    → first_holding exists root exe (before ++ d ∷ behind) ≡ some (join_path (join_path root d) exe)
unfolding first_holding
first_holding_lem exists root exe [] d behind h k = ground arith
first_holding_lem exists root exe (b ∷ before) d behind (p, h) k =
    rw p (first_holding_lem exists root exe before d behind h k)

-- what is found exists
pub first_holding_sound :
    (exists : Text → Bool) (root exe : Text) (ds : List Text) (p : Text)
    → first_holding exists root exe ds ≡ some p
    → exists p ≡ true
unfolding first_holding
first_holding_sound exists root exe [] p h = cc
first_holding_sound exists root exe (d ∷ ds) p h =
    ground (arith, first_holding_sound exists root exe ds p)

-- The search path comes first, then ANDROID_HOME, then the default directory of the system.
pub find_apksigner_order :
    (sys : Environment) (p : Text)
    → (sys.look_path (tool_name sys.os) ≡ some p)
      ⊎ ((sys.look_path (tool_name sys.os) ≡ none) × (tool_under sys sys.android_home ≡ some p))
      ⊎ ((sys.look_path (tool_name sys.os) ≡ none)
          × (tool_under sys sys.android_home ≡ none)
          × (tool_under sys (default_sdk sys) ≡ some p))
    → find_apksigner sys ≡ some p
unfolding find_apksigner
find_apksigner_order sys p h = ground arith
