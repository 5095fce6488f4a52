-- ===== src/Extractor/Prune.antt =====
-- `pruneOldVersions` of extractor/extractor.go.
pub mod Laws
pub mod Names
use play_apk_distributor.Prelude.{
  ℕ, suc, Bool, true, false, not, ◌&&◌, ◌||◌, List, [], ◌∷◌, ◌++◌, Option, none, some, leb, length,
  drop, map, if◌then◌else◌,
}
use play_apk_distributor.Prelude.Int.{ℤ, ltb_ℤ}
use play_apk_distributor.Text.{Text, codes, has_suffix, trim_suffix}
use play_apk_distributor.Decimal.{atoi}
use play_apk_distributor.NameSet.{without}
use play_apk_distributor.Signing.{DirEntry}

pub record Versioned : Type 0 where
  pub code : ℤ
  pub name : Text

-- the extension that the switch chooses
pub extension : Text → Option Text
extension name =
    if has_suffix name (codes ".xapk")
    then some (codes ".xapk")
    else if has_suffix name (codes ".apk")
    then some (codes ".apk")
    else none

abbrev with_code : Text → Option ℤ → Option Versioned
with_code name none = none
with_code name (some c) = some (record { code = c; name = name })

pub version_of : Text → Option Versioned
unfolding extension
version_of name = elim (extension name) [
  | none ↦ none
  | some ext ↦ with_code name (atoi (trim_suffix name ext))
]

-- the loop over the directory
pub versioned_files : List DirEntry → List Versioned
unfolding version_of
versioned_files [] = []
versioned_files (e ∷ es) =
    let rest = versioned_files es in
    if e.is_dir then rest else elim (version_of e.name) [ none ↦ rest | some v ↦ v ∷ rest ]

-- sort.Slice by descending code; files of one code keep an order that Go leaves open
pub insert_version : Versioned → List Versioned → List Versioned
insert_version v [] = v ∷ []
insert_version v (w ∷ ws) = if ltb_ℤ v.code w.code then w ∷ insert_version v ws else v ∷ w ∷ ws

pub sort_versions : List Versioned → List Versioned
unfolding insert_version
sort_versions [] = []
sort_versions (v ∷ vs) = insert_version v (sort_versions vs)

-- the files that the loop removes, each with its sidecar
pub doomed : List Versioned → List Text
doomed [] = []
doomed (v ∷ vs) = v.name ∷ (v.name ++ codes ".sha256") ∷ doomed vs

-- the names that `os.Remove` is called for; `none` is an error of `os.ReadDir`
unfoldable pub prune_old_versions : Option (List DirEntry) → ℕ → Option (List Text)
unfolding versioned_files sort_versions doomed
prune_old_versions none keep = none
prune_old_versions (some entries) keep =
    let files = versioned_files entries in
    if leb (length files) keep then some [] else some (doomed (drop keep (sort_versions files)))
