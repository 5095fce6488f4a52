-- ===== src/Extractor/Bundle/Succeeds.antt =====
-- When a write of an output file has no error.
use play_apk_distributor.Prelude.{◌≡◌, refl, true, List, [], ◌∷◌, none, arith}
use play_apk_distributor.Prelude.Int.{ℤ}
use play_apk_distributor.Text.{Text}
use play_apk_distributor.NameMap.{keys}
use play_apk_distributor.NameSet.{sort_texts}
use play_apk_distributor.Extractor.Folder.{Folder, commit_file}
use play_apk_distributor.Extractor.Bundle.{
  BundleIo, add_entries, close_archive, commit_output, atomic_copy, write_single_apk, write_xapk,
}

-- every call for the output file succeeds
pub record IsGoodBundle (io : BundleIo) : Type 0 where
  pub source_opened : io.source_opened ≡ true
  pub tmp_opened : io.tmp_opened ≡ true
  pub copied : io.copied ≡ true
  pub entries : (n : Text) → io.entry n ≡ record { created = true; opened = true; copied = true }
  pub closed : close_archive io ≡ none
  pub renamed : io.renamed ≡ true

add_entries_ok :
    (io : BundleIo) (collected : List (Text × Text)) (ns : List Text)
    → IsGoodBundle io
    → (add_entries io collected ns).0 ≡ none
unfolding add_entries
add_entries_ok io collected [] g = refl
add_entries_ok io collected (n ∷ ns) g =
    ground (arith, g.entries n, add_entries_ok io collected ns g)

pub write_xapk_ok :
    (io : BundleIo) (pkg : Text) (code : ℤ) (name : Text) (collected : List (Text × Text))
    (abis : List Text) (fs : Folder)
    → IsGoodBundle io
    → (write_xapk io pkg code name collected abis fs).0 ≡ none
unfolding write_xapk commit_output commit_file
write_xapk_ok io pkg code name collected abis fs g = ground (
  arith,
  g.tmp_opened,
  add_entries_ok io collected (sort_texts (keys collected)) g,
  g.closed,
  g.renamed,
)

pub write_single_apk_ok :
    (io : BundleIo) (code : ℤ) (collected : List (Text × Text)) (fs : Folder)
    → IsGoodBundle io
    → (write_single_apk io code collected fs).0 ≡ none
unfolding write_single_apk atomic_copy commit_output commit_file
write_single_apk_ok io code collected fs g =
    ground (arith, g.source_opened, g.tmp_opened, g.copied, g.renamed)
