-- ===== src/Extractor/Run/Written.antt =====
-- The directory once the output file, its checksum and latest.json are in place.
use play_apk_distributor.Prelude.{◌≡◌, sym, ◌∙◌, Bool, true, false, [], ◌∷◌, none, some, arith}
use play_apk_distributor.Text.{codes}
use play_apk_distributor.NameSet.{has}
use play_apk_distributor.NameMap.{lookup}
use play_apk_distributor.Extractor.Folder.{
  Document, document, sum_file, latest_file, Folder, tmp_of, sum_of, latest_name,
}
use play_apk_distributor.Extractor.Folder.Laws.{Touches}
use play_apk_distributor.Extractor.Folder.Names.{
  other-apart, has-one, sum_of-ne, tmp_of-ne-sum_of, IsOther, append-IsOther, itoa-IsOther,
}
use play_apk_distributor.Extractor.Run.{Host, Job, output_name, latest_of}

-- the name of an output file is none of the others
pub output-IsOther : (job : Job) (is_split : Bool) → IsOther (output_name job is_split)
output-IsOther job true = append-IsOther _ (codes ".xapk") (itoa-IsOther job.code)
output-IsOther job false = append-IsOther _ (codes ".apk") (itoa-IsOther job.code)

-- the directory once the files of the output `name` are in place
pub record IsWritten (host : Host) (job : Job) (is_split : Bool) (d : Document) (fs : Folder)
    : Type 0 where
  pub output : lookup (output_name job is_split) fs ≡ some (document d)
  pub summed : lookup (sum_of (output_name job is_split)) fs ≡ some (sum_file (host.sha d))
  pub latest : lookup latest_name fs ≡ some (latest_file (latest_of host job is_split))
  -- no temporary file is left
  pub no_tmp : lookup (tmp_of (output_name job is_split)) fs ≡ none
  pub no_latest_tmp : lookup (tmp_of latest_name) fs ≡ none
  -- and every other file is the old one
  pub changed :
      Touches
        (output_name job is_split
          ∷ tmp_of (output_name job is_split)
          ∷ sum_of (output_name job is_split)
          ∷ latest_name
          ∷ tmp_of latest_name
          ∷ [])
        host.folder
        fs

-- the checksum and latest.json behind a write that is done
pub write_latest-IsWritten :
    (host : Host) (job : Job) (is_split : Bool) (d : Document) (fs mid end : Folder)
    → lookup (output_name job is_split) fs ≡ some (document d)
    → lookup (tmp_of (output_name job is_split)) fs ≡ none
    → Touches (output_name job is_split ∷ tmp_of (output_name job is_split) ∷ []) host.folder fs
    → Touches (sum_of (output_name job is_split) ∷ []) fs mid
    → lookup (sum_of (output_name job is_split)) mid ≡ some (sum_file (host.sha d))
    → Touches (latest_name ∷ tmp_of latest_name ∷ []) mid end
    → lookup latest_name end ≡ some (latest_file (latest_of host job is_split))
    → lookup (tmp_of latest_name) end ≡ none
    → IsWritten host job is_split d end
write_latest-IsWritten host job is_split d fs mid end o t c cs s cl l n =
    let out = output_name job is_split in
    let i = output-IsOther job is_split in
    let tmp_i = append-IsOther out (codes ".tmp") i in
    let sum_i = append-IsOther out (codes ".sha256") i in
    record {
      output =
          cl out (other-apart out i)
          ∙ cs out (has-one out (sum_of out) (λ e. sum_of-ne out (sym e)))
          ∙ o;
      summed = cl (sum_of out) (other-apart (sum_of out) sum_i) ∙ s;
      latest = l;
      no_tmp =
          cl (tmp_of out) (other-apart (tmp_of out) tmp_i)
          ∙ cs (tmp_of out) (has-one (tmp_of out) (sum_of out) (tmp_of-ne-sum_of out))
          ∙ t;
      no_latest_tmp = n;
      changed = λ m k.
          cl m (unfold has in ground arith)
          ∙ cs m (unfold has in ground arith)
          ∙ c m (unfold has in ground arith);
    }
