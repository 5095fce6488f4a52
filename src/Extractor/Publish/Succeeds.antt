-- ===== src/Extractor/Publish/Succeeds.antt =====
-- When the checksum and latest.json are written.
use play_apk_distributor.Prelude.{◌≡◌, true, some, arith}
use play_apk_distributor.Text.{Text}
use play_apk_distributor.NameMap.{lookup}
use play_apk_distributor.Extractor.Folder.{
  Document, Latest, document, Folder, written, write_file, commit_file,
}
use play_apk_distributor.Extractor.Publish.{PublishIo, document_at, write_checksum, write_latest}

-- every call for the checksum and latest.json succeeds
pub record IsGoodPublish (io : PublishIo) : Type 0 where
  pub opened : io.opened ≡ true
  pub read : io.read ≡ true
  pub sum_written : io.sum_write ≡ written
  pub marshalled : io.marshalled ≡ true
  pub latest_written : io.latest_write ≡ written
  pub renamed : io.renamed ≡ true

pub write_checksum_ok :
    (sha : Document → Text) (io : PublishIo) (name : Text) (d : Document) (fs : Folder)
    → IsGoodPublish io
    → lookup name fs ≡ some (document d)
    → (write_checksum sha io name fs).0 ≡ some (sha d)
unfolding write_checksum document_at write_file
write_checksum_ok sha io name d fs g e = ground (arith, g.opened, g.read, g.sum_written)

pub write_latest_ok :
    (io : PublishIo) (l : Latest) (fs : Folder) → IsGoodPublish io → (write_latest io l fs).0 ≡ true
unfolding write_latest write_file commit_file
write_latest_ok io l fs g = ground (arith, g.marshalled, g.latest_written, g.renamed)
