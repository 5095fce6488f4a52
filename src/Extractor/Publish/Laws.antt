-- ===== src/Extractor/Publish/Laws.antt =====
-- What the checksum and latest.json hold once they are written, and which files an error leaves.
use play_apk_distributor.Prelude.{
  ◌≡◌, refl, inl, inr, true, false, List, [], ◌∷◌, none, some, arith, Bool-cases, Option-cases,
}
use play_apk_distributor.Text.{Text, text_eq}
use play_apk_distributor.Text.Laws.{text_eq_refl, text_eq_iff}
use play_apk_distributor.NameSet.{has}
use play_apk_distributor.NameMap.{lookup}
use play_apk_distributor.NameMap.Laws.{lookup-insert}
use play_apk_distributor.Extractor.Folder.{
  Document, Latest, File, document, sum_file, latest_file, Folder, Write, written, untouched,
  spoiled, write_file, tmp_of, sum_of, latest_name,
}
use play_apk_distributor.Extractor.Folder.Names.{tmp_of-ne}
use play_apk_distributor.Extractor.Folder.Laws.{
  Touches, Touches-refl, Touches-trans, write_file-Touches, commit_file-Touches, commit_file_failed,
  commit_file_done,
}
use play_apk_distributor.Extractor.Publish.{PublishIo, document_at, write_checksum, write_latest}

write_file_done :
    (w : Write) (name : Text) (f : File) (fs : Folder)
    → (write_file w name f fs).0 ≡ true
    → lookup name (write_file w name f fs).1 ≡ some f
unfolding write_file
write_file_done written name f fs h =
    ground (arith, lookup-insert name name f fs, text_eq_iff name name)
write_file_done untouched name f fs h = cc
write_file_done spoiled name f fs h = cc

has_here : (n : Text) (ns : List Text) → has n (n ∷ ns) ≡ true
has_here n ns = unfold has in ground (arith, text_eq_refl n)

pub write_checksum-Touches :
    (sha : Document → Text) (io : PublishIo) (name : Text) (fs : Folder)
    → Touches (sum_of name ∷ []) fs (write_checksum sha io name fs).1
unfolding write_checksum
write_checksum-Touches sha io name fs = elim (Bool-cases io.opened) [
  | inr f ↦ rw f (Touches-refl _ fs)
  | inl a ↦ elim (Option-cases (document_at name fs)) [
    | inl e ↦ rw a (rw e (Touches-refl _ fs))
    | inr (d, e) ↦ elim (Bool-cases io.read) [
      | inr f ↦ rw a (rw e (rw f (Touches-refl _ fs)))
      | inl b ↦ rw a (
          rw e (
            rw b (
              write_file-Touches (sum_of name ∷ []) io.sum_write (sum_of name) (sum_file (sha d)) fs
                (has_here _ []))))
    ]
  ]
]

pub write_checksum_done :
    (sha : Document → Text) (io : PublishIo) (name : Text) (d : Document) (fs : Folder) (s : Text)
    → lookup name fs ≡ some (document d)
    → (write_checksum sha io name fs).0 ≡ some s
    → (s ≡ sha d)
      × (lookup (sum_of name) (write_checksum sha io name fs).1 ≡ some (sum_file (sha d)))
unfolding write_checksum document_at
write_checksum_done sha io name d fs s e h =
    ground (arith, write_file_done io.sum_write (sum_of name) (sum_file (sha d)) fs)

pub write_latest-Touches :
    (io : PublishIo) (l : Latest) (fs : Folder)
    → Touches (latest_name ∷ tmp_of latest_name ∷ []) fs (write_latest io l fs).1
unfolding write_latest has text_eq
write_latest-Touches io l fs =
    let tmp = tmp_of latest_name in
    let names = latest_name ∷ tmp ∷ [] in
    let w = write_file io.latest_write tmp (latest_file l) fs in
    let second = write_file-Touches names io.latest_write tmp (latest_file l) fs refl in
    elim (Bool-cases io.marshalled) [
      | inr f ↦ rw f (Touches-refl names fs)
      | inl a ↦ elim (Bool-cases w.0) [
        | inr f ↦ rw a (rw f second)
        | inl b ↦ rw a (
            rw b (
              Touches-trans names fs w.1 _ second (
                commit_file-Touches names io.renamed io.removed tmp latest_name (latest_file l) w.1
                  refl refl)))
      ]
    ]

pub write_latest_failed :
    (io : PublishIo) (l : Latest) (fs : Folder)
    → (write_latest io l fs).0 ≡ false
    → Touches (tmp_of latest_name ∷ []) fs (write_latest io l fs).1
unfolding write_latest has text_eq
write_latest_failed io l fs h =
    let tmp = tmp_of latest_name in
    let names = tmp ∷ [] in
    let w = write_file io.latest_write tmp (latest_file l) fs in
    let first = write_file-Touches names io.latest_write tmp (latest_file l) fs refl in
    elim (Bool-cases io.marshalled) [
      | inr f ↦ rw f (Touches-refl names fs)
      | inl a ↦ elim (Bool-cases w.0) [
        | inr f ↦ rw a (rw f first)
        | inl b ↦ rw a (
            rw b (
              Touches-trans names fs w.1 _ first (
                commit_file_failed names io.renamed io.removed tmp latest_name (latest_file l) w.1
                  refl (ground arith))))
      ]
    ]

pub write_latest_done :
    (io : PublishIo) (l : Latest) (fs : Folder)
    → (write_latest io l fs).0 ≡ true
    → (lookup latest_name (write_latest io l fs).1 ≡ some (latest_file l))
      × (lookup (tmp_of latest_name) (write_latest io l fs).1 ≡ none)
unfolding write_latest has text_eq
write_latest_done io l fs h =
    let tmp = tmp_of latest_name in
    let w = write_file io.latest_write tmp (latest_file l) fs in
    elim (Bool-cases io.marshalled) [
      | inr f ↦ absurd (ground arith)
      | inl a ↦ elim (Bool-cases w.0) [
        | inr f ↦ absurd (ground arith)
        | inl b ↦ rw a (
            rw b (
              commit_file_done io.renamed io.removed tmp latest_name (latest_file l) w.1
                (tmp_of-ne latest_name) (ground arith)))
      ]
    ]
