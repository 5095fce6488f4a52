-- ===== src/Storage/Laws.antt =====
-- A replaced file is never seen half written.
use play_apk_distributor.Prelude.{◌≡◌, refl, true, Option, none, some, arith}
use play_apk_distributor.Text.{Text}
use play_apk_distributor.Result.{Error, err, done}
use play_apk_distributor.Storage.{Slot, Write, written, broken, Answers, save}

-- a `save` that returns nil has put the document in place and left no temporary file
pub save-done :
    (doc : Option Text) (io : Answers) (f : Slot)
    → (save doc io f).0 ≡ done
    → (b : Text) × (doc ≡ some b) × ((save doc io f).1 ≡ record { main = some b; tmp = none })
unfolding save
save-done none io f h = cc
save-done (some b) io f h = go io.write refl h
  where
    go :
        (w : Write)
        → io.write ≡ w
        → (save (some b) io f).0 ≡ done
        → (c : Text) × (some b ≡ some c)
          × ((save (some b) io f).1 ≡ record { main = some c; tmp = none })
    go written e k = (b, refl, ground arith)
    go (broken left) e k = ground arith

-- a `save` that fails leaves the file as it was
pub save_failed :
    (doc : Option Text) (io : Answers) (f : Slot) (e : Error)
    → (save doc io f).0 ≡ err e
    → (save doc io f).1.main ≡ f.main
unfolding save
save_failed none io f e h = refl
save_failed (some b) io f e h = ground arith

-- nothing stands in the way of a `save` whose calls succeed
pub save_all_ok :
    (b : Text) (io : Answers) (f : Slot)
    → io.write ≡ written
    → io.rename_ok ≡ true
    → save (some b) io f ≡ (done, record { main = some b; tmp = none })
unfolding save
save_all_ok b io f h k = ground arith
