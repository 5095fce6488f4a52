-- ===== src/Packages/Loading.antt =====
-- `load`, `New` and `Watch` of packages/packages.go.
use play_apk_distributor.Prelude.{
  ℕ, zero, suc, ◌+◌, ◌<◌, ◌⊎◌, ◌≡◌, ◌≢◌, refl, ap, ◌∙◌, Bool, true, false, ◌||◌, List, [], ◌∷◌,
  arith, inl, inr, some, Option-cases,
}
use play_apk_distributor.Text.{Text}
use play_apk_distributor.Text.Laws.{text_eq_iff}
use play_apk_distributor.NameSet.{has, include, IsSetList}
use play_apk_distributor.NameSet.Laws.{has-include, include-IsSetList}
use play_apk_distributor.Result.{Error, ok, err, done, Result-cases}
use play_apk_distributor.Storage.{Codec, Read, content, absent, unreadable}
use play_apk_distributor.Packages.{
  Manager, tracked, with_set, fill_set, read_file, load_read, load, notify, watch_event,
}
use play_apk_distributor.Packages.Seeding.{AllValid}

-- valid names fill a set that holds exactly them, each once
pub fill_set_valid :
    (names set : List Text)
    → AllValid names
    → IsSetList set
    → (filled : List Text) × (fill_set names set ≡ ok filled)
      × IsSetList filled
      × ((other : Text) → has other filled ≡ (has other set || has other names))
unfolding fill_set has
fill_set_valid [] set h d = (set, refl, d, λ other. ground arith)
fill_set_valid (name ∷ names) set (good, h) d =
    let (filled, e, d', s) =
      fill_set_valid names (include name set) h (include-IsSetList name set d) in
    (
      filled,
      ground arith,
      d',
      λ other. ground (arith, s other, has-include name other set, text_eq_iff other name),
    )

-- one invalid name refuses the file
pub fill_set_sound :
    (names set filled : List Text) → fill_set names set ≡ ok filled → AllValid names
unfolding fill_set
fill_set_sound [] set filled h = tt
fill_set_sound (name ∷ names) set filled h =
    ground (arith, fill_set_sound names (include name set) filled)

pub decided :
    (left i : ℕ) (reads : ℕ → Read) (r : Read)
    → reads i ≡ r
    → r ≢ unreadable
    → read_file (suc left) i reads ≡ r
unfolding read_file
decided left i reads (content b) h d = rw (h, read_file)
decided left i reads absent h d = rw (h, read_file)
decided left i reads unreadable h d = absurd (d refl)

-- The reads of `load`: the first that gives a content or `os.ErrNotExist` decides, of three at most.
pub read_file_first :
    (left i k : ℕ) (reads : ℕ → Read) (r : Read)
    → k < left
    → ((j : ℕ) → j < k → reads (i + j) ≡ unreadable)
    → reads (i + k) ≡ r
    → r ≢ unreadable
    → read_file left i reads ≡ r
unfolding read_file
read_file_first zero i k reads r lt before here decides = absurd (omega arith)
read_file_first (suc left) i zero reads r lt before here decides =
    decided left i reads r (ap reads (omega arith) ∙ here) decides
read_file_first (suc left) i (suc k) reads r lt before here decides =
    let first : reads i ≡ unreadable = ap reads (omega arith) ∙ before 0 (omega arith) in
    rw (first, read_file)
      (read_file_first left (suc i) k reads r (omega arith)
        (λ j h. ap reads (omega arith) ∙ before (suc j) (omega arith))
        (ap reads (omega arith) ∙ here) decides)

module _ (codec : Codec (List Text)) where
  -- what a `load` of a document has put in place
  pub record Loaded (b : Text) (m : Manager) : Type 0 where
    pub names : List Text
    pub decoded : codec.unmarshal b ≡ some names
    pub valid : AllValid names
    pub distinct : IsSetList m.set
    pub same : (other : Text) → tracked m other ≡ has other names

  -- a `load` that fails keeps the manager as it was
  pub load_failed :
      (reads : ℕ → Read) (m : Manager) (e : Error)
      → (load codec reads m).0 ≡ err e
      → (load codec reads m).1 ≡ m
  unfolding load
  load_failed reads m e h = go (read_file 3 0 reads) h
    where
      go : (r : Read) → (load_read codec r m).0 ≡ err e → (load_read codec r m).1 ≡ m
      go absent k = refl
      go unreadable k = refl
      go (content b) k = ground arith

  pub load_read_ok :
      (b : Text) (m : Manager) (names set : List Text)
      → codec.unmarshal b ≡ some names
      → fill_set names [] ≡ ok set
      → load_read codec (content b) m ≡ (done, with_set m set)
  unfolding load_read
  load_read_ok b m names set e f = ground arith

  pub load_content :
      (b : Text) (m : Manager)
      → (load_read codec (content b) m).0 ≡ done
      → Loaded b (load_read codec (content b) m).1
  unfolding load_read tracked has
  load_content b m h = elim (Option-cases (codec.unmarshal b)) [
    | inl e ↦ absurd (ground arith)
    | inr (names, e) ↦ elim (Result-cases (fill_set names [])) [
      | inr (x, f) ↦ absurd (ground arith)
      | inl (set, f) ↦
          let valid = fill_set_sound names [] set f in
          let (filled, f', d, s) = fill_set_valid names [] valid tt in
          let same : set ≡ filled = ground arith in
          rw (load_read_ok b m names set e f) (record {
            names = names;
            decoded = e;
            valid = valid;
            distinct = rw same d;
            same = λ other. ap (has other) same ∙ s other;
          })
    ]
  ]

  -- a `load` without error found no file, or has put a valid document in place
  pub load-done :
      (reads : ℕ → Read) (m : Manager)
      → (load codec reads m).0 ≡ done
      → ((read_file 3 0 reads ≡ absent) × ((load codec reads m).1 ≡ m))
        ⊎ ((b : Text) × (read_file 3 0 reads ≡ content b) × Loaded b (load codec reads m).1)
  unfolding load
  load-done reads m h = go (read_file 3 0 reads) refl h
    where
      go :
          (r : Read)
          → read_file 3 0 reads ≡ r
          → (load_read codec r m).0 ≡ done
          → ((read_file 3 0 reads ≡ absent) × ((load_read codec r m).1 ≡ m))
            ⊎ ((b : Text) × (read_file 3 0 reads ≡ content b) × Loaded b (load_read codec r m).1)
      go absent e k = inl (e, refl)
      go unreadable e k = cc
      go (content b) e k = inr (b, e, load_content b m k)

  -- An event of another file, one that neither writes nor creates, and an edit that `load`
  -- refuses leave the manager as it was, and no handler is called.
  pub watch_event_ignored :
      (for_file is_write is_create : Bool) (reads : ℕ → Read) (m : Manager)
      → ((for_file ≡ false) ⊎ ((is_write ≡ false) × (is_create ≡ false)))
        ⊎ ((e : Error) × ((load codec reads m).0 ≡ err e))
      → watch_event codec for_file is_write is_create reads m ≡ m
  unfolding watch_event
  watch_event_ignored for_file w c reads m (inl (inl h)) = ground arith
  watch_event_ignored for_file w c reads m (inl (inr (h, k))) = ground arith
  watch_event_ignored for_file w c reads m (inr (e, h)) = ground (arith, load_failed reads m e h)

  -- An accepted edit calls every handler with the new list.
  pub watch_event_accepted :
      (is_write is_create : Bool) (reads : ℕ → Read) (m : Manager)
      → (is_write || is_create) ≡ true
      → (load codec reads m).0 ≡ done
      → watch_event codec true is_write is_create reads m ≡ notify (load codec reads m).1
  unfolding watch_event
  watch_event_accepted w c reads m h k = ground arith
