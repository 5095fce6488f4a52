-- ===== src/Watcher/Complete.antt =====
-- A check that completes, and the check after it.
use play_apk_distributor.Prelude.{
  ◌≡◌, ◌≢◌, refl, ap, ◌∙◌, true, List, [], ◌∷◌, none, some, arith, Bool-cases, Option-cases, inl,
  inr,
}
use play_apk_distributor.Prelude.Int.{leb_ℤ, leb-refl_ℤ}
use play_apk_distributor.Text.{Text}
use play_apk_distributor.Text.Laws.{text_eq_iff}
use play_apk_distributor.Result.{Error, Result-cases}
use play_apk_distributor.Storage.{Codec}
use play_apk_distributor.Store.{Entry, Table, Store, get_last_known, set_last_known}
use play_apk_distributor.Store.Laws.{get-set_last_known}
use play_apk_distributor.Adb.Version.{VersionInfo}
use play_apk_distributor.Extractor.Run.{Extraction, extract}
use play_apk_distributor.Extractor.Run.Laws.{IsDone, extract-IsDone}
use play_apk_distributor.Watcher.{
  answers, agree, up_to_date, Turn, Outcome, no_update, store_failed, complete, Checked, job_of,
  record_version, decide, check_package,
}

-- the extraction of the agreed version is done, and the store knows that version
pub record IsComplete (turn : Turn) (pkg output_dir : Text) (r : Checked) : Type 0 where
  pub base : VersionInfo
  pub others : List VersionInfo
  pub answered : answers pkg turn.clients ≡ base ∷ others
  pub agreed : agree base.code others ≡ true
  pub extraction : Extraction
  pub extracted : r.extraction ≡ some extraction
  pub finished : IsDone turn.host (job_of turn pkg output_dir base) turn.pulling extraction
  pub known :
      get_last_known r.store pkg
      ≡ some (record { version_code = base.code; version_name = base.name; updated_at = turn.now })

-- the outcomes at which nothing was recorded
abbrev pub IsUnrecorded : Outcome → Type 0
IsUnrecorded o = (o ≢ complete) × ((e : Error) → o ≢ store_failed e)

module _ (codec : Codec Table) where
  record_complete :
      (turn : Turn) (pkg : Text) (v : VersionInfo) (st : Store) (x : Extraction)
      → (record_version codec turn pkg v st x).outcome ≡ complete
      → (x.failure ≡ none)
        × ((record_version codec turn pkg v st x).extraction ≡ some x)
        × ((record_version codec turn pkg v st x).store
            ≡ (set_last_known codec pkg v.code v.name turn.now turn.io st).1)
  unfolding record_version
  record_complete turn pkg v st x h = elim (Option-cases x.failure) [
    | inl good ↦ (good, ground arith, ground arith)
    | inr (e, bad) ↦ absurd (ground arith)
  ]

  decide_complete :
      (turn : Turn) (pkg output_dir : Text) (st : Store) (vs : List VersionInfo)
      → answers pkg turn.clients ≡ vs
      → (decide codec turn pkg output_dir st vs).outcome ≡ complete
      → IsComplete turn pkg output_dir (decide codec turn pkg output_dir st vs)
  unfolding decide
  decide_complete turn pkg output_dir st [] e h = cc
  decide_complete turn pkg output_dir st (base ∷ others) e h =
      elim (Bool-cases (agree base.code others)) [
        | inr apart ↦ absurd (ground arith)
        | inl together ↦ elim (Bool-cases (up_to_date (get_last_known st pkg) base.code)) [
          | inl old ↦ absurd (ground arith)
          | inr due ↦
              let x = extract turn.host (job_of turn pkg output_dir base) turn.pulling in
              let (good, extracted, stored) = record_complete turn pkg base st x (ground arith) in
              rw together (
                rw due (record {
                  base = base;
                  others = others;
                  answered = e;
                  agreed = together;
                  extraction = x;
                  extracted = extracted;
                  finished =
                      extract-IsDone turn.host (job_of turn pkg output_dir base) turn.pulling good;
                  known =
                      ap (λ s. get_last_known s pkg) stored
                      ∙ get-set_last_known codec pkg pkg base.code base.name turn.now turn.io st
                      ∙ ground (arith, text_eq_iff pkg pkg);
                }))
        ]
      ]

  -- A check whose outcome is `complete` had answers that agree on one version code, and the
  -- extraction of that version did all that an extraction without error does; the store then
  -- knows that code and name.
  pub check_package-IsComplete :
      (turn : Turn) (pkg output_dir : Text) (st : Store)
      → (check_package codec turn pkg output_dir st).outcome ≡ complete
      → IsComplete turn pkg output_dir (check_package codec turn pkg output_dir st)
  unfolding check_package
  check_package-IsComplete turn pkg output_dir st h =
      decide_complete turn pkg output_dir st (answers pkg turn.clients) refl h

  decide_known :
      (turn : Turn) (pkg output_dir : Text) (st : Store) (base : VersionInfo)
      (others : List VersionInfo) (e : Entry)
      → agree base.code others ≡ true
      → get_last_known st pkg ≡ some e
      → e.version_code ≡ base.code
      → (decide codec turn pkg output_dir st (base ∷ others)).outcome ≡ no_update
  unfolding decide
  decide_known turn pkg output_dir st base others e together known same =
      let old : up_to_date (get_last_known st pkg) base.code ≡ true =
        ap (λ o. up_to_date o base.code) known ∙ level in
      ground arith
    where
      level : up_to_date (some e) base.code ≡ true
      level = unfold up_to_date in (ap (leb_ℤ base.code) same ∙ leb-refl_ℤ base.code)

  -- After a check whose outcome is `complete`, a check of the same package finds no update if the
  -- emulators answer as they did: no version is extracted twice.
  pub check_package_again :
      (turn next : Turn) (pkg output_dir : Text) (st : Store)
      → (check_package codec turn pkg output_dir st).outcome ≡ complete
      → answers pkg next.clients ≡ answers pkg turn.clients
      → (check_package codec next pkg output_dir
          (check_package codec turn pkg output_dir st).store).outcome
        ≡ no_update
  check_package_again turn next pkg output_dir st h same =
      let c = check_package-IsComplete turn pkg output_dir st h in
      let st' = (check_package codec turn pkg output_dir st).store in
      unfold check_package in
      (rw (same ∙ c.answered)
        (decide_known next pkg output_dir st' c.base c.others _ c.agreed c.known refl))

  record_unrecorded :
      (turn : Turn) (pkg : Text) (v : VersionInfo) (st : Store) (x : Extraction)
      → IsUnrecorded (record_version codec turn pkg v st x).outcome
      → (record_version codec turn pkg v st x).store ≡ st
  unfolding record_version
  record_unrecorded turn pkg v st x (a, b) = elim (Option-cases x.failure) [
    | inr (e, bad) ↦ ground arith
    | inl good ↦
        elim (Result-cases (set_last_known codec pkg v.code v.name turn.now turn.io st).0) [
          | inl (u, k) ↦ absurd (a (ground arith))
          | inr (e, k) ↦ absurd (b e (ground arith))
        ]
  ]

  decide_unrecorded :
      (turn : Turn) (pkg output_dir : Text) (st : Store) (vs : List VersionInfo)
      → IsUnrecorded (decide codec turn pkg output_dir st vs).outcome
      → (decide codec turn pkg output_dir st vs).store ≡ st
  unfolding decide
  decide_unrecorded turn pkg output_dir st [] k = refl
  decide_unrecorded turn pkg output_dir st (base ∷ others) k =
      elim (Bool-cases (agree base.code others)) [
        | inr apart ↦ ground arith
        | inl together ↦ elim (Bool-cases (up_to_date (get_last_known st pkg) base.code)) [
          | inl old ↦ ground arith
          | inr due ↦
              let x = extract turn.host (job_of turn pkg output_dir base) turn.pulling in
              let same : decide codec turn pkg output_dir st (base ∷ others)
                  ≡ record_version codec turn pkg base st x =
                ground arith in
              ap (λ c. c.store) same
              ∙ record_unrecorded turn pkg base st x (coe 0 1 (i. IsUnrecorded (same i).outcome) k)
        ]
      ]

  -- A check whose outcome is neither `complete` nor a failed write of the store leaves the store
  -- as it was.
  pub check_package_unrecorded :
      (turn : Turn) (pkg output_dir : Text) (st : Store)
      → IsUnrecorded (check_package codec turn pkg output_dir st).outcome
      → (check_package codec turn pkg output_dir st).store ≡ st
  unfolding check_package
  check_package_unrecorded turn pkg output_dir st h =
      decide_unrecorded turn pkg output_dir st (answers pkg turn.clients) h
