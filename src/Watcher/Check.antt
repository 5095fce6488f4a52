-- ===== src/Watcher/Check.antt =====
-- When `checkPackage` extracts, and what it and `poll` leave in the store.
use play_apk_distributor.Prelude.{
  ◌≡◌, refl, ap, sym, ◌∙◌, true, false, List, [], ◌∷◌, none, some, arith, Bool-cases, Option-cases,
  inl, inr, All,
}
use play_apk_distributor.Prelude.Int.{ℤ, leb_ℤ, leb-refl_ℤ, leb-trans_ℤ, leb-total_ℤ, eqb_iff_ℤ}
use play_apk_distributor.Text.{Text, text_eq}
use play_apk_distributor.Text.Laws.{text_eq_iff}
use play_apk_distributor.Storage.{Codec}
use play_apk_distributor.Store.{Entry, Table, Store, get_last_known, set_last_known}
use play_apk_distributor.Store.Laws.{get-set_last_known}
use play_apk_distributor.Adb.Version.{VersionInfo}
use play_apk_distributor.Extractor.Run.{Extraction, ExtractError, extract}
use play_apk_distributor.Watcher.{
  answers, agree, up_to_date, Turn, job_of, record_version, decide, check_package, poll,
}

-- why an extraction was started: at least one emulator answered, all that did answer named the version
-- code of `base`, and the store knows no version of the package or an older one
pub record IsDue (turn : Turn) (pkg output_dir : Text) (st : Store) (x : Extraction) : Type 0 where
  pub base : VersionInfo
  pub others : List VersionInfo
  pub answered : answers pkg turn.clients ≡ base ∷ others
  pub agreed : All (λ v. v.code ≡ base.code) others
  pub newer : (e : Entry) → get_last_known st pkg ≡ some e → leb_ℤ base.code e.version_code ≡ false
  pub extracted : x ≡ extract turn.host (job_of turn pkg output_dir base) turn.pulling

agree-All : (code : ℤ) (vs : List VersionInfo) → agree code vs ≡ true → All (λ v. v.code ≡ code) vs
unfolding agree
agree-All code [] h = tt
agree-All code (v ∷ vs) h = (eqb_iff_ℤ v.code code (ground arith), agree-All code vs (ground arith))

-- every package that the first store knows is known to the second, with no older version
unfoldable pub IsNoOlder : Store → Store → Type 0
IsNoOlder st st' =
    (pkg : Text) (e : Entry)
    → get_last_known st pkg ≡ some e
    → (e' : Entry) × (get_last_known st' pkg ≡ some e')
      × (leb_ℤ e.version_code e'.version_code ≡ true)

pub IsNoOlder-refl : (st : Store) → IsNoOlder st st
unfolding IsNoOlder
IsNoOlder-refl st pkg e h = (e, h, leb-refl_ℤ e.version_code)

pub IsNoOlder-trans : (a b c : Store) → IsNoOlder a b → IsNoOlder b c → IsNoOlder a c
unfolding IsNoOlder
IsNoOlder-trans a b c h k pkg e known =
    let (e', known', le) = h pkg e known in
    let (e'', known'', le') = k pkg e' known' in
    (e'', known'', leb-trans_ℤ e.version_code e'.version_code e''.version_code le le')

module _ (codec : Codec Table) where
  record_extraction :
      (turn : Turn) (pkg : Text) (v : VersionInfo) (st : Store) (x : Extraction)
      → (record_version codec turn pkg v st x).extraction ≡ some x
  unfolding record_version
  record_extraction turn pkg v st x = elim (Option-cases x.failure) [
    | inl ok_now ↦ ground arith
    | inr (e, bad) ↦ ground arith
  ]

  decide-IsDue :
      (turn : Turn) (pkg output_dir : Text) (st : Store) (x : Extraction) (vs : List VersionInfo)
      → answers pkg turn.clients ≡ vs
      → (decide codec turn pkg output_dir st vs).extraction ≡ some x
      → IsDue turn pkg output_dir st x
  unfolding decide
  decide-IsDue turn pkg output_dir st x [] e h = cc
  decide-IsDue turn pkg output_dir st x (base ∷ others) e h =
      elim (Bool-cases (agree base.code others)) [
        | inr apart ↦ absurd (ground arith)
        | inl together ↦ elim (Bool-cases (up_to_date (get_last_known st pkg) base.code)) [
          | inl old ↦ absurd (ground arith)
          | inr due ↦ record {
            base = base;
            others = others;
            answered = e;
            agreed = agree-All base.code others together;
            newer = λ entry known. unfold up_to_date in (ground arith);
            extracted = ground (
              arith,
              record_extraction turn pkg base st
                  (extract turn.host (job_of turn pkg output_dir base) turn.pulling),
            );
          }
        ]
      ]

  -- A check of a package extracts only when at least one emulator answers, all that answer name
  -- one version code, and the store knows no version of the package or an older one; what is
  -- extracted is the version that the first answer names.
  pub check_package-IsDue :
      (turn : Turn) (pkg output_dir : Text) (st : Store) (x : Extraction)
      → (check_package codec turn pkg output_dir st).extraction ≡ some x
      → IsDue turn pkg output_dir st x
  unfolding check_package
  check_package-IsDue turn pkg output_dir st x h =
      decide-IsDue turn pkg output_dir st x (answers pkg turn.clients) refl h

  record_keeps :
      (turn : Turn) (pkg : Text) (v : VersionInfo) (st : Store) (x : Extraction) (e : ExtractError)
      → x.failure ≡ some e
      → (record_version codec turn pkg v st x).store ≡ st
  unfolding record_version
  record_keeps turn pkg v st x e h = ground arith

  record_sets :
      (turn : Turn) (pkg : Text) (v : VersionInfo) (st : Store) (x : Extraction)
      → x.failure ≡ none
      → (record_version codec turn pkg v st x).store
        ≡ (set_last_known codec pkg v.code v.name turn.now turn.io st).1
  unfolding record_version
  record_sets turn pkg v st x h = ground arith

  record-IsNoOlder :
      (turn : Turn) (pkg : Text) (v : VersionInfo) (st : Store) (x : Extraction)
      → up_to_date (get_last_known st pkg) v.code ≡ false
      → IsNoOlder st (record_version codec turn pkg v st x).store
  unfolding IsNoOlder
  record-IsNoOlder turn pkg v st x due = elim (Option-cases x.failure) [
    | inr (e, bad) ↦ rw (record_keeps turn pkg v st x e bad) (IsNoOlder-refl st)
    | inl good ↦ λ other e known. elim (Bool-cases (text_eq other pkg)) [
      | inr apart ↦ (
        e,
        ap (λ s. get_last_known s other) (record_sets turn pkg v st x good)
            ∙ get-set_last_known codec pkg other v.code v.name turn.now turn.io st
            ∙ ground arith,
        leb-refl_ℤ e.version_code,
      )
      | inl same ↦ (
        record { version_code = v.code; version_name = v.name; updated_at = turn.now },
        ap (λ s. get_last_known s other) (record_sets turn pkg v st x good)
            ∙ get-set_last_known codec pkg other v.code v.name turn.now turn.io st
            ∙ ground arith,
        leb-total_ℤ v.code e.version_code (older other e known ((text_eq_iff other pkg).0 same)),
      )
    ]
  ]
    where
      older :
          (other : Text) (e : Entry)
          → get_last_known st other ≡ some e
          → other ≡ pkg
          → leb_ℤ v.code e.version_code ≡ false
      older other e known same =
          let here : get_last_known st pkg ≡ some e = ap (get_last_known st) (sym same) ∙ known in
          unfold up_to_date in (ground arith)

  decide-IsNoOlder :
      (turn : Turn) (pkg output_dir : Text) (st : Store) (vs : List VersionInfo)
      → IsNoOlder st (decide codec turn pkg output_dir st vs).store
  unfolding decide
  decide-IsNoOlder turn pkg output_dir st [] = IsNoOlder-refl st
  decide-IsNoOlder turn pkg output_dir st (base ∷ others) =
      elim (Bool-cases (agree base.code others)) [
        | inr apart ↦ rw apart (IsNoOlder-refl st)
        | inl together ↦ elim (Bool-cases (up_to_date (get_last_known st pkg) base.code)) [
          | inl old ↦ rw together (rw old (IsNoOlder-refl st))
          | inr due ↦ rw together (
              rw due (
                record-IsNoOlder turn pkg base st
                  (extract turn.host (job_of turn pkg output_dir base) turn.pulling) due))
        ]
      ]

  -- Whatever happens in a poll, every package that the store knew is known to it afterwards, with
  -- no lower version code.
  pub poll-IsNoOlder :
      (turns : Text → Turn) (output_dir : Text) (pkgs : List Text) (st : Store)
      → IsNoOlder st (poll codec turns output_dir pkgs st)
  unfolding poll check_package
  poll-IsNoOlder turns output_dir [] st = IsNoOlder-refl st
  poll-IsNoOlder turns output_dir (pkg ∷ pkgs) st = elim (Bool-cases (turns pkg).cancelled) [
    | inl stop ↦ rw stop (IsNoOlder-refl st)
    | inr go ↦
        let st' = (check_package codec (turns pkg) pkg output_dir st).store in
        rw go (
          IsNoOlder-trans st st' (poll codec turns output_dir pkgs st')
            (decide-IsNoOlder (turns pkg) pkg output_dir st (answers pkg (turns pkg).clients))
            (poll-IsNoOlder turns output_dir pkgs st'))
  ]
