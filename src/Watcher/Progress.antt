-- ===== src/Watcher/Progress.antt =====
-- A version that the emulators offer is extracted and recorded.
use play_apk_distributor.Prelude.{
  ◌≡◌, refl, true, false, List, [], ◌∷◌, none, some, arith, Bool-cases, Option-cases, inl, inr, All,
}
use play_apk_distributor.Prelude.Int.{ℤ, leb_ℤ, leb-refl_ℤ, eqb-refl_ℤ, leb-trans_ℤ}
use play_apk_distributor.Text.{Text, text_eq}
use play_apk_distributor.Text.Laws.{text_eq_iff}
use play_apk_distributor.NameSet.{has}
use play_apk_distributor.NameMap.{insert}
use play_apk_distributor.Result.{done}
use play_apk_distributor.Storage.{Codec, written, save}
use play_apk_distributor.Store.{Entry, Table, Store, get_last_known, set_last_known}
use play_apk_distributor.Store.Laws.{get-set_last_known}
use play_apk_distributor.Adb.Version.{VersionInfo}
use play_apk_distributor.Extractor.Pull.Succeeds.{IsReady, SomeServes}
use play_apk_distributor.Extractor.Run.{Extraction, policy_of, extract}
use play_apk_distributor.Extractor.Run.Succeeds.{IsGoodHost, extract_ok}
use play_apk_distributor.Watcher.{
  answers, agree, up_to_date, Turn, complete, job_of, record_version, decide, check_package, poll,
}
use play_apk_distributor.Watcher.Check.{IsNoOlder, poll-IsNoOlder}

-- the emulators that answer agree on the version code of `base`, every call for the files of its
-- extraction succeeds, and each emulator gives its files or is passed over, one of them the former
pub record IsOffered (turn : Turn) (pkg output_dir : Text) (base : VersionInfo) : Type 0 where
  pub others : List VersionInfo
  pub answered : answers pkg turn.clients ≡ base ∷ others
  pub agreed : All (λ v. v.code ≡ base.code) others
  pub host : IsGoodHost turn.host
  pub ready : All (IsReady (policy_of turn.host (job_of turn pkg output_dir base)) pkg) turn.pulling
  pub served : SomeServes (policy_of turn.host (job_of turn pkg output_dir base)) pkg turn.pulling

All-agree : (code : ℤ) (vs : List VersionInfo) → All (λ v. v.code ≡ code) vs → agree code vs ≡ true
unfolding agree
All-agree code [] h = refl
All-agree code (v ∷ vs) (e, h) = rw e (ground (arith, eqb-refl_ℤ code, All-agree code vs h))

offered_ok :
    (turn : Turn) (pkg output_dir : Text) (base : VersionInfo)
    → IsOffered turn pkg output_dir base
    → (extract turn.host (job_of turn pkg output_dir base) turn.pulling).failure ≡ none
unfolding job_of
offered_ok turn pkg output_dir base o =
    extract_ok turn.host (job_of turn pkg output_dir base) turn.pulling o.host o.ready o.served

-- the entry that is recorded
abbrev pub entry_of : Turn → VersionInfo → Entry
entry_of turn v = record { version_code = v.code; version_name = v.name; updated_at = turn.now }

module _ (codec : Codec Table) where
  -- store.json can be written with the new entry
  pub record CanSave (turn : Turn) (pkg : Text) (v : VersionInfo) (st : Store) : Type 0 where
    pub bytes : Text
    pub marshalled : codec.marshal (insert pkg (entry_of turn v) st.table) ≡ some bytes
    pub tmp_written : turn.io.write ≡ written
    pub renamed : turn.io.rename_ok ≡ true

  set_last_known_ok :
      (turn : Turn) (pkg : Text) (v : VersionInfo) (st : Store)
      → CanSave turn pkg v st
      → (set_last_known codec pkg v.code v.name turn.now turn.io st).0 ≡ done
  unfolding set_last_known save
  set_last_known_ok turn pkg v st c = ground (arith, c.marshalled, c.tmp_written, c.renamed)

  decide_due :
      (turn : Turn) (pkg output_dir : Text) (st : Store) (base : VersionInfo)
      (others : List VersionInfo)
      → agree base.code others ≡ true
      → up_to_date (get_last_known st pkg) base.code ≡ false
      → decide codec turn pkg output_dir st (base ∷ others)
        ≡ record_version codec turn pkg base st
            (extract turn.host (job_of turn pkg output_dir base) turn.pulling)
  unfolding decide
  decide_due turn pkg output_dir st base others a d = ground arith

  record_version_ok :
      (turn : Turn) (pkg : Text) (v : VersionInfo) (st : Store) (x : Extraction)
      → x.failure ≡ none
      → CanSave turn pkg v st
      → (record_version codec turn pkg v st x).outcome ≡ complete
  unfolding record_version
  record_version_ok turn pkg v st x e c = ground (arith, set_last_known_ok turn pkg v st c)

  -- If the emulators that answer agree on a version code that the store does not know, nor a
  -- higher one, every call for the files of the extraction but those of the pruning succeeds,
  -- every emulator gives its files or is passed over, one of them the former, and store.json can
  -- be written, then the outcome of the check is `complete`.
  pub check_package_completes :
      (turn : Turn) (pkg output_dir : Text) (st : Store) (base : VersionInfo)
      → IsOffered turn pkg output_dir base
      → up_to_date (get_last_known st pkg) base.code ≡ false
      → CanSave turn pkg base st
      → (check_package codec turn pkg output_dir st).outcome ≡ complete
  unfolding check_package
  check_package_completes turn pkg output_dir st base o due c = rw o.answered (
      rw
        (decide_due turn pkg output_dir st base o.others (All-agree base.code o.others o.agreed)
          due)
        (record_version_ok turn pkg base st _ (offered_ok turn pkg output_dir base o) c))

  -- the store knows this version code of the package, or a higher one
  abbrev pub Reaches : Store → Text → ℤ → Type 0
  Reaches st pkg code =
      (e : Entry) × (get_last_known st pkg ≡ some e) × (leb_ℤ code e.version_code ≡ true)

  record_version-Reaches :
      (turn : Turn) (pkg : Text) (v : VersionInfo) (st : Store) (x : Extraction)
      → x.failure ≡ none
      → Reaches (record_version codec turn pkg v st x).store pkg v.code
  unfolding record_version
  record_version-Reaches turn pkg v st x e = (
    entry_of turn v,
    ground (
      arith,
      get-set_last_known codec pkg pkg v.code v.name turn.now turn.io st,
      text_eq_iff pkg pkg,
    ),
    leb-refl_ℤ v.code,
  )

  up_to_date-Reaches :
      (st : Store) (pkg : Text) (code : ℤ)
      → up_to_date (get_last_known st pkg) code ≡ true
      → Reaches st pkg code
  unfolding up_to_date
  up_to_date-Reaches st pkg code h = elim (Option-cases (get_last_known st pkg)) [
    | inl e ↦ absurd (ground arith)
    | inr (entry, e) ↦ (entry, e, ground arith)
  ]

  decide_old :
      (turn : Turn) (pkg output_dir : Text) (st : Store) (base : VersionInfo)
      (others : List VersionInfo)
      → agree base.code others ≡ true
      → up_to_date (get_last_known st pkg) base.code ≡ true
      → (decide codec turn pkg output_dir st (base ∷ others)).store ≡ st
  unfolding decide
  decide_old turn pkg output_dir st base others a d = ground arith

  check_package-Reaches :
      (turn : Turn) (pkg output_dir : Text) (st : Store) (base : VersionInfo)
      → IsOffered turn pkg output_dir base
      → Reaches (check_package codec turn pkg output_dir st).store pkg base.code
  unfolding check_package
  check_package-Reaches turn pkg output_dir st base o =
      let a = All-agree base.code o.others o.agreed in
      elim (Bool-cases (up_to_date (get_last_known st pkg) base.code)) [
        | inr due ↦ rw o.answered (
            rw (decide_due turn pkg output_dir st base o.others a due)
              (record_version-Reaches turn pkg base st _ (offered_ok turn pkg output_dir base o)))
        | inl old ↦ rw o.answered (
            rw (decide_old turn pkg output_dir st base o.others a old)
              (up_to_date-Reaches st pkg base.code old))
      ]

  pub Reaches-later :
      (st st' : Store) (pkg : Text) (code : ℤ)
      → IsNoOlder st st'
      → Reaches st pkg code
      → Reaches st' pkg code
  unfolding IsNoOlder
  Reaches-later st st' pkg code h (e, known, le) =
      let (e', known', le') = h pkg e known in
      (e', known', leb-trans_ℤ code e.version_code e'.version_code le le')

  poll_next :
      (turns : Text → Turn) (output_dir : Text) (p : Text) (ps : List Text) (st : Store)
      → (turns p).cancelled ≡ false
      → poll codec turns output_dir (p ∷ ps) st
        ≡ poll codec turns output_dir ps (check_package codec (turns p) p output_dir st).store
  unfolding poll
  poll_next turns output_dir p ps st go = ground arith

  -- If no turn is cancelled and in the turn of a package of the list the emulators that answer
  -- agree on a version code, every call for the files of its extraction but those of the pruning
  -- succeeds, and every emulator gives its files or is passed over, one of them the former, then
  -- after the poll the store knows the package with that version code or a higher one.
  pub poll-Reaches :
      (turns : Text → Turn) (pkg output_dir : Text) (pkgs : List Text) (st : Store)
      (base : VersionInfo)
      → has pkg pkgs ≡ true
      → All (λ p. (turns p).cancelled ≡ false) pkgs
      → IsOffered (turns pkg) pkg output_dir base
      → Reaches (poll codec turns output_dir pkgs st) pkg base.code
  unfolding has
  poll-Reaches turns pkg output_dir [] st base h c o = cc
  poll-Reaches turns pkg output_dir (p ∷ ps) st base h (go, cs) o =
      let st' = (check_package codec (turns p) p output_dir st).store in
      rw (poll_next turns output_dir p ps st go) (elim (Bool-cases (text_eq pkg p)) [
        | inr apart ↦ poll-Reaches turns pkg output_dir ps st' base (ground arith) cs o
        | inl same ↦
            Reaches-later st' (poll codec turns output_dir ps st') pkg base.code
              (poll-IsNoOlder codec turns output_dir ps st') (here p ((text_eq_iff pkg p).0 same))
      ])
    where
      here :
          (q : Text)
          → pkg ≡ q
          → Reaches (check_package codec (turns q) q output_dir st).store pkg base.code
      here q e = rw (← e) (check_package-Reaches (turns pkg) pkg output_dir st base o)
