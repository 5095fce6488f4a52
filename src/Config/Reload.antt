-- ===== src/Config/Reload.antt =====
-- What a reload keeps and what it puts in place.
use play_apk_distributor.Prelude.{
  ℕ, zero, suc, ◌≡◌, ◌≢◌, ◌⊎◌, inl, inr, refl, Bool, not, ◌&&◌, List, [], ◌∷◌, none, some, arith,
  if◌then◌else◌, Bool-cases, Option-cases,
}
use play_apk_distributor.Prelude.Int.{ℤ, pos, negsuc, is_zero}
use play_apk_distributor.Text.{Text, text_eq}
use play_apk_distributor.NameMap.{lookup}
use play_apk_distributor.Config.{
  Snapshot, Config, Document, parsed, unreadable, unparsable, normalize_certs, snapshot, reload,
  load, watch_event, default_api_host,
}
use play_apk_distributor.Config.Fingerprint.Laws.{IsCanonical, normalize_fingerprint_sound}
use play_apk_distributor.Config.Validate.{Raw, ConfigError}
use play_apk_distributor.Config.Validate.Emulators.{EmulatorsOk, InRange}
use play_apk_distributor.Config.Validate.Laws.{IsValidConfig, CertsOk, validate_iff}

-- A reload that returns an error keeps the configuration, whatever the file holds.
pub reload_failed :
    (d : Document) (c : Config) (e : ConfigError) → (reload d c).0 ≡ some e → (reload d c).1 ≡ c
unfolding reload
reload_failed unreadable c e h = refl
reload_failed unparsable c e h = refl
reload_failed (parsed r) c e h = ground arith

pub reload_done :
    (d : Document) (c : Config)
    → (reload d c).0 ≡ none
    → (r : Raw) × (d ≡ parsed r)
      × IsValidConfig r
      × ((reload d c).1 ≡ record c { snap = snapshot r })
unfolding reload
reload_done unreadable c h = cc
reload_done unparsable c h = cc
reload_done (parsed r) c h = (r, refl, (validate_iff r).0 (ground arith), ground arith)

-- every fingerprint is in canonical form, under the package that the file names it for
certs-IsCanonical :
    (certs : List (Text × Text)) (pkg fp : Text)
    → CertsOk certs
    → lookup pkg (normalize_certs certs) ≡ some fp
    → IsCanonical fp
unfolding normalize_certs lookup
certs-IsCanonical [] pkg fp h e = absurd (ground arith)
certs-IsCanonical ((p, f) ∷ certs) pkg fp (v, (s, n), h) e = elim (Bool-cases (text_eq pkg p)) [
  | inl same ↦ normalize_fingerprint_sound f fp (ground arith)
  | inr other ↦ certs-IsCanonical certs pkg fp h (ground arith)
]

-- What every snapshot in use satisfies, from the defaults and the checks.
pub record IsGood (s : Snapshot) : Type 0 where
  pub some_emulator : s.emulators ≢ []
  pub emulators : EmulatorsOk [] s.emulators
  pub size : (n : ℕ) × (s.max_apk_size_mb ≡ pos (suc n))
  pub api_host : s.api_host ≢ []
  pub api_port : (s.api_port ≡ pos 0) ⊎ InRange s.api_port
  pub certs : (pkg fp : Text) → lookup pkg s.expected_certs ≡ some fp → IsCanonical fp

size_good :
    (p : ℤ)
    → ((n : ℕ) × (p ≡ pos n))
    → (n : ℕ) × ((if is_zero p then pos 1024 else p) ≡ pos (suc n))
size_good (pos zero) h = (1023, refl)
size_good (pos (suc n)) h = (n, ground arith)
size_good (negsuc n) (k, h) = cc

api_host_good : (r : Raw) → (snapshot r).api_host ≢ []
unfolding snapshot
api_host_good r = go r.api_host
  where
    go : (s : Text) → (elim s [ [] ↦ default_api_host | c ∷ t ↦ c ∷ t ]) ≢ []
    go [] h = cc
    go (c ∷ t) h = cc

pub snapshot-IsGood : (r : Raw) → IsValidConfig r → IsGood (snapshot r)
unfolding snapshot
snapshot-IsGood r v = record {
  some_emulator = v.some_emulator;
  emulators = v.emulators;
  size = size_good r.max_apk_size_mb v.size;
  api_host = api_host_good r;
  api_port = v.api_port;
  certs = λ pkg fp e. certs-IsCanonical r.expected_certs pkg fp v.certs e;
}

pub reload-IsGood : (d : Document) (c : Config) → IsGood c.snap → IsGood (reload d c).1.snap
reload-IsGood d c g = elim (Option-cases (reload d c).0) [
  | inr (e, h) ↦ rw (reload_failed d c e h) g
  | inl h ↦ let (r, _, v, e) = reload_done d c h in rw e (snapshot-IsGood r v)
]

-- an edit of the file as `Watch` sees it: its two flags, and what the file holds then
pub record Edit : Type 0 where
  pub is_write : Bool
  pub is_create : Bool
  pub document : Document

unfoldable pub run : List Edit → Config → Config
run [] c = c
run (e ∷ es) c = run es (watch_event e.is_write e.is_create e.document c)

snap-watch_event :
    (w k : Bool) (d : Document) (c : Config)
    → ((watch_event w k d c).snap ≡ c.snap) ⊎ ((watch_event w k d c).snap ≡ (reload d c).1.snap)
unfolding watch_event
snap-watch_event w k d c = elim (Bool-cases (not w && not k)) [
  | inl ignored ↦ inl (ground arith)
  | inr seen ↦ elim (Option-cases (reload d c).0) [
    | inl h ↦ inr (ground arith)
    | inr (e, h) ↦ inr (ground arith)
  ]
]

watch_event-IsGood :
    (w k : Bool) (d : Document) (c : Config) → IsGood c.snap → IsGood (watch_event w k d c).snap
watch_event-IsGood w k d c g = elim (snap-watch_event w k d c) [
  | inl e ↦ rw e g
  | inr e ↦ rw e (reload-IsGood d c g)
]

-- If the snapshot in use is good, it is good after any events of the watched file, whatever the
-- file holds at each of them: it names an emulator, on ports in range, a positive size limit, an
-- API host, and fingerprints in canonical form.
pub run-IsGood : (es : List Edit) (c : Config) → IsGood c.snap → IsGood (run es c).snap
unfolding run
run-IsGood [] c g = g
run-IsGood (e ∷ es) c g =
    run-IsGood es (watch_event e.is_write e.is_create e.document c)
      (watch_event-IsGood e.is_write e.is_create e.document c g)

-- `Load` gives a good snapshot or none.
pub load-IsGood :
    (zero_value : Snapshot) (d : Document) (c : Config) → load zero_value d ≡ some c → IsGood c.snap
unfolding load
load-IsGood zero_value d c h =
    let start : Config = record { snap = zero_value; handlers = []; calls = [] } in
    elim (Option-cases (reload d start).0) [
      | inr (e, f) ↦ absurd (ground arith)
      | inl f ↦
          let (r, _, v, e) = reload_done d start f in
          let same : c ≡ (reload d start).1 = ground arith in rw (same, e) (snapshot-IsGood r v)
    ]
