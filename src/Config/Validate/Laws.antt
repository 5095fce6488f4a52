-- ===== src/Config/Validate/Laws.antt =====
-- A configuration passes `validate` exactly when it is valid.
use play_apk_distributor.Prelude.{
  ℕ, zero, suc, ap, ◌≤◌, ◌≡◌, ◌≢◌, ◌↔◌, ◌⊎◌, inl, inr, refl, true, false, ◌&&◌, ◌||◌, List, [], ◌∷◌,
  none, some, arith, ltb, All, length, if◌then◌else◌, Option-cases,
}
use play_apk_distributor.Prelude.Int.{ℤ, pos, negsuc, ltb_ℤ, leb_ℤ, is_zero}
use play_apk_distributor.Text.{Text}
use play_apk_distributor.PackageName.{valid_package_name}
use play_apk_distributor.Config.Fingerprint.{normalize_fingerprint}
use play_apk_distributor.Config.Validate.Hosts.{IsHost, valid_host_iff}
use play_apk_distributor.Config.Validate.Emulators.{
  InRange, EmulatorsOk, InRange-port, emulators_iff,
}
use play_apk_distributor.Config.Validate.{
  Raw, validate_core, validate_package_names, validate_api, validate_expected_certs, validate,
  valid_host, is_empty,
}

abbrev pub CertsOk : List (Text × Text) → Type 0
CertsOk [] = Unit
CertsOk ((pkg, fp) ∷ certs) =
    (valid_package_name pkg ≡ true)
    × ((s : Text) × (normalize_fingerprint fp ≡ some s))
    × CertsOk certs

pub record IsValidConfig (r : Raw) : Type 0 where
  pub host : IsHost r.adb_host
  pub interval : (n : ℕ) × (r.poll_interval ≡ pos (suc n))
  pub output : r.output_dir ≢ []
  pub size : (n : ℕ) × (r.max_apk_size_mb ≡ pos n)
  pub some_emulator : r.emulators ≢ []
  pub emulators : EmulatorsOk [] r.emulators
  pub packages : All (λ p. valid_package_name p ≡ true) r.packages
  pub api_port : (r.api_port ≡ pos 0) ⊎ InRange r.api_port
  pub api_token : (r.api_token ≡ []) ⊎ (32 ≤ length r.api_token)
  pub certs : CertsOk r.expected_certs

names_sound :
    (ps : List Text) → validate_package_names ps ≡ none → All (λ p. valid_package_name p ≡ true) ps
unfolding validate_package_names
names_sound [] h = tt
names_sound (p ∷ ps) h = ground (arith, names_sound ps)

names_complete :
    (ps : List Text) → All (λ p. valid_package_name p ≡ true) ps → validate_package_names ps ≡ none
unfolding validate_package_names
names_complete [] h = refl
names_complete (p ∷ ps) (v, h) = ground (arith, names_complete ps h)

certs_sound : (cs : List (Text × Text)) → validate_expected_certs cs ≡ none → CertsOk cs
unfolding validate_expected_certs
certs_sound [] h = tt
certs_sound ((pkg, fp) ∷ cs) h = elim (Option-cases (normalize_fingerprint fp)) [
  | inl e ↦ absurd (ground arith)
  | inr (s, e) ↦ (ground arith, (s, e), certs_sound cs (ground arith))
]

certs_complete : (cs : List (Text × Text)) → CertsOk cs → validate_expected_certs cs ≡ none
unfolding validate_expected_certs
certs_complete [] h = refl
certs_complete ((pkg, fp) ∷ cs) (v, (s, e), h) = ground (arith, certs_complete cs h)

positive : (p : ℤ) → leb_ℤ p (pos 0) ≡ false → (n : ℕ) × (p ≡ pos (suc n))
positive (pos zero) h = cc
positive (pos (suc n)) h = (n, refl)
positive (negsuc n) h = cc

not_negative : (p : ℤ) → ltb_ℤ p (pos 0) ≡ false → (n : ℕ) × (p ≡ pos n)
not_negative (pos n) h = (n, refl)
not_negative (negsuc n) h = cc

not_empty : {A : Type 0} (s : List A) → s ≢ [] → (c : A) × (t : List A) × (s ≡ c ∷ t)
not_empty [] h = absurd (h refl)
not_empty (c ∷ t) h = (c, t, refl)

valid_host_nil : valid_host [] ≡ false
unfolding valid_host
valid_host_nil = refl

valid_host-ne-nil : (s : Text) → valid_host s ≡ true → s ≢ []
valid_host-ne-nil s h e = cc (h, ap valid_host e, valid_host_nil)

validate_core_iff :
    (r : Raw)
    → (validate_core r ≡ none) ↔ (
        (valid_host r.adb_host ≡ true)
        × ((n : ℕ) × (r.poll_interval ≡ pos (suc n)))
        × (r.output_dir ≢ [])
        × ((n : ℕ) × (r.max_apk_size_mb ≡ pos n)))
unfolding validate_core
validate_core_iff r = (
  λ h. (
    ground arith,
    positive r.poll_interval (ground arith),
    ground arith,
    not_negative r.max_apk_size_mb (ground arith),
  ),
  λ (host, (n, i), output, (k, z)).
      let (c, t, e) = not_empty r.adb_host (valid_host-ne-nil r.adb_host host) in
      let (d, u, f) = not_empty r.output_dir output in ground arith,
)

api_port_sound :
    (p : ℤ)
    → ((if is_zero p then false else true) && (ltb_ℤ p (pos 1) || ltb_ℤ (pos 65535) p)) ≡ false
    → (p ≡ pos 0) ⊎ InRange p
api_port_sound (pos zero) h = inl refl
api_port_sound (pos (suc n)) h = inr (suc n, refl, omega arith, ground arith)
api_port_sound (negsuc n) h = cc

api_token_sound :
    (s : Text)
    → ((if is_empty s then false else true) && ltb (length s) 32) ≡ false
    → (s ≡ []) ⊎ (32 ≤ length s)
api_token_sound [] h = inl refl
api_token_sound (c ∷ s) h = inr (ground arith)

api_port_complete :
    (p : ℤ)
    → (p ≡ pos 0) ⊎ InRange p
    → ((if is_zero p then false else true) && (ltb_ℤ p (pos 1) || ltb_ℤ (pos 65535) p)) ≡ false
api_port_complete p (inl e) = rw e
api_port_complete p (inr r) = rw (InRange-port p r) (ground arith)

api_token_complete :
    (s : Text)
    → (s ≡ []) ⊎ (32 ≤ length s)
    → ((if is_empty s then false else true) && ltb (length s) 32) ≡ false
api_token_complete [] h = refl
api_token_complete (c ∷ s) (inl e) = cc
api_token_complete (c ∷ s) (inr h) = ground arith

validate_api_iff :
    (p : ℤ) (s : Text)
    → (validate_api p s ≡ none) ↔ (((p ≡ pos 0) ⊎ InRange p) × ((s ≡ []) ⊎ (32 ≤ length s)))
unfolding validate_api
validate_api_iff p s = (
  λ h. (api_port_sound p (ground arith), api_token_sound s (ground arith)),
  λ h. ground (arith, api_port_complete p h.0, api_token_complete s h.1),
)

validate_sound : (r : Raw) → validate r ≡ none → IsValidConfig r
unfolding validate
validate_sound r h =
    let (host, interval, output, size) = (validate_core_iff r).0 (ground arith) in
    let (some_emulator, emulators) = (emulators_iff r.emulators).0 (ground arith) in
    let (port, token) = (validate_api_iff r.api_port r.api_token).0 (ground arith) in
    record {
      host = (valid_host_iff r.adb_host).0 host;
      interval = interval;
      output = output;
      size = size;
      some_emulator = some_emulator;
      emulators = emulators;
      packages = names_sound r.packages (ground arith);
      api_port = port;
      api_token = token;
      certs = certs_sound r.expected_certs (ground arith);
    }

validate_complete : (r : Raw) → IsValidConfig r → validate r ≡ none
unfolding validate
validate_complete r v = ground (
  arith,
  (validate_core_iff r).1 ((valid_host_iff r.adb_host).1 v.host, v.interval, v.output, v.size),
  (emulators_iff r.emulators).1 (v.some_emulator, v.emulators),
  names_complete r.packages v.packages,
  (validate_api_iff r.api_port r.api_token).1 (v.api_port, v.api_token),
  certs_complete r.expected_certs v.certs,
)

-- A configuration is accepted exactly when its host, interval, output directory, size limit,
-- emulators, packages, API port, API token and certificates satisfy the conditions of
-- `IsValidConfig`.
pub validate_iff : (r : Raw) → (validate r ≡ none) ↔ IsValidConfig r
validate_iff r = (validate_sound r, validate_complete r)
