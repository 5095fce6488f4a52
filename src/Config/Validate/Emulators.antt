-- ===== src/Config/Validate/Emulators.antt =====
-- When the list of the emulators is accepted.
use play_apk_distributor.Prelude.{
  ℕ, suc, ap, ◌≤◌, ◌≡◌, ◌≢◌, ◌↔◌, ◌⊎◌, inl, inr, refl, true, false, ◌||◌, List, [], ◌∷◌, none,
  arith, All, Bool-cases,
}
use play_apk_distributor.Prelude.Int.{ℤ, pos, negsuc, ltb_ℤ, eqb_ℤ, eqb_iff_ℤ, eqb-refl_ℤ}
use play_apk_distributor.Text.{Text, codes}
use play_apk_distributor.Text.Laws.{text_eq_iff}
use play_apk_distributor.NameSet.{has}
use play_apk_distributor.Config.Validate.{
  Emulator, seen_port, known_abis, check_emulators, validate_emulators,
}

abbrev pub InRange : ℤ → Type 0
InRange p = (n : ℕ) × (p ≡ pos n) × (1 ≤ n) × (n ≤ 65535)

-- the four ABIs of Android
abbrev pub IsKnownAbi : Text → Type 0
IsKnownAbi abi =
    (abi ≡ codes "arm64-v8a")
    ⊎ (abi ≡ codes "armeabi-v7a")
    ⊎ (abi ≡ codes "x86_64")
    ⊎ (abi ≡ codes "x86")

-- the emulators behind those whose ports are `seen`: each port in range and no port twice
abbrev pub EmulatorsOk : List ℤ → List Emulator → Type 0
EmulatorsOk seen [] = Unit
EmulatorsOk seen (e ∷ es) =
    InRange e.port × All (λ q. e.port ≢ q) seen × IsKnownAbi e.abi × EmulatorsOk (e.port ∷ seen) es

seen_port_iff : (p : ℤ) (seen : List ℤ) → (seen_port p seen ≡ false) ↔ All (λ q. p ≢ q) seen
unfolding seen_port
seen_port_iff p [] = (λ h. tt, λ h. refl)
seen_port_iff p (q ∷ seen) = (
  λ h. (λ e. differs e (ground arith), (seen_port_iff p seen).0 (ground arith)),
  λ (n, h). ground (arith, apart n, (seen_port_iff p seen).1 h),
)
  where
    differs : p ≡ q → eqb_ℤ p q ≡ false → ⊥
    differs e f = cc (eqb-refl_ℤ p, ap (eqb_ℤ p) e, f)

    apart : (p ≢ q) → eqb_ℤ p q ≡ false
    apart n = elim (Bool-cases (eqb_ℤ p q)) [ inl t ↦ absurd (n (eqb_iff_ℤ p q t)) | inr f ↦ f ]

known_abis_iff : (abi : Text) → (has abi known_abis ≡ true) ↔ IsKnownAbi abi
unfolding has known_abis
known_abis_iff abi =
    let a = text_eq_iff abi (codes "arm64-v8a") in
    let b = text_eq_iff abi (codes "armeabi-v7a") in
    let c = text_eq_iff abi (codes "x86_64") in
    let d = text_eq_iff abi (codes "x86") in
    (λ h. ground (arith, a, b, c, d), λ h. ground (arith, a, b, c, d))

pub port-InRange : (p : ℤ) → (ltb_ℤ p (pos 1) || ltb_ℤ (pos 65535) p) ≡ false → InRange p
port-InRange (pos n) h = (n, refl, ground arith, ground arith)
port-InRange (negsuc n) h = cc

pub InRange-port : (p : ℤ) → InRange p → (ltb_ℤ p (pos 1) || ltb_ℤ (pos 65535) p) ≡ false
InRange-port p (n, e, a, b) = rw e (ground arith)

check_emulators_sound :
    (i : ℕ) (seen : List ℤ) (es : List Emulator)
    → check_emulators i seen es ≡ none
    → EmulatorsOk seen es
unfolding check_emulators
check_emulators_sound i seen [] h = tt
check_emulators_sound i seen (e ∷ es) h = (
  port-InRange e.port (ground arith),
  (seen_port_iff e.port seen).0 (ground arith),
  (known_abis_iff e.abi).0 (ground arith),
  check_emulators_sound (suc i) (e.port ∷ seen) es (ground arith),
)

check_emulators_complete :
    (i : ℕ) (seen : List ℤ) (es : List Emulator)
    → EmulatorsOk seen es
    → check_emulators i seen es ≡ none
unfolding check_emulators
check_emulators_complete i seen [] h = refl
check_emulators_complete i seen (e ∷ es) (p, s, a, h) = ground (
  arith,
  InRange-port e.port p,
  (seen_port_iff e.port seen).1 s,
  (known_abis_iff e.abi).1 a,
  check_emulators_complete (suc i) (e.port ∷ seen) es h,
)

pub emulators_iff :
    (es : List Emulator) → (validate_emulators es ≡ none) ↔ ((es ≢ []) × EmulatorsOk [] es)
unfolding validate_emulators
emulators_iff [] = (λ h. cc, λ h. absurd (h.0 refl))
emulators_iff (e ∷ es) = (
  λ h. ((λ k. cc), check_emulators_sound 0 [] (e ∷ es) h),
  λ h. check_emulators_complete 0 [] (e ∷ es) h.1,
)
