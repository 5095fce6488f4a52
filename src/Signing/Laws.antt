-- ===== src/Signing/Laws.antt =====
-- What a verified signature says of the output of `apksigner`.
use play_apk_distributor.Prelude.{
  ℕ, zero, suc, ◌+◌, ◌≤◌, ◌≡◌, ◌≢◌, inl, inr, refl, ap, sym, ◌∙◌, true, [], ◌∷◌, ◌++◌, Option, none,
  some, arith, All, length, take, length-take, length-append, Option-cases,
}
use play_apk_distributor.Text.{Text, codes}
use play_apk_distributor.Text.Laws.{text_eq_iff}
use play_apk_distributor.Config.Fingerprint.{to_lower}
use play_apk_distributor.Config.Fingerprint.Laws.{IsHex, IsCanonical, is_hex_digit}
use play_apk_distributor.Signing.{
  fold_char, fold_prefix, skip_blanks, take_hex, digest_label, digest_here, find_digest, SignerRun,
  rejected, printed, mismatch, verify_apk_signature, truncate_output,
}

abbrev IsHexText : ℕ → Text → Type 0
IsHexText n d = (length d ≡ n) × All (λ c. is_hex_digit c ≡ true) d

take_hex_sound : (n : ℕ) (s d : Text) → take_hex n s ≡ some d → IsHexText n d
unfolding take_hex
take_hex_sound zero s d h = ground arith
take_hex_sound (suc n) [] d h = cc
take_hex_sound (suc n) (c ∷ s) [] h = absurd (ground arith)
take_hex_sound (suc n) (c ∷ s) (e ∷ d) h =
    let (l, k) = take_hex_sound n s d (ground arith) in (omega arith, (ground arith, k))

digest_here_sound : (s d : Text) → digest_here s ≡ some d → IsHexText 64 d
unfolding digest_here
digest_here_sound s d h = elim (Option-cases (fold_prefix digest_label s)) [
  | inl e ↦ absurd (ground arith)
  | inr (rest, e) ↦ take_hex_sound 64 (skip_blanks rest) d (ground arith)
]

find_digest_sound : (s d : Text) → find_digest s ≡ some d → IsHexText 64 d
unfolding find_digest
find_digest_sound [] d h = digest_here_sound [] d h
find_digest_sound (c ∷ s) d h = elim (Option-cases (digest_here (c ∷ s))) [
  | inl e ↦ find_digest_sound s d (ground arith)
  | inr (x, e) ↦ digest_here_sound (c ∷ s) d (ground arith)
]

lowered-IsHex : (d : Text) → All (λ c. is_hex_digit c ≡ true) d → All IsHex (to_lower d)
unfolding to_lower
lowered-IsHex [] h = tt
lowered-IsHex (c ∷ d) (p, h) = (ground arith, lowered-IsHex d h)

length-to_lower : (d : Text) → length (to_lower d) ≡ length d
unfolding to_lower
length-to_lower [] = refl
length-to_lower (c ∷ d) = omega (arith, length-to_lower d)

-- A signature is accepted only if the tool was found, ended without error and printed a
-- fingerprint which in lowercase is the expected one; so an expected text that is no canonical
-- fingerprint is never accepted.
pub verify_apk_signature_sound :
    (signer : Option Text) (run : SignerRun) (expected : Text)
    → verify_apk_signature signer run expected ≡ none
    → (path : Text) × (out : Text) × (d : Text) × (signer ≡ some path)
      × (run ≡ printed out)
      × (find_digest out ≡ some d)
      × (to_lower d ≡ expected)
      × IsCanonical expected
unfolding verify_apk_signature
verify_apk_signature_sound none run expected h = cc
verify_apk_signature_sound (some path) rejected expected h = cc
verify_apk_signature_sound (some path) (printed out) expected h =
    elim (Option-cases (find_digest out)) [
      | inl e ↦ absurd (ground arith)
      | inr (d, e) ↦
          let same : to_lower d ≡ expected = ground (arith, text_eq_iff (to_lower d) expected) in
          let (n, hex) = find_digest_sound out d e in
          (
            path,
            out,
            d,
            refl,
            refl,
            e,
            same,
            rw (← same) (length-to_lower d ∙ n, lowered-IsHex d hex),
          )
    ]

-- A fingerprint that differs from the expected one is a mismatch, whatever else is printed.
pub verify_apk_signature_mismatch :
    (path out d expected : Text)
    → find_digest out ≡ some d
    → to_lower d ≢ expected
    → verify_apk_signature (some path) (printed out) expected ≡ some mismatch
unfolding verify_apk_signature
verify_apk_signature_mismatch path out d expected e h =
    ground (arith, text_eq_iff (to_lower d) expected)

skip_blanks-hex : (c : ℕ) (s : Text) → is_hex_digit c ≡ true → skip_blanks (32 ∷ c ∷ s) ≡ c ∷ s
unfolding skip_blanks
skip_blanks-hex c s h = ground arith

take_hex-append :
    (d rest : Text) → All (λ c. is_hex_digit c ≡ true) d → take_hex (length d) (d ++ rest) ≡ some d
unfolding take_hex
take_hex-append [] rest h = refl
take_hex-append (c ∷ d) rest (p, h) = ground (arith, take_hex-append d rest h)

fold_char_same : (p : ℕ) (s : Text) → fold_char p (p ∷ s) ≡ some s
unfolding fold_char
fold_char_same p [] = ground arith
fold_char_same p (d ∷ s) = ground arith

fold_prefix-append : (p s : Text) → fold_prefix p (p ++ s) ≡ some s
unfolding fold_prefix
fold_prefix-append [] s = refl
fold_prefix-append (c ∷ p) s = ground (arith, fold_char_same c (p ++ s), fold_prefix-append p s)

digest_of :
    (s rest d : Text)
    → fold_prefix digest_label s ≡ some rest
    → take_hex 64 (skip_blanks rest) ≡ some d
    → digest_here s ≡ some d
unfolding digest_here
digest_of s rest d h k = ground arith

digest_here-line :
    (c : ℕ) (d rest : Text)
    → length (c ∷ d) ≡ 64
    → All (λ x. is_hex_digit x ≡ true) (c ∷ d)
    → digest_here (digest_label ++ 32 ∷ ((c ∷ d) ++ rest)) ≡ some (c ∷ d)
digest_here-line c d rest n (p, h) =
    let all : take_hex 64 ((c ∷ d) ++ rest) ≡ some (c ∷ d) =
      ap (λ k. take_hex k ((c ∷ d) ++ rest)) (sym n) ∙ take_hex-append (c ∷ d) rest (p, h) in
    digest_of (digest_label ++ 32 ∷ ((c ∷ d) ++ rest)) (32 ∷ ((c ∷ d) ++ rest)) (c ∷ d)
      (fold_prefix-append digest_label (32 ∷ ((c ∷ d) ++ rest)))
      (rw (skip_blanks-hex c (d ++ rest) p) all)

found_here : (c : ℕ) (s d : Text) → digest_here (c ∷ s) ≡ some d → find_digest (c ∷ s) ≡ some d
unfolding find_digest
found_here c s d h = ground arith

verified :
    (path out d : Text)
    → find_digest out ≡ some d
    → verify_apk_signature (some path) (printed out) (to_lower d) ≡ none
unfolding verify_apk_signature
verified path out d e = ground (arith, text_eq_iff (to_lower d) (to_lower d))

-- If `apksigner` is found and its output begins with the line of the first signer with 64
-- hexadecimal digits of either case, the signature is accepted when those digits in lowercase are
-- expected.
pub verify_apk_signature_accepts :
    (path d rest : Text)
    → length d ≡ 64
    → All (λ x. is_hex_digit x ≡ true) d
    → verify_apk_signature (some path) (printed (digest_label ++ 32 ∷ (d ++ rest))) (to_lower d)
      ≡ none
verify_apk_signature_accepts path [] rest n h = absurd (omega arith)
verify_apk_signature_accepts path (c ∷ d) rest n h =
    verified path (digest_label ++ 32 ∷ ((c ∷ d) ++ rest)) (c ∷ d)
      (found_here b'S' _ (c ∷ d) (digest_here-line c d rest n h))

-- An output in an error message has at most 14 bytes more than the limit, and is whole up to it.
pub truncate_output_bound :
    (s : Text) (max_len : ℕ)
    → (length (truncate_output s max_len) ≤ max_len + 14)
      × (length s ≤ max_len → truncate_output s max_len ≡ s)
unfolding truncate_output
truncate_output_bound s max_len =
    let marked = length-append (take max_len s) (codes "...[truncated]") in
    (ground (arith, marked, length-take max_len s), λ h. ground arith)
