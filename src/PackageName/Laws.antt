-- ===== src/PackageName/Laws.antt =====
-- What the scan accepts: two or more identifiers between dots.
use play_apk_distributor.Prelude.{
  ◌≤◌, ◌≡◌, ◌↔◌, refl, Bool, true, false, List, [], ◌∷◌, arith, ◌==◌, length, All, Bool-cases, inl,
  inr,
}
use play_apk_distributor.Text.{Text, split}
use play_apk_distributor.Text.Split.{first_part, more_parts, split-parts}
use play_apk_distributor.PackageName.{is_letter, is_word, scan_name, valid_package_name}

abbrev pub IsWord : Text → Type 0
IsWord = All (λ c. is_word c ≡ true)

-- a letter, then letters, digits and underscores
abbrev pub IsIdentifier : Text → Type 0
IsIdentifier [] = ⊥
IsIdentifier (c ∷ s) = (is_letter c ≡ true) × IsWord s

-- what the rest of the identifier that the scan stands in must be
abbrev First : Bool → Text → Type 0
First true = IsWord
First false = IsIdentifier

-- the dots that the rest must still have
abbrev Dotted : Bool → List Text → Type 0
Dotted true ps = Unit
Dotted false ps = 1 ≤ length ps

abbrev PartsOk : Bool → Bool → Text → Type 0
PartsOk begun dotted s =
    First begun (first_part b'.' s)
    × All IsIdentifier (more_parts b'.' s)
    × Dotted dotted (more_parts b'.' s)

scan_name_sound :
    (begun dotted : Bool) (s : Text) → scan_name begun dotted s ≡ true → PartsOk begun dotted s
unfolding scan_name first_part more_parts
scan_name_sound false dotted [] h = cc
scan_name_sound true false [] h = cc
scan_name_sound true true [] h = (tt, tt, tt)
scan_name_sound false false (c ∷ s) h = ground (arith, scan_name_sound true false s)
scan_name_sound false true (c ∷ s) h = ground (arith, scan_name_sound true true s)
scan_name_sound true false (c ∷ s) h = elim (Bool-cases (c == b'.')) [
  | inl dot ↦ rw dot (ground (arith, scan_name_sound false true s))
  | inr other ↦ rw other (ground (arith, scan_name_sound true false s))
]
scan_name_sound true true (c ∷ s) h = elim (Bool-cases (c == b'.')) [
  | inl dot ↦ rw dot (ground (arith, scan_name_sound false true s))
  | inr other ↦ rw other (ground (arith, scan_name_sound true true s))
]

scan_name_complete :
    (begun dotted : Bool) (s : Text) → PartsOk begun dotted s → scan_name begun dotted s ≡ true
unfolding scan_name first_part more_parts
scan_name_complete false dotted [] h = elim h.0 [ ]
scan_name_complete true false [] h = absurd (omega arith)
scan_name_complete true true [] h = refl
scan_name_complete false false (c ∷ s) h = elim (Bool-cases (c == b'.')) [
  | inl dot ↦ absurd (rw dot at h).0
  | inr other ↦
      let k = rw other at h in ground (arith, scan_name_complete true false s (k.0.1, k.1, k.2))
]
scan_name_complete false true (c ∷ s) h = elim (Bool-cases (c == b'.')) [
  | inl dot ↦ absurd (rw dot at h).0
  | inr other ↦
      let k = rw other at h in ground (arith, scan_name_complete true true s (k.0.1, k.1, k.2))
]
scan_name_complete true false (c ∷ s) h = elim (Bool-cases (c == b'.')) [
  | inl dot ↦ rw dot (let k = rw dot at h in scan_name_complete false true s (k.1.0, k.1.1, tt))
  | inr other ↦
      rw other
        (let k = rw other at h in ground (arith, scan_name_complete true false s (k.0.1, k.1, k.2)))
]
scan_name_complete true true (c ∷ s) h = elim (Bool-cases (c == b'.')) [
  | inl dot ↦ rw dot (let k = rw dot at h in scan_name_complete false true s (k.1.0, k.1.1, tt))
  | inr other ↦
      rw other
        (let k = rw other at h in ground (arith, scan_name_complete true true s (k.0.1, k.1, k.2)))
]

-- A package name is valid exactly when the parts between its dots are identifiers and there are
-- at least two of them.
pub valid_package_name_iff :
    (name : Text)
    → (valid_package_name name ≡ true)
      ↔ (All IsIdentifier (split b'.' name) × (2 ≤ length (split b'.' name)))
unfolding valid_package_name
valid_package_name_iff name = rw split-parts (
    (
      λ h. let k = scan_name_sound false false name h in ((k.0, k.1), omega arith),
      λ h. scan_name_complete false false name (h.0.0, h.0.1, omega arith),
    ))
