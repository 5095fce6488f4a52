-- ===== src/Extractor/Filename/Laws.antt =====
-- What `safeFilename` tests a name for, and the parts of a path.
use play_apk_distributor.Prelude.{
  ℕ, ◌≡◌, ◌≢◌, ◌↔◌, inl, inr, refl, ap, sym, ◌∙◌, true, false, List, [], ◌∷◌, ◌++◌, arith, All,
  Bool-cases, Option-cases, ◌==◌,
}
use play_apk_distributor.Text.{Text, codes, split, has_suffix, cut_suffix, text_eq, is_some}
use play_apk_distributor.Text.Split.{first_part, more_parts, split-parts}
use play_apk_distributor.Text.Laws.{text_eq_iff, cut_suffix_sound}
use play_apk_distributor.Extractor.Filename.{
  strip_slashes, last_part, base, is_safe_byte, all_safe, is_hidden, named, check_name,
}

-- only letters, digits, underscores, dashes and dots; so no slash
abbrev pub IsSafe : Text → Type 0
IsSafe = All (λ c. is_safe_byte c ≡ true)

pub record IsApkName (name : Text) : Type 0 where
  pub stem : Text
  pub extension : name ≡ stem ++ codes ".apk"
  pub safe : IsSafe name
  pub visible : is_hidden name ≡ false

pub all_safe_iff : (s : Text) → (all_safe s ≡ true) ↔ IsSafe s
unfolding all_safe
all_safe_iff [] = (λ h. tt, λ h. refl)
all_safe_iff (c ∷ s) =
    (λ h. ground (arith, all_safe_iff s), λ h. ground (arith, (all_safe_iff s).1 h.1))

has_suffix_sound : (s p : Text) → has_suffix s p ≡ true → (r : Text) × (s ≡ r ++ p)
unfolding has_suffix
has_suffix_sound s p h = elim (Option-cases (cut_suffix s p)) [
  | inl e ↦ absurd (ground arith)
  | inr (r, e) ↦ (r, cut_suffix_sound s p r e)
]

cut_suffix_found : (r p : Text) → is_some (cut_suffix (r ++ p) p) ≡ true
unfolding cut_suffix text_eq
cut_suffix_found [] [] = refl
cut_suffix_found [] (c ∷ p) = ground (arith, text_eq_iff (c ∷ p) (c ∷ p))
cut_suffix_found (c ∷ r) p = elim (Bool-cases (text_eq (c ∷ (r ++ p)) p)) [
  | inl e ↦ rw e
  | inr e ↦ rw e (ground (arith, cut_suffix_found r p))
]

has_suffix-append : (r p : Text) → has_suffix (r ++ p) p ≡ true
unfolding has_suffix
has_suffix-append r p = cut_suffix_found r p

pub check_name_sound : (name n : Text) → check_name name ≡ named n → (name ≡ n) × IsApkName n
unfolding check_name
check_name_sound name n h =
    let same : name ≡ n = ground arith in
    let (stem, e) = has_suffix_sound name (codes ".apk") (ground arith) in
    (
      same,
      record {
        stem = stem;
        extension = sym same ∙ e;
        safe = rw (← same) ((all_safe_iff name).0 (ground arith));
        visible = rw (← same) (ground arith);
      },
    )

pub check_name_complete : (n : Text) → IsApkName n → check_name n ≡ named n
unfolding check_name
check_name_complete n a =
    let suffix : has_suffix n (codes ".apk") ≡ true =
      rw a.extension (has_suffix-append a.stem (codes ".apk")) in
    ground (arith, suffix, (all_safe_iff n).1 a.safe)

-- no slash within the name
pub split-safe : (s : Text) → IsSafe s → split b'/' s ≡ s ∷ []
unfolding split
split-safe [] h = refl
split-safe (c ∷ s) (p, h) = ground (arith, split-safe s h)

strip_slashes-cons :
    (c : ℕ) (s : Text) → strip_slashes s ≢ [] → strip_slashes (c ∷ s) ≡ c ∷ strip_slashes s
unfolding strip_slashes
strip_slashes-cons c s h = ground arith

pub strip_slashes-safe : (s : Text) → IsSafe s → strip_slashes s ≡ s
unfolding strip_slashes
strip_slashes-safe [] h = refl
strip_slashes-safe (c ∷ s) (p, h) = ground (arith, strip_slashes-safe s h)

strip_slashes-append :
    (dir n : Text) → strip_slashes n ≡ n → n ≢ [] → strip_slashes (dir ++ n) ≡ dir ++ n
strip_slashes-append [] n h k = h
strip_slashes-append (c ∷ dir) n h k =
    let ih = strip_slashes-append dir n h k in
    strip_slashes-cons c (dir ++ n) (λ e. append-ne-nil dir n k (sym ih ∙ e)) ∙ ap (◌∷◌ c) ih
  where
    append-ne-nil : (xs ys : Text) → ys ≢ [] → xs ++ ys ≢ []
    append-ne-nil [] ys k = k
    append-ne-nil (x ∷ xs) ys k = cc

more_parts-safe : (n : Text) → IsSafe n → (first_part b'/' n ≡ n) × (more_parts b'/' n ≡ [])
more_parts-safe n h = let e = sym (split-parts b'/' n) ∙ split-safe n h in (cc, cc)

-- the last part of a path behind a directory
last_more :
    (dir n : Text)
    → IsSafe n
    → (p : Text) × (ps : List Text) × (more_parts b'/' (dir ++ b'/' ∷ n) ≡ p ∷ ps)
      × (last_part (p ∷ ps) ≡ n)
unfolding more_parts last_part
last_more [] n h = let (e, f) = more_parts-safe n h in (n, [], ground arith, refl)
last_more (c ∷ dir) n h =
    let (p, ps, e, f) = last_more dir n h in
    elim (Bool-cases (c == b'/')) [
      | inl slash ↦ (first_part b'/' (dir ++ b'/' ∷ n), p ∷ ps, ground arith, f)
      | inr other ↦ (p, ps, ground arith, f)
    ]

pub base_of :
    (path t n : Text)
    → path ≢ []
    → strip_slashes path ≡ t
    → last_part (split b'/' t) ≡ n
    → n ≢ []
    → base path ≡ n
unfolding base
base_of [] t n g h k m = absurd (g refl)
base_of (c ∷ s) t [] g h k m = absurd (m refl)
base_of (c ∷ s) t (d ∷ n) g h k m = ground arith

strip_behind : (n : Text) → IsSafe n → n ≢ [] → strip_slashes (b'/' ∷ n) ≡ b'/' ∷ n
strip_behind n h k =
    let e = strip_slashes-safe n h in
    strip_slashes-cons b'/' n (λ f. k (sym e ∙ f)) ∙ ap (◌∷◌ b'/') e

pub apk-ne-nil : (n : Text) → IsApkName n → n ≢ []
apk-ne-nil [] a h = let v = a.visible in cc
apk-ne-nil (c ∷ n) a h = cc

-- a directory and such a name: nothing is stripped, and the name is the last part
pub join-strip : (dir n : Text) → IsApkName n → strip_slashes (dir ++ b'/' ∷ n) ≡ dir ++ b'/' ∷ n
join-strip dir n a =
    strip_slashes-append dir (b'/' ∷ n) (strip_behind n a.safe (apk-ne-nil n a)) (cc)

pub join-last : (dir n : Text) → IsApkName n → last_part (split b'/' (dir ++ b'/' ∷ n)) ≡ n
unfolding last_part
join-last dir n a =
    let (p, ps, e, f) = last_more dir n a.safe in
    ap last_part
      (split-parts b'/' (dir ++ b'/' ∷ n) ∙ ap (◌∷◌ (first_part b'/' (dir ++ b'/' ∷ n))) e)
    ∙ f
