-- ===== src/Extractor/Filename/Accepted.antt =====
-- The paths that `safeFilename` accepts, described by their text alone.
use play_apk_distributor.Prelude.{
  ℕ, ◌≡◌, ◌≢◌, ◌≤◌, ◌↔◌, ◌⊎◌, inl, inr, refl, ap, sym, ◌∙◌, true, false, [], ◌∷◌, ◌++◌, arith, All,
  Bool-cases, ◌==◌,
}
use mathlib.Core.List.{append_assoc}
use play_apk_distributor.Text.{is_lower, is_upper, is_digit, Text, codes, split}
use play_apk_distributor.Extractor.Filename.{
  strip_slashes, last_part, base, is_safe_byte, is_hidden, named, check_name, safe_filename,
}
use play_apk_distributor.Extractor.Filename.Laws.{
  IsSafe, IsApkName, check_name_sound, check_name_complete, split-safe, strip_slashes-safe,
  apk-ne-nil, base_of, join-strip, join-last,
}
use play_apk_distributor.Extractor.Filename.Parts.{
  slashes, strip_slashes-split, strip_slashes-slashes, last_part-one, last_of,
}

-- a-z, A-Z, 0-9, the underscore, the dash and the dot, by their codes
abbrev pub IsNameByte : ℕ → Type 0
IsNameByte c =
    ((97 ≤ c) × (c ≤ 122))
    ⊎ ((65 ≤ c) × (c ≤ 90))
    ⊎ ((48 ≤ c) × (c ≤ 57))
    ⊎ (c ≡ 95)
    ⊎ (c ≡ 45)
    ⊎ (c ≡ 46)

-- some text and ".apk", of such bytes, the first of which is no dot
pub record IsApkFile (name : Text) : Type 0 where
  pub stem : Text
  pub extension : name ≡ stem ++ codes ".apk"
  pub bytes : All IsNameByte name
  pub visible : (rest : Text) → name ≢ 46 ∷ rest

-- the name stands at the end of the path, alone or behind a slash, with any slashes behind it
abbrev pub IsLastOf : Text → Text → Type 0
IsLastOf name path =
    (k : ℕ) × ((path ≡ name ++ slashes k)
      ⊎ ((dir : Text) × (path ≡ dir ++ 47 ∷ (name ++ slashes k))))

is_safe_byte_sound : (c : ℕ) → is_safe_byte c ≡ true → IsNameByte c
is_safe_byte_sound c h = elim (Bool-cases (is_lower c)) [
  | inl a ↦ inl (ground arith)
  | inr x ↦ elim (Bool-cases (is_upper c)) [
    | inl a ↦ inr (inl (ground arith))
    | inr y ↦ elim (Bool-cases (is_digit c)) [
      | inl a ↦ inr (inr (inl (ground arith)))
      | inr z ↦ elim (Bool-cases (c == b'_')) [
        | inl a ↦ inr (inr (inr (inl (ground arith))))
        | inr u ↦ elim (Bool-cases (c == b'-')) [
          | inl a ↦ inr (inr (inr (inr (inl (ground arith)))))
          | inr v ↦ inr (inr (inr (inr (inr (ground arith)))))
        ]
      ]
    ]
  ]
]

IsNameByte-iff : (c : ℕ) → (is_safe_byte c ≡ true) ↔ IsNameByte c
IsNameByte-iff c = (is_safe_byte_sound c, λ h. ground arith)

IsSafe-iff : (s : Text) → IsSafe s ↔ All IsNameByte s
IsSafe-iff [] = (λ h. tt, λ h. tt)
IsSafe-iff (c ∷ s) = (
  λ h. ((IsNameByte-iff c).0 h.0, (IsSafe-iff s).0 h.1),
  λ h. ((IsNameByte-iff c).1 h.0, (IsSafe-iff s).1 h.1),
)

IsApkName-IsApkFile : (n : Text) → IsApkName n → IsApkFile n
IsApkName-IsApkFile n a = record {
  stem = a.stem;
  extension = a.extension;
  bytes = (IsSafe-iff n).0 a.safe;
  visible = λ rest e. let v = a.visible in let dot : is_hidden n ≡ true = rw e refl in ground arith;
}

shown : (n : Text) → ((rest : Text) → n ≢ 46 ∷ rest) → n ≢ [] → is_hidden n ≡ false
shown [] h k = absurd (k refl)
shown (c ∷ s) h k = elim (Bool-cases (c == 46)) [
  | inl dot ↦ let e : c ≡ 46 = ground arith in absurd (h s (ap (λ (x : ℕ). x ∷ s) e))
  | inr other ↦ other
]

not_nil : (stem : Text) → [] ≢ stem ++ codes ".apk"
not_nil [] e = cc
not_nil (c ∷ stem) e = cc

IsApkFile-IsApkName : (n : Text) → IsApkFile n → IsApkName n
IsApkFile-IsApkName n a = record {
  stem = a.stem;
  extension = a.extension;
  safe = (IsSafe-iff n).1 a.bytes;
  visible = shown n a.visible (λ e. not_nil a.stem (sym e ∙ a.extension));
}

slash_unsafe : (n : Text) → n ≡ codes "/" → ¬ IsSafe n
slash_unsafe [] h safe = cc
slash_unsafe (c ∷ n) h (p, q) = let e : c ≡ 47 = cc in ground arith

dot_hidden : (n : Text) → n ≡ codes "." → is_hidden n ≢ false
dot_hidden [] h v = cc
dot_hidden (c ∷ n) h v = let e : c ≡ 46 = cc in ground arith

-- what is behind the slashes that are dropped
base_inv :
    (path n : Text) → IsApkName n → base path ≡ n → last_part (split b'/' (strip_slashes path)) ≡ n
unfolding base
base_inv [] n a h = let v = a.visible in absurd (dot_hidden n (sym h) v)
base_inv (c ∷ s) n a h = go (last_part (split b'/' (strip_slashes (c ∷ s)))) n a.safe h
  where
    go :
        (q n : Text)
        → IsSafe n
        → (elim q as (λ x. Text) [ [] ↦ codes "/" | d ∷ t ↦ d ∷ t ]) ≡ n
        → q ≡ n
    go [] n safe h = absurd (slash_unsafe n (sym h) safe)
    go (d ∷ t) n safe h = h

append-ne-nil : (xs ys : Text) → xs ≢ [] → xs ++ ys ≢ []
append-ne-nil [] ys h = absurd (h refl)
append-ne-nil (x ∷ xs) ys h = cc

behind-ne-nil : (dir n : Text) → dir ++ 47 ∷ n ≢ []
behind-ne-nil [] n = cc
behind-ne-nil (c ∷ dir) n = cc

base-IsLastOf : (path n : Text) → IsApkName n → base path ≡ n → IsLastOf n path
base-IsLastOf path n a h =
    let l = base_inv path n a h in
    let (k, e) = strip_slashes-split path in
    elim (last_of (strip_slashes path)) [
      | inl f ↦ (k, inl (e ∙ ap (λ x. x ++ slashes k) (f ∙ l)))
      | inr (dir, f) ↦ (
        k,
        inr (
          dir,
          e
              ∙ ap (λ x. x ++ slashes k) (f ∙ ap (λ x. dir ++ 47 ∷ x) l)
              ∙ append_assoc dir (47 ∷ n) (slashes k),
        ),
      )
    ]

IsLastOf-base : (path n : Text) → IsApkName n → IsLastOf n path → base path ≡ n
IsLastOf-base path n a (k, inl e) =
    base_of path n n (λ z. append-ne-nil n (slashes k) (apk-ne-nil n a) (sym e ∙ z))
      (ap strip_slashes e ∙ strip_slashes-slashes n k ∙ strip_slashes-safe n a.safe)
      (ap last_part (split-safe n a.safe) ∙ last_part-one n) (apk-ne-nil n a)
IsLastOf-base path n a (k, inr (dir, e)) =
    base_of path (dir ++ b'/' ∷ n) n (λ z. behind-ne-nil dir (n ++ slashes k) (sym e ∙ z))
      (ap strip_slashes (e ∙ sym (append_assoc dir (47 ∷ n) (slashes k)))
        ∙ strip_slashes-slashes (dir ++ 47 ∷ n) k
        ∙ join-strip dir n a)
      (join-last dir n a) (apk-ne-nil n a)

-- A path is accepted under a name exactly when the name stands at its end, alone or behind a
-- slash, with any number of slashes behind it, and consists of some text and .apk, has ASCII
-- letters, digits, underscores, dashes and dots alone, and does not begin with a dot.
pub safe_filename_iff :
    (path n : Text) → (safe_filename path ≡ named n) ↔ (IsApkFile n × IsLastOf n path)
unfolding safe_filename
safe_filename_iff path n = (
  λ h.
      let (same, a) = check_name_sound (base path) n h in
      (IsApkName-IsApkFile n a, base-IsLastOf path n a same),
  λ h.
      let a = IsApkFile-IsApkName n h.0 in
      ap check_name (IsLastOf-base path n a h.1) ∙ check_name_complete n a,
)
