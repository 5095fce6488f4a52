-- ===== src/Adb/Version/Steps.antt =====
-- What `parseVersionInfo` does at each kind of line of a listing.
use play_apk_distributor.Prelude.{
  ℕ, suc, ◌<◌, ◌^◌, ◌≡◌, ◌≢◌, refl, ap, ◌∙◌, Bool, true, false, List, [], ◌∷◌, ◌++◌, All, none,
  some, arith, ltb, length, take, if◌then◌else◌,
}
use play_apk_distributor.Prelude.Int.{ℤ, pos}
use mathlib.Core.Path.{subst}
use play_apk_distributor.Text.{Text, codes, cut_prefix, has_prefix}
use play_apk_distributor.Text.Laws.{cut_prefix-append}
use play_apk_distributor.Space.{trim_space, first_field}
use play_apk_distributor.Space.Laws.{IsVisible, first_field-visible}
use play_apk_distributor.Decimal.{itoa, itoa_ℕ, atoi}
use play_apk_distributor.Decimal.RoundTrip.{IsDigits, atoi-itoa, itoa_ℕ-IsDigits, itoa_ℕ-ne-nil}
use play_apk_distributor.Adb.Version.{
  VersionInfo, Outcome, info, index_panic, value, wrong, header, no_info, read_code_field,
  read_code, cap_name, read_name, is_complete, finish, scan_info,
}

-- the line begins the block of the package
abbrev pub IsHeader : Text → Text → Type 0
IsHeader pkg l = has_prefix (trim_space l) (header pkg) ≡ true

-- the line is no beginning of the block, and names no version
abbrev pub IsOther : Text → Text → Type 0
IsOther pkg l =
    (has_prefix (trim_space l) (header pkg) ≡ false)
    × (cut_prefix (trim_space l) (codes "versionCode=") ≡ none)
    × (cut_prefix (trim_space l) (codes "versionName=") ≡ none)

abbrev pub code_line : ℕ → Text → Text
code_line n rest = codes "versionCode=" ++ itoa_ℕ n ++ 32 ∷ rest

abbrev pub name_line : Text → Text
name_line name = codes "versionName=" ++ name

digits-IsVisible : (s : Text) → IsDigits s → All IsVisible s
digits-IsVisible [] h = tt
digits-IsVisible (c ∷ s) (d, h) = (ground arith, digits-IsVisible s h)

field_read :
    (rest f : Text) (z : ℤ) (i : VersionInfo)
    → first_field rest ≡ some f
    → atoi f ≡ some z
    → read_code_field rest i ≡ value (record i { code = z })
unfolding read_code_field
field_read rest f z i h k = ground arith

read_code_line :
    (n : ℕ) (rest : Text) (i : VersionInfo)
    → n < 2 ^ 63
    → read_code_field (itoa_ℕ n ++ 32 ∷ rest) i ≡ value (record i { code = pos n })
read_code_line n rest i h = go (itoa_ℕ n) refl
  where
    number : atoi (itoa_ℕ n) ≡ some (pos n)
    number = unfold itoa in atoi-itoa (pos n) h

    go :
        (s : Text)
        → itoa_ℕ n ≡ s
        → read_code_field (itoa_ℕ n ++ 32 ∷ rest) i ≡ value (record i { code = pos n })
    go [] e = absurd (itoa_ℕ-ne-nil n e)
    go (c ∷ s) e =
        let field : first_field (itoa_ℕ n ++ 32 ∷ rest) ≡ some (itoa_ℕ n) = rw e (
          first_field-visible c s rest
            (digits-IsVisible (c ∷ s) (subst IsDigits e (itoa_ℕ-IsDigits n)))) in
        field_read (itoa_ℕ n ++ 32 ∷ rest) (itoa_ℕ n) (pos n) i field number

-- lines before the block change nothing
pub skip_before :
    (pkg : Text) (pre ls : List Text) (i : VersionInfo)
    → All (λ l. has_prefix (trim_space l) (header pkg) ≡ false) pre
    → scan_info pkg (pre ++ ls) false i ≡ scan_info pkg ls false i
unfolding scan_info
skip_before pkg [] ls i h = refl
skip_before pkg (l ∷ pre) ls i (p, h) = rw p (skip_before pkg pre ls i h)

pub enter :
    (pkg l : Text) (ls : List Text) (in_pkg : Bool) (i : VersionInfo)
    → IsHeader pkg l
    → scan_info pkg (l ∷ ls) in_pkg i ≡ scan_info pkg ls true i
unfolding scan_info
enter pkg l ls in_pkg i h = rw h

inside_step :
    (pkg l : Text) (ls : List Text) (i j k : VersionInfo)
    → has_prefix (trim_space l) (header pkg) ≡ false
    → read_code (trim_space l) i ≡ value j
    → read_name (trim_space l) j ≡ k
    → scan_info pkg (l ∷ ls) true i ≡ (if is_complete k then finish k else scan_info pkg ls true k)
unfolding scan_info
inside_step pkg l ls i j k a b c = ground arith

read_code-none :
    (line : Text) (i : VersionInfo)
    → cut_prefix line (codes "versionCode=") ≡ none
    → read_code line i ≡ value i
unfolding read_code
read_code-none line i h = ground arith

read_name-none :
    (line : Text) (i : VersionInfo)
    → cut_prefix line (codes "versionName=") ≡ none
    → read_name line i ≡ i
unfolding read_name
read_name-none line i h = ground arith

read_code-some :
    (line rest : Text) (i : VersionInfo)
    → cut_prefix line (codes "versionCode=") ≡ some rest
    → read_code line i ≡ read_code_field rest i
unfolding read_code
read_code-some line rest i h = ground arith

read_name-some :
    (line rest : Text) (i : VersionInfo)
    → cut_prefix line (codes "versionName=") ≡ some rest
    → read_name line i ≡ record i { name = cap_name rest }
unfolding read_name
read_name-some line rest i h = ground arith

-- the three beginnings exclude one another
no_header : (pkg line rest : Text) → has_prefix (b'v' ∷ rest) (header pkg) ≡ false
unfolding has_prefix cut_prefix
no_header pkg line rest = refl

code_line-no-name :
    (rest : Text) → cut_prefix (codes "versionCode=" ++ rest) (codes "versionName=") ≡ none
unfolding cut_prefix
code_line-no-name rest = refl

name_line-no-code :
    (rest : Text) → cut_prefix (codes "versionName=" ++ rest) (codes "versionCode=") ≡ none
unfolding cut_prefix
name_line-no-code rest = refl

-- lines of the block that name no version change nothing, as long as the information is not complete
pub skip_inside :
    (pkg : Text) (mid ls : List Text) (i : VersionInfo)
    → All (IsOther pkg) mid
    → is_complete i ≡ false
    → scan_info pkg (mid ++ ls) true i ≡ scan_info pkg ls true i
skip_inside pkg [] ls i h k = refl
skip_inside pkg (l ∷ mid) ls i ((a, b, c), h) k =
    inside_step pkg l (mid ++ ls) i i i a (read_code-none (trim_space l) i b)
      (read_name-none (trim_space l) i c)
    ∙ rw k (skip_inside pkg mid ls i h k)

pub incomplete : (z : ℤ) → is_complete (record { code = z; name = [] }) ≡ false
unfolding is_complete
incomplete z = ground arith

pub at_code :
    (pkg l rest : Text) (ls : List Text) (n : ℕ) (i : VersionInfo)
    → n < 2 ^ 63
    → trim_space l ≡ code_line n rest
    → i.name ≡ []
    → scan_info pkg (l ∷ ls) true i ≡ scan_info pkg ls true (record { code = pos n; name = [] })
at_code pkg l rest ls n i h e k =
    let j : VersionInfo = record { code = pos n; name = [] } in
    inside_step pkg l ls i j j (rw e (no_header pkg [] _))
      (rw e (
        read_code-some (code_line n rest) (itoa_ℕ n ++ 32 ∷ rest) i
          (cut_prefix-append (codes "versionCode=") (itoa_ℕ n ++ 32 ∷ rest))
        ∙ read_code_line n rest i h
        ∙ ap (λ (t : Text). value (record { code = pos n; name = t })) k))
      (rw e (read_name-none (code_line n rest) j (code_line-no-name (itoa_ℕ n ++ 32 ∷ rest))))
    ∙ rw (incomplete (pos n))

complete_end :
    (n : ℕ) (name : Text)
    → cap_name name ≢ []
    → (is_complete (record { code = pos (suc n); name = cap_name name }) ≡ true)
      × (finish (record { code = pos (suc n); name = cap_name name })
          ≡ info (record { code = pos (suc n); name = cap_name name }))
unfolding is_complete finish
complete_end n name h = go (cap_name name) h
  where
    go :
        (t : Text)
        → t ≢ []
        → (is_complete (record { code = pos (suc n); name = t }) ≡ true)
          × (finish (record { code = pos (suc n); name = t })
              ≡ info (record { code = pos (suc n); name = t }))
    go [] h = absurd (h refl)
    go (c ∷ t) h = (ground arith, ground arith)

cap_name-ne-nil : (name : Text) → name ≢ [] → cap_name name ≢ []
cap_name-ne-nil [] h = absurd (h refl)
cap_name-ne-nil (c ∷ name) h = go (ltb 128 (length (c ∷ name)))
  where
    go : (b : Bool) → (if b then take 128 (c ∷ name) else c ∷ name) ≢ []
    go true = cc
    go false = cc

pub at_name :
    (pkg l name : Text) (ls : List Text) (n : ℕ)
    → trim_space l ≡ name_line name
    → name ≢ []
    → scan_info pkg (l ∷ ls) true (record { code = pos (suc n); name = [] })
      ≡ info (record { code = pos (suc n); name = cap_name name })
at_name pkg l name ls n e k =
    let i : VersionInfo = record { code = pos (suc n); name = [] } in
    let (whole, end) = complete_end n name (cap_name-ne-nil name k) in
    inside_step pkg l ls i i (record i { name = cap_name name }) (rw e (no_header pkg [] _))
      (rw e (read_code-none (name_line name) i (name_line-no-code name)))
      (rw e
        (read_name-some (name_line name) name i (cut_prefix-append (codes "versionName=") name)))
    ∙ rw whole end

bare_field : read_code (codes "versionCode=") no_info ≡ wrong index_panic
unfolding read_code read_code_field cut_prefix first_field
bare_field = refl

wrong_step :
    (pkg l : Text) (ls : List Text) (i : VersionInfo) (o : Outcome)
    → has_prefix (trim_space l) (header pkg) ≡ false
    → read_code (trim_space l) i ≡ wrong o
    → scan_info pkg (l ∷ ls) true i ≡ o
unfolding scan_info
wrong_step pkg l ls i o a b = ground arith

pub bare_code :
    (pkg l : Text) (ls : List Text)
    → trim_space l ≡ codes "versionCode="
    → scan_info pkg (l ∷ ls) true no_info ≡ index_panic
bare_code pkg l ls e =
    wrong_step pkg l ls no_info index_panic (rw e (no_header pkg [] _)) (rw e bare_field)
