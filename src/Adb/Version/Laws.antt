-- ===== src/Adb/Version/Laws.antt =====
-- What `parseVersionInfo` returns: bounds of every result, the listing of a package, and the panic.
use play_apk_distributor.Prelude.{
  ℕ, ◌≤◌, ◌≡◌, ◌≢◌, refl, Bool, true, false, List, [], ◌∷◌, Option, none, some, arith, ltb, length,
  take, length-take, if◌then◌else◌, Bool-cases, inl, inr,
}
use mathlib.Core.Path.{subst}
use play_apk_distributor.Prelude.Int.{ℤ, is_zero}
use play_apk_distributor.Text.{Text, codes, cut_prefix, has_prefix}
use play_apk_distributor.Space.{trim_space, first_field}
use play_apk_distributor.Decimal.{atoi}
use play_apk_distributor.Decimal.RoundTrip.{IsInt, atoi_bounds}
use play_apk_distributor.Adb.Version.{
  VersionInfo, Outcome, info, bad_code, not_found, index_panic, Field, value, wrong, header,
  no_info, read_code_field, read_code, cap_name, read_name, is_complete, finish, scan_info,
  scan_lines, parse_version_info, max_version_name_len,
}

-- what holds of the information while the loop runs
abbrev pub IsBounded : VersionInfo → Type 0
IsBounded i = IsInt i.code × (length i.name ≤ max_version_name_len)

abbrev pub FieldOk : Field → Type 0
FieldOk (value i) = IsBounded i
FieldOk (wrong o) = (i : VersionInfo) → o ≢ info i

abbrev pub OutcomeOk : Outcome → Type 0
OutcomeOk (info i) = IsBounded i × (is_zero i.code ≡ false)
OutcomeOk o = Unit

read_code-ok : (line : Text) (i : VersionInfo) → IsBounded i → FieldOk (read_code line i)
unfolding read_code
read_code-ok line i h = go (cut_prefix line (codes "versionCode="))
  where
    number :
        (o : Option ℤ) (f : Text)
        → atoi f ≡ o
        → FieldOk (elim o [ none ↦ wrong bad_code | some c ↦ value (record i { code = c }) ])
    number none f e = λ j. cc
    number (some c) f e = (atoi_bounds f c e, h.1)

    field :
        (o : Option Text)
        → FieldOk (elim o [
          | none ↦ wrong index_panic
          | some f ↦ elim (atoi f) [
            | none ↦ wrong bad_code
            | some c ↦ value (record i { code = c })
          ]
        ])
    field none = λ j. cc
    field (some f) = number (atoi f) f refl

    go :
        (o : Option Text) → FieldOk (elim o [ none ↦ value i | some rest ↦ read_code_field rest i ])
    go none = h
    go (some rest) = field (first_field rest)

cap_bound : (n : ℕ) (s : Text) → length (if ltb n (length s) then take n s else s) ≤ n
cap_bound n s = ground (arith, length-take n s)

cap_name_bound : (name : Text) → length (cap_name name) ≤ max_version_name_len
cap_name_bound name = cap_bound 128 name

read_name-ok : (line : Text) (i : VersionInfo) → IsBounded i → IsBounded (read_name line i)
unfolding read_name
read_name-ok line i (c, n) = go (cut_prefix line (codes "versionName="))
  where
    go :
        (o : Option Text)
        → IsBounded (elim o [ none ↦ i | some rest ↦ record i { name = cap_name rest } ])
    go none = (c, n)
    go (some rest) = (c, cap_name_bound rest)

finish-ok : (i : VersionInfo) → IsBounded i → OutcomeOk (finish i)
unfolding finish
finish-ok i h = elim (Bool-cases (is_zero i.code)) [ inl e ↦ rw e tt | inr e ↦ rw e (h, e) ]

scan_info-ok :
    (pkg : Text) (ls : List Text) (in_pkg : Bool) (i : VersionInfo)
    → IsBounded i
    → OutcomeOk (scan_info pkg ls in_pkg i)
unfolding scan_info
scan_info-ok pkg [] in_pkg i h = finish-ok i h
scan_info-ok pkg (l ∷ ls) in_pkg i h = elim (Bool-cases (has_prefix (trim_space l) (header pkg))) [
  | inl entered ↦ rw entered (scan_info-ok pkg ls true i h)
  | inr other ↦ rw other (elim (Bool-cases in_pkg) [
    | inr out ↦ rw out (scan_info-ok pkg ls false i h)
    | inl inside ↦ rw inside (
        fields (read_code (trim_space l) i) (read_code-ok (trim_space l) i h)
          (λ k. scan_info-ok pkg ls true k))
  ])
]
  where
    complete :
        (k : VersionInfo)
        → IsBounded k
        → OutcomeOk (scan_info pkg ls true k)
        → OutcomeOk (if is_complete k then finish k else scan_info pkg ls true k)
    complete k b m = elim (Bool-cases (is_complete k)) [
      | inl e ↦ rw e (finish-ok k b)
      | inr e ↦ rw e m
    ]

    fields :
        (f : Field)
        → FieldOk f
        → ((k : VersionInfo) → IsBounded k → OutcomeOk (scan_info pkg ls true k))
        → OutcomeOk (elim f [
          | wrong o ↦ o
          | value j ↦
              let k = read_name (trim_space l) j in
              if is_complete k then finish k else scan_info pkg ls true k
        ])
    fields (wrong (info i')) b m = absurd (b i' refl)
    fields (wrong bad_code) b m = tt
    fields (wrong not_found) b m = tt
    fields (wrong index_panic) b m = tt
    fields (value j) b m =
        let k = read_name (trim_space l) j in
        let kb = read_name-ok (trim_space l) j b in complete k kb (m k kb)

IsBounded-start : IsBounded no_info
IsBounded-start = omega arith

-- A version that is read from `dumpsys` has a code other than 0 that fits an `int`, and a name of
-- at most 128 bytes.
pub parse_version_info_sound :
    (pkg output : Text) (i : VersionInfo)
    → parse_version_info pkg output ≡ info i
    → (is_zero i.code ≡ false) × IsInt i.code × (length i.name ≤ 128)
unfolding parse_version_info
parse_version_info_sound pkg output i h =
    let k =
      subst OutcomeOk h (scan_info-ok pkg (scan_lines output) false no_info IsBounded-start) in
    (k.1, k.0.0, k.0.1)
