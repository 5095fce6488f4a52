-- ===== src/Decimal/RoundTrip.antt =====
-- `Atoi` reads back what `Itoa` prints.
use play_apk_distributor.Prelude.{
  ℕ, zero, suc, ◌+◌, ◌/◌, ◌%◌, ◌^◌, ◌<◌, ◌≡◌, ◌≢◌, refl, ◌∙◌, true, [], ◌∷◌, some, arith, All,
}
use play_apk_distributor.Prelude.Int.{ℤ, pos, negsuc}
use play_apk_distributor.Text.{Text, is_digit}
use play_apk_distributor.Decimal.{digits, itoa_ℕ, itoa, read_digits, read_unsigned, atoi}

abbrev pub IsDigits : Text → Type 0
IsDigits = All (λ c. is_digit c ≡ true)

digits-IsDigits : (fuel n : ℕ) (out : Text) → IsDigits out → IsDigits (digits fuel n out)
unfolding digits
digits-IsDigits zero n out h = h
digits-IsDigits (suc fuel) n out h =
    ground (arith, digits-IsDigits fuel (n / 10) ((b'0' + n % 10) ∷ out) (ground arith, h))

read_last : (n : ℕ) (out : Text) → read_digits ((b'0' + n % 10) ∷ out) (n / 10) ≡ read_digits out n
unfolding read_digits
read_last n out = ground arith

read_digits-digits :
    (fuel n : ℕ) (out : Text) → n < fuel → read_digits (digits fuel n out) 0 ≡ read_digits out n
unfolding digits
read_digits-digits zero n out h = absurd (omega arith)
read_digits-digits (suc fuel) n out h =
    ground (arith, read_digits-digits fuel (n / 10) ((b'0' + n % 10) ∷ out), read_last n out)

digits-ne-nil : (fuel n c : ℕ) (out : Text) → digits fuel n (c ∷ out) ≢ []
unfolding digits
digits-ne-nil zero n c out = cc
digits-ne-nil (suc fuel) n c out =
    ground (arith, digits-ne-nil fuel (n / 10) (b'0' + n % 10) (c ∷ out))

pub itoa_ℕ-ne-nil : (n : ℕ) → itoa_ℕ n ≢ []
unfolding itoa_ℕ
itoa_ℕ-ne-nil n = ground (arith, digits-ne-nil n (n / 10) (b'0' + n % 10) [])

pub itoa_ℕ-IsDigits : (n : ℕ) → IsDigits (itoa_ℕ n)
unfolding itoa_ℕ
itoa_ℕ-IsDigits n = ground (arith, digits-IsDigits (suc n) n [] tt)

read_digits-itoa_ℕ : (n : ℕ) → read_digits (itoa_ℕ n) 0 ≡ some n
unfolding itoa_ℕ read_digits
read_digits-itoa_ℕ n = ground (arith, read_digits-digits (suc n) n [] (omega arith))

read_unsigned_lem : (s : Text) → s ≢ [] → read_unsigned s ≡ read_digits s 0
unfolding read_unsigned
read_unsigned_lem [] h = absurd (h refl)
read_unsigned_lem (c ∷ s) h = refl

read_unsigned-itoa_ℕ : (n : ℕ) → read_unsigned (itoa_ℕ n) ≡ some n
read_unsigned-itoa_ℕ n = read_unsigned_lem (itoa_ℕ n) (itoa_ℕ-ne-nil n) ∙ read_digits-itoa_ℕ n

atoi-digits :
    (s : Text) (n : ℕ) → IsDigits s → read_unsigned s ≡ some n → n < 2 ^ 63 → atoi s ≡ some (pos n)
unfolding atoi
atoi-digits [] n h e low = cc
atoi-digits (c ∷ s) n (d, h) e low = ground arith

abbrev pub IsInt : ℤ → Type 0
IsInt (pos n) = n < 2 ^ 63
IsInt (negsuc n) = n < 2 ^ 63

-- Every `int` is read back from its decimal print.
pub atoi-itoa : (z : ℤ) → IsInt z → atoi (itoa z) ≡ some z
unfolding itoa
atoi-itoa (pos n) h = atoi-digits (itoa_ℕ n) n (itoa_ℕ-IsDigits n) (read_unsigned-itoa_ℕ n) h
atoi-itoa (negsuc n) h = unfold atoi in ground (arith, read_unsigned-itoa_ℕ (suc n))

-- Every result of `Atoi` is an `int`.
pub atoi_bounds : (s : Text) (z : ℤ) → atoi s ≡ some z → IsInt z
unfolding atoi
atoi_bounds [] z h = cc
atoi_bounds (c ∷ s) (pos n) h = ground arith
atoi_bounds (c ∷ s) (negsuc n) h = ground arith
