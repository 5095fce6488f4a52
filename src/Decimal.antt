-- ===== src/Decimal.antt =====
-- strconv.Itoa and strconv.Atoi of Go, for a 64-bit `int`.
pub mod RoundTrip
use play_apk_distributor.Prelude.{
  ℕ, zero, suc, ◌+◌, ◌-◌, ◌*◌, ◌/◌, ◌%◌, ◌^◌, Bool, true, false, List, [], ◌∷◌, Option, none, some,
  ◌==◌, ltb, leb, if◌then◌else◌,
}
use play_apk_distributor.Prelude.Int.{ℤ, pos, negsuc}
use play_apk_distributor.Text.{Text, is_digit}

-- the decimal digits of n before `out`; the fuel is more than n, and each round divides n by ten
pub digits : ℕ → ℕ → Text → Text
digits zero n out = out
digits (suc fuel) n out =
    let rest = digits fuel (n / 10) ((b'0' + n % 10) ∷ out) in if n == 0 then out else rest

unfoldable pub itoa_ℕ : ℕ → Text
unfolding digits
itoa_ℕ n = if n == 0 then b'0' ∷ [] else digits (suc n) n []

-- strconv.Itoa, and the verb %d
unfoldable pub itoa : ℤ → Text
unfolding itoa_ℕ
itoa (pos n) = itoa_ℕ n
itoa (negsuc n) = b'-' ∷ itoa_ℕ (suc n)

-- the number that the digits of the text spell behind n
pub read_digits : Text → ℕ → Option ℕ
read_digits [] n = some n
read_digits (c ∷ s) n =
    let rest = read_digits s (n * 10 + (c - b'0')) in if is_digit c then rest else none

pub read_unsigned : Text → Option ℕ
unfolding read_digits
read_unsigned [] = none
read_unsigned (c ∷ s) = read_digits (c ∷ s) 0

-- numbers out of the range of `int` are errors
abbrev in_int : Option ℕ → Option ℤ
in_int none = none
in_int (some n) = if ltb n (2 ^ 63) then some (pos n) else none

abbrev negative : Option ℕ → Option ℤ
negative none = none
negative (some zero) = some (pos 0)
negative (some (suc n)) = if ltb n (2 ^ 63) then some (negsuc n) else none

-- strconv.Atoi
unfoldable pub atoi : Text → Option ℤ
unfolding read_unsigned
atoi [] = none
atoi (c ∷ s) =
    if c == b'-'
    then negative (read_unsigned s)
    else if c == b'+'
    then in_int (read_unsigned s)
    else in_int (read_unsigned (c ∷ s))
