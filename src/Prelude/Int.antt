-- ===== src/Prelude/Int.antt =====
-- Go's `int` and `int64` as integers, with the wrap-around of 64 bits. `negsuc n` is -(n + 1).
use Prim.Native.Nat.{ℕ, suc, ◌+◌, ◌-◌, ◌*◌, ◌%◌, ◌^◌, ◌≤◌}
use mathlib.Core.Path.{◌≡◌, refl, ap}
use mathlib.Core.Bool.{Bool, true, false}
use native.Mathlib.Omega.{arith}
use play_apk_distributor.Prelude.Tests.{ltb, leb, ◌==◌, if◌then◌else◌}

pub data ℤ : Type 0 where
  pos : ℕ → ℤ
  negsuc : ℕ → ℤ

abbrev pub pos_part : ℤ → ℕ
pos_part (pos n) = n
pos_part (negsuc n) = 0

abbrev pub neg_part : ℤ → ℕ
neg_part (pos n) = 0
neg_part (negsuc n) = suc n

infix 50 ◌≤ℤ◌
abbrev pub ◌≤ℤ◌ : ℤ → ℤ → Type 0
a ≤ℤ b = pos_part a + neg_part b ≤ pos_part b + neg_part a

abbrev pub is_zero : ℤ → Bool
is_zero (pos n) = n == 0
is_zero (negsuc n) = false

-- the tests a < b and a ≤ b
abbrev pub ltb_ℤ : ℤ → ℤ → Bool
ltb_ℤ (pos a) (pos b) = ltb a b
ltb_ℤ (pos a) (negsuc b) = false
ltb_ℤ (negsuc a) (pos b) = true
ltb_ℤ (negsuc a) (negsuc b) = ltb b a

abbrev pub leb_ℤ : ℤ → ℤ → Bool
leb_ℤ (pos a) (pos b) = leb a b
leb_ℤ (pos a) (negsuc b) = false
leb_ℤ (negsuc a) (pos b) = true
leb_ℤ (negsuc a) (negsuc b) = leb b a

abbrev pub eqb_ℤ : ℤ → ℤ → Bool
eqb_ℤ (pos a) (pos b) = a == b
eqb_ℤ (pos a) (negsuc b) = false
eqb_ℤ (negsuc a) (pos b) = false
eqb_ℤ (negsuc a) (negsuc b) = a == b

-- the signed reading of a 64-bit pattern
abbrev pub signed64 : ℕ → ℤ
signed64 n = if ltb n (2 ^ 63) then pos n else negsuc (2 ^ 64 - 1 - n)

-- an `int64` product of an `int64` with a positive constant
abbrev pub mul64 : ℤ → ℕ → ℤ
mul64 (pos a) k = signed64 ((a * k) % 2 ^ 64)
mul64 (negsuc a) k = signed64 ((2 ^ 64 - ((a + 1) * k) % 2 ^ 64) % 2 ^ 64)

pub leb-refl_ℤ : (a : ℤ) → leb_ℤ a a ≡ true
leb-refl_ℤ (pos a) = ground arith
leb-refl_ℤ (negsuc a) = ground arith

pub leb-trans_ℤ : (a b c : ℤ) → leb_ℤ a b ≡ true → leb_ℤ b c ≡ true → leb_ℤ a c ≡ true
leb-trans_ℤ (pos a) (pos b) (pos c) h k = ground arith
leb-trans_ℤ (pos a) (pos b) (negsuc c) h k = cc
leb-trans_ℤ (pos a) (negsuc b) c h k = cc
leb-trans_ℤ (negsuc a) b (pos c) h k = refl
leb-trans_ℤ (negsuc a) (pos b) (negsuc c) h k = cc
leb-trans_ℤ (negsuc a) (negsuc b) (negsuc c) h k = ground arith

pub leb-total_ℤ : (a b : ℤ) → leb_ℤ a b ≡ false → leb_ℤ b a ≡ true
leb-total_ℤ (pos a) (pos b) h = ground arith
leb-total_ℤ (pos a) (negsuc b) h = refl
leb-total_ℤ (negsuc a) (pos b) h = cc
leb-total_ℤ (negsuc a) (negsuc b) h = ground arith

pub eqb_iff_ℤ : (a b : ℤ) → eqb_ℤ a b ≡ true → a ≡ b
eqb_iff_ℤ (pos a) (pos b) h = ap pos (ground arith)
eqb_iff_ℤ (pos a) (negsuc b) h = cc
eqb_iff_ℤ (negsuc a) (pos b) h = cc
eqb_iff_ℤ (negsuc a) (negsuc b) h = ap negsuc (ground arith)

pub eqb-refl_ℤ : (a : ℤ) → eqb_ℤ a a ≡ true
eqb-refl_ℤ (pos a) = ground arith
eqb-refl_ℤ (negsuc a) = ground arith
