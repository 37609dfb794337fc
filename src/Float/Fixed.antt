-- ===== src/Float/Fixed.antt =====
-- Decimal fixed point with six digits, as a small instance of `Float` that runs: an integer n stands
-- for n * 10^-6, and products and quotients are rounded towards zero. It has no NaN and no infinity.
use Prim.Native.Nat.{ℕ, zero, suc, ◌*◌, ◌/◌, ◌≤◌}
use native.Mathlib.Nat.{mul-le-mul, mul-le-mul_left}
use neuravex.Prelude.{◌≡◌, refl, ap, arith, Bool, true, not, nat_eq, if◌then◌else◌, ◌&&◌}
use neuravex.Prelude.Int.{ℤ, pos, negsuc, ◌+ℤ◌, ◌-ℤ◌, ltb_ℤ}
use neuravex.Float.{Float, IsIeee}

abbrev pub Fixed : Type 0
Fixed = ℤ

abbrev one : ℕ
one = 1_000_000

abbrev scaled : ℕ → ℕ → ℕ
scaled m zero = m * one
scaled m (suc k) = scaled m k / 10

abbrev negate : ℤ → ℤ
negate (pos n) = if nat_eq n 0 then pos 0 else pos 0 -ℤ pos n
negate (negsuc n) = pos (suc n)

abbrev mul : ℤ → ℤ → ℤ
mul (pos a) (pos b) = pos (a * b / one)
mul (negsuc a) (negsuc b) = pos (suc a * suc b / one)
mul (pos a) (negsuc b) = pos 0 -ℤ pos (a * suc b / one)
mul (negsuc a) (pos b) = pos 0 -ℤ pos (suc a * b / one)

abbrev quotient : ℤ → ℤ → ℤ
quotient (pos a) (pos b) = pos (a * one / b)
quotient (negsuc a) (negsuc b) = pos (suc a * one / suc b)
quotient (pos a) (negsuc b) = pos 0 -ℤ pos (a * one / suc b)
quotient (negsuc a) (pos b) = pos 0 -ℤ pos (suc a * one / b)

abbrev magnitude : ℤ → ℤ
magnitude (pos a) = pos a
magnitude (negsuc a) = pos (suc a)

abbrev leb_ℤ : ℤ → ℤ → Bool
leb_ℤ a b = not (ltb_ℤ b a)

instance abbrev pub fixed_float : Float Fixed
fixed_float = record {
  lit = λ m k. pos (scaled m k);
  nan = pos 0;
  infinity = pos (one * one * one);
  add = ◌+ℤ◌;
  sub = ◌-ℤ◌;
  mul = mul;
  div = quotient;
  neg = negate;
  abs = magnitude;
  lt = ltb_ℤ;
  le = leb_ℤ;
  eq = λ a b. leb_ℤ a b && leb_ℤ b a;
}

scaled_mono : (m n k : ℕ) → m ≤ n → scaled m k ≤ scaled n k
scaled_mono m n zero h = omega arith
scaled_mono m n (suc k) h = omega (arith, scaled_mono m n k h)

scaled_shift : (m k : ℕ) → scaled m k ≡ scaled (m * 10) (suc k)
scaled_shift m zero = omega arith
scaled_shift m (suc k) = omega (arith, scaled_shift m k)

mul-le_nat : (a b : ℕ) → b ≤ one → a * b / one ≤ a
mul-le_nat a b h = let same : a ≤ a = omega arith in omega (arith, mul-le-mul same h)

mul_nonneg :
    (x y : ℤ)
    → leb_ℤ (pos 0) x ≡ true
    → leb_ℤ (pos 0) y ≡ true
    → leb_ℤ (mul x y) (mul x y) ≡ true
    → leb_ℤ (pos 0) (mul x y) ≡ true
mul_nonneg (pos a) (pos b) h k n = ground arith
mul_nonneg (negsuc a) y h k n = ground arith
mul_nonneg (pos a) (negsuc b) h k n = ground arith

mul-le :
    (x y : ℤ)
    → leb_ℤ (pos 0) x ≡ true
    → leb_ℤ y (pos one) ≡ true
    → leb_ℤ (mul x y) (mul x y) ≡ true
    → leb_ℤ (mul x y) x ≡ true
mul-le (pos a) (pos b) h k n = ground (arith, mul-le_nat a b)
mul-le (pos a) (negsuc b) h k n = ground arith
mul-le (negsuc a) y h k n = ground arith

div-le_nat : (a b : ℕ) → a ≤ b → a / one ≤ b / one
div-le_nat a b h = omega arith

mul_mono :
    (z x y : ℤ)
    → leb_ℤ (pos 0) z ≡ true
    → leb_ℤ x y ≡ true
    → leb_ℤ (mul z x) (mul z x) ≡ true
    → leb_ℤ (mul z y) (mul z y) ≡ true
    → leb_ℤ (mul z x) (mul z y) ≡ true
mul_mono (pos c) (pos a) (pos b) h k n m =
    let le : a ≤ b = ground arith in
    ground (arith, div-le_nat (c * a) (c * b) (mul-le-mul_left c le))
mul_mono (pos c) (negsuc a) (pos b) h k n m = ground arith
mul_mono (pos c) (negsuc a) (negsuc b) h k n m =
    let more : suc b ≤ suc a = ground arith in
    ground (arith, div-le_nat (c * suc b) (c * suc a) (mul-le-mul_left c more))
mul_mono (pos c) (pos a) (negsuc b) h k n m = ground arith
mul_mono (negsuc c) x y h k n m = ground arith

-- The fixed-point numbers meet the laws.
pub Fixed-IsIeee : IsIeee Fixed
Fixed-IsIeee = record {
  num_of_le = λ x y h. ground arith;
  num_of_lt = λ x y h. ground arith;
  le_trans = λ x y z h k. ground arith;
  lt-eq-not-le = λ x y h k. ground arith;
  le_total = λ x y h k. ground arith;
  eq-eq-le = λ x y. refl;
  lit_mono = λ m n k h. ground (arith, scaled_mono m n k h);
  lit_shift = λ m k. ap pos (scaled_shift m k);
  sub_nonneg = λ x y h n. ground arith;
  sub-le = λ x y h n. ground arith;
  le-add = λ x y h n. ground arith;
  add_nonneg = λ x y h k. ground arith;
  mul_nonneg = mul_nonneg;
  mul-le = mul-le;
  num_of_add = λ x y h. ground arith;
  num_of_sub = λ x y h. ground arith;
  num_of_mul = λ x y h. ground arith;
  add_mono = λ z x y h k n. ground arith;
  sub_anti = λ z x y h k n. ground arith;
  mul_mono = mul_mono;
  neg-le = λ x h. ground arith;
}
