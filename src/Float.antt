-- ===== src/Float.antt =====
-- Python's `float`. The code under verification computes with IEEE 754 doubles, which it does not
-- implement: the type and its operations are an interface, and every definition takes them as an
-- instance. `lit m k` is the double of the decimal literal m * 10^-k. The operators are spelled as in
-- Python, so that a comparison is a Boolean.
pub mod Fixed
pub mod Order
use Prim.Native.Nat.{◌*◌ as mul_ℕ}
use neuravex.Prelude.{ℕ, suc, ◌≤◌, ◌≡◌, ◌⊎◌, Bool, true, not, ◌&&◌, if◌then◌else◌}

pub record Float (F : Type 0) : Type 0 where
  pub lit : ℕ → ℕ → F
  pub nan : F
  pub infinity : F
  pub add : F → F → F
  pub sub : F → F → F
  pub mul : F → F → F
  pub div : F → F → F
  pub neg : F → F
  pub abs : F → F
  pub lt : F → F → Bool
  pub le : F → F → Bool
  pub eq : F → F → Bool

module _ {F : Type 0} ⦃fl : Float F⦄ where
  infixl 65 ◌+◌ ◌-◌
  infixl 70 ◌*◌ ◌/◌
  infix 50 ◌<◌ ◌<=◌ ◌>◌ ◌>=◌ ◌==◌
  abbrev pub lit : ℕ → ℕ → F
  lit = fl.lit

  -- `float(n)`
  abbrev pub of_ℕ : ℕ → F
  of_ℕ n = fl.lit n 0

  abbrev pub neg : F → F
  neg = fl.neg

  abbrev pub abs : F → F
  abs = fl.abs

  abbrev pub ◌+◌ : F → F → F
  ◌+◌ = fl.add

  abbrev pub ◌-◌ : F → F → F
  ◌-◌ = fl.sub

  abbrev pub ◌*◌ : F → F → F
  ◌*◌ = fl.mul

  abbrev pub ◌/◌ : F → F → F
  ◌/◌ = fl.div

  abbrev pub ◌<◌ : F → F → Bool
  ◌<◌ = fl.lt

  abbrev pub ◌<=◌ : F → F → Bool
  ◌<=◌ = fl.le

  abbrev pub ◌>◌ : F → F → Bool
  x > y = fl.lt y x

  abbrev pub ◌>=◌ : F → F → Bool
  x >= y = fl.le y x

  abbrev pub ◌==◌ : F → F → Bool
  ◌==◌ = fl.eq

  -- `bool(x)`: every float but zero is true, NaN too.
  abbrev pub truthy : F → Bool
  truthy x = not (x == of_ℕ 0)

  -- `max(x, y)` and `min(x, y)`: the first argument, unless the second passes it.
  abbrev pub max : F → F → F
  max x y = if y > x then y else x

  abbrev pub min : F → F → F
  min x y = if y < x then y else x

  -- A float that is not NaN.
  abbrev pub IsNum : F → Type 0
  IsNum x = (x <= x) ≡ true

  infix 4 ◌≼◌
  abbrev pub ◌≼◌ : F → F → Type 0
  x ≼ y = (x <= y) ≡ true

abbrev pub times_ten : ℕ → ℕ
times_ten m = mul_ℕ m 10

-- What IEEE 754 says of the comparisons, NaN included, and of the signs and bounds of a rounded
-- sum, difference or product, where that is not NaN.
pub record IsIeee (F : Type 0) ⦃fl : Float F⦄ : Type 0 where
  pub num_of_le : (x y : F) → x ≼ y → IsNum x × IsNum y
  pub num_of_lt : (x y : F) → (x < y) ≡ true → IsNum x × IsNum y
  pub le_trans : (x y z : F) → x ≼ y → y ≼ z → x ≼ z
  pub lt-eq-not-le : (x y : F) → IsNum x → IsNum y → (x < y) ≡ not (y <= x)
  pub le_total : (x y : F) → IsNum x → IsNum y → (x ≼ y) ⊎ (y ≼ x)
  pub eq-eq-le : (x y : F) → (x == y) ≡ ((x <= y) && (y <= x))
  pub lit_mono : (m n k : ℕ) → m ≤ n → fl.lit m k ≼ fl.lit n k
  pub lit_shift : (m k : ℕ) → fl.lit m k ≡ fl.lit (times_ten m) (suc k)
  pub sub_nonneg : (x y : F) → x ≼ y → IsNum (y - x) → of_ℕ 0 ≼ (y - x)
  pub sub-le : (x y : F) → of_ℕ 0 ≼ y → IsNum (x - y) → (x - y) ≼ x
  pub le-add : (x y : F) → of_ℕ 0 ≼ y → IsNum (x + y) → x ≼ (x + y)
  pub add_nonneg : (x y : F) → of_ℕ 0 ≼ x → of_ℕ 0 ≼ y → of_ℕ 0 ≼ (x + y)
  pub mul_nonneg : (x y : F) → of_ℕ 0 ≼ x → of_ℕ 0 ≼ y → IsNum (x * y) → of_ℕ 0 ≼ (x * y)
  pub mul-le : (x y : F) → of_ℕ 0 ≼ x → y ≼ of_ℕ 1 → IsNum (x * y) → (x * y) ≼ x
  pub num_of_add : (x y : F) → IsNum (x + y) → IsNum x × IsNum y
  pub num_of_sub : (x y : F) → IsNum (x - y) → IsNum x × IsNum y
  pub num_of_mul : (x y : F) → IsNum (x * y) → IsNum x × IsNum y
  pub add_mono : (z x y : F) → x ≼ y → IsNum (z + x) → IsNum (z + y) → (z + x) ≼ (z + y)
  pub sub_anti : (z x y : F) → x ≼ y → IsNum (z - x) → IsNum (z - y) → (z - y) ≼ (z - x)
  pub mul_mono :
      (z x y : F) → of_ℕ 0 ≼ z → x ≼ y → IsNum (z * x) → IsNum (z * y) → (z * x) ≼ (z * y)
  pub neg-le : (x : F) → of_ℕ 0 ≼ x → neg x ≼ x
