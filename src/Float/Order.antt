-- ===== src/Float/Order.antt =====
-- Facts on comparisons that follow from the laws of `IsIeee`.
use neuravex.Prelude.{◌≡◌, true, false, arith}
use neuravex.Float.{Float, IsIeee, IsNum, ◌≼◌, ◌<◌, ◌<=◌, max, min}

module _ {F : Type 0} ⦃fl : Float F⦄ (ieee : IsIeee F) where
  pub lt_of_le-lt : (x y z : F) → x ≼ y → (y < z) ≡ true → (x < z) ≡ true
  lt_of_le-lt x y z h k = ground (
    arith,
    ieee.num_of_le x y h,
    ieee.num_of_lt y z k,
    ieee.lt-eq-not-le x z,
    ieee.lt-eq-not-le y z,
    ieee.le_trans z x y,
  )

  pub le_of_not-lt : (x y : F) → IsNum x → IsNum y → (y < x) ≡ false → x ≼ y
  le_of_not-lt x y hx hy h = ground (arith, ieee.lt-eq-not-le y x)

  pub le_of_lt : (x y : F) → (x < y) ≡ true → x ≼ y
  le_of_lt x y h = ground (arith, ieee.num_of_lt x y h, ieee.lt-eq-not-le x y, ieee.le_total x y)

  pub not-le_of_lt : (x y : F) → (x < y) ≡ true → (y <= x) ≡ false
  not-le_of_lt x y h = ground (arith, ieee.num_of_lt x y h, ieee.lt-eq-not-le x y)

  pub lt_of_not-le : (x y : F) → IsNum x → IsNum y → (y <= x) ≡ false → (x < y) ≡ true
  lt_of_not-le x y hx hy h = ground (arith, ieee.lt-eq-not-le x y)

  pub le_max_left : (x y : F) → IsNum x → x ≼ max x y
  le_max_left x y h = ground (arith, le_of_lt x y)

  pub le_max_right : (x y : F) → IsNum x → IsNum y → y ≼ max x y
  le_max_right x y hx hy = ground (arith, le_of_not-lt y x hy hx)

  pub min-le_left : (x y : F) → IsNum x → min x y ≼ x
  min-le_left x y h = ground (arith, le_of_lt y x)

  pub min-le_right : (x y : F) → IsNum x → IsNum y → min x y ≼ y
  min-le_right x y hx hy = ground (arith, le_of_not-lt x y hx hy)

  pub lt_of_lt-le : (x y z : F) → (x < y) ≡ true → y ≼ z → (x < z) ≡ true
  lt_of_lt-le x y z h k = ground (
    arith,
    ieee.num_of_lt x y h,
    ieee.num_of_le y z k,
    ieee.lt-eq-not-le x y,
    ieee.lt-eq-not-le x z,
    ieee.le_trans y z x,
  )

  pub not-lt_of_le : (x y : F) → y ≼ x → (x < y) ≡ false
  not-lt_of_le x y h = ground (arith, ieee.num_of_le y x h, ieee.lt-eq-not-le x y)
