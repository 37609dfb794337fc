-- ===== src/Prelude/Slices.antt =====
-- Slices and entries of a list that is a longer one's beginning.
use Prim.Native.Nat.{ℕ, zero, suc, ◌≤◌, ◌<◌}
use mathlib.Core.Path.{◌≡◌, refl, ap}
use mathlib.Core.List.{List, [], ◌∷◌, ◌++◌, map}
use native.Mathlib.Omega.{arith}
use neuravex.Prelude.Lists.{length, take, get_elem?}

module _ {A : Type 0} where
  pub take-append : (n : ℕ) (xs ys : List A) → n ≤ length xs → take n (xs ++ ys) ≡ take n xs
  take-append zero xs ys h = refl
  take-append (suc n) [] ys h = absurd (omega arith)
  take-append (suc n) (x ∷ xs) ys h = ap (λ zs. x ∷ zs) (take-append n xs ys (omega arith))

  pub get_elem?-append :
      (n : ℕ) (xs ys : List A) → n < length xs → get_elem? (xs ++ ys) n ≡ get_elem? xs n
  get_elem?-append n [] ys h = absurd (omega arith)
  get_elem?-append zero (x ∷ xs) ys h = refl
  get_elem?-append (suc n) (x ∷ xs) ys h = get_elem?-append n xs ys (omega arith)

module _ {A B : Type 0} (f : A → B) where
  pub length-map : (xs : List A) → length (map f xs) ≡ length xs
  length-map [] = refl
  length-map (x ∷ xs) = omega (arith, length-map xs)

  pub map-append : (xs ys : List A) → map f (xs ++ ys) ≡ map f xs ++ map f ys
  map-append [] ys = refl
  map-append (x ∷ xs) ys = ap (λ zs. f x ∷ zs) (map-append xs ys)

  -- The first entries of a mapped list, and one entry of it.
  pub take-map-append :
      (n : ℕ) (xs ys : List A) → n ≤ length xs → take n (map f (xs ++ ys)) ≡ take n (map f xs)
  take-map-append n xs ys h =
      rw (map-append xs ys) (take-append n (map f xs) (map f ys) (omega (arith, length-map xs)))

  pub get_elem?-map-append :
      (n : ℕ) (xs ys : List A)
      → n < length xs
      → get_elem? (map f (xs ++ ys)) n ≡ get_elem? (map f xs) n
  get_elem?-map-append n xs ys h =
      rw (map-append xs ys)
        (get_elem?-append n (map f xs) (map f ys) (omega (arith, length-map xs)))
