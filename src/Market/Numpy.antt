-- ===== src/Market/Numpy.antt =====
-- What the engine uses of numpy. The library is not part of the repository: its means, deviations,
-- logarithms and convolutions are fields of an interface; slices and element-wise operations are
-- lists and maps. `none` stands for the IndexError of an index that is out of range.
use neuravex.Prelude.{
  ℕ, zero, suc, Option, none, some, List, [], ◌∷◌, ◌||◌, not, if◌then◌else◌, last?,
}
use neuravex.Float.{Float, ◌==◌, ◌>=◌, ◌<◌}

pub record Numpy (F : Type 0) : Type 0 where
  pub mean : List F → F
  -- `np.std(x)` and `np.std(x, ddof=1)`
  pub std : List F → F
  pub sample_std : List F → F
  pub log : F → F
  pub sqrt : F → F
  -- `np.convolve(x, kernel, mode="valid")`
  pub convolve : List F → List F → List F

module _ {A B C : Type 0} where
  abbrev pub zip_with : (A → B → C) → List A → List B → List C
  zip_with f [] ys = []
  zip_with f (x ∷ xs) [] = []
  zip_with f (x ∷ xs) (y ∷ ys) = f x y ∷ zip_with f xs ys

module _ {A : Type 0} where
  -- `x[:-1]` and `x[1:]`
  abbrev pub init : List A → List A
  init [] = []
  init (x ∷ []) = []
  init (x ∷ y ∷ xs) = x ∷ init (y ∷ xs)

  abbrev pub tail : List A → List A
  tail [] = []
  tail (x ∷ xs) = xs

  -- `x[-2]`
  abbrev pub last_but_one? : List A → Option A
  last_but_one? xs = last? (init xs)

  -- `np.full(n, a)`
  abbrev pub replicate : ℕ → A → List A
  replicate zero a = []
  replicate (suc n) a = a ∷ replicate n a

module _ {F : Type 0} ⦃fl : Float F⦄ where
  -- `np.maximum` and `np.minimum` on scalars, which pass NaN on.
  abbrev pub maximum : F → F → F
  maximum x y = if (x >= y) || not (x == x) then x else y

  abbrev pub minimum : F → F → F
  minimum x y = if (x < y) || not (x == x) then x else y

  -- `np.max(x)` and `np.min(x)`
  unfoldable pub max? : List F → Option F
  max? [] = none
  max? (x ∷ xs) = some (go x xs)
    where
      go : F → List F → F
      go m [] = m
      go m (y ∷ ys) = go (maximum m y) ys

  unfoldable pub min? : List F → Option F
  min? [] = none
  min? (x ∷ xs) = some (go x xs)
    where
      go : F → List F → F
      go m [] = m
      go m (y ∷ ys) = go (minimum m y) ys
