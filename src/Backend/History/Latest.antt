-- ===== src/Backend/History/Latest.antt =====
-- The latest row of a list that one more row is added to.
use Prim.Native.Nat.{◌<◌ as lt_ℕ}
use neuravex.Prelude.{ℕ, ◌≡◌, refl, true, some, List, [], ◌∷◌, ◌++◌, All, arith, ltb}
use neuravex.Backend.History.{latest_by}

-- An entry that is later than all others is the latest.
pub latest_by-snoc :
    {A : Type 0} (time : A → ℕ) (xs : List A) (x : A)
    → All (λ y. lt_ℕ (time y) (time x)) xs
    → latest_by time (xs ++ x ∷ []) ≡ some x
latest_by-snoc time [] x h = refl
latest_by-snoc time (y ∷ xs) x h =
    let before : ltb (time y) (time x) ≡ true = let first = h.0 in ground arith in
    rw (latest_by-snoc time xs x h.1, before) refl
