-- ===== src/Strategies/Arrays.antt =====
-- The array expressions that the strategies of trading_engine/strategies share.
use Prim.Native.Nat.{◌-◌ as monus}
use neuravex.Prelude.{ℕ, suc, List, length, take, take_last, last?, or_else, if◌then◌else◌}
use neuravex.Float.{Float, ◌/◌, truthy}
use neuravex.Market.Numpy.{init, last_but_one?, max?, min?}

module _ {A : Type 0} where
  -- `x[-n - 1:-1]`
  abbrev pub before_last : ℕ → List A → List A
  before_last n xs = init (take_last (suc n) xs)

  -- `x[-n:-m]`
  abbrev pub slice_back : ℕ → ℕ → List A → List A
  slice_back n m xs = let tail = take_last n xs in take (monus (length tail) m) tail

module _ {F : Type 0} ⦃fl : Float F⦄ where
  -- `x[-1]`, `x[-2]`, and the extrema of a slice, which the length checks make non-empty.
  abbrev pub latest : List F → F
  latest xs = or_else (last? xs) fl.nan

  abbrev pub latest_but_one : List F → F
  latest_but_one xs = or_else (last_but_one? xs) fl.nan

  abbrev pub largest : List F → F
  largest xs = or_else (max? xs) fl.nan

  abbrev pub smallest : List F → F
  smallest xs = or_else (min? xs) fl.nan

  -- The value of a risk where the price is not zero.
  abbrev pub risk_or : F → F → F → F
  risk_or fallback atr_value price = if truthy price then atr_value / price else fallback
