-- ===== src/Risk/Plan/Levels.antt =====
-- Where the levels of a risk plan lie.
use neuravex.Prelude.{◌≡◌, ◌↔◌, true, false, arith}
use neuravex.Float.{Float, IsIeee, IsNum, ◌≼◌, ◌<=◌, ◌+◌, ◌-◌, ◌*◌, of_ℕ}
use neuravex.Risk.Plan.{
  Direction, long, short, flat, RiskPlan, Multipliers, plan, refused, no_volatility,
  unknown_direction, build_risk_plan,
}

module _ {F : Type 0} ⦃fl : Float F⦄ where
  -- The stop on the losing side of the entry, the targets in order on the winning side.
  abbrev pub Brackets : Direction → RiskPlan F → Type 0
  Brackets long p =
      (p.stop_loss ≼ p.entry) × (p.entry ≼ p.take_profit_1) × (p.take_profit_1 ≼ p.take_profit_2)
  Brackets short p =
      (p.entry ≼ p.stop_loss) × (p.take_profit_1 ≼ p.entry) × (p.take_profit_2 ≼ p.take_profit_1)
  Brackets flat p = Unit

  -- No level is NaN.
  abbrev pub HasNumbers : RiskPlan F → Type 0
  HasNumbers p = IsNum p.stop_loss × IsNum p.take_profit_1 × IsNum p.take_profit_2

  module _ (ieee : IsIeee F) (entry atr : F) (m : Multipliers F) where
    -- The stop distance of an accepted plan is not negative.
    distance_nonneg :
        IsNum atr
        → (atr <= of_ℕ 0) ≡ false
        → of_ℕ 0 ≼ m.stop
        → IsNum (atr * m.stop)
        → of_ℕ 0 ≼ (atr * m.stop)
    distance_nonneg num positive mult prod =
        ground (arith, ieee.lit_mono 0 0 0, ieee.mul_nonneg atr m.stop, ieee.le_total atr (of_ℕ 0))

    -- Two targets above the entry, the second at least as far as the first.
    rising :
        (d : F)
        → of_ℕ 0 ≼ d
        → of_ℕ 0 ≼ m.reward_1
        → m.reward_1 ≼ m.reward_2
        → IsNum (entry + d * m.reward_1)
        → IsNum (entry + d * m.reward_2)
        → (entry ≼ (entry + d * m.reward_1)) × ((entry + d * m.reward_1) ≼ (entry + d * m.reward_2))
    rising d hd h1 h12 n1 n2 = ground (
      arith,
      ieee.num_of_add entry (d * m.reward_1) n1,
      ieee.num_of_add entry (d * m.reward_2) n2,
      ieee.mul_nonneg d m.reward_1 hd h1,
      ieee.mul_mono d m.reward_1 m.reward_2 hd h12,
      ieee.le-add entry (d * m.reward_1),
      ieee.add_mono entry (d * m.reward_1) (d * m.reward_2),
    )

    falling :
        (d : F)
        → of_ℕ 0 ≼ d
        → of_ℕ 0 ≼ m.reward_1
        → m.reward_1 ≼ m.reward_2
        → IsNum (entry - d * m.reward_1)
        → IsNum (entry - d * m.reward_2)
        → ((entry - d * m.reward_1) ≼ entry) × ((entry - d * m.reward_2) ≼ (entry - d * m.reward_1))
    falling d hd h1 h12 n1 n2 = ground (
      arith,
      ieee.num_of_sub entry (d * m.reward_1) n1,
      ieee.num_of_sub entry (d * m.reward_2) n2,
      ieee.mul_nonneg d m.reward_1 hd h1,
      ieee.mul_mono d m.reward_1 m.reward_2 hd h12,
      ieee.sub-le entry (d * m.reward_1),
      ieee.sub_anti entry (d * m.reward_1) (d * m.reward_2),
    )

    -- With multipliers that are not negative and a second reward at least the first, an accepted plan
    -- whose levels are numbers has its stop on the losing side of the entry, its first target on the
    -- winning side, and its second target beyond the first.
    pub build_risk_plan-Brackets :
        (direction : Direction) {p : RiskPlan F}
        → of_ℕ 0 ≼ m.stop
        → of_ℕ 0 ≼ m.reward_1
        → m.reward_1 ≼ m.reward_2
        → build_risk_plan entry direction atr m ≡ plan p
        → HasNumbers p
        → Brackets direction p
    unfolding build_risk_plan
    build_risk_plan-Brackets long hs h1 h12 e n = ground (
      arith,
      ieee.num_of_sub entry (atr * m.stop),
      ieee.num_of_mul atr m.stop,
      distance_nonneg,
      ieee.sub-le entry (atr * m.stop),
      rising (atr * m.stop),
    )
    build_risk_plan-Brackets short hs h1 h12 e n = ground (
      arith,
      ieee.num_of_add entry (atr * m.stop),
      ieee.num_of_mul atr m.stop,
      distance_nonneg,
      ieee.le-add entry (atr * m.stop),
      falling (atr * m.stop),
    )
    build_risk_plan-Brackets flat hs h1 h12 e n = tt

  -- A plan is refused exactly when the ATR is not above zero, which is tested first, or when the
  -- direction is neither LONG nor SHORT.
  pub build_risk_plan-refused :
      (entry atr : F) (direction : Direction) (m : Multipliers F)
      → ((build_risk_plan entry direction atr m ≡ refused no_volatility) ↔ ((atr <= of_ℕ 0) ≡ true))
        × ((build_risk_plan entry direction atr m ≡ refused unknown_direction)
            ↔ (((atr <= of_ℕ 0) ≡ false) × (direction ≡ flat)))
  unfolding build_risk_plan
  build_risk_plan-refused entry atr long m = ground arith
  build_risk_plan-refused entry atr short m = ground arith
  build_risk_plan-refused entry atr flat m = ground arith
