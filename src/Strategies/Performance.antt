-- ===== src/Strategies/Performance.antt =====
-- trading_engine/strategies/performance.py
use neuravex.Prelude.{ℕ, suc, ◌≤◌, ◌≡◌, ◌↔◌, Bool, Option, none, some, ltb, arith, if◌then◌else◌}
use neuravex.Float.{Float, IsIeee, ◌≼◌, ◌+◌, ◌-◌, ◌*◌, ◌/◌, lit, of_ℕ, neg, max, min}
use neuravex.Float.Order.{le_of_lt}

abbrev pub min_trades_for_weighting : ℕ
min_trades_for_weighting = 5

-- The running win rate, expectancy and number of closed trades.
pub record Record (F : Type 0) : Type 0 where
  pub win_rate : F
  pub expectancy : F
  pub closed : ℕ

module _ {F : Type 0} ⦃fl : Float F⦄ where
  unfoldable pub update_running_stats : Record F → Bool → F → Record F
  update_running_stats r won pnl_per_unit =
      let n : F = of_ℕ r.closed in
      let new_n : F = of_ℕ (suc r.closed) in
      record {
        win_rate = (r.win_rate * n + (if won then of_ℕ 1 else of_ℕ 0)) / new_n;
        expectancy = (r.expectancy * n + pnl_per_unit) / new_n;
        closed = suc r.closed;
      }

  unfoldable pub performance_score : F → ℕ → Option F
  performance_score win_rate closed_trades =
      if ltb closed_trades min_trades_for_weighting
      then none
      else some (max (neg (of_ℕ 1)) (min (of_ℕ 1) (of_ℕ 2 * (win_rate - lit 5 1))))

  -- A strategy has a score exactly from its fifth closed trade on, and its score lies between -1 and 1,
  -- whatever the win rate.
  pub performance_score_bounds :
      IsIeee F
      → (win_rate : F) (closed_trades : ℕ)
      → ((performance_score win_rate closed_trades ≡ none) ↔ (suc closed_trades ≤ 5))
        × ((score : F)
            → performance_score win_rate closed_trades ≡ some score
            → (neg (of_ℕ 1) ≼ score) × (score ≼ of_ℕ 1))
  unfolding performance_score
  performance_score_bounds ieee w n = (
    ground arith,
    λ score e. ground (
      arith,
      ieee.lit_mono 0 1 0,
      ieee.neg-le (of_ℕ 1),
      ieee.num_of_le (neg (of_ℕ 1)) (of_ℕ 1),
      le_of_lt ieee (neg (of_ℕ 1)) (min (of_ℕ 1) (of_ℕ 2 * (w - lit 5 1))),
      le_of_lt ieee (of_ℕ 2 * (w - lit 5 1)) (of_ℕ 1),
    ),
  )
