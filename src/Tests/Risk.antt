-- ===== src/Tests/Risk.antt =====
-- The risk modules at concrete numbers: an account of 1000 and a long position from 100.
use neuravex.Prelude.{ℕ, ◌≡◌, refl, ◌↔◌, ◌⊎◌, true, false, some, [], ◌∷◌}
use neuravex.Prelude.Dict.{Dict}
use neuravex.Float.{◌≼◌, lit, of_ℕ}
use neuravex.Float.Fixed.{Fixed, Fixed-IsIeee, fixed_float}
use neuravex.Risk.Plan.{long, RiskPlan, Multipliers, build_risk_plan}
use neuravex.Risk.Plan.Levels.{Brackets, build_risk_plan-Brackets}
use neuravex.Risk.Sizing.{
  SizingRequest, PositionSizeResult, stop_distance, wanted_risk, wanted_notional, position_cap,
  exposure_room, calculate_position_size, max_position_size,
}
use neuravex.Risk.Sizing.Bounds.{IsValue, calculate_position_size-within}
use neuravex.Risk.Exits.{
  ExitDecision, stop_loss, take_profit, net_profit_if_sold, reaches_stop, reaches_target,
  evaluate_exit,
}
use neuravex.Risk.Exits.Rules.{evaluate_exit_exact, sellable}
use neuravex.Risk.Limits.{
  OpenPosition, PortfolioState, TradeLimits, min_balance_floor, approved, correlated, below_floor,
  check_account_wide_limits, check_trade_against_limits,
}
use neuravex.Risk.Limits.Account.{flattens, named, must_flatten, check_account_wide_limits-flatten}
use neuravex.Risk.Limits.Trade.{IsWithinLimits, check_trade_against_limits-approved}

abbrev number : ℕ → Fixed
number n = of_ℕ n

abbrev multipliers : Multipliers Fixed
multipliers = record {
  stop = lit 15 1;
  reward_1 = lit 15 1;
  reward_2 = number 3;
  trailing = number 1;
}

abbrev planned : RiskPlan Fixed
planned = record {
  entry = number 100;
  stop_loss = number 97;
  take_profit_1 = lit 1_045 1;
  take_profit_2 = number 109;
  trailing_stop_distance = number 3;
  risk_reward_ratio = lit 15 1;
}

build_risk_plan-Brackets_example : Brackets long planned
unfolding build_risk_plan
build_risk_plan-Brackets_example =
    build_risk_plan-Brackets Fixed-IsIeee (number 100) (number 2) multipliers long {p = planned}
      refl refl refl refl (refl, refl, refl)

-- A wanted notional of 400 against a cap of 200.
abbrev wide_request : SizingRequest Fixed
wide_request = record {
  account_equity = number 1_000;
  entry_price = number 100;
  stop_loss_price = number 98;
  confidence = number 1;
  max_trade_risk = lit 1 2;
  max_position_size_fraction = lit 2 1;
  current_portfolio_exposure_fraction = number 0;
  max_portfolio_exposure_fraction = lit 6 1;
  correlation_penalty = number 0;
}

abbrev capped_size : PositionSizeResult Fixed
capped_size = record {
  quantity = number 2;
  notional = number 200;
  risk_amount = number 4;
  capped_by = some max_position_size;
}

calculate_position_size-within_example :
    (number 200 ≼ position_cap wide_request)
    × (number 200 ≼ exposure_room wide_request)
    × IsValue Fixed-IsIeee wide_request (number 200) (number 2)
unfolding calculate_position_size position_cap wanted_notional wanted_risk stop_distance
    exposure_room
calculate_position_size-within_example =
    calculate_position_size-within Fixed-IsIeee wide_request {s = capped_size} refl refl refl

abbrev profit : ExitDecision Fixed
profit = record { reason = take_profit; net_profit = number 20 }

evaluate_exit_exact_example :
    let net = net_profit_if_sold (number 2) (number 100) (number 110) (number 0) in
    (evaluate_exit
        (number 2)
        (number 100)
        (number 110)
        (some (number 95))
        (some (number 15))
        (number 0)
      ≡ some profit)
    ↔ ((sellable (number 2) (number 100) (number 110) ≡ false)
        × (profit.net_profit ≡ net)
        × (((profit.reason ≡ stop_loss) × (reaches_stop (number 110) (some (number 95)) ≡ true))
            ⊎ ((profit.reason ≡ take_profit)
                × (reaches_stop (number 110) (some (number 95)) ≡ false)
                × (reaches_target net (some (number 15)) ≡ true))))
evaluate_exit_exact_example =
    evaluate_exit_exact (number 2) (number 100) (number 110) (some (number 95)) (some (number 15))
      (number 0) profit

-- Two open positions, and an equity of 900 after a peak of 1000.
abbrev held : OpenPosition Fixed
held = record { notional = number 100; quantity = number 1; entry_price = number 100 }

abbrev portfolio : PortfolioState Fixed
portfolio = record {
  equity = number 900;
  peak_equity = number 1_000;
  cash = number 700;
  open_positions = ("A/USDC", held) ∷ ("B/USDC", held) ∷ [];
  daily_pnl = number 0;
  daily_start_equity = number 900;
  trades_this_hour = 1;
  last_entry_time = some 1_000;
  last_signal_time_by_symbol = ("A/USDC", 1_000) ∷ [];
}

abbrev limits : TradeLimits Fixed
limits = record {
  max_open_positions = 5;
  max_portfolio_exposure = lit 6 1;
  max_position_size = lit 2 1;
  cooldown_seconds = 900;
  max_trades_per_hour = 4;
  min_time_between_entries_seconds = 300;
}

abbrev correlations : Dict Fixed
correlations = ("A/USDC", lit 8 1) ∷ ("B/USDC", lit 3 1) ∷ []

check_account_wide_limits-flatten_example :
    (flattens (check_account_wide_limits portfolio (lit 3 2) (lit 1 1) (some (number 750)))
      ≡ must_flatten portfolio (lit 3 2) (lit 1 1) (some (number 750)))
    × ((named (check_account_wide_limits portfolio (lit 3 2) (lit 1 1) (some (number 750)))
          ≡ some min_balance_floor)
        ↔ (below_floor portfolio (some (number 750)) ≡ true))
check_account_wide_limits-flatten_example =
    check_account_wide_limits-flatten portfolio (lit 3 2) (lit 1 1) (some (number 750))

check_trade_against_limits-approved_example :
    (approved (check_trade_against_limits "C/USDC" (number 90) portfolio limits correlations 5_000)
      ≡ true)
    ↔ IsWithinLimits "C/USDC" (number 90) portfolio limits (correlated portfolio correlations) 5_000
check_trade_against_limits-approved_example =
    check_trade_against_limits-approved "C/USDC" (number 90) portfolio limits correlations 5_000
