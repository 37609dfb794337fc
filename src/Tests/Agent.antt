-- ===== src/Tests/Agent.antt =====
-- The agent at concrete numbers: a strategy that always says LONG, on a flat price of 100.
use Prim.Native.Nat.{◌+◌}
use neuravex.Prelude.{
  ℕ, String, ◌≡◌, ◌≢◌, ◌≤◌, refl, Bool, true, false, none, some, List, [], ◌∷◌, All, arith,
}
use neuravex.Prelude.Dict.{get}
use neuravex.Float.{lit, of_ℕ, ◌<=◌}
use neuravex.Float.Fixed.{Fixed, fixed_float}
use neuravex.Market.Numpy.{Numpy, replicate}
use neuravex.Market.Indicators.{atr, ema, true_ranges, true_range, ema_from}
use neuravex.Market.Regime.{bull, normal}
use neuravex.Risk.Plan.{long, short, RiskPlan, build_risk_plan}
use neuravex.Risk.Sizing.{
  PositionSizeResult, max_position_size, calculate_position_size, wanted_risk, stop_distance,
  wanted_notional, position_cap, exposure_room,
}
use neuravex.Risk.Limits.{
  OpenPosition, PortfolioState, check_account_wide_limits, check_trade_against_limits, correlated,
  first_refusal, current_exposure, too_correlated, drawdown, daily_loss_fraction,
}
use neuravex.Execution.LiveGuard.{assert_live_order_allowed}
use neuravex.Execution.Paper.{buy as buy_side, sell as sell_side}
use neuravex.Strategies.Signal.{StrategySignal}
use neuravex.Supervisor.{no_verdict, allows, same_key}
use neuravex.Decision.{Decision, buy, zero_breakdown}
use neuravex.Agent.{AgentConfig, World, Agent}
use neuravex.Agent.Entry.{
  short_plan, close_plan, Setup, plan_for, entry_refusal, long_plan, supervised_plan, open_plan,
  risk_plan_gates, sized, size_request, risk_check,
}
use neuravex.Agent.Orders.{may_send}
use neuravex.Agent.Tick.{run_tick, tick_on}
use neuravex.Agent.Held.{held, given}
use neuravex.Agent.Room.{tick_on-Room}
use neuravex.Agent.Sales.{plan_for-SellsHeld}
use neuravex.Agent.Effects.{is_order}
use neuravex.Agent.Safety.{
  is_sent, is_purchase, breach_of, flattens_on, run_tick-Phone, run_tick-Guarded, run_tick-DryRun,
  run_tick-Breach,
}
use neuravex.Agent.Gates.{IsChecked, plan_for-IsChecked}

abbrev number : ℕ → Fixed
number n = of_ℕ n

-- A stand-in for numpy.
abbrev numpy : Numpy Fixed
numpy = record {
  mean = λ xs. number 1;
  std = λ xs. number 1;
  sample_std = λ xs. number 1;
  log = λ x. x;
  sqrt = λ x. x;
  convolve = λ xs ys. xs;
}

abbrev portfolio : Fixed → PortfolioState Fixed
portfolio equity = record {
  equity = equity;
  peak_equity = number 1_000;
  cash = equity;
  open_positions = [];
  daily_pnl = number 0;
  daily_start_equity = number 1_000;
  trades_this_hour = 0;
  last_entry_time = none;
  last_signal_time_by_symbol = [];
}

abbrev signal : StrategySignal Fixed
signal = record {
  symbol = "A/USDC";
  direction = long;
  confidence = lit 8 1;
  expected_return = lit 2 2;
  risk = lit 1 2;
  time_horizon = "hours";
  strategy_name = "breakout";
}

abbrev world : Fixed → World Fixed
world equity = record {
  numpy = numpy;
  adapter = record { name = "dex"; supports_withdrawals = none };
  clock = λ h. 1_000_000;
  get_candles = λ h symbol. some (
      replicate 60 (record {
        open_time = 0;
        high = number 101;
        low = number 99;
        close = number 100;
        volume = number 1;
      }));
  reference_price = λ h symbol. none;
  create_order = λ h symbol side quantity. none;
  has_pending_order = λ h symbol side. false;
  get_portfolio_state = some (portfolio equity);
  recent_closed_trades = λ h. none;
  new_decision_id = λ h. 7;
  strategies = (λ symbol ohlcv regime. some signal) ∷ [];
  strategy_performance = [];
  correlation_matrix = [];
}

abbrev config : String → Bool → AgentConfig Fixed
config mode dry_run = record {
  symbols = "A/USDC" ∷ [];
  timeframe = "1h";
  max_trade_risk = lit 1 2;
  max_daily_loss = lit 3 2;
  max_drawdown = lit 1 1;
  min_balance_floor = none;
  limits = record {
    max_open_positions = 5;
    max_portfolio_exposure = lit 6 1;
    max_position_size = lit 2 1;
    cooldown_seconds = 900;
    max_trades_per_hour = 4;
    min_time_between_entries_seconds = 300;
  };
  minimum_confidence = lit 7 1;
  minimum_expected_edge = lit 3 3;
  trading_mode = "live";
  allow_live_flag = true;
  execution_mode = mode;
  dry_run = dry_run;
  closed_candles_only = true;
  one_trade_per_candle = true;
  estimated_transaction_cost = lit 3 3;
  round_trip_cost_by_symbol = [];
  min_agreeing_strategies = 1;
  entry_regimes = none;
  timeframe_aware_regime = false;
  analysis_log_window_seconds = none;
  supervisor_enabled = false;
  signal_exit_ema = none;
  entry_trend_ema = none;
  entry_min_breadth = none;
  stop_atr_multiple = lit 15 1;
}

run_tick-Phone_example :
    All (λ e. is_sent e ≡ false) (run_tick (world (number 1_000)) (config "phone" false) []).1
run_tick-Phone_example = run_tick-Phone (world (number 1_000)) (config "phone" false) [] refl

-- The adapter does not say that it supports no withdrawals.
run_tick-Guarded_example :
    All (λ e. is_sent e ≡ false) (run_tick (world (number 1_000)) (config "server" false) []).1
unfolding may_send assert_live_order_allowed
run_tick-Guarded_example = run_tick-Guarded (world (number 1_000)) (config "server" false) [] refl

run_tick-DryRun_example :
    All (λ e. is_purchase e ≡ false) (run_tick (world (number 1_000)) (config "phone" true) []).1
    × (((s : PortfolioState Fixed)
          → some (portfolio (number 1_000)) ≡ some s
          → flattens_on
              (world (number 1_000))
              (config "phone" true)
              (breach_of (world (number 1_000)) (config "phone" true) s)
            ≡ false)
        → All
            (λ e. is_order e ≡ false)
            (run_tick (world (number 1_000)) (config "phone" true) []).1)
run_tick-DryRun_example = run_tick-DryRun (world (number 1_000)) (config "phone" true) [] refl

-- An equity of 800 after a peak of 1000.
breached_example :
    breach_of (world (number 800)) (config "phone" false) (portfolio (number 800)) ≢ none
unfolding check_account_wide_limits drawdown daily_loss_fraction
breached_example e = ground arith

run_tick-Breach_example :
    All (λ e. is_purchase e ≡ false) (run_tick (world (number 800)) (config "phone" false) []).1
run_tick-Breach_example =
    run_tick-Breach (world (number 800)) (config "phone" false) [] (portfolio (number 800)) refl
      breached_example

abbrev series : Fixed → List Fixed
series x = replicate 16 x

abbrev setup : Setup Fixed
setup = record {
  symbol = "A/USDC";
  ohlcv = record {
    high = series (number 101);
    low = series (number 99);
    close = series (number 100);
    volume = series (number 1);
  };
  regime = record {
    market_regime = bull;
    volatility_regime = normal;
    trend_strength = number 25;
    realized_volatility = lit 5 1;
    drawdown_from_high = number 0;
  };
  price = number 100;
  correlated = [];
}

abbrev decision : Decision Fixed
decision = record {
  symbol = "A/USDC";
  action = buy;
  direction = some long;
  confidence = lit 8 1;
  score = zero_breakdown;
  reasons_for = [];
  reasons_against = [];
  contributing_signals = signal ∷ [];
  id = none;
  executed = false;
  entry_regime = some bull;
}

abbrev agent : Agent Fixed
agent = record {
  state = portfolio (number 1_000);
  quiet_symbols = [];
  verdict = no_verdict;
  breadth = none;
  history = [];
}

abbrev planned : RiskPlan Fixed
planned = record {
  entry = number 100;
  stop_loss = number 97;
  take_profit_1 = lit 1_045 1;
  take_profit_2 = number 109;
  trailing_stop_distance = number 3;
  risk_reward_ratio = lit 15 1;
}

abbrev size : PositionSizeResult Fixed
size = record {
  quantity = number 2;
  notional = number 200;
  risk_amount = number 6;
  capped_by = some max_position_size;
}

tick_on-Room_example :
    let after = (tick_on (world (number 1_000)) (config "phone" false) agent).1 in
    (held after ≤ 5)
    × (held agent + given buy_side after.history ≤ held after + given sell_side after.history)
tick_on-Room_example =
    tick_on-Room (world (number 1_000)) (config "phone" false) 5 agent refl (omega arith)
      (omega arith)

-- The same agent with a position, and a SHORT.
abbrev holder : Agent Fixed
holder = record agent {
  state = record agent.state {
    open_positions =
        ("A/USDC", record { notional = number 200; quantity = number 2; entry_price = number 100 })
        ∷ [];
  };
}

plan_for-SellsHeld_example :
    (short ≡ short)
    × ((position : OpenPosition Fixed) × (get "A/USDC" holder.state.open_positions ≡ some position)
        × (number 2 ≡ position.quantity))
    × ((number 2 <= of_ℕ 0) ≡ false)
    × (false ≡ false)
unfolding plan_for short_plan close_plan get
plan_for-SellsHeld_example =
    plan_for-SellsHeld (world (number 1_000)) (config "phone" false) setup decision short holder
      {quantity = number 2} refl

plan_for-IsChecked_example :
    IsChecked (world (number 1_000)) (config "phone" false) setup decision long agent size
unfolding plan_for entry_refusal long_plan supervised_plan open_plan risk_plan_gates sized
    size_request risk_check atr ema true_ranges true_range ema_from build_risk_plan
    calculate_position_size wanted_risk stop_distance wanted_notional position_cap exposure_room
    check_trade_against_limits correlated first_refusal current_exposure too_correlated allows
    same_key get
plan_for-IsChecked_example =
    plan_for-IsChecked (world (number 1_000)) (config "phone" false) setup decision long agent
      {q = planned} {size = size} refl
