-- ===== src/Backtest/Engine.antt =====
-- trading_engine/backtesting/engine.py. Every array that a bar reads is a slice of the whole series, as
-- in the code. `none` is an exception: of scoring signals that are all FLAT, of an ATR or a stop price
-- that is not above zero.
use Prim.Native.Nat.{◌-◌ as monus}
use neuravex.Prelude.{
  ℕ, zero, suc, Bool, true, false, not, ◌&&◌, ◌||◌, Option, none, some, List, [], ◌∷◌, ◌++◌, length,
  take, drop, get_elem?, keep, or_else, if◌then◌else◌,
}
use mathlib.Core.Option
use neuravex.Float.{Float, ◌+◌, ◌-◌, ◌*◌, ◌/◌, ◌<=◌, ◌>◌, ◌>=◌, lit, of_ℕ, truthy, max}
use neuravex.Market.Numpy.{Numpy}
use neuravex.Market.Indicators.{atr}
use neuravex.Market.Regime.{detect_regime}
use neuravex.Risk.Plan.{Direction, long, short, RiskPlan, Planned, plan, refused, build_risk_plan}
use neuravex.Risk.Sizing.{PositionSizeResult, calculate_position_size}
use neuravex.Risk.Exits.{default_multipliers}
use neuravex.Strategies.Arrays.{latest}
use neuravex.Strategies.Signal.{Ohlcv}
use neuravex.Strategies.Regimes.{signals_of}
use neuravex.Decision.{Decision, Action, buy, sell, no_trade, score_signals, is_long}
use neuravex.Agent.{Candle}
use neuravex.Backtest.{
  TradeExit, stop, target, opposite_signal, Trade, BacktestResult, BacktestRequest, Run, columns,
  window_at,
}

module _ {F : Type 0} ⦃fl : Float F⦄ where
  abbrev plan_or_raise : Planned F → Option (RiskPlan F)
  plan_or_raise (plan p) = some p
  plan_or_raise (refused _) = none

  module _ (np : Numpy F) (r : BacktestRequest F) where
    -- 1.0 if the volume of the bar is above the mean of the twenty before it.
    abbrev volume_score : ℕ → Ohlcv F → F
    volume_score i all =
        if or_else (get_elem? all.volume i) fl.nan > np.mean (drop (monus i 20) (take i all.volume))
        then of_ℕ 1
        else of_ℕ 0

    abbrev exit_at : Direction → F → F
    exit_at direction price =
        if is_long direction
        then price * (of_ℕ 1 - r.slippage_bps / of_ℕ 10_000)
        else price * (of_ℕ 1 + r.slippage_bps / of_ℕ 10_000)

    abbrev entry_at : Direction → F → F
    entry_at direction price =
        if is_long direction
        then price * (of_ℕ 1 + r.slippage_bps / of_ℕ 10_000)
        else price * (of_ℕ 1 - r.slippage_bps / of_ℕ 10_000)

    unfoldable pub decide : ℕ → Ohlcv F → Option (Decision F)
    decide i all =
        let seen = window_at i all in
        let regime = detect_regime np 8_760 24 seen.high seen.low seen.close in
        score_signals (record {
          symbol = r.symbol;
          signals = signals_of r.strategies r.symbol seen regime;
          regime = regime;
          strategy_performance = [];
          volume_confirmation_score = volume_score i all;
          correlation_penalty = of_ℕ 0;
          estimated_transaction_cost = r.fee_rate;
          minimum_confidence = r.minimum_confidence;
          minimum_expected_edge = r.minimum_expected_edge;
        })

    -- build_risk_plan at its default multipliers.
    unfoldable pub plan_at : ℕ → Ohlcv F → F → Direction → Option (RiskPlan F)
    plan_at i all entry direction =
        let seen = window_at i all in
        plan_or_raise (
          build_risk_plan entry direction (latest (atr seen.high seen.low seen.close 14))
            (default_multipliers (lit 15 1)))

    unfoldable pub hit_stop : Trade F → RiskPlan F → F → Bool
    hit_stop t p price = if is_long t.direction then price <= p.stop_loss else price >= p.stop_loss

    unfoldable pub hit_target : Trade F → RiskPlan F → F → Bool
    hit_target t p price =
        if is_long t.direction then price >= p.take_profit_1 else price <= p.take_profit_1

    abbrev is_buy : Action → Bool
    is_buy buy = true
    is_buy _ = false

    abbrev is_sell : Action → Bool
    is_sell sell = true
    is_sell _ = false

    unfoldable pub opposite : Trade F → Action → Bool
    opposite t action =
        (is_sell action && is_long t.direction) || (is_buy action && not (is_long t.direction))

    -- The open trade, closed at bar i.
    unfoldable pub closed : Trade F → ℕ → F → TradeExit → Trade F
    closed t i price reason =
        let exit_price = exit_at t.direction price in
        let fee = exit_price * t.quantity * r.fee_rate in
        record t {
          exit_index = some i;
          exit_price = some exit_price;
          pnl =
              if is_long t.direction
              then (exit_price - t.entry_price) * t.quantity - fee
              else (t.entry_price - exit_price) * t.quantity - fee;
          exit_reason = some reason;
        }

    abbrev pub price_at : ℕ → Ohlcv F → F
    price_at i all = or_else (get_elem? all.close i) fl.nan

    unfoldable pub settle : Run F → Trade F → Run F
    settle run t = record run {
      equity = run.equity + t.pnl;
      trades = run.trades ++ t ∷ [];
      open_trade = none;
    }

    -- A bar with an open trade, from its plan.
    unfoldable pub manage : Run F → Trade F → ℕ → F → Action → RiskPlan F → Run F
    unfolding settle
    manage run t i price action p =
        if hit_stop t p price
        then settle run (closed t i price stop)
        else if hit_target t p price
        then settle run (closed t i price target)
        else if opposite t action
        then settle run (closed t i price opposite_signal)
        else run

    -- The trade of an entry of this size, if it is above zero.
    unfoldable pub sized : Run F → Direction → ℕ → F → PositionSizeResult F → Run F
    sized run direction i price size =
        if size.quantity > of_ℕ 0
        then record run {
          open_trade = some (record {
            symbol = r.symbol;
            direction = direction;
            entry_index = i;
            entry_price = entry_at direction price;
            exit_index = none;
            exit_price = none;
            quantity = size.quantity;
            pnl = of_ℕ 0;
            exit_reason = none;
          });
        }
        else run

    unfoldable pub opened : Run F → Direction → ℕ → F → F → RiskPlan F → Option (Run F)
    opened run direction i price confidence p = Option.map (sized run direction i price) (
        calculate_position_size (record {
          account_equity = run.equity;
          entry_price = price;
          stop_loss_price = p.stop_loss;
          confidence = confidence;
          max_trade_risk = r.max_trade_risk;
          max_position_size_fraction = r.max_position_size;
          current_portfolio_exposure_fraction = of_ℕ 0;
          max_portfolio_exposure_fraction = of_ℕ 1;
          correlation_penalty = of_ℕ 0;
        }))

    unfoldable pub enter_for : Run F → Direction → ℕ → Ohlcv F → F → Option (Run F)
    unfolding opened
    enter_for run direction i all confidence =
        Option.bind (plan_at i all (price_at i all) direction)
          (opened run direction i (price_at i all) confidence)

    -- A bar without an open trade. Spot only: a short cannot be opened.
    unfoldable pub enter : Run F → ℕ → Ohlcv F → Action → F → Option (Run F)
    unfolding enter_for
    enter run i all buy confidence = enter_for run long i all confidence
    enter run i all sell confidence =
        if r.spot_only then some run else enter_for run short i all confidence
    enter run i all no_trade confidence = some run

    -- The end of a bar: the peak, the drawdown and the curve.
    unfoldable pub measured : Run F → Run F
    measured run =
        let peak = max run.peak_equity run.equity in
        record run {
          peak_equity = peak;
          max_dd = max run.max_dd (if truthy peak then (peak - run.equity) / peak else of_ℕ 0);
          equity_curve = run.equity_curve ++ run.equity ∷ [];
        }

    unfoldable pub traded : Run F → ℕ → Ohlcv F → Decision F → Option (Trade F) → Option (Run F)
    traded run i all d (some t) =
        Option.map (manage run t i (price_at i all) d.action)
          (plan_at i all t.entry_price t.direction)
    traded run i all d none = enter run i all d.action d.confidence

    unfoldable pub bar : ℕ → Ohlcv F → Run F → Option (Run F)
    unfolding traded measured
    bar i all run =
        Option.bind (decide i all) (λ d. Option.map measured (traded run i all d run.open_trade))

    -- The bars from i on, as many as are left.
    unfoldable pub bars : ℕ → ℕ → Ohlcv F → Run F → Option (Run F)
    bars zero i all run = some run
    bars (suc left) i all run = Option.bind (bar i all run) (bars left (suc i) all)

    abbrev pub start : Run F
    start = record {
      equity = r.starting_equity;
      peak_equity = r.starting_equity;
      equity_curve = r.starting_equity ∷ [];
      trades = [];
      open_trade = none;
      max_dd = of_ℕ 0;
    }

    abbrev win_rate_of : List (Trade F) → F
    win_rate_of [] = of_ℕ 0
    win_rate_of (t ∷ ts) =
        of_ℕ (length (keep (λ u. u.pnl > of_ℕ 0) (t ∷ ts))) / of_ℕ (length (t ∷ ts))

    unfoldable pub result_of : Run F → BacktestResult F
    result_of run = record {
      trades = run.trades;
      equity_curve = run.equity_curve;
      final_equity = run.equity;
      max_drawdown = run.max_dd;
      win_rate = win_rate_of run.trades;
      total_return =
          if truthy r.starting_equity
          then (run.equity - r.starting_equity) / r.starting_equity
          else of_ℕ 0;
    }

    unfoldable pub run_backtest : List (Candle F) → Option (BacktestResult F)
    unfolding bars result_of
    run_backtest candles =
        Option.map result_of
          (bars (monus (length candles) r.warmup_bars) r.warmup_bars (columns candles) start)
