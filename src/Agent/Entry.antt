-- ===== src/Agent/Entry.antt =====
-- What the agent decides to do about a decision of the engine: the gates of `_process_symbol` between
-- score_signals and the execution.
use neuravex.Prelude.{
  ℕ, suc, String, Bool, false, not, ◌&&◌, Option, none, some, List, [], ◌∷◌, map, any, ltb, leb,
  length, str_eq, last?, if◌then◌else◌, or_else, later,
}
use neuravex.Prelude.Dict.{Dict, get}
use neuravex.Float.{Float, ◌*◌, ◌/◌, ◌<◌, ◌<=◌, ◌>◌, ◌>=◌, of_ℕ, truthy}
use neuravex.Market.Indicators.{ema, atr}
use neuravex.Market.Regime.{RegimeReading}
use neuravex.Risk.Plan.{
  Direction, long, short, flat, RiskPlan, Planned, plan, refused, build_risk_plan,
}
use neuravex.Risk.Sizing.{SizingRequest, PositionSizeResult, calculate_position_size}
use neuravex.Risk.Limits.{
  OpenPosition, RiskCheckResult, current_exposure, check_trade_against_limits, approved,
}
use neuravex.Risk.Exits.{default_multipliers}
use neuravex.Execution.Paper.{buy, sell}
use neuravex.Strategies.Signal.{Ohlcv}
use neuravex.Supervisor.{allows}
use neuravex.Decision.{Decision, is_empty}
use neuravex.Decision.Reasons.{
  Reason, no_held_quantity, above_exit_ema, close_in_flight, few_strategies, regime_not_allowed,
  below_trend_ema, narrow_market, supervisor_blocks, short_without_holding, buy_in_flight,
  risk_engine, zero_quantity,
}
use neuravex.Agent.{AgentConfig, Candle, World, Agent, History, timeframe_seconds, regime_name}

-- What is known of a symbol when its decision is made.
pub record Setup (F : Type 0) : Type 0 where
  pub symbol : String
  pub ohlcv : Ohlcv F
  pub regime : RegimeReading F
  pub price : F
  pub correlated : Dict F

-- What the gates end in.
pub data Plan (F : Type 0) : Type 0 where
  refuse : Reason F → Plan F
  close_held : F → Plan F
  enter : RiskPlan F → PositionSizeResult F → Plan F
  failed : Plan F

module _ {F : Type 0} ⦃fl : Float F⦄ where
  -- `xs[-1]`, of a series that is not empty.
  abbrev pub at_end : List F → F
  at_end xs = or_else (last? xs) fl.nan

  -- `_above_ema`
  unfoldable pub above_ema : List F → ℕ → Bool
  above_ema closes period =
      leb period (length closes) && (at_end closes > at_end (ema closes period))

  -- `_closed_candles` at a time: the last candles that have not closed are dropped.
  abbrev is_closed : ℕ → ℕ → Candle F → Bool
  is_closed seconds now c = leb (later c.open_time seconds) now

  drop_open : ℕ → ℕ → List (Candle F) → List (Candle F)
  drop_open seconds now [] = []
  drop_open seconds now (c ∷ cs) =
      let rest = drop_open seconds now cs in
      if is_empty rest && not (is_closed seconds now c) then [] else c ∷ rest

  pub closed_candles :
      World F → AgentConfig F → History F → List (Candle F) → Option (List (Candle F))
  unfolding drop_open
  closed_candles w cfg h [] = some []
  closed_candles w cfg h (c ∷ cs) = elim (timeframe_seconds cfg) [
    | none ↦ none
    | some seconds ↦ some (drop_open seconds (w.clock h) (c ∷ cs))
  ]

  -- The candles that count, by `closed_candles_only`.
  unfoldable pub counted_candles :
      World F → AgentConfig F → History F → List (Candle F) → Option (List (Candle F))
  counted_candles w cfg h cs =
      if cfg.closed_candles_only then closed_candles w cfg h cs else some cs

  -- The number of symbols above their EMA; `none` where a call for candles raises.
  count_above : World F → AgentConfig F → History F → ℕ → List String → Option ℕ
  count_above w cfg h period [] = some 0
  count_above w cfg h period (s ∷ symbols) =
      let rest = count_above w cfg h period symbols in
      elim (w.get_candles h s) [
        | none ↦ none
        | some fetched ↦ elim (counted_candles w cfg h fetched) [
          | none ↦ none
          | some cs ↦ elim rest [
            | none ↦ none
            | some n ↦ some (if above_ema (map (λ c. c.close) cs) period then suc n else n)
          ]
        ]
      ]

  -- `_market_breadth`: worked out once per tick.
  pub market_breadth : World F → AgentConfig F → Agent F → ℕ → Option F
  unfolding count_above
  market_breadth w cfg a period = elim a.breadth [
    | some b ↦ some b
    | none ↦ elim (count_above w cfg a.history period cfg.symbols) [
      | none ↦ none
      | some n ↦ some (of_ℕ n / of_ℕ (length cfg.symbols))
    ]
  ]

  module _ (w : World F) (cfg : AgentConfig F) (s : Setup F) (d : Decision F) where
    -- A SHORT on a held symbol.
    unfoldable pub close_plan : Agent F → OpenPosition F → Plan F
    close_plan a held = if held.quantity <= of_ℕ 0 then refuse no_held_quantity else elim exit_ema [
      | some n ↦ refuse (above_exit_ema n)
      | none ↦
          if w.has_pending_order a.history s.symbol sell
          then refuse close_in_flight
          else close_held held.quantity
    ]
      where
        exit_ema : Option ℕ
        exit_ema = elim cfg.signal_exit_ema [
          | none ↦ none
          | some n ↦ if at_end s.ohlcv.close >= at_end (ema s.ohlcv.close n) then some n else none
        ]

    abbrev regime_excluded : Bool
    regime_excluded = elim cfg.entry_regimes [
      | none ↦ false
      | some names ↦ not (any (str_eq (regime_name s.regime.market_regime)) names)
    ]

    below_trend : Option ℕ
    below_trend = elim cfg.entry_trend_ema [
      | none ↦ none
      | some n ↦ if above_ema s.ohlcv.close n then none else some n
    ]

    -- The gates of a LONG that look at the symbol alone.
    unfoldable pub entry_refusal : Option (Reason F)
    unfolding below_trend
    entry_refusal =
        if ltb (length d.contributing_signals) cfg.min_agreeing_strategies
        then some (few_strategies (length d.contributing_signals) cfg.min_agreeing_strategies)
        else if regime_excluded
        then some (regime_not_allowed s.regime.market_regime)
        else elim below_trend [ none ↦ none | some n ↦ some (below_trend_ema n) ]

    -- The size of an entry at a risk plan.
    unfoldable pub size_request : Agent F → RiskPlan F → F → SizingRequest F
    size_request a p penalty = record {
      account_equity = a.state.equity;
      entry_price = s.price;
      stop_loss_price = p.stop_loss;
      confidence = d.confidence;
      max_trade_risk = cfg.max_trade_risk * a.verdict.risk_multiplier;
      max_position_size_fraction = cfg.limits.max_position_size;
      current_portfolio_exposure_fraction =
          if truthy a.state.equity then current_exposure a.state / a.state.equity else of_ℕ 0;
      max_portfolio_exposure_fraction = cfg.limits.max_portfolio_exposure;
      correlation_penalty = penalty;
    }

    unfoldable pub sized : RiskPlan F → Option (PositionSizeResult F) → Plan F
    sized p none = failed
    sized p (some size) =
        if size.quantity <= of_ℕ 0 then refuse (zero_quantity size.capped_by) else enter p size

    unfoldable pub risk_check : Agent F → RiskCheckResult F
    risk_check a =
        check_trade_against_limits s.symbol (a.state.equity * cfg.max_trade_risk * of_ℕ 10) a.state
          cfg.limits s.correlated (w.clock a.history)

    -- From the risk plan on, for a LONG that passed its gates and for a SHORT.
    unfoldable pub risk_plan_gates : Direction → Agent F → Planned F → Plan F
    unfolding sized
    risk_plan_gates direction a (refused _) = failed
    risk_plan_gates short a (plan p) = refuse short_without_holding
    risk_plan_gates _ a (plan p) =
        if w.has_pending_order a.history s.symbol buy
        then refuse buy_in_flight
        else if approved (risk_check a)
        then sized p (calculate_position_size (size_request a p (risk_check a).correlation_penalty))
        else refuse (risk_engine (risk_check a).refusal)

    unfoldable pub open_plan : Direction → Agent F → Plan F
    unfolding risk_plan_gates
    open_plan direction a = risk_plan_gates direction a (
        build_risk_plan s.price direction (at_end (atr s.ohlcv.high s.ohlcv.low s.ohlcv.close 14))
          (default_multipliers cfg.stop_atr_multiple))

    -- The supervisor's gate, the last of a LONG.
    unfoldable pub supervised_plan : Agent F → Plan F
    supervised_plan a =
        if any (λ g. allows a.verdict g.strategy_name (regime_name s.regime.market_regime))
          d.contributing_signals
        then open_plan long a
        else refuse (supervisor_blocks s.regime.market_regime)

    -- The breadth gate, which keeps what it worked out.
    unfoldable pub breadth_plan : Agent F → F → Option F → Plan F × Agent F
    breadth_plan a least none = (failed, a)
    breadth_plan a least (some b) =
        let after = record a { breadth = some b } in
        (if b < least then refuse (narrow_market b least) else supervised_plan after, after)

    unfoldable pub long_plan : Agent F → Option (Reason F) → Option F → Option ℕ → Plan F × Agent F
    unfolding breadth_plan
    long_plan a (some reason) least trend = (refuse reason, a)
    long_plan a none (some least) (some n) = breadth_plan a least (market_breadth w cfg a n)
    long_plan a none none trend = (supervised_plan a, a)
    long_plan a none (some _) none = (supervised_plan a, a)

    unfoldable pub short_plan : Agent F → Option (OpenPosition F) → Plan F
    short_plan a (some held) = close_plan a held
    short_plan a none = open_plan short a

    unfoldable pub plan_for : Direction → Agent F → Plan F × Agent F
    unfolding long_plan short_plan
    plan_for long a = long_plan a entry_refusal cfg.entry_min_breadth cfg.entry_trend_ema
    plan_for short a = (short_plan a (get s.symbol a.state.open_positions), a)
    plan_for flat a = (open_plan flat a, a)
