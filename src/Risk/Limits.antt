-- ===== src/Risk/Limits.antt =====
-- trading_engine/risk/risk_engine.py
pub mod Account
pub mod Trade
use neuravex.Prelude.{
  ℕ, String, Bool, true, false, not, ◌&&◌, ◌||◌, Option, none, some, List, [], ◌∷◌, foldl, map, ltb,
  leb, length, if◌then◌else◌, later,
}
use neuravex.Prelude.Dict.{Dict, get, contains, values}
use neuravex.Float.{Float, ◌+◌, ◌-◌, ◌/◌, ◌<=◌, ◌>◌, ◌>=◌, lit, of_ℕ, neg, truthy, max}

-- An entry of `open_positions`.
pub record OpenPosition (F : Type 0) : Type 0 where
  pub notional : F
  pub quantity : F
  pub entry_price : F

-- Times are naive UTC, in seconds.
pub record PortfolioState (F : Type 0) : Type 0 where
  pub equity : F
  pub peak_equity : F
  pub cash : F
  pub open_positions : Dict (OpenPosition F)
  pub daily_pnl : F
  pub daily_start_equity : F
  pub trades_this_hour : ℕ
  pub last_entry_time : Option ℕ
  pub last_signal_time_by_symbol : Dict ℕ

pub data Limit : Type 0 where
  min_balance_floor max_drawdown max_daily_loss : Limit

-- The exception RiskLimitBreach, without its message.
pub record RiskLimitBreach : Type 0 where
  pub should_flatten : Bool
  pub limit : Limit

pub data Refusal : Type 0 where
  already_open max_open_positions position_size correlated_exposure portfolio_exposure cooldown
        trades_per_hour time_between_entries :
      Refusal

-- `none` is the reason "approved".
pub record RiskCheckResult (F : Type 0) : Type 0 where
  pub refusal : Option Refusal
  pub correlation_penalty : F

abbrev pub approved : {F : Type 0} → RiskCheckResult F → Bool
approved r = elim r.refusal [ none ↦ true | some _ ↦ false ]

-- DRAWDOWN_HALT_COOLDOWN, seven days.
abbrev pub drawdown_halt_cooldown : ℕ
drawdown_halt_cooldown = 604_800

-- The configured limits of one trade.
pub record TradeLimits (F : Type 0) : Type 0 where
  pub max_open_positions : ℕ
  pub max_portfolio_exposure : F
  pub max_position_size : F
  pub cooldown_seconds : ℕ
  pub max_trades_per_hour : ℕ
  pub min_time_between_entries_seconds : ℕ

-- The notional and the penalty that the loop over `correlated_symbols` adds up.
pub record Correlated (F : Type 0) : Type 0 where
  pub notional : F
  pub penalty : F

-- `t and (now - t).total_seconds() < seconds`, the sides moved so that nothing is subtracted.
abbrev pub too_recent : ℕ → Option ℕ → ℕ → Bool
too_recent now none seconds = false
too_recent now (some t) seconds = ltb now (later t seconds)

module _ {F : Type 0} ⦃fl : Float F⦄ where
  abbrev pub below_floor : PortfolioState F → Option F → Bool
  below_floor s none = false
  below_floor s (some floor) = s.equity <= floor

  unfoldable pub drawdown : PortfolioState F → F
  drawdown s = if truthy s.peak_equity then (s.peak_equity - s.equity) / s.peak_equity else of_ℕ 0

  unfoldable pub daily_loss_fraction : PortfolioState F → F
  daily_loss_fraction s =
      if truthy s.daily_start_equity then neg s.daily_pnl / s.daily_start_equity else of_ℕ 0

  -- `none` is a return without an exception.
  unfoldable pub check_account_wide_limits :
      PortfolioState F → F → F → Option F → Option RiskLimitBreach
  check_account_wide_limits s daily_limit drawdown_limit floor =
      if below_floor s floor
      then some (record { should_flatten = true; limit = min_balance_floor })
      else if drawdown s >= drawdown_limit
      then some (record { should_flatten = true; limit = max_drawdown })
      else if daily_loss_fraction s >= daily_limit
      then some (record { should_flatten = false; limit = max_daily_loss })
      else none

  add_correlated : PortfolioState F → Correlated F → String × F → Correlated F
  add_correlated s acc (other, corr) = elim (get other s.open_positions) [
    | none ↦ acc
    | some p ↦
        if corr >= lit 7 1
        then record { notional = acc.notional + p.notional; penalty = max acc.penalty corr }
        else acc
  ]

  unfoldable pub correlated : PortfolioState F → Dict F → Correlated F
  unfolding add_correlated
  correlated s symbols =
      foldl (add_correlated s) (record { notional = of_ℕ 0; penalty = of_ℕ 0 }) symbols

  -- `x / equity > limit if equity else True`
  abbrev pub exceeds : F → F → F → Bool
  exceeds x equity limit = if truthy equity then (x / equity) > limit else true

  unfoldable pub current_exposure : PortfolioState F → F
  current_exposure s = foldl ◌+◌ (of_ℕ 0) (map (λ p. p.notional) (values s.open_positions))

  unfoldable pub too_correlated : PortfolioState F → Correlated F → F → F → Bool
  too_correlated s c proposed limit =
      (c.notional > of_ℕ 0)
      && ((if truthy s.equity then (c.notional + proposed) / s.equity else of_ℕ 1) > limit)

  -- The ladder of checks; the first that fails is the reason.
  unfoldable pub first_refusal :
      String → F → PortfolioState F → TradeLimits F → Correlated F → ℕ → Option Refusal
  first_refusal symbol proposed s l c now =
      if contains symbol s.open_positions
      then some already_open
      else if leb l.max_open_positions (length s.open_positions)
      then some max_open_positions
      else if exceeds proposed s.equity l.max_position_size
      then some position_size
      else if too_correlated s c proposed l.max_portfolio_exposure
      then some correlated_exposure
      else if exceeds (current_exposure s + proposed) s.equity l.max_portfolio_exposure
      then some portfolio_exposure
      else if too_recent now (get symbol s.last_signal_time_by_symbol) l.cooldown_seconds
      then some cooldown
      else if leb l.max_trades_per_hour s.trades_this_hour
      then some trades_per_hour
      else if too_recent now s.last_entry_time l.min_time_between_entries_seconds
      then some time_between_entries
      else none

  unfoldable pub check_trade_against_limits :
      String → F → PortfolioState F → TradeLimits F → Dict F → ℕ → RiskCheckResult F
  unfolding first_refusal
  check_trade_against_limits symbol proposed s l correlated_symbols now =
      let c = correlated s correlated_symbols in
      record { refusal = first_refusal symbol proposed s l c now; correlation_penalty = c.penalty }
