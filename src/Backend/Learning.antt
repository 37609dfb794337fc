-- ===== src/Backend/Learning.antt =====
-- The closed trades of a simulation: record_realized_trade and recent_closed_trades of
-- backend/app/db/sql_data_store.py, which the supervisor of the agent learns from.
pub mod Recall
use mathlib.Core.Option
use neuravex.Prelude.{
  ℕ, String, Bool, true, not, ◌&&◌, ◌||◌, Option, none, some, List, map, keep, leb, later, str_eq,
  if◌then◌else◌,
}
use neuravex.Float.{Float, ◌-◌, ◌*◌, ◌/◌, ◌<=◌, ◌>◌, of_ℕ, truthy}
use neuravex.Supervisor.{ClosedTrade, lookback}
use neuravex.Decision.{is_empty}
use neuravex.Execution.Paper.{OrderResult, sell}
use neuravex.Execution.Pending.{
  Opening, TradeEvent, Database, apply_strategy_result, record_closed_trade, same_side,
}
use neuravex.Backend.History.{History, Store, same_mode, latest_by, is_buy}

module _ {F : Type 0} where
  abbrev closed_trade : TradeEvent F → ClosedTrade F
  closed_trade e = record {
    closed_at = e.created_at;
    pnl = e.pnl;
    strategies = e.strategies;
    regime = e.regime;
  }

  -- `created_at >= now - LOOKBACK`, moved so that nothing is subtracted.
  abbrev is_recalled : Store F → String → ℕ → TradeEvent F → Bool
  is_recalled store account now e =
      str_eq e.account_id account
      && same_mode store.simulated e.simulated
      && leb now (later e.created_at lookback)

  unfoldable pub recent_closed_trades : Store F → String → ℕ → Database F → List (ClosedTrade F)
  recent_closed_trades store account now db =
      map closed_trade (keep (is_recalled store account now) db.trades)

  -- The latest executed BUY of the symbol.
  unfoldable pub opening_of : String → String → History F → Option Opening
  opening_of account symbol h =
      Option.map (λ d. d.opening)
        (latest_by (λ d. d.created_at)
          (keep
            (λ d.
              str_eq d.account_id account
              && str_eq d.symbol symbol
              && is_buy d.action
              && d.executed)
            h.decisions))

module _ {F : Type 0} ⦃fl : Float F⦄ where
  abbrev pub realized_result : F → OrderResult F → F
  realized_result entry_price r = (r.average_fill_price - entry_price) * r.filled_quantity - r.fee

  unfoldable pub learn :
      Store F → String → F → OrderResult F → ℕ → Opening → Database F → Database F
  learn store account entry_price r now opening db =
      let realized = realized_result entry_price r in
      record_closed_trade account opening realized true now (
        if store.shares_strategy_record
        then apply_strategy_result opening.contributing_strategies (realized > of_ℕ 0)
            (realized / r.filled_quantity) db
        else db)

  learn_from : Store F → String → F → OrderResult F → ℕ → Option Opening → Database F → Database F
  unfolding learn
  learn_from store account entry_price r now none db = db
  learn_from store account entry_price r now (some opening) db =
      if is_empty opening.contributing_strategies
      then db
      else learn store account entry_price r now opening db

  unfoldable pub record_realized_trade :
      Store F → String → String → Option F → OrderResult F → ℕ → History F → Database F → Database F
  unfolding learn_from
  record_realized_trade store account symbol none r now h db = db
  record_realized_trade store account symbol (some entry_price) r now h db =
      if not store.simulated || (entry_price <= of_ℕ 0) || not (truthy r.filled_quantity)
      then db
      else if not (same_side r.side sell)
      then db
      else learn_from store account entry_price r now (opening_of account symbol h) db
