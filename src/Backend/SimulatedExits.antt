-- ===== src/Backend/SimulatedExits.antt =====
-- The exits of a simulation: _apply_simulated_exits of backend/app/core/tasks.py, on the paper exchange.
-- Reading the candles of a paper exchange does not raise, and the saved rows of the decisions and the
-- orders are the list `orders`.
pub mod Kept
use neuravex.Prelude.{
  ℕ, String, ◌||◌, Option, none, some, List, [], ◌∷◌, ◌++◌, keep, map, take_last, leb, later,
  str_eq, if◌then◌else◌,
}
use neuravex.Prelude.Dict.{Dict, get}
use neuravex.Float.{Float, ◌<=◌, of_ℕ}
use neuravex.Risk.Exits.{ExitDecision, atr_stop_price, evaluate_exit, default_sell_cost_rate}
use neuravex.Execution.Symbol.{symbol_of}
use neuravex.Execution.Paper.{
  OrderResult, PaperExchange, Result, ok, err, sell, market, create_order,
}
use neuravex.Execution.Pending.{Database}
use neuravex.Agent.{Candle}
use neuravex.Backend.History.{History, Store}
use neuravex.Backend.Learning.{record_realized_trade}

-- `_TIMEFRAME_SECONDS`
abbrev pub timeframe_seconds : ℕ
timeframe_seconds = 14_400

-- `_CANDLE_LIMIT`
abbrev pub candle_limit : ℕ
candle_limit = 300

-- What a sweep is called with: `candles` are those that were loaded for a symbol, and `new_id` the uuid of
-- an asset's order.
pub record Sweep (F : Type 0) : Type 0 where
  pub store : Store F
  pub account_id : String
  pub last_prices : Dict F
  pub take_profit_usdc : Option F
  pub stop_atr_multiple : F
  pub candles : String → List (Candle F)
  pub history : History F
  pub now : ℕ
  pub new_id : String → String

pub record Simulation (F : Type 0) : Type 0 where
  pub exchange : PaperExchange F
  pub orders : List (OrderResult F)
  pub database : Database F

module _ {F : Type 0} where
  -- `_closed_candles`
  abbrev pub closed_candles : ℕ → List (Candle F) → List (Candle F)
  closed_candles now candles = keep (λ c. leb (later c.open_time timeframe_seconds) now) candles

module _ {F : Type 0} ⦃fl : Float F⦄ (s : Sweep F) where
  -- The rule of the exits for a position of this cost basis, at this price.
  unfoldable pub exit_at : String → F → F → F → Option (ExitDecision F)
  exit_at symbol quantity entry_price price =
      let closed = closed_candles s.now (take_last candle_limit (s.candles symbol)) in
      evaluate_exit quantity entry_price price
        (atr_stop_price entry_price (map (λ c. c.high) closed) (map (λ c. c.low) closed)
          (map (λ c. c.close) closed) s.stop_atr_multiple)
        s.take_profit_usdc default_sell_cost_rate

  exit_price : String → F → F → Option F → Option F
  unfolding exit_at
  exit_price symbol quantity entry_price none = none
  exit_price symbol quantity entry_price (some price) =
      elim (exit_at symbol quantity entry_price price) [ none ↦ none | some _ ↦ some entry_price ]

  -- The cost basis of a holding that is to be sold.
  unfoldable pub sale_basis : Dict F → String × F → Option F
  unfolding exit_price
  sale_basis cost_basis (asset, quantity) =
      if str_eq asset "USDC" || (quantity <= of_ℕ 0) then none else elim (get asset cost_basis) [
        | none ↦ none
        | some entry_price ↦
            exit_price (symbol_of asset "USDC") quantity entry_price
              (get (symbol_of asset "USDC") s.last_prices)
      ]

  -- What is saved of a sale; an order that raises leaves nothing but the exchange.
  unfoldable pub save_sale :
      String → F → Simulation F → Result (OrderResult F) × PaperExchange F → Simulation F
  save_sale asset entry_price sim (err e, x) = record sim { exchange = x }
  save_sale asset entry_price sim (ok r, x) = record {
    exchange = x;
    orders = sim.orders ++ r ∷ [];
    database =
        record_realized_trade s.store s.account_id (symbol_of asset "USDC") (some entry_price) r
          s.now s.history sim.database;
  }

  unfoldable pub sell_all : Simulation F → String × F → Option F → Simulation F
  unfolding save_sale
  sell_all sim (asset, quantity) none = sim
  sell_all sim (asset, quantity) (some entry_price) = save_sale asset entry_price sim (
      create_order sim.exchange (symbol_of asset "USDC") sell market quantity none (s.new_id asset)
        s.now)

  unfoldable pub exit_each : Dict F → List (String × F) → Simulation F → Simulation F
  unfolding sell_all
  exit_each cost_basis [] sim = sim
  exit_each cost_basis (holding ∷ rest) sim =
      exit_each cost_basis rest (sell_all sim holding (sale_basis cost_basis holding))

  -- The balances and the cost basis are those from before the first sale.
  unfoldable pub apply_simulated_exits : Simulation F → Simulation F
  unfolding exit_each
  apply_simulated_exits sim = exit_each sim.exchange.cost_basis sim.exchange.balances sim
