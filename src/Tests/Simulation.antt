-- ===== src/Tests/Simulation.antt =====
-- The exits of a simulation and what is saved of it at concrete numbers.
use neuravex.Prelude.{
  ◌≡◌, refl, true, none, some, List, String, [], ◌∷◌, arith, false≢true, or_else,
}
use neuravex.Prelude.Dict.{get}
use neuravex.Float.{lit}
use neuravex.Float.Fixed.{Fixed, fixed_float}
use neuravex.Risk.Exits.{atr_stop_price, evaluate_exit, net_profit_if_sold}
use neuravex.Risk.Limits.{PortfolioState}
use neuravex.Execution.Symbol.{has_slash}
use neuravex.Execution.Paper.{PaperExchange}
use neuravex.Backend.History.Portfolio.{get_portfolio_state, own_snapshots, simulated_positions}
use neuravex.Backend.SimulatedExits.{Sweep, Simulation, apply_simulated_exits, exit_at, sale_basis}
use neuravex.Backend.SimulatedExits.Kept.{apply_simulated_exits-Keeps}
use neuravex.Backend.PaperState.{paper_equity, persist_paper_state, save_paper_snapshot}
use neuravex.Backend.PaperState.Restored.{persist_paper_state-Restored}
use neuravex.Tests.Backend.{database, history, number, store}

abbrev exchange : PaperExchange Fixed
exchange = record {
  balances = ("USDC", number 500) ∷ ("A", number 2) ∷ ("B", number 3) ∷ [];
  cost_basis = ("A", number 100) ∷ ("B", number 10) ∷ [];
  last_price =
      ("A/USDC", record { price = number 130; at = 880; aware = true })
      ∷ ("B/USDC", record { price = number 10; at = 880; aware = true })
      ∷ [];
  orders = [];
  taker_fee = lit 1 3;
  maker_fee = lit 1 3;
  slippage_bps = number 5;
  slippage_bps_by_symbol = [];
  max_price_age_seconds = 120;
}

-- A is above its target of twenty dollars, B is not.
abbrev sweep : Sweep Fixed
sweep = record {
  store = store;
  account_id = "acc";
  last_prices = ("A/USDC", number 130) ∷ ("B/USDC", number 10) ∷ [];
  take_profit_usdc = some (number 20);
  stop_atr_multiple = number 3;
  candles = λ symbol. [];
  history = history;
  now = 900;
  new_id = λ asset. asset;
}

abbrev simulation : Simulation Fixed
simulation = record { exchange = exchange; orders = []; database = database [] }

apply_simulated_exits-Keeps_example :
    get "B" (apply_simulated_exits sweep simulation).exchange.balances ≡ get "B" exchange.balances
unfolding has_slash sale_basis exit_at get atr_stop_price evaluate_exit net_profit_if_sold
apply_simulated_exits-Keeps_example =
    apply_simulated_exits-Keeps sweep simulation "B" (refl, (refl, (refl, tt))) refl
      ((λ e. absurd (false≢true e)), ((λ e. absurd (false≢true e)), ((λ e. refl), tt)))

abbrev prices : List (String × Fixed)
prices = ("A/USDC", number 130) ∷ ("B/USDC", number 10) ∷ []

abbrev blank : PortfolioState Fixed
blank = record {
  equity = number 0;
  peak_equity = number 0;
  cash = number 0;
  open_positions = [];
  daily_pnl = number 0;
  daily_start_equity = number 0;
  trades_this_hour = 0;
  last_entry_time = none;
  last_signal_time_by_symbol = [];
}

-- What the tick after the save reads: 500 + 2 * 130 + 3 * 10 dollars.
abbrev restored : PortfolioState Fixed
restored =
    or_else
      (get_portfolio_state store "acc" 960 (persist_paper_state "acc" exchange prices 900 history))
      blank

persist_paper_state-Restored_example :
    (restored.equity ≡ paper_equity exchange.balances prices)
    × (restored.open_positions ≡ simulated_positions exchange.cost_basis exchange.balances)
unfolding own_snapshots get_portfolio_state persist_paper_state save_paper_snapshot
persist_paper_state-Restored_example =
    persist_paper_state-Restored store "acc" exchange prices 900 960 history {state = restored} refl
      (omega arith, (omega arith, tt)) refl
