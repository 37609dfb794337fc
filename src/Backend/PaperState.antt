-- ===== src/Backend/PaperState.antt =====
-- How a simulation is saved between two ticks: _persist_paper_state and _save_paper_snapshot of
-- backend/app/core/tasks.py. Of a snapshot the equity, its time and its mode are kept, as in History.
pub mod Restored
use neuravex.Prelude.{
  ℕ, String, Bool, true, ◌&&◌, ◌||◌, Option, none, some, [], ◌∷◌, ◌++◌, find, str_eq, or_else,
  if◌then◌else◌,
}
use neuravex.Prelude.Dict.{Dict, get}
use neuravex.Float.{Float, ◌+◌, ◌*◌, ◌<=◌, of_ℕ}
use neuravex.Execution.Symbol.{base_of, has_slash}
use neuravex.Execution.Paper.{PaperExchange}
use neuravex.Backend.History.{History}

module _ {F : Type 0} ⦃fl : Float F⦄ where
  -- `sym.startswith(f"{asset}/")`, for an asset without a slash.
  abbrev is_priced_by : String → String × F → Bool
  is_priced_by asset (symbol, _) = has_slash symbol && str_eq (base_of symbol) asset

  abbrev value_added : F → F → Option (String × F) → F
  value_added equity amount none = equity
  value_added equity amount (some (_, price)) = equity + amount * price

  -- The loop over the balances.
  unfoldable pub valued : Dict F → Dict F → F → F
  valued last_prices [] equity = equity
  valued last_prices ((asset, amount) ∷ rest) equity = valued last_prices rest (
      if str_eq asset "USDC" || (amount <= of_ℕ 0)
      then equity
      else value_added equity amount (find (is_priced_by asset) last_prices))

  unfoldable pub paper_equity : Dict F → Dict F → F
  paper_equity balances last_prices =
      valued last_prices balances (or_else (get "USDC" balances) (of_ℕ 0))

  unfoldable pub save_paper_snapshot : String → Dict F → Dict F → ℕ → History F → History F
  save_paper_snapshot account balances last_prices now h = record h {
    snapshots =
        h.snapshots
        ++ record {
          account_id = account;
          equity = paper_equity balances last_prices;
          taken_at = now;
          is_simulated = true;
        }
          ∷ [];
  }

  unfoldable pub persist_paper_state : String → PaperExchange F → Dict F → ℕ → History F → History F
  persist_paper_state account x last_prices now h =
      save_paper_snapshot account x.balances last_prices now (record h {
        paper_balances = λ a. if str_eq a account then x.balances else h.paper_balances a;
        paper_positions = λ a. if str_eq a account then x.cost_basis else h.paper_positions a;
      })
