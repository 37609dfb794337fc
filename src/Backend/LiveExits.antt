-- ===== src/Backend/LiveExits.antt =====
-- The fast loop over the live positions: check_live_exits of backend/app/core/tasks.py, with
-- save_pending_execution of backend/app/db/sql_data_store.py. Identifiers of new rows are the caller's.
pub mod Sales
pub mod Stuck
use neuravex.Prelude.{
  ℕ, String, Bool, true, ◌&&◌, Option, none, some, List, [], ◌∷◌, ◌++◌, any, keep, prepend, str_eq,
  later, if◌then◌else◌,
}
use neuravex.Float.{Float, ◌+◌, ◌-◌, ◌*◌, ◌<=◌, of_ℕ, neg, truthy}
use neuravex.Risk.Exits.{default_sell_cost_rate, evaluate_exit}
use neuravex.Execution.Paper.{sell}
use neuravex.Execution.Pending.{PendingExecution, Position, Database, same_side}

-- PlannedOrder.expires_in_seconds at its default.
abbrev pub expires_in_seconds : ℕ
expires_in_seconds = 300

-- What the loop reads of an account and its settings.
pub record LiveAccount (F : Type 0) : Type 0 where
  pub id : String
  pub paper_trading_enabled : Bool
  pub max_balance_target : Option F

-- What a sweep needs from outside: the clock, the bid of a ticker (`none` is an exception of the
-- exchange), and the identifiers of new rows.
pub record Surroundings (F : Type 0) : Type 0 where
  pub now : ℕ
  pub bid : Position F → Option F
  pub new_id : Position F → String

module _ {F : Type 0} where
  -- The query behind `already_pending`: a pending sell of the symbol, whatever its window.
  unfoldable pub already_pending : String → String → Database F → Bool
  already_pending account symbol db =
      any
        (λ row.
          str_eq row.account_id account
          && str_eq row.symbol symbol
          && str_eq row.status "pending"
          && same_side row.side sell)
        db.executions

  -- A row for the sale of a whole position. The columns for the limit price, the confidence and the
  -- reasons, which nothing here reads, are left out.
  abbrev pub sale_of : Position F → F → String → ℕ → PendingExecution F
  sale_of p zero_stop id now = record {
    id = id;
    account_id = p.account_id;
    decision_id = none;
    symbol = p.symbol;
    side = sell;
    quantity = p.quantity;
    stop_loss = some zero_stop;
    take_profit_1 = some zero_stop;
    take_profit_2 = some zero_stop;
    status = "pending";
    claimed_at = none;
    exchange_order_id = none;
    average_fill_price = none;
    filled_quantity = none;
    failure_reason = none;
    expires_at = later now expires_in_seconds;
  }

module _ {F : Type 0} ⦃fl : Float F⦄ where
  -- `_HARD_STOP_LOSS_USDC`
  abbrev pub hard_stop_loss : F
  hard_stop_loss = neg (of_ℕ 10)

  -- `position.stop_loss or None`
  abbrev recorded_stop : Option F → Option F
  recorded_stop none = none
  recorded_stop (some stop) = if truthy stop then some stop else none

  abbrev pub unrealized_profit : Position F → F → F
  unrealized_profit p bid = (bid - p.entry_price) * p.quantity

  -- Whether a position is to be sold at this bid, by the rule of the exits or by the backstop.
  unfoldable pub must_sell : LiveAccount F → Position F → F → Bool
  must_sell account p bid =
      elim (evaluate_exit p.quantity (p.entry_price * (of_ℕ 1 + default_sell_cost_rate)) bid
        (recorded_stop p.stop_loss) account.max_balance_target default_sell_cost_rate) [
          | some _ ↦ true
          | none ↦ unrealized_profit p bid <= hard_stop_loss
        ]

  unfoldable pub sale_at :
      LiveAccount F → Surroundings F → Position F → Option F → Option (PendingExecution F)
  sale_at account s p none = none
  sale_at account s p (some bid) =
      if must_sell account p bid then some (sale_of p (of_ℕ 0) (s.new_id p) s.now) else none

  -- One position of the loop: the row that is added for it.
  unfoldable pub check_position :
      LiveAccount F → Surroundings F → Database F → Position F → Option (PendingExecution F)
  unfolding sale_at
  check_position account s db p =
      if already_pending account.id p.symbol db then none else sale_at account s p (s.bid p)

  -- The rows for the open positions. The session does not flush by itself, so the queries of one account
  -- do not see the rows that its loop has added.
  unfoldable pub queued_sales :
      LiveAccount F → Surroundings F → Database F → List (Position F) → List (PendingExecution F)
  queued_sales account s db [] = []
  queued_sales account s db (p ∷ ps) =
      prepend (check_position account s db p) (queued_sales account s db ps)

  abbrev pub live_positions : LiveAccount F → Database F → List (Position F)
  live_positions account db = keep (λ p. str_eq p.account_id account.id && p.is_open) db.positions

  unfoldable pub sweep_account : LiveAccount F → Surroundings F → Database F → Database F
  unfolding queued_sales
  sweep_account account s db = if account.paper_trading_enabled then db else record db {
    executions = db.executions ++ queued_sales account s db (live_positions account db);
  }

  -- `check_live_exits`, with the surroundings of each account's turn.
  unfoldable pub check_live_exits : List (LiveAccount F × Surroundings F) → Database F → Database F
  check_live_exits [] db = db
  check_live_exits ((account, s) ∷ rest) db = check_live_exits rest (sweep_account account s db)
