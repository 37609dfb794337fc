-- ===== src/Execution/Pending.antt =====
-- The orders that wait for the phone: backend/app/api/execution.py, and what sql_data_store.py, its
-- transactions in db/session.py and emergency.py do with the same rows. Times are in seconds.
pub mod Claims
pub mod Once
pub mod Positions
use neuravex.Prelude.{
  ℕ, String, Bool, true, false, not, ◌&&◌, ◌||◌, Option, none, some, List, [], ◌∷◌, ◌++◌, foldl,
  ltb, length, str_eq, if◌then◌else◌, or_else, later, keep, any, find, update_first, update_all,
}
use neuravex.Prelude.Dict.{Dict, get, insert}
use neuravex.Float.{Float, ◌+◌, ◌-◌, ◌*◌, ◌/◌, ◌<=◌, ◌>◌, lit, of_ℕ, truthy}
use neuravex.Execution.Paper.{Side, buy, sell}
pub use neuravex.Execution.Rows.{
  PendingExecution, Position, Opening, TradeEvent, Database, Reply, ReportRequest, done, http,
}
use neuravex.Strategies.Performance.{Record, update_running_stats}

-- `get_db`: the session commits after a response, and rolls back to `before` after an exception.
unfoldable pub commit_or_roll_back :
    {F A : Type 0} → Database F → Reply A × Database F → Reply A × Database F
commit_or_roll_back before (done a, after) = (done a, after)
commit_or_roll_back before (http code, after) = (http code, before)

unfoldable pub transaction :
    {F A : Type 0} → (Database F → Reply A × Database F) → Database F → Reply A × Database F
unfolding commit_or_roll_back
transaction handler db = commit_or_roll_back db (handler db)

-- `==` of two sides.
abbrev pub same_side : Side → Side → Bool
same_side buy buy = true
same_side sell sell = true
same_side _ _ = false

module _ {F : Type 0} where
  abbrev pub has_id : String → PendingExecution F → Bool
  has_id id row = str_eq row.id id

  abbrev with_status : String → PendingExecution F → PendingExecution F
  with_status status row = record row { status = status }

  -- The handler, before `get_db` commits or rolls back.
  unfoldable pub claim_row :
      String → ℕ → Database F → Option (PendingExecution F) → Reply String × Database F
  claim_row id now db none = (http 404, db)
  claim_row id now db (some row) =
      if not (str_eq row.status "pending")
      then (http 409, db)
      else if ltb row.expires_at now
      then (
        http 410,
        record db { executions = update_first (has_id id) (with_status "expired") db.executions },
      )
      else (
        done id,
        record db {
          executions =
              update_first (has_id id) (λ r. record r { status = "claimed"; claimed_at = some now })
                db.executions;
        },
      )

  unfoldable pub claim_execution : String → ℕ → Database F → Reply String × Database F
  unfolding claim_row
  claim_execution id now db =
      transaction (λ d. claim_row id now d (find (has_id id) d.executions)) db

  -- A row that GET /pending offers to the phone.
  abbrev pub is_offered : String → ℕ → PendingExecution F → Bool
  is_offered account now row =
      str_eq row.account_id account && str_eq row.status "pending" && ltb now row.expires_at

  unfoldable pub get_pending_executions : String → ℕ → Database F → List (PendingExecution F)
  get_pending_executions account now db = keep (is_offered account now) db.executions

  abbrev concerns : String → String → Side → PendingExecution F → Bool
  concerns account symbol side row =
      str_eq row.account_id account && str_eq row.symbol symbol && same_side row.side side

  unfoldable pub has_pending_order : String → String → Side → ℕ → Database F → Bool
  has_pending_order account symbol side now db =
      any
        (λ row.
          concerns account symbol side row
          && (str_eq row.status "claimed"
              || (str_eq row.status "pending" && ltb now row.expires_at)))
        db.executions

  unfoldable pub save_pending_execution : PendingExecution F → Database F → Database F
  save_pending_execution row db = record db { executions = db.executions ++ row ∷ [] }

  -- The rows that `expire_stale_pending_executions` flips, and how many there are.
  abbrev pub is_stale : String → ℕ → PendingExecution F → Bool
  is_stale account now row =
      str_eq row.account_id account && str_eq row.status "pending" && ltb row.expires_at now

  unfoldable pub expire_stale_pending_executions : String → ℕ → Database F → ℕ × Database F
  expire_stale_pending_executions account now db = (
    length (keep (is_stale account now) db.executions),
    record db {
      executions = update_all (is_stale account now) (with_status "expired") db.executions;
    },
  )

  -- The part of the kill switch that is about orders: the numbers of cancelled buys and kept sells.
  abbrev waits : String → Side → PendingExecution F → Bool
  waits account side row =
      str_eq row.account_id account && str_eq row.status "pending" && same_side row.side side

  unfoldable pub cancel_pending_buys : String → Database F → (ℕ × ℕ) × Database F
  cancel_pending_buys account db = (
    (
      length (keep (waits account buy) db.executions),
      length (keep (waits account sell) db.executions),
    ),
    record db {
      executions = update_all (waits account buy) (with_status "cancelled") db.executions;
    },
  )

  -- An open position of an account in a symbol.
  abbrev pub holds : String → String → Position F → Bool
  holds account symbol p = str_eq p.account_id account && str_eq p.symbol symbol && p.is_open

module _ {F : Type 0} ⦃fl : Float F⦄ where
  -- `x or 0.0`
  abbrev or_zero : Option F → F
  or_zero x = or_else x (of_ℕ 0)

  abbrev apply_to_strategy : Bool → F → Dict (Record F) → String → Dict (Record F)
  apply_to_strategy won pnl strategies name = elim (get name strategies) [
    | none ↦ strategies
    | some r ↦ insert name (update_running_stats r won pnl) strategies
  ]

  unfoldable pub apply_strategy_result : List String → Bool → F → Database F → Database F
  apply_strategy_result names won pnl db = record db {
    strategies = foldl (apply_to_strategy won pnl) db.strategies names;
  }

  unfoldable pub record_closed_trade : String → Opening → F → Bool → ℕ → Database F → Database F
  record_closed_trade account opening pnl simulated now db = record db {
    trades =
        db.trades
        ++ record {
          account_id = account;
          simulated = simulated;
          pnl = pnl;
          strategies = opening.contributing_strategies;
          regime = opening.entry_regime;
          created_at = now;
        }
          ∷ [];
  }

  -- The result of a position under the decision that opened it.
  credit : Database F → Position F → F → F → ℕ → Opening → Database F
  credit db position pnl quantity_closed now opening =
      let per_unit = if truthy quantity_closed then pnl / quantity_closed else pnl in
      record_closed_trade position.account_id opening pnl false now
        (apply_strategy_result opening.contributing_strategies (pnl > of_ℕ 0) per_unit db)

  credit_if : Database F → Position F → F → F → ℕ → Option Opening → Database F
  unfolding credit
  credit_if db position pnl quantity_closed now none = db
  credit_if db position pnl quantity_closed now (some opening) =
      elim opening.contributing_strategies [
        | [] ↦ db
        | _ ∷ _ ↦ credit db position pnl quantity_closed now opening
      ]

  unfoldable pub update_strategy_performance : Database F → Position F → F → ℕ → Database F
  unfolding credit_if
  update_strategy_performance db position quantity_closed now = elim position.opening_decision_id [
    | none ↦ db
    | some decision ↦
        if truthy (or_zero position.realized_pnl)
        then credit_if db position (or_zero position.realized_pnl) quantity_closed now
            (get decision db.decisions)
        else db
  ]

  opened_by : PendingExecution F → F → F → Position F
  opened_by e qty price = record {
    account_id = e.account_id;
    symbol = e.symbol;
    quantity = qty;
    entry_price = price;
    stop_loss = e.stop_loss;
    take_profit_1 = e.take_profit_1;
    take_profit_2 = e.take_profit_2;
    is_open = true;
    closed_at = none;
    realized_pnl = none;
    opening_decision_id = e.decision_id;
  }

  unfoldable pub grow : F → F → Position F → Position F
  grow qty price p = record p {
    entry_price = (p.entry_price * p.quantity + price * qty) / (p.quantity + qty);
    quantity = p.quantity + qty;
  }

  -- A sale of `qty`: the position shrinks, and closes once at most 1e-9 is left.
  unfoldable pub shrink : F → F → ℕ → Position F → Position F
  shrink qty price now p =
      let sold = record p {
        realized_pnl = some (or_zero p.realized_pnl + (price - p.entry_price) * qty);
      } in
      if (p.quantity - qty) <= lit 1 9
      then record sold { is_open = false; quantity = of_ℕ 0; closed_at = some now }
      else record sold { quantity = p.quantity - qty }

  -- `_apply_fill_to_position`, from the side of the order and the open position, if there is one.
  fill_position :
      PendingExecution F → F → F → ℕ → Database F → Side → Option (Position F) → Database F
  fill_position e qty price now db buy none = record db {
    positions = db.positions ++ opened_by e qty price ∷ [];
  }
  fill_position e qty price now db buy (some p) = record db {
    positions = update_first (holds e.account_id e.symbol) (grow qty price) db.positions;
  }
  fill_position e qty price now db sell none = db
  fill_position e qty price now db sell (some p) =
      let after = shrink qty price now p in
      let saved = record db {
        positions = update_first (holds e.account_id e.symbol) (shrink qty price now) db.positions;
      } in
      if after.is_open then saved else update_strategy_performance saved after p.quantity now

  unfoldable pub apply_fill_to_position : PendingExecution F → F → F → ℕ → Database F → Database F
  unfolding fill_position opened_by
  apply_fill_to_position e qty price now db =
      fill_position e qty price now db e.side (find (holds e.account_id e.symbol) db.positions)

  abbrev reported : ReportRequest F → PendingExecution F → PendingExecution F
  reported req row = record row {
    status = req.status;
    exchange_order_id = req.exchange_order_id;
    average_fill_price = req.average_fill_price;
    filled_quantity = req.filled_quantity;
    failure_reason = req.failure_reason;
  }

  abbrev is_fill : ReportRequest F → Bool
  is_fill req =
      str_eq req.status "executed"
      && truthy (or_zero req.filled_quantity)
      && truthy (or_zero req.average_fill_price)

  report_row :
      String
      → ReportRequest F
      → ℕ
      → Database F
      → Option (PendingExecution F)
      → Reply Unit × Database F
  report_row id req now db none = (http 404, db)
  report_row id req now db (some row) =
      let saved = record db {
        executions = update_first (has_id id) (reported req) db.executions;
      } in
      (
        done tt,
        if is_fill req
            then apply_fill_to_position (reported req row) (or_zero req.filled_quantity)
                (or_zero req.average_fill_price) now saved
            else saved,
      )

  unfoldable pub report_execution :
      String → ReportRequest F → ℕ → Database F → Reply Unit × Database F
  unfolding report_row
  report_execution id req now db =
      transaction (λ d. report_row id req now d (find (has_id id) d.executions)) db
