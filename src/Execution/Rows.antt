-- ===== src/Execution/Rows.antt =====
-- The rows that the phone's orders are about, as the operations read or write them: the columns of
-- backend/app/models/models.py, and the request and the answers of backend/app/api/execution.py.
use neuravex.Prelude.{ℕ, String, Bool, Option, List}
use neuravex.Prelude.Dict.{Dict}
use neuravex.Execution.Paper.{Side}
use neuravex.Strategies.Performance.{Record}

-- The columns of `pending_executions` that the operations read or write.
pub record PendingExecution (F : Type 0) : Type 0 where
  pub id : String
  pub account_id : String
  pub decision_id : Option String
  pub symbol : String
  pub side : Side
  pub quantity : F
  pub stop_loss : Option F
  pub take_profit_1 : Option F
  pub take_profit_2 : Option F
  pub status : String
  pub claimed_at : Option ℕ
  pub exchange_order_id : Option String
  pub average_fill_price : Option F
  pub filled_quantity : Option F
  pub failure_reason : Option String
  pub expires_at : ℕ

-- A row of `positions`; `is_open` is its status.
pub record Position (F : Type 0) : Type 0 where
  pub account_id : String
  pub symbol : String
  pub quantity : F
  pub entry_price : F
  pub stop_loss : Option F
  pub take_profit_1 : Option F
  pub take_profit_2 : Option F
  pub is_open : Bool
  pub closed_at : Option ℕ
  pub realized_pnl : Option F
  pub opening_decision_id : Option String

-- What a closed trade needs of the decision that opened it.
pub record Opening : Type 0 where
  pub contributing_strategies : List String
  pub entry_regime : Option String

-- A "closed_trade_live" or "closed_trade_sim" event.
pub record TradeEvent (F : Type 0) : Type 0 where
  pub account_id : String
  pub simulated : Bool
  pub pnl : F
  pub strategies : List String
  pub regime : Option String
  pub created_at : ℕ

pub record Database (F : Type 0) : Type 0 where
  pub executions : List (PendingExecution F)
  pub positions : List (Position F)
  pub decisions : Dict Opening
  pub strategies : Dict (Record F)
  pub trades : List (TradeEvent F)

-- A response, or the HTTPException with its status code.
pub data Reply (A : Type 0) : Type 0 where
  done : A → Reply A
  http : ℕ → Reply A

pub record ReportRequest (F : Type 0) : Type 0 where
  pub status : String
  pub exchange_order_id : Option String
  pub average_fill_price : Option F
  pub filled_quantity : Option F
  pub failure_reason : Option String
