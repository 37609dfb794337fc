-- ===== src/Tests/Orders.antt =====
-- Orders at concrete numbers: the paper exchange, and the orders that wait for the phone.
use neuravex.Prelude.{
  List, ℕ, String, ◌≡◌, refl, true, false, none, some, [], ◌∷◌, arith, find, keep, str_eq,
}
use neuravex.Prelude.Dict.{get}
use neuravex.Float.{lit, of_ℕ}
use neuravex.Float.Fixed.{Fixed, Fixed-IsIeee, fixed_float}
use neuravex.Execution.Paper.{
  PaperExchange, Side, buy, sell, market, create_order, require_fresh_price, slippage_rate,
  base_price,
}
use neuravex.Execution.Paper.Balances.{
  IsSolvent, Unchanged, create_order-IsSolvent, create_order-Unchanged,
}
use neuravex.Execution.Pending.{
  PendingExecution, Database, http, has_id, claim_execution, transaction, commit_or_roll_back,
  claim_row, get_pending_executions, has_pending_order, cancel_pending_buys, ReportRequest,
  report_execution,
}
use neuravex.Execution.Pending.Claims.{
  is_done, is_claimable, is_sell, claim_execution_exact, cancel_pending_buys-Exact,
}
use neuravex.Execution.Pending.Once.{
  Request, claim, report, expire, kill, save, serve_all, claim_execution-Exclusive,
}
use neuravex.Execution.Pending.Positions.{IsSafe, report_execution-IsSafe}

abbrev number : ℕ → Fixed
number n = of_ℕ n

abbrev exchange : PaperExchange Fixed
exchange = record {
  balances = ("USDC", number 1_000) ∷ [];
  cost_basis = [];
  last_price = ("A/USDC", record { price = number 100; at = 50; aware = true }) ∷ [];
  orders = [];
  taker_fee = lit 1 3;
  maker_fee = lit 1 3;
  slippage_bps = number 5;
  slippage_bps_by_symbol = [];
  max_price_age_seconds = 120;
}

-- The only balance is 1000.
exchange-IsSolvent : IsSolvent exchange.balances
unfolding get
exchange-IsSolvent = record { at_asset = λ asset v e. ground arith }

create_order-IsSolvent_example :
    IsSolvent (create_order exchange "A/USDC" buy market (number 2) none "id" 60).1.balances
unfolding require_fresh_price get slippage_rate base_price
create_order-IsSolvent_example =
    create_order-IsSolvent Fixed-IsIeee exchange "A/USDC" buy market (number 2) none "id" 60
      (record { price_not_neg = refl; slippage_le = refl; fee_le = refl }) exchange-IsSolvent

create_order-Unchanged_example :
    Unchanged exchange (create_order exchange "A/USDC" buy market (number 20) none "id" 60)
create_order-Unchanged_example =
    create_order-Unchanged exchange "A/USDC" buy market (number 20) none "id" 60

abbrev row : String → Side → PendingExecution Fixed
row id side = record {
  id = id;
  account_id = "acc";
  decision_id = none;
  symbol = "A/USDC";
  side = side;
  quantity = number 1;
  stop_loss = none;
  take_profit_1 = none;
  take_profit_2 = none;
  status = "pending";
  claimed_at = none;
  exchange_order_id = none;
  average_fill_price = none;
  filled_quantity = none;
  failure_reason = none;
  expires_at = 300;
}

abbrev database : Database Fixed
database = record {
  executions = row "x" buy ∷ row "y" sell ∷ [];
  positions = [];
  decisions = [];
  strategies = [];
  trades = [];
}

-- Between the two claims: another device's claim, a report of another order, and a kill switch.
abbrev traffic : List (Request Fixed)
traffic =
    claim "x" 120
    ∷ report "y"
        (record {
          status = "failed";
          exchange_order_id = none;
          average_fill_price = none;
          filled_quantity = none;
          failure_reason = some "reverted";
        })
        200
    ∷ kill "acc"
    ∷ save (row "z" buy)
    ∷ expire "acc" 800
    ∷ []

claim_execution-Exclusive_example :
    let after = serve_all traffic (claim_execution "x" 100 database).1 in
    (claim_execution "x" 900 after ≡ (http 409, after))
    × (has_pending_order "acc" "A/USDC" buy 900 after ≡ true)
unfolding claim_execution transaction commit_or_roll_back claim_row
claim_execution-Exclusive_example =
    claim_execution-Exclusive "x" 100 900 database (row "x" buy) traffic refl refl
      (refl, (refl, (refl, (refl, (refl, tt)))))

claim_execution_exact_example :
    (is_done (claim_execution "x" 400 database).0
      ≡ is_claimable 400 (find (has_id "x") database.executions))
    × (is_done (claim_execution "x" 400 database).0 ≡ false
        → (claim_execution "x" 400 database).1 ≡ database)
claim_execution_exact_example = claim_execution_exact "x" 400 database

-- An order past its window: the claim is refused, and the order is still pending afterwards.
claim_execution-expired_test : claim_execution "x" 400 database ≡ (http 410, database)
unfolding claim_execution transaction commit_or_roll_back claim_row
claim_execution-expired_test = refl

cancel_pending_buys-Exact_example :
    let after = (cancel_pending_buys "acc" database).1 in
    (get_pending_executions "acc" 100 after
      ≡ keep (λ r. is_sell r.side) (get_pending_executions "acc" 100 database))
    × (str_eq "acc" "other" ≡ false
        → get_pending_executions "other" 100 after ≡ get_pending_executions "other" 100 database)
cancel_pending_buys-Exact_example = cancel_pending_buys-Exact "acc" "other" 100 database

abbrev filled : ReportRequest Fixed
filled = record {
  status = "executed";
  exchange_order_id = none;
  average_fill_price = some (number 100);
  filled_quantity = some (number 1);
  failure_reason = none;
}

report_execution-IsSafe_example :
    IsSafe "acc" "A/USDC" database.positions (report_execution "x" filled 100 database).1.positions
report_execution-IsSafe_example =
    report_execution-IsSafe "x" filled 100 database {row = row "x" buy} refl
