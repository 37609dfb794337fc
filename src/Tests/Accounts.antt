-- ===== src/Tests/Accounts.antt =====
-- What is learnt of a simulated sale, the alerts about the equity, and the wallet's reports at concrete
-- numbers.
use neuravex.Prelude.{
  String, ◌≡◌, refl, true, false, ◌&&◌, none, some, [], ◌∷◌, ◌++◌, All, arith, str_eq,
}
use neuravex.Float.Fixed.{Fixed, fixed_float}
use neuravex.Execution.Paper.{OrderResult, sell, market, filled}
use neuravex.Execution.Pending.{Opening}
use neuravex.Decision.{buy}
use neuravex.Backend.History.{History, Snapshot, Store, same_mode}
use neuravex.Backend.Learning.{opening_of, recent_closed_trades, record_realized_trade}
use neuravex.Backend.Learning.Recall.{record_realized_trade-Recalled}
use neuravex.Backend.Equity.{Alerts, check_equity_movement, latest_live_snapshot}
use neuravex.Backend.Equity.Moves.{Told, check_equity_movement-Told}
use neuravex.Backend.Wallet.{ReportBalanceRequest, Wallet, reconcile, report_balance}
use neuravex.Backend.Wallet.Adoption.{IsTracked, report_balance-Tracks}
use neuravex.Tests.Backend.{account, database, history, number, position, store}

abbrev opening : Opening
opening = record { contributing_strategies = "breakout" ∷ []; entry_regime = some "BULL" }

abbrev traded_history : History Fixed
traded_history = record history {
  decisions =
      record {
        account_id = "acc";
        symbol = "A/USDC";
        action = buy;
        executed = true;
        created_at = 400;
        opening = opening;
      }
      ∷ [];
}

abbrev sale : OrderResult Fixed
sale = record {
  order_id = "o";
  symbol = "A/USDC";
  side = sell;
  order_type = market;
  requested_quantity = number 2;
  status = filled;
  filled_quantity = number 2;
  average_fill_price = number 110;
  fee = number 1;
  fee_asset = "USDC";
}

record_realized_trade-Recalled_example :
    let after =
      record_realized_trade store "acc" "A/USDC"
        (some (number 100))
        sale
        500
        traded_history
        (database []) in
    (recent_closed_trades store "acc" 900 after
      ≡ recent_closed_trades store "acc" 900 (database [])
        ++ record {
          closed_at = 500;
          pnl = number 19;
          strategies = "breakout" ∷ [];
          regime = some "BULL";
        }
          ∷ [])
    × ((other : Store Fixed) (foreign : String)
        → (str_eq "acc" foreign && same_mode other.simulated true) ≡ false
        → recent_closed_trades other foreign 900 after
          ≡ recent_closed_trades other foreign 900 (database []))
unfolding opening_of
record_realized_trade-Recalled_example =
    record_realized_trade-Recalled store "acc" "A/USDC" (number 100) sale 500 900 traded_history
      (database []) opening refl refl refl refl refl refl (omega arith)

abbrev last_report : Snapshot Fixed
last_report = record {
  account_id = "acc";
  equity = number 110;
  taken_at = 800;
  is_simulated = false;
}

abbrev told : Alerts Fixed
told = record {
  notifications =
      record {
        account_id = "acc";
        kind = "equity_move";
        equity = some (number 100);
        created_at = 300;
        delivered_at = some 310;
      }
      ∷ [];
  emails = 0;
}

check_equity_movement-Told_example : Told "acc" (number 110) 900 told (
    check_equity_movement
      (record account { id = "other" } ∷ account ∷ [])
      900
      (record history { snapshots = last_report ∷ [] })
      told)
unfolding latest_live_snapshot
check_equity_movement-Told_example =
    check_equity_movement-Told (record account { id = "other" } ∷ []) [] account 900
      (record history { snapshots = last_report ∷ [] }) told last_report refl refl refl (refl, tt)
      tt (omega arith, tt)

-- A stand-in for str.upper on names that are in capitals already.
abbrev upper : String → String
upper s = s

abbrev report : Fixed → ReportBalanceRequest Fixed
report equity = record {
  equity = equity;
  full_wallet = true;
  assets =
      record { symbol = "A"; quantity = number 2; price_usd = number 90 }
      ∷ record { symbol = "WETH"; quantity = number 1; price_usd = number 3_000 }
      ∷ [];
}

abbrev wallet : Wallet Fixed
wallet = record {
  snapshots = [];
  positions = position ∷ [];
  paper_trading_enabled = false;
  live_start_equity = none;
}

report_balance-Tracks_example :
    let after = report_balance upper "acc" (report (number 3_180)) 900 wallet in
    All (IsTracked upper "acc" after.positions) (report (number 3_180)).assets
    × (after.positions
        ≡ wallet.positions ++ reconcile upper "acc" wallet.positions (report (number 3_180)).assets)
    × ((report_balance upper "acc" (report (number 3_000)) 960 after).positions ≡ after.positions)
report_balance-Tracks_example =
    report_balance-Tracks upper "acc" (report (number 3_180)) (report (number 3_000)) 900 960 wallet
      refl
