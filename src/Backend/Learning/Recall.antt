-- ===== src/Backend/Learning/Recall.antt =====
-- What the supervisor is given of the trades that were written down.
use mathlib.Core.List.{append-nil}
use neuravex.Prelude.{
  ℕ, ◌≤◌, String, ◌≡◌, refl, ◌∙◌, Bool, true, false, ◌&&◌, some, List, [], ◌∷◌, ◌++◌, keep, arith,
  leb, later, str_eq, eq_iff,
}
use neuravex.Prelude.Updates.{keep-append}
use neuravex.Prelude.Slices.{map-append}
use neuravex.Float.{Float, ◌<=◌, of_ℕ, truthy}
use neuravex.Supervisor.{lookback}
use neuravex.Decision.{is_empty}
use neuravex.Execution.Paper.{OrderResult, sell}
use neuravex.Execution.Pending.{
  Opening, TradeEvent, Database, apply_strategy_result, record_closed_trade,
}
use neuravex.Backend.History.{History, Store, same_mode}
use neuravex.Backend.Learning.{
  learn, opening_of, realized_result, recent_closed_trades, record_realized_trade,
}

module _ {F : Type 0} where
  -- One more event at the end of the trades.
  recent_closed_trades-snoc :
      (store : Store F) (account : String) (at : ℕ) (db after : Database F) (e : TradeEvent F)
      → after.trades ≡ db.trades ++ e ∷ []
      → (str_eq e.account_id account
          && same_mode store.simulated e.simulated
          && leb at (later e.created_at lookback))
        ≡ true
      → recent_closed_trades store account at after
        ≡ recent_closed_trades store account at db
          ++ record {
            closed_at = e.created_at;
            pnl = e.pnl;
            strategies = e.strategies;
            regime = e.regime;
          }
            ∷ []
  unfolding recent_closed_trades
  recent_closed_trades-snoc store account at db after e more own =
      rw (more, keep-append _ db.trades (e ∷ []), own) (map-append _ (keep _ db.trades) (e ∷ []))

  recent_closed_trades-other :
      (store : Store F) (account : String) (at : ℕ) (db after : Database F) (e : TradeEvent F)
      → after.trades ≡ db.trades ++ e ∷ []
      → (str_eq e.account_id account && same_mode store.simulated e.simulated) ≡ false
      → recent_closed_trades store account at after ≡ recent_closed_trades store account at db
  unfolding recent_closed_trades
  recent_closed_trades-other store account at db after e more foreign =
      let out : (str_eq e.account_id account
            && same_mode store.simulated e.simulated
            && leb at (later e.created_at lookback))
          ≡ false =
        ground arith in
      rw (more, keep-append _ db.trades (e ∷ []), out, append-nil (keep _ db.trades)) refl

  closed_trade_event : String → Opening → F → Bool → ℕ → TradeEvent F
  closed_trade_event account opening pnl simulated now = record {
    account_id = account;
    simulated = simulated;
    pnl = pnl;
    strategies = opening.contributing_strategies;
    regime = opening.entry_regime;
    created_at = now;
  }

module _ {F : Type 0} ⦃fl : Float F⦄ where
  learn-trades :
      (store : Store F) (account : String) (entry_price : F) (r : OrderResult F) (now : ℕ)
      (opening : Opening) (db : Database F)
      → (learn store account entry_price r now opening db).trades
        ≡ db.trades
          ++ closed_trade_event account opening (realized_result entry_price r) true now ∷ []
  unfolding learn record_closed_trade apply_strategy_result closed_trade_event
  learn-trades store account entry_price r now opening db = ground arith

  record_realized_trade-learn :
      (store : Store F) (account symbol : String) (entry_price : F) (r : OrderResult F) (now : ℕ)
      (h : History F) (db : Database F) (opening : Opening) {name : String} {names : List String}
      → store.simulated ≡ true
      → (entry_price <= of_ℕ 0) ≡ false
      → truthy r.filled_quantity ≡ true
      → r.side ≡ sell
      → opening_of account symbol h ≡ some opening
      → opening.contributing_strategies ≡ name ∷ names
      → record_realized_trade store account symbol (some entry_price) r now h db
        ≡ learn store account entry_price r now opening db
  unfolding record_realized_trade
  record_realized_trade-learn store account symbol entry_price r now h db opening simulated known
        filled sale found named =
      let names_one : is_empty opening.contributing_strategies ≡ false = rw named refl in
      ground arith

  -- What a simulated sale taught is remembered: the next call of recent_closed_trades for the account,
  -- for forty-five days, has one trade more, with the result of the sale after its costs and the strategies
  -- and the regime of the latest executed purchase of the symbol; the trades of other accounts, and
  -- those of live trading, are the same as before. The sale must have filled, at a known entry price,
  -- and the purchase must name a strategy.
  pub record_realized_trade-Recalled :
      (store : Store F) (account symbol : String) (entry_price : F) (r : OrderResult F) (now at : ℕ)
      (h : History F) (db : Database F) (opening : Opening) {name : String} {names : List String}
      → store.simulated ≡ true
      → (entry_price <= of_ℕ 0) ≡ false
      → truthy r.filled_quantity ≡ true
      → r.side ≡ sell
      → opening_of account symbol h ≡ some opening
      → opening.contributing_strategies ≡ name ∷ names
      → at ≤ later now lookback
      → let after = record_realized_trade store account symbol (some entry_price) r now h db in
        (recent_closed_trades store account at after
          ≡ recent_closed_trades store account at db
            ++ record {
              closed_at = now;
              pnl = realized_result entry_price r;
              strategies = name ∷ names;
              regime = opening.entry_regime;
            }
              ∷ [])
        × ((other : Store F) (foreign : String)
            → (str_eq account foreign && same_mode other.simulated true) ≡ false
            → recent_closed_trades other foreign at after
              ≡ recent_closed_trades other foreign at db)
  unfolding closed_trade_event
  record_realized_trade-Recalled store account symbol entry_price r now at h db opening simulated
        known filled sale found named soon =
      let learned =
        record_realized_trade-learn store account symbol entry_price r now h db opening simulated
          known filled sale found named in
      let after = record_realized_trade store account symbol (some entry_price) r now h db in
      let event = closed_trade_event account opening (realized_result entry_price r) true now in
      let trades : after.trades ≡ db.trades ++ event ∷ [] =
        rw learned (learn-trades store account entry_price r now opening db) in
      (
        recent_closed_trades-snoc store account at db after event trades
              (rw (simulated, (eq_iff account account).1 refl) (ground arith))
            ∙ rw named refl,
        λ other foreign apart.
            recent_closed_trades-other other foreign at db after event trades apart,
      )
