-- ===== src/Backend/Wallet.antt =====
-- What the phone reports of the wallet: report_balance, _reconcile_untracked_positions and
-- reset_baseline of backend/app/api/dashboard.py. `upper` is Python's str.upper. The session does not
-- flush by itself, so the loop over the assets does not see the rows that it has added.
pub mod Adoption
use neuravex.Prelude.{
  ℕ, String, Bool, true, false, not, ◌&&◌, ◌||◌, Option, none, some, List, [], ◌∷◌, ◌++◌, any, keep,
  map, prepend, str_eq, if◌then◌else◌,
}
use neuravex.Float.{Float, ◌-◌, ◌/◌, ◌<=◌, ◌>◌, of_ℕ, max, truthy}
use neuravex.Execution.Symbol.{symbol_of}
use neuravex.Execution.Pending.{Position, Reply, done, http, holds}
use neuravex.Backend.History.{Snapshot, latest_by}
use neuravex.Backend.History.Portfolio.{largest_of}

pub record AssetBalance (F : Type 0) : Type 0 where
  pub symbol : String
  pub quantity : F
  pub price_usd : F

pub record ReportBalanceRequest (F : Type 0) : Type 0 where
  pub equity : F
  pub full_wallet : Bool
  pub assets : List (AssetBalance F)

-- The rows that a report reads and writes; the last two are of the account's settings.
pub record Wallet (F : Type 0) : Type 0 where
  pub snapshots : List (Snapshot F)
  pub positions : List (Position F)
  pub paper_trading_enabled : Bool
  pub live_start_equity : Option F

module _ {F : Type 0} where
  abbrev pub live_snapshots : String → List (Snapshot F) → List (Snapshot F)
  live_snapshots account snapshots =
      keep (λ s. str_eq s.account_id account && not s.is_simulated) snapshots

module _ {F : Type 0} ⦃fl : Float F⦄ (upper : String → String) (account : String) where
  -- The pair that a holding is tracked under.
  abbrev pub pair_symbol : AssetBalance F → String
  pair_symbol asset = symbol_of (upper asset.symbol) "USDC"

  abbrev pub is_skipped : AssetBalance F → Bool
  is_skipped asset = str_eq (upper asset.symbol) "USDC" || (asset.quantity <= of_ℕ 0)

  abbrev pub adopted : AssetBalance F → Position F
  adopted asset = record {
    account_id = account;
    symbol = pair_symbol asset;
    quantity = asset.quantity;
    entry_price = asset.price_usd;
    stop_loss = none;
    take_profit_1 = none;
    take_profit_2 = none;
    is_open = true;
    closed_at = none;
    realized_pnl = none;
    opening_decision_id = none;
  }

  unfoldable pub adopt : List (Position F) → AssetBalance F → Option (Position F)
  adopt positions asset =
      if is_skipped asset
      then none
      else if any (holds account (pair_symbol asset)) positions
      then none
      else some (adopted asset)

  unfoldable pub reconcile : List (Position F) → List (AssetBalance F) → List (Position F)
  unfolding adopt
  reconcile positions [] = []
  reconcile positions (asset ∷ assets) =
      prepend (adopt positions asset) (reconcile positions assets)

  -- The peak that the reported drawdown is measured from.
  unfoldable pub reported_peak : F → List (Snapshot F) → F
  reported_peak equity snapshots =
      elim (largest_of (map (λ s. s.equity) (live_snapshots account snapshots))) [
        | none ↦ equity
        | some peak ↦ if truthy peak then max equity peak else equity
      ]

  -- The drawdown column of the new snapshot.
  abbrev pub reported_drawdown : F → List (Snapshot F) → F
  reported_drawdown equity snapshots =
      let peak = reported_peak equity snapshots in
      if truthy peak then (peak - equity) / peak else of_ℕ 0

  -- Whether a report may set the baseline of the profit and loss.
  abbrev pub sets_baseline : ReportBalanceRequest F → Wallet F → Bool
  sets_baseline r w =
      r.full_wallet
      && (r.equity > of_ℕ 0)
      && not w.paper_trading_enabled
      && elim w.live_start_equity [ none ↦ true | some _ ↦ false ]

  unfoldable pub report_balance : ReportBalanceRequest F → ℕ → Wallet F → Wallet F
  report_balance r now w = record w {
    snapshots =
        w.snapshots
        ++ record { account_id = account; equity = r.equity; taken_at = now; is_simulated = false }
          ∷ [];
    positions = w.positions ++ reconcile w.positions r.assets;
    live_start_equity = if sets_baseline r w then some r.equity else w.live_start_equity;
  }

  unfoldable pub reset_baseline : Wallet F → Reply Unit × Wallet F
  reset_baseline w = elim (latest_by (λ s. s.taken_at) (live_snapshots account w.snapshots)) [
    | none ↦ (http 409, w)
    | some s ↦
        if s.equity <= of_ℕ 0
        then (http 409, w)
        else (done tt, record w { live_start_equity = some s.equity })
  ]
