-- ===== src/Supervisor.antt =====
-- trading_engine/supervisor.py. Times are in seconds.
pub mod Verdict
use neuravex.Prelude.{
  ℕ, zero, suc, pred, String, Bool, true, false, not, ◌&&◌, Option, none, some, List, [], ◌∷◌,
  foldl, map, ltb, leb, any, keep, length, later, str_eq, if◌then◌else◌, ◌++◌,
}
use neuravex.Float.{Float, ◌+◌, ◌<◌, ◌<=◌, lit, of_ℕ}

abbrev pub lookback : ℕ
lookback = 3_888_000

abbrev pub min_trades_to_block : ℕ
min_trades_to_block = 4

pub record ClosedTrade (F : Type 0) : Type 0 where
  pub closed_at : ℕ
  pub pnl : F
  pub strategies : List String
  pub regime : Option String

-- A strategy in a market regime.
abbrev pub Key : Type 0
Key = String × String

pub record SupervisorVerdict (F : Type 0) : Type 0 where
  pub risk_multiplier : F
  pub blocked : List Key

unfoldable pub same_key : Key → Key → Bool
same_key a b = str_eq a.0 b.0 && str_eq a.1 b.1

unfoldable pub allows : {F : Type 0} → SupervisorVerdict F → String → String → Bool
allows v strategy regime = not (any (same_key (strategy, regime)) v.blocked)

module _ {F : Type 0} where
  -- now - t.closed_at <= LOOKBACK
  abbrev pub is_recent : ℕ → ClosedTrade F → Bool
  is_recent now t = leb now (later t.closed_at lookback)

  -- `sorted(..., key=closed_at)`: stable.
  place : ClosedTrade F → List (ClosedTrade F) → List (ClosedTrade F)
  place t [] = t ∷ []
  place t (u ∷ us) = if leb t.closed_at u.closed_at then t ∷ u ∷ us else u ∷ place t us

  pub sort_by_time : List (ClosedTrade F) → List (ClosedTrade F)
  sort_by_time [] = []
  sort_by_time (t ∷ ts) = place t (sort_by_time ts)

-- The `totals` dict.
abbrev pub Totals : Type 0 → Type 0
Totals F = List (Key × List F)

module _ {F : Type 0} ⦃fl : Float F⦄ where
  abbrev pub no_verdict : SupervisorVerdict F
  no_verdict = record { risk_multiplier = of_ℕ 1; blocked = [] }

  -- `max(0, loss_count - 1)` on a win.
  unfoldable pub count_loss : ℕ → ClosedTrade F → ℕ
  count_loss n t = if t.pnl <= of_ℕ 0 then suc n else pred n

  unfoldable pub risk_multiplier : ℕ → F
  risk_multiplier zero = of_ℕ 1
  risk_multiplier (suc zero) = of_ℕ 1
  risk_multiplier (suc (suc zero)) = lit 75 2
  risk_multiplier (suc (suc (suc zero))) = lit 5 1
  risk_multiplier (suc (suc (suc (suc n)))) = lit 25 2

  -- `totals.setdefault(key, []).append(pnl)`
  add_result : Key → F → Totals F → Totals F
  add_result key pnl [] = (key, pnl ∷ []) ∷ []
  add_result key pnl ((k, pnls) ∷ rest) =
      if same_key k key then (k, pnls ++ pnl ∷ []) ∷ rest else (k, pnls) ∷ add_result key pnl rest

  add_trade : Totals F → ClosedTrade F → Totals F
  unfolding add_result
  add_trade totals t = elim t.regime [
    | none ↦ totals
    | some regime ↦ foldl (λ acc s. add_result (s, regime) t.pnl acc) totals t.strategies
  ]

  -- At least four results that add up to a loss.
  unfoldable pub losing : List F → Bool
  losing pnls = leb min_trades_to_block (length pnls) && (foldl ◌+◌ (of_ℕ 0) pnls < of_ℕ 0)

  unfoldable pub totals_of : List (ClosedTrade F) → Totals F
  unfolding add_trade
  totals_of recent = foldl add_trade [] recent

  unfoldable pub evaluate_supervisor : List (ClosedTrade F) → ℕ → SupervisorVerdict F
  unfolding sort_by_time place count_loss risk_multiplier totals_of
  evaluate_supervisor trades now =
      let recent = sort_by_time (keep (is_recent now) trades) in
      record {
        risk_multiplier = risk_multiplier (foldl count_loss 0 recent);
        blocked = map (λ e. e.0) (keep (λ e. losing e.1) (totals_of recent));
      }
