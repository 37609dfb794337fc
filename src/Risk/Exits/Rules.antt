-- ===== src/Risk/Exits/Rules.antt =====
-- When an open position is sold, and what the recomputed stop is worth.
use neuravex.Prelude.{
  ◌≡◌, ◌↔◌, ◌⊎◌, Bool, true, false, Option, some, List, ◌||◌, arith, Option-cases, ltb, length,
  last?, inl, inr,
}
use neuravex.Float.{Float, IsIeee, IsNum, ◌≼◌, ◌<◌, ◌<=◌, ◌*◌, of_ℕ}
use neuravex.Float.Order.{lt_of_lt-le}
use neuravex.Market.Indicators.{atr}
use neuravex.Risk.Plan.{build_risk_plan}
use neuravex.Risk.Exits.{
  ExitDecision, stop_loss, take_profit, net_profit_if_sold, reaches_stop, reaches_target,
  evaluate_exit, atr_stop_price,
}

module _ {F : Type 0} ⦃fl : Float F⦄ where
  abbrev pub sellable : F → F → F → Bool
  sellable quantity cost_basis price =
      (quantity <= of_ℕ 0) || (cost_basis <= of_ℕ 0) || (price <= of_ℕ 0)

  -- A position is sold exactly when its quantity, cost basis and price are positive and either the
  -- price is at or below its stop, which gives `stop_loss`, or that is not so and the profit after the
  -- costs of the sale reaches a target above zero, which gives `take_profit`. The stop wins a tie, and
  -- the decision carries the profit after costs.
  pub evaluate_exit_exact :
      (quantity cost_basis price : F) (stop target : Option F) (rate : F) (d : ExitDecision F)
      → let net = net_profit_if_sold quantity cost_basis price rate in
        (evaluate_exit quantity cost_basis price stop target rate ≡ some d) ↔ (
          (sellable quantity cost_basis price ≡ false)
          × (d.net_profit ≡ net)
          × (((d.reason ≡ stop_loss) × (reaches_stop price stop ≡ true))
              ⊎ ((d.reason ≡ take_profit)
                  × (reaches_stop price stop ≡ false)
                  × (reaches_target net target ≡ true))))
  unfolding evaluate_exit
  evaluate_exit_exact quantity cost_basis price stop target rate d = ground arith

  -- A take-profit sale has a profit above zero after its own costs, which is at least the target.
  pub take_profit_gains :
      IsIeee F
      → (quantity cost_basis price : F) (stop : Option F) (target : F) (rate : F)
        {d : ExitDecision F}
      → evaluate_exit quantity cost_basis price stop (some target) rate ≡ some d
      → d.reason ≡ take_profit
      → (target ≼ d.net_profit) × ((of_ℕ 0 < d.net_profit) ≡ true)
  unfolding evaluate_exit
  take_profit_gains ieee quantity cost_basis price stop target rate e t =
      ground (
        arith,
        lt_of_lt-le ieee (of_ℕ 0) target (net_profit_if_sold quantity cost_basis price rate),
      )

  -- A stop from the candles needs at least 15 of them and a positive cost basis; with a stop multiple
  -- that is not negative it lies at or below the cost basis, where it is a number.
  pub atr_stop_price-le :
      IsIeee F
      → (cost_basis : F) (highs lows closes : List F) (multiple : F) {stop : F} → of_ℕ 0 ≼ multiple
      → atr_stop_price cost_basis highs lows closes multiple ≡ some stop
      → IsNum stop
      → (stop ≼ cost_basis) × (ltb (length closes) 15 ≡ false) × ((cost_basis <= of_ℕ 0) ≡ false)
  unfolding atr_stop_price build_risk_plan
  atr_stop_price-le ieee cost_basis highs lows closes multiple {stop} hm e n =
      elim (Option-cases (last? (atr highs lows closes 14))) [
        | inl nothing ↦ ground arith
        | inr (a, ea) ↦ ground (
          arith,
          ieee.num_of_sub cost_basis (a * multiple),
          ieee.num_of_mul a multiple,
          ieee.lit_mono 0 0 0,
          ieee.le_total a (of_ℕ 0),
          ieee.mul_nonneg a multiple,
          ieee.sub-le cost_basis (a * multiple),
        )
      ]
