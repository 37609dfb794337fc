-- ===== src/Risk/Limits/Account.antt =====
-- The account-wide circuit breakers.
use neuravex.Prelude.{◌≡◌, ◌↔◌, Bool, true, false, ◌||◌, Option, none, some, arith}
use neuravex.Float.{Float, ◌>=◌}
use neuravex.Risk.Limits.{
  PortfolioState, RiskLimitBreach, Limit, min_balance_floor, max_daily_loss, below_floor, drawdown,
  daily_loss_fraction, check_account_wide_limits,
}

abbrev pub flattens : Option RiskLimitBreach → Bool
flattens none = false
flattens (some b) = b.should_flatten

abbrev pub named : Option RiskLimitBreach → Option Limit
named none = none
named (some b) = some b.limit

module _ {F : Type 0} ⦃fl : Float F⦄ (s : PortfolioState F) (daily drop : F)
    (floor : Option F) where
  -- One of the two breaches that call for selling everything.
  abbrev pub must_flatten : Bool
  must_flatten = below_floor s floor || (drawdown s >= drop)

  -- The check raises with `should_flatten` exactly when the equity is at or below the user's floor or
  -- the drawdown has reached its limit, also when the daily loss is breached at the same time; it
  -- names the floor exactly when the floor is reached.
  pub check_account_wide_limits-flatten :
      (flattens (check_account_wide_limits s daily drop floor) ≡ must_flatten)
      × ((named (check_account_wide_limits s daily drop floor) ≡ some min_balance_floor)
          ↔ (below_floor s floor ≡ true))
  unfolding check_account_wide_limits
  check_account_wide_limits-flatten = ground arith

  -- It raises without `should_flatten` exactly when the daily loss alone is breached, and returns
  -- exactly when nothing is.
  pub check_account_wide_limits-pause :
      ((check_account_wide_limits s daily drop floor
          ≡ some (record { should_flatten = false; limit = max_daily_loss }))
        ↔ ((must_flatten ≡ false) × ((daily_loss_fraction s >= daily) ≡ true)))
      × ((check_account_wide_limits s daily drop floor ≡ none)
          ↔ ((must_flatten ≡ false) × ((daily_loss_fraction s >= daily) ≡ false)))
  unfolding check_account_wide_limits
  check_account_wide_limits-pause = ground arith
