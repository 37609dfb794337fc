-- ===== src/Execution/LiveGuard.antt =====
-- trading_engine/execution/live_guard.py
use neuravex.Prelude.{
  ◌≡◌, ◌↔◌, ◌⊎◌, String, Bool, true, false, not, Option, none, some, arith, if◌then◌else◌, str_eq,
}

-- What the guard reads of an exchange adapter. An adapter that does not declare
-- `supports_withdrawals` counts as one that supports them.
pub record Adapter : Type 0 where
  pub name : String
  pub supports_withdrawals : Option Bool

pub data LiveTradingBlocked : Type 0 where
  not_live_mode live_not_allowed withdrawals_possible not_confirmed : LiveTradingBlocked

abbrev may_withdraw : Adapter → Bool
may_withdraw e = elim e.supports_withdrawals [ none ↦ true | some b ↦ b ]

-- `none` is a return without an exception.
unfoldable pub assert_live_order_allowed :
    Adapter → String → Bool → Bool → Option LiveTradingBlocked
assert_live_order_allowed exchange trading_mode allow_live_flag confirm_live =
    if str_eq exchange.name "paper"
    then none
    else if not (str_eq trading_mode "live")
    then some not_live_mode
    else if not allow_live_flag
    then some live_not_allowed
    else if may_withdraw exchange
    then some withdrawals_possible
    else if not confirm_live
    then some not_confirmed
    else none

-- An order goes through exactly on the paper exchange, or when the mode is live, live orders are
-- allowed, the adapter declares that it supports no withdrawals, and the caller confirms.
pub assert_live_order_allowed_exact :
    (exchange : Adapter) (mode : String) (allow confirm : Bool)
    → (assert_live_order_allowed exchange mode allow confirm ≡ none) ↔ (
        (str_eq exchange.name "paper" ≡ true)
        ⊎ ((str_eq mode "live" ≡ true)
            × (allow ≡ true)
            × (exchange.supports_withdrawals ≡ some false)
            × (confirm ≡ true)))
unfolding assert_live_order_allowed
assert_live_order_allowed_exact exchange mode allow confirm = ground arith
