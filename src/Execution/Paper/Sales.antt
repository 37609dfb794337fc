-- ===== src/Execution/Paper/Sales.antt =====
-- A sale on the paper exchange and the balances of the other assets.
use neuravex.Prelude.{ℕ, String, ◌≡◌, refl, false, none, some, arith, Bool-cases, inl, inr, str_eq}
use neuravex.Prelude.Dict.{get, insert, get-insert}
use neuravex.Float.{Float, ◌-◌, ◌+◌, ◌<=◌, of_ℕ}
use neuravex.Execution.Symbol.{symbol_of, has_slash, split_symbol-symbol_of}
use neuravex.Execution.Paper.{
  sell, market, OrderResult, PaperExchange, Quote, Result, ok, err, Fill, balance, sell_fill,
  execute_order, create_order, order_at, settle, require_fresh_price, trade,
}

module _ {F : Type 0} ⦃fl : Float F⦄ where
  sell_fill-other :
      (x : PaperExchange F) (base quote other : String) (quantity : F) (f : Fill F)
      → str_eq base other ≡ false
      → str_eq quote other ≡ false
      → get other (sell_fill x base quote quantity f).1.balances ≡ get other x.balances
  unfolding sell_fill
  sell_fill-other x base quote other quantity f b q =
      let given = insert base (balance x base - quantity) x.balances in
      let proceeds = balance (record x { balances = given }) quote + (f.notional - f.fee) in
      let same : get other (insert quote proceeds given) ≡ get other x.balances =
        rw (get-insert quote other proceeds given, q)
          (rw (get-insert base other (balance x base - quantity) x.balances, b) refl) in
      ground (arith, same)

  settle-balances :
      (o : OrderResult F) (r : Result Unit × PaperExchange F)
      → (settle o r).1.balances ≡ r.1.balances
  unfolding settle
  settle-balances o (ok _, x) = refl
  settle-balances o (err e, x) = refl

  order_at-other :
      (x : PaperExchange F) (symbol : String) (quantity : F) (id : String) (p : Result (Quote F))
      (base quote other : String)
      → str_eq base other ≡ false
      → str_eq quote other ≡ false
      → get other (order_at x symbol sell market quantity none id p (some (base, quote))).1.balances
        ≡ get other x.balances
  unfolding order_at execute_order trade
  order_at-other x symbol quantity id (err e) base quote other b q = refl
  order_at-other x symbol quantity id (ok p) base quote other b q =
      rw (settle-balances _ _) (sell_fill-other x base quote other quantity _ b q)

  -- A sale of an asset for USDC leaves the balance of every other asset as it is.
  pub create_order-other :
      (x : PaperExchange F) (asset quote other : String) (quantity : F) (id : String) (now : ℕ)
      → has_slash asset ≡ false
      → has_slash quote ≡ false
      → str_eq asset other ≡ false
      → str_eq quote other ≡ false
      → get other
          (create_order x (symbol_of asset quote) sell market quantity none id now).1.balances
        ≡ get other x.balances
  unfolding create_order
  create_order-other x asset quote other quantity id now plain last a q =
      elim (Bool-cases (quantity <= of_ℕ 0)) [
        | inl bad ↦ rw bad refl
        | inr good ↦
            rw (good, split_symbol-symbol_of asset quote plain last)
              (order_at-other x (symbol_of asset quote) quantity id (require_fresh_price x _ now)
                asset quote other a q)
      ]
