-- ===== src/Execution/Paper/Balances.antt =====
-- The balances of the paper exchange under orders.
use neuravex.Prelude.{
  ℕ, String, ◌≡◌, ◌⊎◌, refl, false, Option, none, some, arith, Option-cases, Bool-cases, inl, inr,
}
use neuravex.Prelude.Dict.{Dict, get, insert, get-insert}
use neuravex.Float.{Float, IsIeee, IsNum, ◌≼◌, ◌+◌, ◌-◌, ◌*◌, ◌<◌, ◌<=◌, ◌>◌, ◌==◌, of_ℕ, lit}
use neuravex.Float.Order.{le_of_not-lt, le_of_lt, not-lt_of_le}
use neuravex.Execution.Paper.{
  Side, buy, sell, OrderType, zero_division, OrderResult, PaperExchange, Quote, Result, ok, err,
  Fill, balance, base_price, fee_rate, slippage_rate, fill_of, buy_fill, sell_fill, execute_order,
  create_order, order_at, settle, require_fresh_price,
}

module _ {F : Type 0} ⦃fl : Float F⦄ where
  -- What an action on the exchange leaves behind when it ends in an exception.
  abbrev pub Unchanged : {A : Type 0} → PaperExchange F → Result A × PaperExchange F → Type 0
  Unchanged x (ok _, y) = Unit
  Unchanged x (err e, y) = (e ≡ zero_division) ⊎ (y ≡ x)

  execute_order-Unchanged :
      (x : PaperExchange F) (symbol : String) (pair : String × String) (side : Side)
      (kind : OrderType) (quantity : F) (price : Option F) (id : String) (last : F)
      → Unchanged x (execute_order x symbol pair side kind quantity price id last)
  unfolding execute_order buy_fill sell_fill
  execute_order-Unchanged x symbol (base, quote) buy kind quantity price id last = ground arith
  execute_order-Unchanged x symbol (base, quote) sell kind quantity price id last = ground arith

  order_at-Unchanged :
      (x : PaperExchange F) (symbol : String) (side : Side) (kind : OrderType) (quantity : F)
      (price : Option F) (id : String) (q : Result (Quote F)) (pair : Option (String × String))
      → Unchanged x (order_at x symbol side kind quantity price id q pair)
  unfolding order_at
  order_at-Unchanged x symbol side kind quantity price id (err e) pair = inr refl
  order_at-Unchanged x symbol side kind quantity price id (ok q) none = inr refl
  order_at-Unchanged x symbol side kind quantity price id (ok q) (some pair) =
      execute_order-Unchanged x symbol pair side kind quantity price id q.price

  -- An order that ends in an exception has changed nothing of the exchange, except where the division
  -- by a holding of zero raises.
  pub create_order-Unchanged :
      (x : PaperExchange F) (symbol : String) (side : Side) (kind : OrderType) (quantity : F)
      (price : Option F) (id : String) (now : ℕ)
      → Unchanged x (create_order x symbol side kind quantity price id now)
  unfolding create_order
  create_order-Unchanged x symbol side kind quantity price id now =
      elim (Bool-cases (quantity <= of_ℕ 0)) [
        | inl e ↦ rw e (inr refl)
        | inr e ↦ rw e (order_at-Unchanged x symbol side kind quantity price id _ _)
      ]

  -- No balance is below zero.
  pub record IsSolvent (d : Dict F) : Type 0 where
    pub at_asset : (asset : String) (v : F) → get asset d ≡ some v → (v < of_ℕ 0) ≡ false

  module _ (ieee : IsIeee F) where
    zero_not_neg : (of_ℕ {F = F} 0 < of_ℕ 0) ≡ false
    zero_not_neg = not-lt_of_le ieee (of_ℕ 0) (of_ℕ 0) (ieee.lit_mono 0 0 0 (omega arith))

    nonneg_of_num : (a : F) → IsNum a → (a < of_ℕ 0) ≡ false → of_ℕ 0 ≼ a
    nonneg_of_num a n h = le_of_not-lt ieee (of_ℕ 0) a (ieee.lit_mono 0 0 0 (omega arith)) n h

    sub_not_neg : (a b : F) → (b > a) ≡ false → (a - b < of_ℕ 0) ≡ false
    sub_not_neg a b h = elim (Bool-cases (a - b < of_ℕ 0)) [
      | inl neg ↦
          let num = (ieee.num_of_lt _ _ neg).0 in
          let parts = ieee.num_of_sub a b num in
          let le = le_of_not-lt ieee b a parts.1 parts.0 h in
          not-lt_of_le ieee (a - b) (of_ℕ 0) (ieee.sub_nonneg b a le num)
      | inr fine ↦ fine
    ]

    add_not_neg : (a b : F) → (a < of_ℕ 0) ≡ false → (b < of_ℕ 0) ≡ false → (a + b < of_ℕ 0) ≡ false
    add_not_neg a b h k = elim (Bool-cases (a + b < of_ℕ 0)) [
      | inl neg ↦
          let parts = ieee.num_of_add a b (ieee.num_of_lt _ _ neg).0 in
          not-lt_of_le ieee (a + b) (of_ℕ 0)
            (ieee.add_nonneg a b (nonneg_of_num a parts.0 h) (nonneg_of_num b parts.1 k))
      | inr fine ↦ fine
    ]

    mul_not_neg : (a b : F) → (a < of_ℕ 0) ≡ false → (b < of_ℕ 0) ≡ false → (a * b < of_ℕ 0) ≡ false
    mul_not_neg a b h k = elim (Bool-cases (a * b < of_ℕ 0)) [
      | inl neg ↦
          let num = (ieee.num_of_lt _ _ neg).0 in
          let parts = ieee.num_of_mul a b num in
          not-lt_of_le ieee (a * b) (of_ℕ 0)
            (ieee.mul_nonneg a b (nonneg_of_num a parts.0 h) (nonneg_of_num b parts.1 k) num)
      | inr fine ↦ fine
    ]

    -- A part of at most the whole is not more than it.
    mul_not_gt : (a r : F) → (a < of_ℕ 0) ≡ false → r ≼ of_ℕ 1 → (a * r > a) ≡ false
    mul_not_gt a r h k = elim (Bool-cases (a * r > a)) [
      | inl more ↦
          let nums = ieee.num_of_lt _ _ more in
          not-lt_of_le ieee a (a * r) (ieee.mul-le a r (nonneg_of_num a nums.0 h) k nums.1)
      | inr fine ↦ fine
    ]

    balance_not_neg :
        (x : PaperExchange F) (asset : String)
        → IsSolvent x.balances
        → (balance x asset < of_ℕ 0) ≡ false
    balance_not_neg x asset s = elim (Option-cases (get asset x.balances)) [
      | inl e ↦ rw e zero_not_neg
      | inr (v, e) ↦ rw e (s.at_asset asset v e)
    ]

    insert-IsSolvent :
        (d : Dict F) (asset : String) (v : F)
        → IsSolvent d
        → (v < of_ℕ 0) ≡ false
        → IsSolvent (insert asset v d)
    insert-IsSolvent d asset v s h = record {
      at_asset = λ j w e. ground (arith, get-insert asset j v d, s.at_asset j w);
    }

    -- What an order must be fair in: no negative price, and no rate above the whole.
    pub record IsFair (x : PaperExchange F) (symbol : String) (kind : OrderType) (price : Option F)
        (last : F) : Type 0 where
      pub price_not_neg : (base_price kind price last < of_ℕ 0) ≡ false
      pub slippage_le : slippage_rate x symbol ≼ of_ℕ 1
      pub fee_le : fee_rate x kind ≼ of_ℕ 1

    proceeds_not_neg :
        (x : PaperExchange F) (symbol : String) (kind : OrderType) (quantity : F) (price : Option F)
        (last : F)
        → IsFair x symbol kind price last
        → (quantity < of_ℕ 0) ≡ false
        → let f = fill_of x symbol sell kind quantity price last in
          (f.notional - f.fee < of_ℕ 0) ≡ false
    unfolding fill_of
    proceeds_not_neg x symbol kind quantity price last fair q =
        let p = base_price kind price last in
        let at = p - p * slippage_rate x symbol in
        let at_fine = sub_not_neg p _ (mul_not_gt p _ fair.price_not_neg fair.slippage_le) in
        let whole = mul_not_neg at quantity at_fine q in
        sub_not_neg (at * quantity) _ (mul_not_gt (at * quantity) _ whole fair.fee_le)

    buy_fill-IsSolvent :
        (x : PaperExchange F) (base quote : String) (quantity : F) (f : Fill F)
        → (quantity < of_ℕ 0) ≡ false
        → IsSolvent x.balances
        → IsSolvent (buy_fill x base quote quantity f).1.balances
    unfolding buy_fill
    buy_fill-IsSolvent x base quote quantity f q s =
        let cost = f.notional + f.fee in
        let available = balance x quote in
        let paid = record x { balances = insert quote (available - cost) x.balances } in
        elim (Bool-cases (cost > available)) [
          | inl short ↦ rw short s
          | inr covered ↦
              let paid_fine =
                insert-IsSolvent x.balances quote _ s (sub_not_neg available cost covered) in
              let held_fine =
                insert-IsSolvent paid.balances base _ paid_fine
                  (add_not_neg _ quantity (balance_not_neg paid base paid_fine) q) in
              elim (Bool-cases ((balance paid base + quantity) == of_ℕ 0)) [
                | inl nothing ↦ rw (covered, nothing) held_fine
                | inr some_left ↦ rw (covered, some_left) held_fine
              ]
        ]

    sell_fill-IsSolvent :
        (x : PaperExchange F) (base quote : String) (quantity : F) (f : Fill F)
        → (f.notional - f.fee < of_ℕ 0) ≡ false
        → IsSolvent x.balances
        → IsSolvent (sell_fill x base quote quantity f).1.balances
    unfolding sell_fill
    sell_fill-IsSolvent x base quote quantity f p s =
        let available = balance x base in
        let given = record x { balances = insert base (available - quantity) x.balances } in
        let paid = record given {
          balances = insert quote (balance given quote + (f.notional - f.fee)) given.balances;
        } in
        elim (Bool-cases (quantity > available)) [
          | inl short ↦ rw short s
          | inr covered ↦
              let given_fine =
                insert-IsSolvent x.balances base _ s (sub_not_neg available quantity covered) in
              let paid_fine =
                insert-IsSolvent given.balances quote _ given_fine
                  (add_not_neg _ _ (balance_not_neg given quote given_fine) p) in
              elim (Bool-cases (balance paid base <= lit 1 12)) [
                | inl closed ↦ rw (covered, closed) paid_fine
                | inr still ↦ rw (covered, still) paid_fine
              ]
        ]

    settle-IsSolvent :
        (o : OrderResult F) (r : Result Unit × PaperExchange F)
        → IsSolvent r.1.balances
        → IsSolvent (settle o r).1.balances
    unfolding settle
    settle-IsSolvent o (ok _, x) s = s
    settle-IsSolvent o (err e, x) s = s

    execute_order-IsSolvent :
        (x : PaperExchange F) (symbol : String) (pair : String × String) (side : Side)
        (kind : OrderType) (quantity : F) (price : Option F) (id : String) (last : F)
        → IsFair x symbol kind price last
        → (quantity < of_ℕ 0) ≡ false
        → IsSolvent x.balances
        → IsSolvent (execute_order x symbol pair side kind quantity price id last).1.balances
    unfolding execute_order
    execute_order-IsSolvent x symbol (base, quote) buy kind quantity price id last fair q s =
        let f = fill_of x symbol buy kind quantity price last in
        settle-IsSolvent _ _ (buy_fill-IsSolvent x base quote quantity f q s)
    execute_order-IsSolvent x symbol (base, quote) sell kind quantity price id last fair q s =
        let f = fill_of x symbol sell kind quantity price last in
        settle-IsSolvent _ _ (
          sell_fill-IsSolvent x base quote quantity f
            (proceeds_not_neg x symbol kind quantity price last fair q) s)

    -- What fairness asks of whichever price the check of its age lets through.
    abbrev pub IsFairAt :
        PaperExchange F → String → OrderType → Option F → Result (Quote F) → Type 0
    IsFairAt x symbol kind price (ok q) = IsFair x symbol kind price q.price
    IsFairAt x symbol kind price (err e) = Unit

    order_at-IsSolvent :
        (x : PaperExchange F) (symbol : String) (side : Side) (kind : OrderType) (quantity : F)
        (price : Option F) (id : String) (q : Result (Quote F)) (pair : Option (String × String))
        → IsFairAt x symbol kind price q
        → (quantity < of_ℕ 0) ≡ false
        → IsSolvent x.balances
        → IsSolvent (order_at x symbol side kind quantity price id q pair).1.balances
    unfolding order_at
    order_at-IsSolvent x symbol side kind quantity price id (err e) pair fair n s = s
    order_at-IsSolvent x symbol side kind quantity price id (ok q) none fair n s = s
    order_at-IsSolvent x symbol side kind quantity price id (ok q) (some pair) fair n s =
        execute_order-IsSolvent x symbol pair side kind quantity price id q.price fair n s

    -- No order, filled or refused, takes a balance below zero: if none was, the price is not negative,
    -- and neither the slippage nor the fee is more than the whole, then none is afterwards.
    pub create_order-IsSolvent :
        (x : PaperExchange F) (symbol : String) (side : Side) (kind : OrderType) (quantity : F)
        (price : Option F) (id : String) (now : ℕ)
        → IsFairAt x symbol kind price (require_fresh_price x symbol now)
        → IsSolvent x.balances
        → IsSolvent (create_order x symbol side kind quantity price id now).1.balances
    unfolding create_order
    create_order-IsSolvent x symbol side kind quantity price id now fair s =
        elim (Bool-cases (quantity <= of_ℕ 0)) [
          | inl e ↦ rw e s
          | inr e ↦ rw e (
              order_at-IsSolvent x symbol side kind quantity price id _ _ fair
                (ground (arith, le_of_lt ieee quantity (of_ℕ 0))) s)
        ]
