-- ===== src/Execution/Paper.antt =====
-- trading_engine/execution/paper_exchange.py, and the types of exchange_interface.py that it uses.
-- Every method takes the state and returns the new one, also beside an exception: what was written
-- before a raise stays written.
pub mod Balances
pub mod Sales
use neuravex.Prelude.{
  ℕ, String, Bool, true, false, ◌&&◌, Option, none, some, List, [], ◌∷◌, ltb, later, is_some,
  or_else, if◌then◌else◌,
}
use neuravex.Prelude.Dict.{Dict, get, insert, pop}
use neuravex.Float.{Float, ◌+◌, ◌-◌, ◌*◌, ◌/◌, ◌<=◌, ◌>◌, ◌==◌, lit, of_ℕ, truthy}
use neuravex.Execution.Symbol.{split_symbol}

pub data Side : Type 0 where
  buy sell : Side

pub data OrderType : Type 0 where
  market limit : OrderType

pub data OrderStatus : Type 0 where
  open_order filled partially_filled cancelled rejected : OrderStatus

pub data ExchangeError : Type 0 where
  bad_quantity no_price stale_price bad_symbol insufficient_balance zero_division unknown_order :
      ExchangeError

pub record OrderResult (F : Type 0) : Type 0 where
  pub order_id : String
  pub symbol : String
  pub side : Side
  pub order_type : OrderType
  pub requested_quantity : F
  pub status : OrderStatus
  pub filled_quantity : F
  pub average_fill_price : F
  pub fee : F
  pub fee_asset : String

-- A price and when it was loaded, in seconds; a naive time stamp has no age.
pub record Quote (F : Type 0) : Type 0 where
  pub price : F
  pub at : ℕ
  pub aware : Bool

pub record PaperExchange (F : Type 0) : Type 0 where
  pub balances : Dict F
  pub cost_basis : Dict F
  pub last_price : Dict (Quote F)
  pub orders : Dict (OrderResult F)
  pub taker_fee : F
  pub maker_fee : F
  pub slippage_bps : F
  pub slippage_bps_by_symbol : Dict F
  pub max_price_age_seconds : ℕ

pub data Result (A : Type 0) : Type 0 where
  ok : A → Result A
  err : ExchangeError → Result A

abbrev is_open : OrderStatus → Bool
is_open open_order = true
is_open _ = false

-- The terms of an order: what it is filled at, and what it costs.
pub record Fill (F : Type 0) : Type 0 where
  pub price : F
  pub notional : F
  pub fee : F

module _ {F : Type 0} ⦃fl : Float F⦄ where
  abbrev pub balance : PaperExchange F → String → F
  balance x asset = or_else (get asset x.balances) (of_ℕ 0)

  unfoldable pub update_price : PaperExchange F → String → F → ℕ → PaperExchange F
  update_price x symbol price at = record x {
    last_price = insert symbol (record { price = price; at = at; aware = true }) x.last_price;
  }

  -- `_require_fresh_price` at the time `now`.
  unfoldable pub require_fresh_price : PaperExchange F → String → ℕ → Result (Quote F)
  require_fresh_price x symbol now = elim (get symbol x.last_price) [
    | none ↦ err no_price
    | some q ↦
        if q.aware && ltb (later q.at x.max_price_age_seconds) now then err stale_price else ok q
  ]

  -- `price if order_type == OrderType.limit and price else last_price`
  unfoldable pub base_price : OrderType → Option F → F → F
  base_price market price last = last
  base_price limit none last = last
  base_price limit (some p) last = if truthy p then p else last

  abbrev slipped : Side → F → F → F
  slipped buy p slip = p + slip
  slipped sell p slip = p - slip

  abbrev pub fee_rate : PaperExchange F → OrderType → F
  fee_rate x market = x.taker_fee
  fee_rate x limit = x.maker_fee

  unfoldable pub slippage_rate : PaperExchange F → String → F
  slippage_rate x symbol =
      or_else (get symbol x.slippage_bps_by_symbol) x.slippage_bps / of_ℕ 10_000

  unfoldable pub fill_of : PaperExchange F → String → Side → OrderType → F → Option F → F → Fill F
  unfolding base_price
  fill_of x symbol side kind quantity price last =
      let p = base_price kind price last in
      let at = slipped side p (p * slippage_rate x symbol) in
      record { price = at; notional = at * quantity; fee = at * quantity * fee_rate x kind }

  -- The average cost of what is held after a buy.
  abbrev blended : PaperExchange F → String → F → F → Fill F → F
  blended x base prior_qty quantity f =
      (or_else (get base x.cost_basis) f.price * prior_qty + (f.notional + f.fee))
      / (prior_qty + quantity)

  -- The buy branch. The division by a holding of zero raises after the balances were written.
  unfoldable pub buy_fill :
      PaperExchange F → String → String → F → Fill F → Result Unit × PaperExchange F
  buy_fill x base quote quantity f =
      let cost = f.notional + f.fee in
      let available = balance x quote in
      let paid = record x { balances = insert quote (available - cost) x.balances } in
      let prior_qty = balance paid base in
      let held = record paid { balances = insert base (prior_qty + quantity) paid.balances } in
      if cost > available
      then (err insufficient_balance, x)
      else if (prior_qty + quantity) == of_ℕ 0
      then (err zero_division, held)
      else (
        ok tt,
        record held { cost_basis = insert base (blended x base prior_qty quantity f) x.cost_basis },
      )

  unfoldable pub sell_fill :
      PaperExchange F → String → String → F → Fill F → Result Unit × PaperExchange F
  sell_fill x base quote quantity f =
      let available = balance x base in
      let given = record x { balances = insert base (available - quantity) x.balances } in
      let paid = record given {
        balances = insert quote (balance given quote + (f.notional - f.fee)) given.balances;
      } in
      if quantity > available
      then (err insufficient_balance, x)
      else if balance paid base <= lit 1 12
      then (ok tt, record paid { cost_basis = pop base x.cost_basis })
      else (ok tt, paid)

  trade : Side → PaperExchange F → String → String → F → Fill F → Result Unit × PaperExchange F
  trade buy = buy_fill
  trade sell = sell_fill

  -- Writing down the order behind a trade that went through.
  settle : OrderResult F → Result Unit × PaperExchange F → Result (OrderResult F) × PaperExchange F
  settle order (ok _, x) = (ok order, record x { orders = insert order.order_id order x.orders })
  settle order (err e, x) = (err e, x)

  order_of : String → String → Side → OrderType → F → Fill F → String → OrderResult F
  order_of id symbol side kind quantity f quote = record {
    order_id = id;
    symbol = symbol;
    side = side;
    order_type = kind;
    requested_quantity = quantity;
    status = filled;
    filled_quantity = quantity;
    average_fill_price = f.price;
    fee = f.fee;
    fee_asset = quote;
  }

  -- An order on a symbol that is split already, at a fresh price.
  unfoldable pub execute_order :
      PaperExchange F
      → String
      → String × String
      → Side
      → OrderType
      → F
      → Option F
      → String
      → F
      → Result (OrderResult F) × PaperExchange F
  unfolding trade settle order_of
  execute_order x symbol (base, quote) side kind quantity price id last =
      let f = fill_of x symbol side kind quantity price last in
      settle (order_of id symbol side kind quantity f quote) (trade side x base quote quantity f)

  -- The rest of an order, from what the price check and the split of the symbol gave.
  order_at :
      PaperExchange F
      → String
      → Side
      → OrderType
      → F
      → Option F
      → String
      → Result (Quote F)
      → Option (String × String)
      → Result (OrderResult F) × PaperExchange F
  order_at x symbol side kind quantity price id (err e) pair = (err e, x)
  order_at x symbol side kind quantity price id (ok q) none = (err bad_symbol, x)
  order_at x symbol side kind quantity price id (ok q) (some pair) =
      execute_order x symbol pair side kind quantity price id q.price

  -- `id` is the fresh uuid, and `now` the clock.
  unfoldable pub create_order :
      PaperExchange F
      → String
      → Side
      → OrderType
      → F
      → Option F
      → String
      → ℕ
      → Result (OrderResult F) × PaperExchange F
  unfolding order_at
  create_order x symbol side kind quantity price id now =
      if quantity <= of_ℕ 0
      then (err bad_quantity, x)
      else order_at x symbol side kind quantity price id (require_fresh_price x symbol now)
          (split_symbol symbol)

  unfoldable pub cancel_order : PaperExchange F → String → Bool × PaperExchange F
  cancel_order x id = elim (get id x.orders) [
    | none ↦ (false, x)
    | some o ↦
        if is_open o.status
        then (true, record x { orders = insert id (record o { status = cancelled }) x.orders })
        else (false, x)
  ]

  unfoldable pub get_order_status : PaperExchange F → String → Result (OrderResult F)
  get_order_status x id = elim (get id x.orders) [ none ↦ err unknown_order | some o ↦ ok o ]
