-- ===== src/Execution/Universe.antt =====
-- trading_engine/execution/market_universe.py and route_costs.py
use neuravex.Prelude.{◌≡◌, String, false, Option, none, some, List, [], ◌∷◌, map, arith}
use neuravex.Prelude.Dict.{Dict, get}
use neuravex.Execution.Symbol.{base_of, symbol_of, has_slash, base_of-symbol_of}
use neuravex.Float.{Float, ◌-◌, ◌*◌, ◌/◌, lit, of_ℕ}

abbrev pub metal_tickers : Dict String
metal_tickers =
    ("GOLD", "GLD") ∷ ("SILVER", "SLV") ∷ ("PLATINUM", "PPLT") ∷ ("PALLADIUM", "PALL") ∷ []

abbrev stock_names : List String
stock_names =
    "AAPL" ∷ "MSFT" ∷ "NVDA" ∷ "GOOGL" ∷ "AMZN" ∷ "META" ∷ "TSLA" ∷ "AVGO" ∷ "JPM" ∷ "V" ∷ "JNJ"
    ∷ "WMT" ∷ "XOM" ∷ "KO" ∷ "PG" ∷ []

abbrev pub stock_tickers : Dict String
stock_tickers = map (λ t. (t, t)) stock_names

abbrev pub tickers_by_market : Dict (Dict String)
tickers_by_market = ("metals", metal_tickers) ∷ ("stocks", stock_tickers) ∷ []

-- The keys of a dict, in order.
abbrev pub keys : {V : Type 0} → Dict V → List String
keys d = map (λ e. e.0) d

-- `none` is the KeyError.
unfoldable pub symbols_for : String → Option (List String)
unfolding get
symbols_for market = elim (get market tickers_by_market) [
  | none ↦ none
  | some tickers ↦ some (map (λ name. symbol_of name "USDC") (keys tickers))
]

first_ticker : String → Dict (Dict String) → Option String
first_ticker base [] = none
first_ticker base ((_, tickers) ∷ rest) = elim (get base tickers) [
  | none ↦ first_ticker base rest
  | some t ↦ some t
]

-- `none` is the ValueError.
unfoldable pub yahoo_ticker : String → Option String
unfolding first_ticker
yahoo_ticker symbol = first_ticker (base_of symbol) tickers_by_market

-- The symbol of a metal is looked up as the fund that holds it, and that of any other base as the
-- stock of that name, if there is one; nothing else has a ticker.
pub yahoo_ticker-symbol_of :
    (base : String)
    → has_slash base ≡ false
    → yahoo_ticker (symbol_of base "USDC")
      ≡ elim (get base metal_tickers) [ none ↦ get base stock_tickers | some t ↦ some t ]
unfolding yahoo_ticker
yahoo_ticker-symbol_of base h = rw (base_of-symbol_of base "USDC" h) (ground arith)

-- The measured cost of a round trip for each symbol with a route.
abbrev pub round_trip_cost : {F : Type 0} ⦃fl : Float F⦄ → Dict F
round_trip_cost =
    ("WETH/USDC", lit 37 4)
    ∷ ("LINK/USDC", lit 63 4)
    ∷ ("WMATIC/USDC", lit 104 4)
    ∷ ("WBTC/USDC", lit 112 4)
    ∷ ("AAVE/USDC", lit 122 4)
    ∷ ("UNI/USDC", lit 204 4)
    ∷ ("LDO/USDC", lit 437 4)
    ∷ []

unfoldable pub slippage_bps_by_symbol : {F : Type 0} ⦃fl : Float F⦄ → F → Dict F
slippage_bps_by_symbol taker_fee =
    map (λ e. (e.0, (e.1 / of_ℕ 2 - taker_fee) * of_ℕ 10_000)) round_trip_cost
