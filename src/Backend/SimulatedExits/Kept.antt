-- ===== src/Backend/SimulatedExits/Kept.antt =====
-- What a sweep of the simulated exits leaves alone.
use neuravex.Prelude.{
  String, ◌≡◌, refl, ◌∙◌, false, true, Option, none, some, List, [], ◌∷◌, All, arith, Bool-cases,
  inl, inr, str_eq,
}
use neuravex.Prelude.Dict.{Dict, get}
use neuravex.Float.{Float}
use neuravex.Execution.Symbol.{has_slash}
use neuravex.Execution.Paper.{OrderResult, PaperExchange, Result, ok, err}
use neuravex.Execution.Paper.Sales.{create_order-other}
use neuravex.Backend.SimulatedExits.{
  Sweep, Simulation, sale_basis, save_sale, sell_all, exit_each, apply_simulated_exits,
}

module _ {F : Type 0} ⦃fl : Float F⦄ (s : Sweep F) where
  save_sale-exchange :
      (asset : String) (entry_price : F) (sim : Simulation F)
      (result : Result (OrderResult F) × PaperExchange F)
      → (save_sale s asset entry_price sim result).exchange ≡ result.1
  unfolding save_sale
  save_sale-exchange asset entry_price sim (ok r, x) = refl
  save_sale-exchange asset entry_price sim (err e, x) = refl

  -- A sale of another asset, or none at all.
  sell_all-other :
      (sim : Simulation F) (holding : String × F) (basis : Option F) (other : String)
      → has_slash holding.0 ≡ false
      → str_eq "USDC" other ≡ false
      → (str_eq holding.0 other ≡ true → basis ≡ none)
      → get other (sell_all s sim holding basis).exchange.balances ≡ get other sim.exchange.balances
  unfolding sell_all has_slash
  sell_all-other sim (asset, quantity) none other plain cash h = refl
  sell_all-other sim (asset, quantity) (some entry_price) other plain cash h =
      elim (Bool-cases (str_eq asset other)) [
        | inl same ↦ let none_due = h same in ground arith
        | inr apart ↦ rw (save_sale-exchange asset entry_price sim _) (
            create_order-other sim.exchange asset "USDC" other quantity _ s.now plain refl apart
              cash)
      ]

  exit_each-other :
      (cost_basis : Dict F) (holdings : List (String × F)) (sim : Simulation F) (other : String)
      → All (λ e. has_slash e.0 ≡ false) holdings
      → str_eq "USDC" other ≡ false
      → All (λ e. str_eq e.0 other ≡ true → sale_basis s cost_basis e ≡ none) holdings
      → get other (exit_each s cost_basis holdings sim).exchange.balances
        ≡ get other sim.exchange.balances
  unfolding exit_each
  exit_each-other cost_basis [] sim other plain cash h = refl
  exit_each-other cost_basis (holding ∷ rest) sim other plain cash h =
      exit_each-other cost_basis rest _ other plain.1 cash h.1
      ∙ sell_all-other sim holding (sale_basis s cost_basis holding) other plain.0 cash h.0

  -- A simulated position is sold by the rule of the exits or not at all: the balance of an asset that the
  -- rule does not ask to sell is the same after the sweep, whatever the sweep does to the others, if
  -- the names of the assets hold no slash.
  pub apply_simulated_exits-Keeps :
      (sim : Simulation F) (asset : String)
      → All (λ e. has_slash e.0 ≡ false) sim.exchange.balances
      → str_eq "USDC" asset ≡ false
      → All
          (λ e. str_eq e.0 asset ≡ true → sale_basis s sim.exchange.cost_basis e ≡ none)
          sim.exchange.balances
      → get asset (apply_simulated_exits s sim).exchange.balances ≡ get asset sim.exchange.balances
  unfolding apply_simulated_exits
  apply_simulated_exits-Keeps sim asset plain cash h =
      exit_each-other sim.exchange.cost_basis sim.exchange.balances sim asset plain cash h
