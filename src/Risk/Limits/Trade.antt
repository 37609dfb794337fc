-- ===== src/Risk/Limits/Trade.antt =====
-- What an approval of `check_trade_against_limits` means.
use neuravex.Prelude.{
  ℕ, suc, ◌≤◌, String, ◌≡◌, ◌↔◌, true, false, some, [], ◌∷◌, foldl, arith, Bool-cases, inl, inr,
  eq_iff, str_eq, length,
}
use neuravex.Prelude.Dict.{Dict, get, contains}
use neuravex.Float.{Float, IsIeee, IsNum, ◌≼◌, ◌+◌, lit}
use neuravex.Float.Order.{le_max_left, le_max_right}
use neuravex.Risk.Limits.{
  PortfolioState, TradeLimits, Correlated, approved, exceeds, too_correlated, current_exposure,
  too_recent, correlated, check_trade_against_limits, add_correlated,
}

module _ {F : Type 0} ⦃fl : Float F⦄ where
  -- Every limit of a trade is respected.
  pub record IsWithinLimits (symbol : String) (proposed : F) (s : PortfolioState F)
      (l : TradeLimits F) (c : Correlated F) (now : ℕ) : Type 0 where
    pub not_open : contains symbol s.open_positions ≡ false
    pub room_for_one : suc (length s.open_positions) ≤ l.max_open_positions
    pub size : exceeds proposed s.equity l.max_position_size ≡ false
    pub correlated_exposure : too_correlated s c proposed l.max_portfolio_exposure ≡ false
    pub exposure : exceeds (current_exposure s + proposed) s.equity l.max_portfolio_exposure ≡ false
    pub cooled : too_recent now (get symbol s.last_signal_time_by_symbol) l.cooldown_seconds ≡ false
    pub hourly : suc s.trades_this_hour ≤ l.max_trades_per_hour
    pub spaced : too_recent now s.last_entry_time l.min_time_between_entries_seconds ≡ false

  -- A trade is approved exactly when it is within every limit: the symbol is not open, there is room
  -- for one more position and one more trade this hour, neither its size nor the exposure with it
  -- exceeds its limit, and the waiting times since the last signal and the last entry are over.
  pub check_trade_against_limits-approved :
      (symbol : String) (proposed : F) (s : PortfolioState F) (l : TradeLimits F) (symbols : Dict F)
      (now : ℕ)
      → (approved (check_trade_against_limits symbol proposed s l symbols now) ≡ true)
        ↔ IsWithinLimits symbol proposed s l (correlated s symbols) now
  unfolding check_trade_against_limits
  check_trade_against_limits-approved symbol proposed s l symbols now = ground arith

  module _ (ieee : IsIeee F) (s : PortfolioState F) where
    -- One round of the loop: the penalty does not fall, and takes in a strong correlation.
    penalty_step :
        (acc : Correlated F) (other : String) (corr : F)
        → IsNum acc.penalty
        → acc.penalty ≼ (add_correlated s acc (other, corr)).penalty
    unfolding add_correlated
    penalty_step acc other corr h = ground (arith, le_max_left ieee acc.penalty corr h)

    penalty_takes :
        (acc : Correlated F) (other : String) (corr : F)
        → IsNum acc.penalty
        → contains other s.open_positions ≡ true
        → lit 7 1 ≼ corr
        → corr ≼ (add_correlated s acc (other, corr)).penalty
    unfolding add_correlated
    penalty_takes acc other corr h o k =
        ground (arith, ieee.num_of_le (lit 7 1) corr k, le_max_right ieee acc.penalty corr h)

    penalty_grows :
        (symbols : Dict F) (acc : Correlated F)
        → IsNum acc.penalty
        → acc.penalty ≼ (foldl (add_correlated s) acc symbols).penalty
    penalty_grows [] acc h = h
    penalty_grows ((other, corr) ∷ rest) acc h =
        let next = add_correlated s acc (other, corr) in
        let step = penalty_step acc other corr h in
        ieee.le_trans _ _ _ step (penalty_grows rest next (ieee.num_of_le _ _ step).1)

    penalty_reaches :
        (symbols : Dict F) (acc : Correlated F) (other : String) (corr : F)
        → IsNum acc.penalty
        → get other symbols ≡ some corr
        → contains other s.open_positions ≡ true
        → lit 7 1 ≼ corr
        → corr ≼ (foldl (add_correlated s) acc symbols).penalty
    unfolding get
    penalty_reaches [] acc other corr h e o k = cc
    penalty_reaches ((name, c) ∷ rest) acc other corr h e o k =
        let next = add_correlated s acc (name, c) in
        let num = (ieee.num_of_le _ _ (penalty_step acc name c h)).1 in
        elim (Bool-cases (str_eq name other)) [
          | inl same ↦
              let now : corr ≼ next.penalty =
                ground (arith, eq_iff name other, penalty_takes acc other corr h o k) in
              ieee.le_trans _ _ _ now (penalty_grows rest next num)
          | inr differ ↦ penalty_reaches rest next other corr num (ground arith) o k
        ]

    -- The penalty is at least every correlation of 0.7 or more with a position that is open, on every
    -- branch of the check, refused or not.
    pub penalty_covers :
        (symbol other : String) (proposed corr : F) (l : TradeLimits F) (symbols : Dict F) (now : ℕ)
        → get other symbols ≡ some corr
        → contains other s.open_positions ≡ true
        → lit 7 1 ≼ corr
        → corr ≼ (check_trade_against_limits symbol proposed s l symbols now).correlation_penalty
    unfolding check_trade_against_limits correlated
    penalty_covers symbol other proposed corr l symbols now e o h =
        penalty_reaches symbols _ other corr (ieee.lit_mono 0 0 0 (omega arith)) e o h
