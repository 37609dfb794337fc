-- ===== src/Backend/PaperState/Restored.antt =====
-- The next tick of a simulation starts from what the last one saved.
use Prim.Native.Nat.{◌<◌ as lt_ℕ}
use mathlib.Core.Option
use neuravex.Prelude.{
  ℕ, String, ◌≡◌, refl, ◌∙◌, true, Option, none, some, [], ◌∷◌, ◌++◌, ◌&&◌, All, keep, or_else,
  str_eq, eq_iff, subst, ap,
}
use neuravex.Prelude.Dict.{Dict}
use neuravex.Prelude.Updates.{keep-append}
use neuravex.Float.{Float}
use neuravex.Risk.Limits.{PortfolioState}
use neuravex.Execution.Paper.{PaperExchange}
use neuravex.Backend.History.{Snapshot, History, Store, same_mode, latest_by}
use neuravex.Backend.History.Latest.{latest_by-snoc}
use neuravex.Backend.History.Portfolio.{
  own_snapshots, simulated_positions, state_from, get_portfolio_state,
}
use neuravex.Backend.PaperState.{paper_equity, persist_paper_state, save_paper_snapshot}

module _ {F : Type 0} ⦃fl : Float F⦄ where
  latest-saved :
      (store : Store F) (account : String) (x : PaperExchange F) (prices : Dict F) (now : ℕ)
      (h : History F)
      → store.simulated ≡ true
      → All (λ s. lt_ℕ s.taken_at now) (own_snapshots store account h)
      → latest_by
          (λ s. s.taken_at)
          (own_snapshots store account (persist_paper_state account x prices now h))
        ≡ some (record {
          account_id = account;
          equity = paper_equity x.balances prices;
          taken_at = now;
          is_simulated = true;
        })
  unfolding own_snapshots persist_paper_state save_paper_snapshot
  latest-saved store account x prices now h simulated before =
      let own = λ (s : Snapshot F).
        str_eq s.account_id account && same_mode store.simulated s.is_simulated in
      let saved : Snapshot F = record {
        account_id = account;
        equity = paper_equity x.balances prices;
        taken_at = now;
        is_simulated = true;
      } in
      let is_own : (str_eq account account && same_mode store.simulated true) ≡ true =
        rw (simulated, (eq_iff account account).1 refl) refl in
      let added : keep own (h.snapshots ++ saved ∷ []) ≡ keep own h.snapshots ++ saved ∷ [] =
        keep-append own h.snapshots (saved ∷ []) ∙ rw is_own refl in
      ap (latest_by (λ s. s.taken_at)) added
      ∙ latest_by-snoc (λ s. s.taken_at) (keep own h.snapshots) saved before

  -- What a state read from a known latest snapshot holds.
  get_portfolio_state-latest :
      (store : Store F) (account : String) (next : ℕ) (h : History F) (last : Snapshot F)
      {state : PortfolioState F}
      → store.simulated ≡ true
      → latest_by (λ s. s.taken_at) (own_snapshots store account h) ≡ some last
      → get_portfolio_state store account next h ≡ some state
      → (state.equity ≡ last.equity)
        × (state.open_positions
            ≡ simulated_positions (h.paper_positions account) (h.paper_balances account))
  unfolding get_portfolio_state state_from
  get_portfolio_state-latest store account next h last {state} simulated latest e =
      let (balance, known, is_state) =
        (Option.map-eq-some_iff _ (h.starting_balance account)).0 e in
      subst
        (λ st.
          (st.equity ≡ last.equity)
          × (st.open_positions
              ≡ simulated_positions (h.paper_positions account) (h.paper_balances account)))
        is_state
        (
          ap
              (λ (o : Option (Snapshot F)). elim o as (λ _. F) [
                | none ↦ or_else store.fallback_equity balance
                | some s ↦ s.equity
              ])
              latest,
          rw simulated refl,
        )

  persist_paper_state-held :
      (account : String) (x : PaperExchange F) (prices : Dict F) (now : ℕ) (h : History F)
      → let saved = persist_paper_state account x prices now h in
        (saved.paper_positions account ≡ x.cost_basis) × (saved.paper_balances account ≡ x.balances)
  unfolding persist_paper_state save_paper_snapshot
  persist_paper_state-held account x prices now h =
      let here : str_eq account account ≡ true = (eq_iff account account).1 refl in
      (rw here refl, rw here refl)

  -- After the state of a simulation was saved, the portfolio that the next tick reads in
  -- simulation mode has the equity of the balances at the last prices, and its open positions are
  -- those of the saved balances and cost bases. The earlier snapshots of the account must be from
  -- before the save.
  pub persist_paper_state-Restored :
      (store : Store F) (account : String) (x : PaperExchange F) (prices : Dict F) (now next : ℕ)
      (h : History F) {state : PortfolioState F}
      → store.simulated ≡ true
      → All (λ s. lt_ℕ s.taken_at now) (own_snapshots store account h)
      → get_portfolio_state store account next (persist_paper_state account x prices now h)
        ≡ some state
      → (state.equity ≡ paper_equity x.balances prices)
        × (state.open_positions ≡ simulated_positions x.cost_basis x.balances)
  persist_paper_state-Restored store account x prices now next h simulated before e =
      let latest = latest-saved store account x prices now h simulated before in
      let held = persist_paper_state-held account x prices now h in
      let read = get_portfolio_state-latest store account next _ _ simulated latest e in
      (read.0, read.1 ∙ rw (held.0, held.1) refl)
