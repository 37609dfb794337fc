-- ===== src/Backend/LiveExits/Sales.antt =====
-- When the fast loop queues the sale of a position, and what becomes of the row.
use Prim.Native.Nat.{◌<◌ as lt_ℕ}
use mathlib.Core.List.{append_assoc}
use neuravex.Prelude.{
  Bool-cases, ℕ, String, ◌≡◌, refl, Bool, true, false, ◌&&◌, Option, none, some, List, [], ◌∷◌,
  ◌++◌, any, arith, Option-cases, inl, inr, str_eq, eq_iff, later, subst, sym, prepend, All,
  All-mono, keep-All,
}
use neuravex.Float.{Float, ◌<=◌}
use neuravex.Execution.Paper.{sell}
use neuravex.Execution.Pending.{PendingExecution, Position, Database, is_offered, same_side}
use neuravex.Backend.LiveExits.{
  LiveAccount, Surroundings, already_pending, sale_of, sale_at, must_sell, check_position,
  sweep_account, queued_sales, live_positions, hard_stop_loss, unrealized_profit,
}

any-append_right :
    {A : Type 0} (f : A → Bool) (xs ys : List A) → any f ys ≡ true → any f (xs ++ ys) ≡ true
any-append_right f [] ys h = h
any-append_right f (x ∷ xs) ys h = ground (arith, any-append_right f xs ys h)

-- An entry that passes its own test is found at the end of any longer list.
any_self :
    {A : Type 0} (g : A → A → Bool) (before xs : List A)
    → All (λ x. g x x ≡ true) xs
    → All (λ x. any (g x) (before ++ xs) ≡ true) xs
any_self g before [] h = tt
any_self g before (x ∷ xs) h = (
  any-append_right (g x) before (x ∷ xs) (rw h.0 refl),
  subst (λ all. All (λ y. any (g y) all ≡ true) xs) (append_assoc before (x ∷ []) xs)
      (any_self g (before ++ x ∷ []) xs h.1),
)

-- Whether a row is about a symbol.
abbrev pub is_about : {F : Type 0} → String → PendingExecution F → Bool
is_about symbol row = str_eq row.symbol symbol

module _ {F : Type 0} ⦃fl : Float F⦄ (account : LiveAccount F) where
  check_position-row :
      (s : Surroundings F) (db : Database F) (p : Position F) {row : PendingExecution F}
      → check_position account s db p ≡ some row
      → (already_pending account.id p.symbol db ≡ false)
        × (row ≡ sale_of p (fl.lit 0 0) (s.new_id p) s.now)
  unfolding check_position sale_at
  check_position-row s db p e = elim (Option-cases (s.bid p)) [
    | inl nothing ↦ ground arith
    | inr (bid, priced) ↦ ground arith
  ]

  must_sell-Backstop :
      (p : Position F) (bid : F)
      → (unrealized_profit p bid <= hard_stop_loss) ≡ true
      → must_sell account p bid ≡ true
  unfolding must_sell
  must_sell-Backstop p bid lost = ground arith

  is_offered-sale_of :
      (p : Position F) (id : String) (created now : ℕ)
      → p.account_id ≡ account.id
      → lt_ℕ now (later created 300)
      → is_offered account.id now (sale_of p (fl.lit 0 0) id created) ≡ true
  is_offered-sale_of p id created now owner soon =
      rw (owner, (eq_iff account.id account.id).1 refl) (ground arith)

  -- A live position of the account that has lost 10 USDC or more is queued for sale, all of it,
  -- whatever its recorded stop and the configured target, if it has a price and no sale of its
  -- symbol is pending, and the phone is offered the row for five minutes.
  pub check_position-Backstop :
      (s : Surroundings F) (db : Database F) (p : Position F) (price : F)
      → p.account_id ≡ account.id
      → already_pending account.id p.symbol db ≡ false
      → s.bid p ≡ some price
      → (unrealized_profit p price <= hard_stop_loss) ≡ true
      → (row : PendingExecution F) × (check_position account s db p ≡ some row)
        × (row.side ≡ sell)
        × (row.symbol ≡ p.symbol)
        × (row.quantity ≡ p.quantity)
        × ((now : ℕ) → lt_ℕ now (later s.now 300) → is_offered account.id now row ≡ true)
  unfolding check_position sale_at
  check_position-Backstop s db p price owner free priced lost = (
    sale_of p (fl.lit 0 0) (s.new_id p) s.now,
    rw (free, priced, must_sell-Backstop p price lost) refl,
    refl,
    refl,
    refl,
    λ now soon. is_offered-sale_of p (s.new_id p) s.now now owner soon,
  )

  -- A pending sell of the account.
  abbrev is_waiting_sale : PendingExecution F → Bool
  is_waiting_sale row =
      str_eq row.account_id account.id && str_eq row.status "pending" && same_side row.side sell

  prepend-waiting :
      (s : Surroundings F) (db : Database F) (p : Position F) (o : Option (PendingExecution F))
      (rows : List (PendingExecution F))
      → check_position account s db p ≡ o
      → (str_eq p.account_id account.id && p.is_open) ≡ true
      → All (λ row. is_waiting_sale row ≡ true) rows
      → All (λ row. is_waiting_sale row ≡ true) (prepend o rows)
  prepend-waiting s db p none rows e h rest = rest
  prepend-waiting s db p (some row) rows e h rest =
      (rw (check_position-row s db p e).1 (ground arith), rest)

  queued_sales-waiting :
      (s : Surroundings F) (db : Database F) (ps : List (Position F))
      → All (λ p. (str_eq p.account_id account.id && p.is_open) ≡ true) ps
      → All (λ row. is_waiting_sale row ≡ true) (queued_sales account s db ps)
  unfolding queued_sales
  queued_sales-waiting s db [] h = tt
  queued_sales-waiting s db (p ∷ ps) h =
      prepend-waiting s db p _ _ refl h.0 (queued_sales-waiting s db ps h.1)

  sells_symbol : PendingExecution F → PendingExecution F → Bool
  sells_symbol wanted row =
      str_eq row.account_id account.id
      && str_eq row.symbol wanted.symbol
      && str_eq row.status "pending"
      && same_side row.side sell

  sells_own_symbol :
      (row : PendingExecution F) → is_waiting_sale row ≡ true → sells_symbol row row ≡ true
  unfolding sells_symbol
  sells_own_symbol row h = rw ((eq_iff row.symbol row.symbol).1 refl) (ground arith)

  sweep_account-live :
      (s : Surroundings F) (db : Database F)
      → account.paper_trading_enabled ≡ false
      → sweep_account account s db ≡ record db {
        executions = db.executions ++ queued_sales account s db (live_positions account db);
      }
  unfolding sweep_account
  sweep_account-live s db live = rw live refl

  pub check_position-pending :
      (s : Surroundings F) (db : Database F) (p : Position F)
      → already_pending account.id p.symbol db ≡ true
      → check_position account s db p ≡ none
  unfolding check_position
  check_position-pending s db p h = rw h refl

  sells_none :
      (first second : Surroundings F) (db : Database F)
      → account.paper_trading_enabled ≡ false
      → All
          (λ row.
            (p : Position F)
            → p.symbol ≡ row.symbol
            → check_position account second (sweep_account account first db) p ≡ none)
          (queued_sales account first db (live_positions account db))
  unfolding already_pending sells_symbol
  sells_none first second db live =
      let rows = queued_sales account first db (live_positions account db) in
      let after = record db { executions = db.executions ++ rows } in
      let waiting =
        queued_sales-waiting first db (live_positions account db) (keep-All _ db.positions) in
      All-mono _ _
        (λ row found p e. check_position-pending second (sweep_account account first db) p (
          subst (λ d. already_pending account.id p.symbol d ≡ true)
            (sym (sweep_account-live first db live))
            (subst (λ symbol. already_pending account.id symbol after ≡ true) (sym e) found)))
        rows (any_self sells_symbol db.executions rows (All-mono _ _ sells_own_symbol rows waiting))

  prepend-about :
      (s : Surroundings F) (db : Database F) (p : Position F) (symbol : String)
      (o : Option (PendingExecution F)) (rows : List (PendingExecution F))
      → check_position account s db p ≡ o
      → (p.symbol ≡ symbol → check_position account s db p ≡ none)
      → any (is_about symbol) rows ≡ false
      → any (is_about symbol) (prepend o rows) ≡ false
  prepend-about s db p symbol none rows e h rest = rest
  prepend-about s db p symbol (some row) rows e h rest =
      let sold = check_position-row s db p e in
      elim (Bool-cases (str_eq p.symbol symbol)) [
        | inl same ↦ let nothing = h ((eq_iff p.symbol symbol).0 same) in absurd (ground arith)
        | inr other ↦ rw (sold.1, other) rest
      ]

  queued_sales-about :
      (s : Surroundings F) (db : Database F) (symbol : String) (ps : List (Position F))
      → ((p : Position F) → p.symbol ≡ symbol → check_position account s db p ≡ none)
      → any (is_about symbol) (queued_sales account s db ps) ≡ false
  unfolding queued_sales
  queued_sales-about s db symbol [] h = refl
  queued_sales-about s db symbol (p ∷ ps) h =
      prepend-about s db p symbol _ _ refl (h p) (queued_sales-about s db symbol ps h)

  -- No second sale of a live account while one is pending: of the symbol of a row that a sweep has
  -- queued, the next sweep queues no row, at whatever time and prices, where the rows are as the first
  -- sweep left them.
  pub sweep_account-Once :
      (first second : Surroundings F) (db : Database F)
      → account.paper_trading_enabled ≡ false
      → let after = sweep_account account first db in
        All
          (λ row.
            any
              (is_about row.symbol)
              (queued_sales account second after (live_positions account after))
            ≡ false)
          (queued_sales account first db (live_positions account db))
  sweep_account-Once first second db live =
      let after = sweep_account account first db in
      All-mono _ _
        (λ row none_due.
          queued_sales-about second after row.symbol (live_positions account after) none_due)
        (queued_sales account first db (live_positions account db))
        (sells_none first second db live)
