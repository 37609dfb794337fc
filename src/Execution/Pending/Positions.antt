-- ===== src/Execution/Pending/Positions.antt =====
-- The positions behind the orders: what a reported fill does to the rows of `positions`.
use neuravex.Prelude.{
  ℕ, ◌≤◌, String, ◌≡◌, refl, ◌∙◌, true, false, ◌&&◌, Option, none, some, List, [], ◌∷◌, ◌++◌, arith,
  Bool-cases, Option-cases, inl, inr, eq_iff, str_eq, length, keep, find, update_first,
}
use neuravex.Prelude.Updates.{
  keep-find-none, keep-append, length-keep-update_first, keep-update_first,
}
use neuravex.Float.{Float, truthy}
use neuravex.Execution.Paper.{Side, buy, sell}
use neuravex.Execution.Pending.{
  PendingExecution, Position, Database, Opening, ReportRequest, transaction, commit_or_roll_back,
  has_id, holds, credit_if, update_strategy_performance, fill_position, apply_fill_to_position,
  reported, report_row, report_execution, shrink, grow, record_closed_trade, apply_strategy_result,
  opened_by, credit, or_zero, is_fill,
}
use mathlib.Core.List.{append-nil}

module _ {F : Type 0} where
  -- The open positions of an account in a symbol.
  abbrev pub open_in : String → String → List (Position F) → List (Position F)
  open_in account symbol positions = keep (holds account symbol) positions

  -- A change of the rows that leaves alone those of other accounts and symbols, and never makes a
  -- second open one of this account in this symbol.
  abbrev pub IsSafe : String → String → List (Position F) → List (Position F) → Type 0
  IsSafe account symbol before after =
      ((a s : String)
        → (str_eq account a && str_eq symbol s) ≡ false
        → open_in a s after ≡ open_in a s before)
      × (length (open_in account symbol before) ≤ 1 → length (open_in account symbol after) ≤ 1)

  holds_other :
      (account symbol a s : String) (p : Position F)
      → (str_eq account a && str_eq symbol s) ≡ false
      → str_eq p.account_id account ≡ true
      → str_eq p.symbol symbol ≡ true
      → holds a s p ≡ false
  holds_other account symbol a s p differ h k = ground (
    arith,
    eq_iff p.account_id account,
    eq_iff p.symbol symbol,
    eq_iff p.account_id a,
    eq_iff p.symbol s,
    eq_iff account a,
    eq_iff symbol s,
  )

  holds_parts :
      (account symbol : String) (p : Position F)
      → holds account symbol p ≡ true
      → (str_eq p.account_id account ≡ true) × (str_eq p.symbol symbol ≡ true)
  holds_parts account symbol p h = ground arith

  update_first-IsSafe :
      (account symbol : String) (f : Position F → Position F) (rows : List (Position F))
      → ((p : Position F) → ((f p).account_id ≡ p.account_id) × ((f p).symbol ≡ p.symbol))
      → IsSafe account symbol rows (update_first (holds account symbol) f rows)
  update_first-IsSafe account symbol f rows keeps = (
    λ a s differ. keep-update_first (holds account symbol) (holds a s) f rows (λ p t.
        let parts = holds_parts account symbol p t in
        (
          holds_other account symbol a s p differ parts.0 parts.1,
          holds_other account symbol a s (f p) differ (rw (keeps p).0 parts.0)
              (rw (keeps p).1 parts.1),
        )),
    λ h. omega (arith, length-keep-update_first (holds account symbol) f rows),
  )

  append-IsSafe :
      (account symbol : String) (new : Position F) (rows : List (Position F))
      → str_eq new.account_id account ≡ true
      → str_eq new.symbol symbol ≡ true
      → find (holds account symbol) rows ≡ none
      → IsSafe account symbol rows (rows ++ new ∷ [])
  append-IsSafe account symbol new rows h k e = (
    λ a s differ.
        keep-append (holds a s) rows (new ∷ [])
        ∙ rw (holds_other account symbol a s new differ h k) (append-nil _),
    λ l.
        rw
          (
            keep-append (holds account symbol) rows (new ∷ []),
            keep-find-none (holds account symbol) rows e,
          )
          (elim (Bool-cases (holds account symbol new)) [
            | inl t ↦ rw t (omega arith)
            | inr t ↦ rw t (omega arith)
          ]),
  )

module _ {F : Type 0} ⦃fl : Float F⦄ where
  credit_if-positions :
      (db : Database F) (p : Position F) (pnl quantity : F) (now : ℕ) (o : Option Opening)
      → (credit_if db p pnl quantity now o).positions ≡ db.positions
  unfolding credit_if credit record_closed_trade apply_strategy_result
  credit_if-positions db p pnl quantity now none = refl
  credit_if-positions db p pnl quantity now (some o) = ground arith

  update_strategy_performance-positions :
      (db : Database F) (p : Position F) (quantity : F) (now : ℕ)
      → (update_strategy_performance db p quantity now).positions ≡ db.positions
  unfolding update_strategy_performance
  update_strategy_performance-positions db p quantity now =
      elim (Option-cases p.opening_decision_id) [
        | inl e ↦ rw e refl
        | inr (d, e) ↦ rw e (elim (Bool-cases (truthy (or_zero p.realized_pnl))) [
          | inl t ↦ rw t (credit_if-positions db p _ quantity now _)
          | inr t ↦ rw t refl
        ])
      ]

  shrink_keeps :
      (qty price : F) (now : ℕ) (p : Position F)
      → ((shrink qty price now p).account_id ≡ p.account_id)
        × ((shrink qty price now p).symbol ≡ p.symbol)
  unfolding shrink
  shrink_keeps qty price now p = ground arith

  grow_keeps :
      (qty price : F) (p : Position F)
      → ((grow qty price p).account_id ≡ p.account_id) × ((grow qty price p).symbol ≡ p.symbol)
  unfolding grow
  grow_keeps qty price p = (refl, refl)

  fill_position-IsSafe :
      (e : PendingExecution F) (qty price : F) (now : ℕ) (db : Database F) (side : Side)
      (found : Option (Position F))
      → find (holds e.account_id e.symbol) db.positions ≡ found
      → IsSafe e.account_id e.symbol db.positions
          (fill_position e qty price now db side found).positions
  unfolding fill_position opened_by
  fill_position-IsSafe e qty price now db buy none h =
      append-IsSafe e.account_id e.symbol _ db.positions ((eq_iff e.account_id e.account_id).1 refl)
        ((eq_iff e.symbol e.symbol).1 refl) h
  fill_position-IsSafe e qty price now db buy (some p) h =
      update_first-IsSafe e.account_id e.symbol (grow qty price) db.positions (grow_keeps qty price)
  fill_position-IsSafe e qty price now db sell none h = (λ a s d. refl, λ l. l)
  fill_position-IsSafe e qty price now db sell (some p) h =
      let safe =
        update_first-IsSafe e.account_id e.symbol (shrink qty price now) db.positions
          (shrink_keeps qty price now) in
      elim (Bool-cases (shrink qty price now p).is_open) [
        | inl t ↦ rw t safe
        | inr t ↦ rw t (rw (update_strategy_performance-positions _ _ _ _) safe)
      ]

  apply_fill-IsSafe :
      (e : PendingExecution F) (qty price : F) (now : ℕ) (db : Database F)
      → IsSafe e.account_id e.symbol db.positions
          (apply_fill_to_position e qty price now db).positions
  unfolding apply_fill_to_position
  apply_fill-IsSafe e qty price now db = fill_position-IsSafe e qty price now db e.side _ refl

  -- A report touches only the positions of its order's account and symbol, and if there was at most
  -- one open position there, there still is at most one afterwards; this holds of fills, failures and
  -- repeated reports alike.
  pub report_execution-IsSafe :
      (id : String) (req : ReportRequest F) (now : ℕ) (db : Database F) {row : PendingExecution F}
      → find (has_id id) db.executions ≡ some row
      → IsSafe row.account_id row.symbol db.positions (report_execution id req now db).1.positions
  unfolding report_execution transaction commit_or_roll_back report_row
  report_execution-IsSafe id req now db {row} e = rw e (elim (Bool-cases (is_fill req)) [
    | inl t ↦ rw t (
        apply_fill-IsSafe (reported req row) _ _ now
          (record db { executions = update_first (has_id id) (reported req) db.executions }))
    | inr t ↦ rw t (λ a s d. refl, λ l. l)
  ])
