-- ===== src/Execution/Pending/Once.antt =====
-- How often an order goes to the phone: requests of execution.py, emergency.py and the agent, served
-- one after the other.
use neuravex.Prelude.{
  ℕ, String, ◌≡◌, refl, ◌∙◌, Bool, true, false, Option, none, some, List, [], ◌∷◌, All, arith,
  Bool-cases, Option-cases, inl, inr, eq_iff, str_eq, find,
}
use neuravex.Prelude.Updates.{
  find-update_first, find-update_first-apart, find-update_all, find-append, any-find,
}
use neuravex.Float.{Float, truthy}
use neuravex.Execution.Paper.{Side, buy, sell}
use neuravex.Execution.Pending.{
  PendingExecution, Position, Database, Opening, ReportRequest, http, transaction,
  commit_or_roll_back, has_id, claim_execution, has_pending_order, is_stale, waits,
  expire_stale_pending_executions, cancel_pending_buys, save_pending_execution, report_execution,
  report_row, reported, is_fill, or_zero, apply_fill_to_position, fill_position,
  update_strategy_performance, credit_if, credit, record_closed_trade, apply_strategy_result,
  shrink,
}
use neuravex.Execution.Pending.Claims.{
  is_done, in_flight, claimed, claim_execution_exact, claim_execution_refused,
  claim_execution_writes, pending_order_in, in_flight_claimed,
}

-- A call that writes to the orders.
pub data Request (F : Type 0) : Type 0 where
  claim : String → ℕ → Request F
  report : String → ReportRequest F → ℕ → Request F
  expire : String → ℕ → Request F
  kill : String → Request F
  save : PendingExecution F → Request F

module _ {F : Type 0} where
  abbrev pub reports : String → Request F → Bool
  reports id (claim _ _) = false
  reports id (report other _ _) = str_eq other id
  reports id (expire _ _) = false
  reports id (kill _) = false
  reports id (save _) = false

module _ {F : Type 0} ⦃fl : Float F⦄ where
  abbrev pub serve : Request F → Database F → Database F
  serve (claim id now) db = (claim_execution id now db).1
  serve (report id req now) db = (report_execution id req now db).1
  serve (expire account now) db = (expire_stale_pending_executions account now db).1
  serve (kill account) db = (cancel_pending_buys account db).1
  serve (save row) db = save_pending_execution row db

  abbrev pub serve_all : List (Request F) → Database F → Database F
  serve_all [] db = db
  serve_all (q ∷ rest) db = serve_all rest (serve q db)

  credit_if-executions :
      (db : Database F) (p : Position F) (pnl quantity : F) (now : ℕ) (o : Option Opening)
      → (credit_if db p pnl quantity now o).executions ≡ db.executions
  unfolding credit_if credit record_closed_trade apply_strategy_result
  credit_if-executions db p pnl quantity now none = refl
  credit_if-executions db p pnl quantity now (some o) = ground arith

  update_strategy_performance-executions :
      (db : Database F) (p : Position F) (quantity : F) (now : ℕ)
      → (update_strategy_performance db p quantity now).executions ≡ db.executions
  unfolding update_strategy_performance
  update_strategy_performance-executions db p quantity now =
      elim (Option-cases p.opening_decision_id) [
        | inl e ↦ rw e refl
        | inr (d, e) ↦ rw e (elim (Bool-cases (truthy (or_zero p.realized_pnl))) [
          | inl t ↦ rw t (credit_if-executions db p _ quantity now _)
          | inr t ↦ rw t refl
        ])
      ]

  fill_position-executions :
      (e : PendingExecution F) (qty price : F) (now : ℕ) (db : Database F) (side : Side)
      (found : Option (Position F))
      → (fill_position e qty price now db side found).executions ≡ db.executions
  unfolding fill_position
  fill_position-executions e qty price now db buy none = refl
  fill_position-executions e qty price now db buy (some p) = refl
  fill_position-executions e qty price now db sell none = refl
  fill_position-executions e qty price now db sell (some p) =
      elim (Bool-cases (shrink qty price now p).is_open) [
        | inl t ↦ rw t refl
        | inr t ↦ rw t (update_strategy_performance-executions _ _ _ _)
      ]

  -- The row of an order that was handed out stays as the claim left it.
  module _ (id : String) (row : PendingExecution F) (out : str_eq row.status "claimed" ≡ true) where
    abbrev Stays : Database F → Type 0
    Stays db = find (has_id id) db.executions ≡ some row

    other_id :
        (other : String) (r : PendingExecution F)
        → str_eq other id ≡ false
        → has_id other r ≡ true
        → has_id id r ≡ false
    other_id other r apart h = ground (arith, eq_iff r.id other, eq_iff r.id id, eq_iff other id)

    not_pending : str_eq row.status "pending" ≡ false
    not_pending = rw ((eq_iff row.status "claimed").0 out) refl

    claim-Stays :
        (other : String) (now : ℕ) (db : Database F)
        → Stays db
        → Stays (claim_execution other now db).1
    claim-Stays other now db stays = elim (Bool-cases (str_eq other id)) [
      | inl same ↦
          rw ((eq_iff other id).0 same)
            (rw (claim_execution_refused id now db row stays not_pending) stays)
      | inr apart ↦ elim (Bool-cases (is_done (claim_execution other now db).0)) [
        | inl t ↦ rw (claim_execution_writes other now db t).0 (
            find-update_first-apart (has_id id) (has_id other) (claimed other now db) db.executions
              (λ r h. (other_id other r apart h, other_id other r apart h))
            ∙ stays)
        | inr t ↦ rw ((claim_execution_exact other now db).1 t) stays
      ]
    ]

    report_row-Stays :
        (other : String) (req : ReportRequest F) (now : ℕ) (db : Database F)
        (found : Option (PendingExecution F))
        → str_eq other id ≡ false
        → Stays db
        → Stays (commit_or_roll_back db (report_row other req now db found)).1
    unfolding commit_or_roll_back report_row apply_fill_to_position
    report_row-Stays other req now db none apart stays = stays
    report_row-Stays other req now db (some r) apart stays =
        let saved =
          find-update_first-apart (has_id id) (has_id other) (reported req) db.executions
            (λ x h. (other_id other x apart h, other_id other x apart h))
          ∙ stays in
        elim (Bool-cases (is_fill req)) [
          | inl t ↦ rw t (rw (fill_position-executions _ _ _ _ _ _ _) saved)
          | inr t ↦ rw t saved
        ]

    serve-Stays :
        (q : Request F) (db : Database F) → reports id q ≡ false → Stays db → Stays (serve q db)
    unfolding expire_stale_pending_executions cancel_pending_buys save_pending_execution
        report_execution transaction
    serve-Stays (claim other now) db h stays = claim-Stays other now db stays
    serve-Stays (report other req now) db h stays =
        report_row-Stays other req now db (find (has_id other) db.executions) h stays
    serve-Stays (expire account now) db h stays =
        find-update_all (has_id id) (is_stale account now) _ db.executions (λ y. refl)
          (ground (arith, not_pending)) stays
    serve-Stays (kill account) db h stays =
        find-update_all (has_id id) (waits account buy) _ db.executions (λ y. refl)
          (ground (arith, not_pending)) stays
    serve-Stays (save r) db h stays = find-append (has_id id) db.executions (r ∷ []) stays

    serve_all-Stays :
        (qs : List (Request F)) (db : Database F)
        → All (λ q. reports id q ≡ false) qs
        → Stays db
        → Stays (serve_all qs db)
    serve_all-Stays [] db h stays = stays
    serve_all-Stays (q ∷ qs) db h stays =
        serve_all-Stays qs (serve q db) h.1 (serve-Stays q db h.0 stays)

  -- An order is handed out once, when requests are served one after the other: after a successful
  -- claim and any requests but a report of this order (claims, reports of other orders, sweeps of
  -- stale orders, kill switches, new orders), a further claim is refused as a conflict and changes
  -- nothing, and the order counts as in flight for its account, symbol and side, also past its
  -- window.
  pub claim_execution-Exclusive :
      (id : String) (now next : ℕ) (db : Database F) (row : PendingExecution F)
      (qs : List (Request F))
      → find (has_id id) db.executions ≡ some row
      → is_done (claim_execution id now db).0 ≡ true
      → All (λ q. reports id q ≡ false) qs
      → let after = serve_all qs (claim_execution id now db).1 in
        (claim_execution id next after ≡ (http 409, after))
        × (has_pending_order row.account_id row.symbol row.side next after ≡ true)
  claim_execution-Exclusive id now next db row qs e h unreported =
      let out = claimed id now db row in
      let first : find (has_id id) (claim_execution id now db).1.executions ≡ some out =
        rw (claim_execution_writes id now db h).0
          (find-update_first (has_id id) (claimed id now db) db.executions (λ y t. t) e) in
      let after = serve_all qs (claim_execution id now db).1 in
      let stays = serve_all-Stays id out refl qs (claim_execution id now db).1 unreported first in
      (
        claim_execution_refused id next after out stays refl,
        pending_order_in after next row (
            any-find (has_id id) (in_flight row next) after.executions stays
              (in_flight_claimed row next now)),
      )
