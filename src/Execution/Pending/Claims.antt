-- ===== src/Execution/Pending/Claims.antt =====
-- Which orders the phone gets: claims, the guard against duplicates, and the sweeps.
use neuravex.Prelude.{
  ℕ, String, ◌≡◌, ◌≢◌, refl, ◌∙◌, Bool, true, false, not, ◌&&◌, ◌||◌, Option, none, some, List, [],
  ◌∷◌, arith, Bool-cases, inl, inr, eq_iff, str_eq, ltb, length, keep, any, find, update_first,
}
use neuravex.Prelude.Updates.{any-update_all, keep-update_all, any-swept, keep_cong}
use neuravex.Execution.Paper.{Side, buy, sell}
use neuravex.Execution.Pending.{
  PendingExecution, Database, Reply, done, http, transaction, commit_or_roll_back, same_side,
  has_id, claim_row, claim_execution, is_offered, get_pending_executions, has_pending_order,
  concerns, waits, is_stale, expire_stale_pending_executions, cancel_pending_buys,
}

abbrev pub is_sell : Side → Bool
is_sell sell = true
is_sell buy = false

-- `bool` of a reply: no exception.
abbrev pub is_done : {A : Type 0} → Reply A → Bool
is_done (done _) = true
is_done (http _) = false

pending_not_claimed :
    (status : String) → str_eq status "pending" ≡ true → str_eq status "claimed" ≡ false
pending_not_claimed status h = rw ((eq_iff status "pending").0 h) refl

same_side_refl : (s : Side) → same_side s s ≡ true
same_side_refl buy = refl
same_side_refl sell = refl

module _ {F : Type 0} where
  -- An order that is there, still pending, and not past its window.
  abbrev pub is_claimable : ℕ → Option (PendingExecution F) → Bool
  is_claimable now none = false
  is_claimable now (some row) = str_eq row.status "pending" && not (ltb row.expires_at now)

  pub claim_execution_refused :
      (id : String) (next : ℕ) (d : Database F) (row : PendingExecution F)
      → find (has_id id) d.executions ≡ some row
      → str_eq row.status "pending" ≡ false
      → claim_execution id next d ≡ (http 409, d)
  unfolding claim_execution transaction claim_row commit_or_roll_back
  claim_execution_refused id next d row e h = rw (e, h) refl

  abbrev pub in_flight : PendingExecution F → ℕ → PendingExecution F → Bool
  in_flight row now r =
      concerns row.account_id row.symbol row.side r
      && (str_eq r.status "claimed" || (str_eq r.status "pending" && ltb now r.expires_at))

  pub pending_order_in :
      (d : Database F) (now : ℕ) (row : PendingExecution F)
      → any (in_flight row now) d.executions ≡ true
      → has_pending_order row.account_id row.symbol row.side now d ≡ true
  unfolding has_pending_order
  pending_order_in d now row h = h

  pub in_flight_claimed :
      (row : PendingExecution F) (next now : ℕ)
      → in_flight row next (record row { status = "claimed"; claimed_at = some now }) ≡ true
  in_flight_claimed row next now =
      rw
        (
          (eq_iff row.account_id row.account_id).1 refl,
          (eq_iff row.symbol row.symbol).1 refl,
          same_side_refl row.side,
        )
        refl

  module _ (id : String) (now : ℕ) (db : Database F) where
    abbrev after_row : Option (PendingExecution F) → Reply String × Database F
    after_row o = commit_or_roll_back db (claim_row id now db o)

    claim_row_reply :
        (o : Option (PendingExecution F))
        → (is_done (after_row o).0 ≡ is_claimable now o)
          × (is_done (after_row o).0 ≡ false → (after_row o).1 ≡ db)
    unfolding claim_row commit_or_roll_back
    claim_row_reply none = ground arith
    claim_row_reply (some row) = ground arith

    -- A claim succeeds exactly when the order exists, is pending and is not past its window; a claim
    -- that does not succeed leaves the database as it was.
    pub claim_execution_exact :
        (is_done (claim_execution id now db).0 ≡ is_claimable now (find (has_id id) db.executions))
        × (is_done (claim_execution id now db).0 ≡ false → (claim_execution id now db).1 ≡ db)
    unfolding claim_execution transaction
    claim_execution_exact = claim_row_reply (find (has_id id) db.executions)

    abbrev pub claimed : PendingExecution F → PendingExecution F
    claimed r = record r { status = "claimed"; claimed_at = some now }

    claim_row_writes :
        (o : Option (PendingExecution F))
        → is_done (after_row o).0 ≡ true
        → ((after_row o).1.executions ≡ update_first (has_id id) claimed db.executions) × (o ≢ none)
    unfolding claim_row commit_or_roll_back
    claim_row_writes none h = ground arith
    claim_row_writes (some row) h = ground arith

    pub claim_execution_writes :
        is_done (claim_execution id now db).0 ≡ true
        → ((claim_execution id now db).1.executions
            ≡ update_first (has_id id) claimed db.executions)
          × (find (has_id id) db.executions ≢ none)
    unfolding claim_execution transaction
    claim_execution_writes h = claim_row_writes (find (has_id id) db.executions) h

  sells_of :
      (account : String) (now : ℕ) (rows : List (PendingExecution F))
      → keep (λ x. not (waits account buy x) && is_offered account now x) rows
        ≡ keep (λ row. is_sell row.side) (keep (is_offered account now) rows)
  sells_of account now [] = refl
  sells_of account now (x ∷ rows) =
      let ih = sells_of account now rows in
      elim (Bool-cases (is_offered account now x)) [
        | inl t ↦
            let w : waits account buy x ≡ not (is_sell x.side) = ground arith in
            elim (Bool-cases (is_sell x.side)) [
              | inl s ↦ rw (t, w, s) (rw ih refl)
              | inr s ↦ rw (t, w, s) ih
            ]
        | inr t ↦ elim (Bool-cases (waits account buy x)) [
          | inl w ↦ rw (w, t) ih
          | inr w ↦ rw (w, t) ih
        ]
      ]

  -- The sweep of stale orders leaves none behind, counts them, and changes neither what the phone is
  -- offered nor what counts as in flight, of any account.
  pub expire_stale_pending_executions-Clean :
      (account other symbol : String) (side : Side) (now : ℕ) (db : Database F)
      → let (count, after) = expire_stale_pending_executions account now db in
        (any (is_stale account now) after.executions ≡ false)
        × (count ≡ length (keep (is_stale account now) db.executions))
        × (get_pending_executions other now after ≡ get_pending_executions other now db)
        × (has_pending_order other symbol side now after
            ≡ has_pending_order other symbol side now db)
  unfolding expire_stale_pending_executions get_pending_executions has_pending_order
  expire_stale_pending_executions-Clean account other symbol side now db =
      let p = is_stale account now in
      (
        any-swept p _ db.executions (λ x t. ground arith),
        refl,
        keep-update_all p (is_offered other now) _ (λ x t. ground arith) db.executions
            ∙ keep_cong _ _ (λ x. ground arith) db.executions,
        any-update_all p _ _ (λ x t. ground (arith, pending_not_claimed x.status)) db.executions,
      )

  -- The kill switch takes from the phone exactly the buys of the account: its sells stay, and so do
  -- the orders of every other account.
  pub cancel_pending_buys-Exact :
      (account other : String) (now : ℕ) (db : Database F)
      → let after = (cancel_pending_buys account db).1 in
        (get_pending_executions account now after
          ≡ keep (λ row. is_sell row.side) (get_pending_executions account now db))
        × (str_eq account other ≡ false
            → get_pending_executions other now after ≡ get_pending_executions other now db)
  unfolding cancel_pending_buys get_pending_executions
  cancel_pending_buys-Exact account other now db = (
    keep-update_all (waits account buy) (is_offered account now) _ (λ x t. ground arith)
          db.executions
        ∙ sells_of account now db.executions,
    λ differ.
        keep-update_all (waits account buy) (is_offered other now) _ (λ x t. ground arith)
          db.executions
        ∙ keep_cong _ _
            (λ x.
              ground (
                arith,
                eq_iff x.account_id account,
                eq_iff x.account_id other,
                eq_iff account other,
              ))
            db.executions,
  )
