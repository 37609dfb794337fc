-- ===== src/Backend/LiveExits/Stuck.antt =====
-- What a sale that the phone did not claim in time does to the position.
use Prim.Native.Nat.{◌<◌ as lt_ℕ}
use neuravex.Prelude.{ℕ, String, ◌≡◌, refl, false, none, some, find, arith, eq_iff}
use neuravex.Float.{Float}
use neuravex.Execution.Paper.{sell}
use neuravex.Execution.Pending.{
  PendingExecution, Position, Database, http, has_id, claim_execution, claim_row, transaction,
  commit_or_roll_back, is_offered,
}
use neuravex.Prelude.Updates.{any-find}
use neuravex.Backend.LiveExits.{LiveAccount, Surroundings, already_pending, check_position}
use neuravex.Backend.LiveExits.Sales.{check_position-pending}

module _ {F : Type 0} ⦃fl : Float F⦄ (account : LiveAccount F) where
  -- A pending sale of the account that was not claimed within its window stays in the way: the
  -- phone is not offered it any more, a claim of it is refused with 410 and changes nothing, and
  -- as long as the row stands as it is the fast loop queues no other sale of the symbol, at
  -- whatever time and price.
  pub check_position-Stuck :
      (id : String) (db : Database F) (row : PendingExecution F) (p : Position F) (now : ℕ)
      → find (has_id id) db.executions ≡ some row
      → row.status ≡ "pending"
      → row.side ≡ sell
      → row.account_id ≡ account.id
      → row.symbol ≡ p.symbol
      → lt_ℕ row.expires_at now
      → (is_offered account.id now row ≡ false)
        × (claim_execution id now db ≡ (http 410, db))
        × ((s : Surroundings F) → check_position account s db p ≡ none)
  unfolding already_pending claim_execution claim_row transaction commit_or_roll_back
  check_position-Stuck id db row p now e pending sale owner symbol late = (
    ground arith,
    rw (e, pending) (ground arith),
    λ s. check_position-pending account s db p (
        any-find (has_id id) _ db.executions e (
          rw
            (
              pending,
              sale,
              owner,
              symbol,
              (eq_iff account.id account.id).1 refl,
              (eq_iff p.symbol p.symbol).1 refl,
            )
            refl)),
  )
