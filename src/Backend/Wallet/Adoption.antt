-- ===== src/Backend/Wallet/Adoption.antt =====
-- Which holdings of the wallet have a position after a report.
use mathlib.Core.List.{append-nil}
use neuravex.Prelude.{
  ℕ, String, ◌≡◌, refl, ◌∙◌, Bool, true, false, ◌||◌, Option, none, some, List, [], ◌∷◌, ◌++◌, All,
  All-mono, any, prepend, arith, Bool-cases, inl, inr, eq_iff,
}
use neuravex.Float.{Float}
use neuravex.Execution.Pending.{Position, holds}
use neuravex.Backend.Wallet.{
  AssetBalance, ReportBalanceRequest, Wallet, pair_symbol, is_skipped, adopted, adopt, reconcile,
  report_balance,
}

any-or : {A : Type 0} (f : A → Bool) (xs ys : List A) → any f (xs ++ ys) ≡ (any f xs || any f ys)
any-or f [] ys = refl
any-or f (x ∷ xs) ys = ground (arith, any-or f xs ys)

any-prepend :
    {A : Type 0} (f : A → Bool) (o : Option A) (xs : List A)
    → any f xs ≡ true
    → any f (prepend o xs) ≡ true
any-prepend f none xs h = h
any-prepend f (some x) xs h = ground arith

any-prepend_right :
    {A : Type 0} (f : A → Bool) (xs : List A) (o : Option A) (ys : List A)
    → any f (xs ++ ys) ≡ true
    → any f (xs ++ prepend o ys) ≡ true
any-prepend_right f [] o ys h = any-prepend f o ys h
any-prepend_right f (x ∷ xs) o ys h = ground (arith, any-prepend_right f xs o ys)

module _ {F : Type 0} ⦃fl : Float F⦄ (upper : String → String) (account : String) where
  -- A holding that a report looks at has an open position.
  abbrev pub IsTracked : List (Position F) → AssetBalance F → Type 0
  IsTracked positions asset =
      is_skipped upper account asset ≡ false
      → any (holds account (pair_symbol upper account asset)) positions ≡ true

  adopted-holds :
      (asset : AssetBalance F)
      → holds account (pair_symbol upper account asset) (adopted upper account asset) ≡ true
  adopted-holds asset =
      rw
        (
          (eq_iff account account).1 refl,
          (eq_iff (pair_symbol upper account asset) (pair_symbol upper account asset)).1 refl,
        )
        refl

  any-adopt :
      (positions rest : List (Position F)) (asset : AssetBalance F)
      → is_skipped upper account asset ≡ false
      → let held = holds account (pair_symbol upper account asset) in
        (any held positions || any held (prepend (adopt upper account positions asset) rest)) ≡ true
  unfolding adopt
  any-adopt positions rest asset counts =
      let held = holds account (pair_symbol upper account asset) in
      elim (Bool-cases (any held positions)) [
        | inl known ↦ rw known refl
        | inr new ↦ rw (new, counts, adopted-holds asset) refl
      ]

  reconcile-tracks :
      (positions : List (Position F)) (assets : List (AssetBalance F))
      → All (IsTracked (positions ++ reconcile upper account positions assets)) assets
  unfolding reconcile
  reconcile-tracks positions [] = tt
  reconcile-tracks positions (asset ∷ assets) = (
    λ counts.
        any-or _ positions _
        ∙ any-adopt positions (reconcile upper account positions assets) asset counts,
    All-mono _ _ (λ other tracked counts. any-prepend_right _ positions _ _ (tracked counts)) assets
        (reconcile-tracks positions assets),
  )

  reconcile-tracked :
      (positions : List (Position F)) (assets : List (AssetBalance F))
      → All (IsTracked positions) assets
      → reconcile upper account positions assets ≡ []
  unfolding reconcile adopt
  reconcile-tracked positions [] h = refl
  reconcile-tracked positions (asset ∷ assets) h =
      elim (Bool-cases (is_skipped upper account asset)) [
        | inl skipped ↦ rw skipped (reconcile-tracked positions assets h.1)
        | inr counts ↦ rw (counts, h.0 counts) (reconcile-tracked positions assets h.1)
      ]

  -- After a report every holding of it, but for USDC and what is not above zero, has an open position of
  -- the account, the positions that were there are as they were, and the same assets reported again
  -- change no position, whatever else that report says.
  pub report_balance-Tracks :
      (r next : ReportBalanceRequest F) (now at : ℕ) (w : Wallet F)
      → next.assets ≡ r.assets
      → let after = report_balance upper account r now w in
        All (IsTracked after.positions) r.assets
        × (after.positions ≡ w.positions ++ reconcile upper account w.positions r.assets)
        × ((report_balance upper account next at after).positions ≡ after.positions)
  unfolding report_balance
  report_balance-Tracks r next now at w same = (
    reconcile-tracks w.positions r.assets,
    refl,
    rw
        (
          same,
          reconcile-tracked (w.positions ++ reconcile upper account w.positions r.assets) r.assets
              (reconcile-tracks w.positions r.assets),
        )
        (append-nil (w.positions ++ reconcile upper account w.positions r.assets)),
  )
