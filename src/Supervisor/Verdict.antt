-- ===== src/Supervisor/Verdict.antt =====
-- What a verdict of the supervisor says of the trades that it was given.
use neuravex.Prelude.{
  ℕ, zero, suc, ◌≤◌, ◌≡◌, refl, ◌∙◌, sym, ap, ◌↔◌, String, Bool, true, false, not, Option, none,
  some, List, [], ◌∷◌, ◌++◌, foldl, map, arith, any, keep, All, str_eq, eq_iff, if◌then◌else◌,
  Bool-cases, Option-cases, inl, inr,
}
use mathlib.Core.List.{append-nil, append_assoc}
use neuravex.Float.{Float, IsIeee, ◌≼◌, of_ℕ, lit}
use neuravex.Supervisor.{
  ClosedTrade, Key, same_key, Totals, allows, no_verdict, is_recent, sort_by_time, risk_multiplier,
  add_result, add_trade, losing, totals_of, evaluate_supervisor,
}

-- One copy of `a` for each time that `s` is in the list.
abbrev times : {A : Type 0} → A → List String → String → List A
times a [] s = []
times a (x ∷ xs) s = if str_eq x s then a ∷ times a xs s else times a xs s

abbrev in_regime : Option String → String → Bool
in_regime none r = false
in_regime (some q) r = str_eq q r

module _ {F : Type 0} where
  keep_none :
      (now : ℕ) (old ts : List (ClosedTrade F))
      → All (λ t. is_recent now t ≡ false) old
      → keep (is_recent now) (old ++ ts) ≡ keep (is_recent now) ts
  keep_none now [] ts h = refl
  keep_none now (t ∷ old) ts h = rw h.0 (keep_none now old ts h.1)

same_key_iff : (a b : Key) → (same_key a b ≡ true) ↔ (a ≡ b)
unfolding same_key
same_key_iff a b = ground (arith, eq_iff a.0 b.0, eq_iff a.1 b.1)

same_key_trans : (a b c : Key) → same_key a b ≡ true → same_key b c ≡ same_key a c
same_key_trans a b c h = rw ((same_key_iff a b).0 h) refl

same_key_sym : (a b : Key) → same_key a b ≡ same_key b a
unfolding same_key
same_key_sym a b = ground (arith, eq_iff a.0 b.0, eq_iff a.1 b.1, eq_iff b.0 a.0, eq_iff b.1 a.1)

module _ {F : Type 0} ⦃fl : Float F⦄ where
  -- Trades older than the lookback change nothing, so every block and every reduced stake ends by
  -- itself: without newer trades the verdict is the neutral one.
  pub evaluate_supervisor_forgets :
      (now : ℕ) (old ts : List (ClosedTrade F))
      → All (λ t. is_recent now t ≡ false) old
      → (evaluate_supervisor (old ++ ts) now ≡ evaluate_supervisor ts now)
        × (evaluate_supervisor old now ≡ no_verdict)
  unfolding evaluate_supervisor
  evaluate_supervisor_forgets now old ts h =
      (rw (keep_none now old ts h), rw (← append-nil old) (rw (keep_none now old [] h)))

  -- The rungs of the ladder of stakes, in the scale of two decimals.
  rungs :
      IsIeee F
      → (lit {F = F} 25 2 ≼ lit 25 2)
        × (lit {F = F} 25 2 ≼ lit 5 1)
        × (lit {F = F} 5 1 ≼ lit 5 1)
        × (lit {F = F} 25 2 ≼ lit 75 2)
        × (lit {F = F} 5 1 ≼ lit 75 2)
        × (lit {F = F} 75 2 ≼ lit 75 2)
        × (lit {F = F} 25 2 ≼ of_ℕ 1)
        × (lit {F = F} 5 1 ≼ of_ℕ 1)
        × (lit {F = F} 75 2 ≼ of_ℕ 1)
        × (of_ℕ {F = F} 1 ≼ of_ℕ 1)
  rungs ieee =
      rw (ieee.lit_shift 1 0, ieee.lit_shift 10 1, ieee.lit_shift 5 1)
        (
          ieee.lit_mono _ _ 2 (omega arith),
          ieee.lit_mono _ _ 2 (omega arith),
          ieee.lit_mono _ _ 2 (omega arith),
          ieee.lit_mono _ _ 2 (omega arith),
          ieee.lit_mono _ _ 2 (omega arith),
          ieee.lit_mono _ _ 2 (omega arith),
          ieee.lit_mono _ _ 2 (omega arith),
          ieee.lit_mono _ _ 2 (omega arith),
          ieee.lit_mono _ _ 2 (omega arith),
          ieee.lit_mono _ _ 2 (omega arith),
        )

  -- More losses never mean a larger stake.
  pub risk_multiplier_mono :
      IsIeee F → (n k : ℕ) → n ≤ k → risk_multiplier {F = F} k ≼ risk_multiplier n
  unfolding risk_multiplier
  risk_multiplier_mono ieee zero zero h = ground (arith, rungs ieee)
  risk_multiplier_mono ieee zero (suc zero) h = ground (arith, rungs ieee)
  risk_multiplier_mono ieee zero (suc (suc zero)) h = ground (arith, rungs ieee)
  risk_multiplier_mono ieee zero (suc (suc (suc zero))) h = ground (arith, rungs ieee)
  risk_multiplier_mono ieee zero (suc (suc (suc (suc k)))) h = ground (arith, rungs ieee)
  risk_multiplier_mono ieee (suc n) zero h = absurd (omega arith)
  risk_multiplier_mono ieee (suc zero) (suc zero) h = ground (arith, rungs ieee)
  risk_multiplier_mono ieee (suc zero) (suc (suc zero)) h = ground (arith, rungs ieee)
  risk_multiplier_mono ieee (suc zero) (suc (suc (suc zero))) h = ground (arith, rungs ieee)
  risk_multiplier_mono ieee (suc zero) (suc (suc (suc (suc k)))) h = ground (arith, rungs ieee)
  risk_multiplier_mono ieee (suc (suc n)) (suc zero) h = absurd (omega arith)
  risk_multiplier_mono ieee (suc (suc zero)) (suc (suc zero)) h = ground (arith, rungs ieee)
  risk_multiplier_mono ieee (suc (suc zero)) (suc (suc (suc zero))) h = ground (arith, rungs ieee)
  risk_multiplier_mono ieee (suc (suc zero)) (suc (suc (suc (suc k)))) h =
      ground (arith, rungs ieee)
  risk_multiplier_mono ieee (suc (suc (suc n))) (suc (suc zero)) h = absurd (omega arith)
  risk_multiplier_mono ieee (suc (suc (suc zero))) (suc (suc (suc zero))) h =
      ground (arith, rungs ieee)
  risk_multiplier_mono ieee (suc (suc (suc zero))) (suc (suc (suc (suc k)))) h =
      ground (arith, rungs ieee)
  risk_multiplier_mono ieee (suc (suc (suc (suc n)))) (suc (suc (suc zero))) h =
      absurd (omega arith)
  risk_multiplier_mono ieee (suc (suc (suc (suc n)))) (suc (suc (suc (suc k)))) h =
      ground (arith, rungs ieee)

  -- The results of the trades of one strategy in one regime, in order: what `totals` is meant to hold.

  abbrev pub results : Key → List (ClosedTrade F) → List F
  results k [] = []
  results k (t ∷ ts) =
      (if in_regime t.regime k.1 then times t.pnl t.strategies k.0 else []) ++ results k ts

  at_key : Key → Totals F → List F
  at_key k [] = []
  at_key k ((j, pnls) ∷ rest) = if same_key j k then pnls else at_key k rest

  abbrev Absent : Key → Totals F → Type 0
  Absent k [] = Unit
  Absent k ((j, pnls) ∷ rest) = (same_key j k ≡ false) × Absent k rest

  abbrev IsUnique : Totals F → Type 0
  IsUnique [] = Unit
  IsUnique ((j, pnls) ∷ rest) = Absent j rest × IsUnique rest

  at_key-add_result :
      (k key : Key) (pnl : F) (totals : Totals F)
      → at_key k (add_result key pnl totals)
        ≡ (if same_key key k then at_key k totals ++ pnl ∷ [] else at_key k totals)
  unfolding at_key add_result
  at_key-add_result k key pnl [] = ground arith
  at_key-add_result k key pnl ((j, pnls) ∷ rest) = ground (
    arith,
    at_key-add_result k key pnl rest,
    same_key_trans j key k,
    same_key_trans j k key,
    same_key_sym key k,
    same_key_sym j key,
  )

  Absent-add_result :
      (k key : Key) (pnl : F) (totals : Totals F)
      → same_key key k ≡ false
      → Absent k totals
      → Absent k (add_result key pnl totals)
  unfolding add_result
  Absent-add_result k key pnl [] h a = (h, tt)
  Absent-add_result k key pnl ((j, pnls) ∷ rest) h a =
      ground (arith, Absent-add_result k key pnl rest h a.1)

  IsUnique-add_result :
      (key : Key) (pnl : F) (totals : Totals F)
      → IsUnique totals
      → IsUnique (add_result key pnl totals)
  unfolding add_result
  IsUnique-add_result key pnl [] u = (tt, tt)
  IsUnique-add_result key pnl ((j, pnls) ∷ rest) u = ground (
    arith,
    IsUnique-add_result key pnl rest u.1,
    Absent-add_result j key pnl rest,
    same_key_sym key j,
  )

  at_key-add_trade :
      (k : Key) (r : String) (pnl : F) (names : List String) (totals : Totals F)
      → at_key k (foldl (λ acc s. add_result (s, r) pnl acc) totals names)
        ≡ at_key k totals ++ (if str_eq r k.1 then times pnl names k.0 else [])
  unfolding same_key
  at_key-add_trade k r pnl [] totals = elim (Bool-cases (str_eq r k.1)) [
    | inl e ↦ rw e (sym (append-nil _))
    | inr e ↦ rw e (sym (append-nil _))
  ]
  at_key-add_trade k r pnl (s ∷ names) totals =
      let later = at_key-add_trade k r pnl names (add_result (s, r) pnl totals) in
      let now = at_key-add_result k (s, r) pnl totals in
      elim (Bool-cases (str_eq r k.1)) [
        | inl e ↦ elim (Bool-cases (str_eq s k.0)) [
          | inl d ↦
              rw (later, now, same_key, e, d)
                (append_assoc (at_key k totals) (pnl ∷ []) (times pnl names k.0))
          | inr d ↦ rw (later, now, same_key, e, d)
        ]
        | inr e ↦ elim (Bool-cases (str_eq s k.0)) [
          | inl d ↦ rw (later, now, same_key, e, d)
          | inr d ↦ rw (later, now, same_key, e, d)
        ]
      ]

  one_trade :
      (k : Key) (t : ClosedTrade F) (totals : Totals F)
      → at_key k (add_trade totals t)
        ≡ at_key k totals ++ (if in_regime t.regime k.1 then times t.pnl t.strategies k.0 else [])
  unfolding add_trade
  one_trade k t totals = elim (Option-cases t.regime) [
    | inl e ↦ rw e (sym (append-nil _))
    | inr (r, e) ↦ rw e (at_key-add_trade k r t.pnl t.strategies totals)
  ]

  at_key-totals :
      (k : Key) (ts : List (ClosedTrade F)) (totals : Totals F)
      → at_key k (foldl add_trade totals ts) ≡ at_key k totals ++ results k ts
  at_key-totals k [] totals = sym (append-nil _)
  at_key-totals k (t ∷ ts) totals =
      at_key-totals k ts (add_trade totals t)
      ∙ (ap (λ pnls. pnls ++ results k ts) (one_trade k t totals)
          ∙ append_assoc (at_key k totals)
              (if in_regime t.regime k.1 then times t.pnl t.strategies k.0 else []) (results k ts))

  IsUnique-add_trade :
      (r : String) (pnl : F) (names : List String) (totals : Totals F)
      → IsUnique totals
      → IsUnique (foldl (λ acc s. add_result (s, r) pnl acc) totals names)
  IsUnique-add_trade r pnl [] totals u = u
  IsUnique-add_trade r pnl (s ∷ names) totals u =
      IsUnique-add_trade r pnl names (add_result (s, r) pnl totals)
        (IsUnique-add_result (s, r) pnl totals u)

  IsUnique-totals :
      (ts : List (ClosedTrade F)) (totals : Totals F)
      → IsUnique totals
      → IsUnique (foldl add_trade totals ts)
  unfolding add_trade
  IsUnique-totals [] totals u = u
  IsUnique-totals (t ∷ ts) totals u = elim (Option-cases t.regime) [
    | inl e ↦ rw (e, add_trade) (IsUnique-totals ts totals u)
    | inr (r, e) ↦
        rw (e, add_trade) (IsUnique-totals ts _ (IsUnique-add_trade r t.pnl t.strategies totals u))
  ]

  at_key-Absent : (k : Key) (totals : Totals F) → Absent k totals → at_key k totals ≡ []
  unfolding at_key
  at_key-Absent k [] a = refl
  at_key-Absent k ((j, pnls) ∷ rest) a = rw a.0 (at_key-Absent k rest a.1)

  losing-nil : (pnls : List F) → pnls ≡ [] → losing pnls ≡ false
  unfolding losing
  losing-nil pnls e = rw e refl

  any-losing :
      (k : Key) (totals : Totals F)
      → IsUnique totals
      → any (same_key k) (map (λ e. e.0) (keep (λ e. losing e.1) totals)) ≡ losing (at_key k totals)
  unfolding at_key
  any-losing k [] u = sym (losing-nil [] refl)
  any-losing k ((j, pnls) ∷ rest) u =
      let ih = any-losing k rest u.1 in
      elim (Bool-cases (same_key j k)) [
        | inl same ↦
            let here : at_key k rest ≡ [] =
              rw (← (same_key_iff j k).0 same) (at_key-Absent j rest u.0) in
            elim (Bool-cases (losing pnls)) [
              | inl l ↦ rw (l, same_key_sym k j, same) (sym l)
              | inr l ↦ rw (l, same) (ih ∙ (losing-nil (at_key k rest) here ∙ sym l))
            ]
        | inr differ ↦ elim (Bool-cases (losing pnls)) [
          | inl l ↦ rw (l, same_key_sym k j, differ) ih
          | inr l ↦ rw (l, differ) ih
        ]
      ]

  -- A strategy may open positions in a regime exactly unless its recent trades in that regime number
  -- at least four and add up, in the order in which they closed, to a loss.
  pub allows_exact :
      (trades : List (ClosedTrade F)) (now : ℕ) (strategy regime : String)
      → allows (evaluate_supervisor trades now) strategy regime
        ≡ not (losing (results (strategy, regime) (sort_by_time (keep (is_recent now) trades))))
  unfolding allows evaluate_supervisor at_key
  allows_exact trades now s r =
      let recent = sort_by_time (keep (is_recent now) trades) in
      ap not (
        any-losing (s, r) (totals_of recent) (IsUnique-totals recent [] tt)
        ∙ ap losing (at_key-totals (s, r) recent []))
