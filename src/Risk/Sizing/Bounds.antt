-- ===== src/Risk/Sizing/Bounds.antt =====
-- What `calculate_position_size` guarantees of its result.
use neuravex.Prelude.{◌≡◌, refl, ◌↔◌, ◌⊎◌, inl, inr, true, none, some, ◌||◌, arith, Bool-cases}
use neuravex.Float.{Float, IsIeee, IsNum, ◌≼◌, ◌<=◌, ◌>◌, truthy, ◌-◌, ◌*◌, ◌/◌, of_ℕ}
use neuravex.Float.Order.{le_of_not-lt, le_of_lt}
use neuravex.Risk.Sizing.{
  SizingRequest, PositionSizeResult, Draft, cap_position, cap_exposure, finish, wanted_risk,
  wanted_notional, stop_distance, position_cap, exposure_room, calculate_position_size,
}

module _ {F : Type 0} ⦃fl : Float F⦄ where
  -- A request is refused exactly when a price, or the distance of the stop, is not above zero.
  pub calculate_position_size-refused :
      (r : SizingRequest F)
      → (calculate_position_size r ≡ none) ↔ (
          (((r.entry_price <= of_ℕ 0) || (r.stop_loss_price <= of_ℕ 0))
            || (stop_distance r <= of_ℕ 0))
          ≡ true)
  unfolding calculate_position_size
  calculate_position_size-refused r = ground arith

  module _ (ieee : IsIeee F) (r : SizingRequest F) where
    room_nonneg : of_ℕ 0 ≼ exposure_room r
    unfolding exposure_room
    room_nonneg = ground (
      arith,
      ieee.lit_mono 0 0 0,
      le_of_lt ieee (of_ℕ 0) (
          (r.max_portfolio_exposure_fraction - r.current_portfolio_exposure_fraction)
          * r.account_equity),
    )

    -- A notional is the value of a quantity at the price of the entry: their product, or the quantity
    -- is what the notional buys, or it is zero.
    abbrev pub IsValue : F → F → Type 0
    IsValue notional quantity =
        (quantity * r.entry_price ≡ notional)
        ⊎ (quantity ≡ notional / r.entry_price)
        ⊎ (quantity ≡ of_ℕ 0)

    calculate_position_size-capped :
        {s : PositionSizeResult F}
        → calculate_position_size r ≡ some s
        → of_ℕ 0 ≼ position_cap r
        → IsNum (wanted_notional r)
        → (s.notional ≼ position_cap r) × (s.notional ≼ exposure_room r)
    unfolding calculate_position_size
    calculate_position_size-capped {s} e cap wanted = ground (
      arith,
      room_nonneg,
      ieee.num_of_le (of_ℕ 0) (position_cap r) cap,
      ieee.num_of_le (of_ℕ 0) (exposure_room r) room_nonneg,
      le_of_not-lt ieee (wanted_notional r) (position_cap r),
      le_of_not-lt ieee (wanted_notional r) (exposure_room r),
      le_of_not-lt ieee (position_cap r) (exposure_room r),
      le_of_lt ieee (exposure_room r) (position_cap r),
      le_of_lt ieee (exposure_room r) (wanted_notional r),
      ieee.le_trans (exposure_room r) (wanted_notional r) (position_cap r),
    )

    cap_position-IsValue :
        (d : Draft F)
        → IsValue d.notional d.quantity
        → IsValue (cap_position r d).notional (cap_position r d).quantity
    unfolding cap_position
    cap_position-IsValue d h = elim (Bool-cases (d.notional > position_cap r)) [
      | inl t ↦ rw t (inr (inl refl))
      | inr t ↦ rw t h
    ]

    cap_exposure-IsValue :
        (d : Draft F)
        → IsValue d.notional d.quantity
        → IsValue (cap_exposure r d).notional (cap_exposure r d).quantity
    unfolding cap_exposure
    cap_exposure-IsValue d h = elim (Bool-cases (d.notional > exposure_room r)) [
      | inl t ↦ elim (Bool-cases (truthy r.entry_price)) [
        | inl u ↦ rw (t, u) (inr (inl refl))
        | inr u ↦ rw (t, u) (inr (inr refl))
      ]
      | inr t ↦ rw t h
    ]

    finish-IsValue :
        (d : Draft F)
        → IsValue d.notional d.quantity
        → IsValue (finish r d).notional (finish r d).quantity
    unfolding finish
    finish-IsValue d h = elim (Bool-cases (d.quantity <= of_ℕ 0)) [
      | inl t ↦ rw t (inr (inr refl))
      | inr t ↦ rw t h
    ]

    calculate_position_size-IsValue :
        {s : PositionSizeResult F}
        → calculate_position_size r ≡ some s
        → IsValue s.notional s.quantity
    unfolding calculate_position_size wanted_notional
    calculate_position_size-IsValue {s} e =
        let first : Draft F = record {
          quantity = wanted_risk r / stop_distance r;
          notional = wanted_notional r;
          capped_by = none;
        } in
        let valued =
          finish-IsValue (cap_exposure r (cap_position r first))
            (cap_exposure-IsValue (cap_position r first) (cap_position-IsValue first (inl refl))) in
        ground (arith, valued)

    -- If the account's position cap is not negative and the wanted amount is a number, the size that
    -- comes back exceeds neither the position cap nor the room that is left for exposure: its notional
    -- is within both, and is the value of its quantity at the price of the entry.
    pub calculate_position_size-within :
        {s : PositionSizeResult F}
        → calculate_position_size r ≡ some s
        → of_ℕ 0 ≼ position_cap r
        → IsNum (wanted_notional r)
        → (s.notional ≼ position_cap r)
          × (s.notional ≼ exposure_room r)
          × IsValue s.notional s.quantity
    calculate_position_size-within {s} e cap wanted =
        let capped = calculate_position_size-capped e cap wanted in
        (capped.0, capped.1, calculate_position_size-IsValue e)

  -- A result that nothing capped is the full size of the fixed-fractional model: the wanted risk over
  -- the stop distance.
  pub calculate_position_size-uncapped :
      (r : SizingRequest F) {s : PositionSizeResult F}
      → calculate_position_size r ≡ some s
      → s.capped_by ≡ none
      → (s.quantity ≡ wanted_risk r / stop_distance r)
        × (s.notional ≡ wanted_notional r)
        × (s.risk_amount ≡ s.quantity * stop_distance r)
  unfolding calculate_position_size
  calculate_position_size-uncapped r e c = ground arith
