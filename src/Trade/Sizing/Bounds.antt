-- ===== src/Trade/Sizing/Bounds.antt =====
-- What `plan_entry_sizing` (backend/app/services/trading_core.py) guarantees of the orders it sizes.
use copytrading_agent.Prelude.{◌≡◌, ◌≢◌, ◌↔◌, ◌⊎◌, true, false, none, some, arith}
use copytrading_agent.Decimal.{Decimal, IsOrdered, ◌⩽◌, ◌⊕◌, ◌⊖◌, max}
use copytrading_agent.Decimal.Order.{min-max-le, min-le_left, min-le_right}
use copytrading_agent.Trade.Sizing.{
  EntrySizingInputs, EntrySizingLimits, plan_entry_sizing, open_sizing, add_sizing, source_room,
  total_room, room, fill_target, target, current, add_desired, add_allowed,
  below_min_order_notional, target_position_reached, cap_reason,
}

module _ {D : Type 0} ⦃d : Decimal D⦄ where
  -- The three inputs that the sizing divides by or multiplies with are positive.
  pub record HasInputs (i : EntrySizingInputs D) : Type 0 where
    pub allocation : (i.allocation_usd ⩽ d.nought) ≡ false
    pub equity : (i.source_equity_usd ⩽ d.nought) ≡ false
    pub price : (i.price ⩽ d.nought) ≡ false

module _ {D : Type 0} ⦃d : Decimal D⦄ (order : IsOrdered D) where
  open order use {le_refl, le_trans, le_total}

  module _ (i : EntrySizingInputs D) (limits : EntrySizingLimits D) where
    room-le :
        ((room i limits ⩽ source_room i limits) ≡ true)
        × ((room i limits ⩽ total_room i limits) ≡ true)
    room-le = ground (
      arith,
      le_total (source_room i limits) (total_room i limits),
      le_refl (source_room i limits),
      le_refl (total_room i limits),
    )

    open_sizing_bounds :
        (open_sizing i limits).skip_reason ≡ none
        → ((limits.min_order_notional_usd ⩽ (open_sizing i limits).notional_usd) ≡ true)
          × (((open_sizing i limits).notional_usd ⩽ room i limits) ≡ true)
    unfolding open_sizing
    open_sizing_bounds h = ground (
      arith,
      le_refl limits.min_order_notional_usd,
      le_refl (room i limits),
      le_total limits.min_order_notional_usd (add_desired i limits),
    )

    add_sizing_bounds :
        (add_sizing i limits).skip_reason ≡ none
        → ((limits.min_order_notional_usd ⩽ (add_sizing i limits).notional_usd) ≡ true)
          × (((add_sizing i limits).notional_usd ⩽ room i limits) ≡ true)
    unfolding add_sizing
    add_sizing_bounds h = ground (
      arith,
      le_refl limits.min_order_notional_usd,
      min-max-le order (add_desired i limits) (room i limits),
    )

    -- An order that the sizing approves is at least the exchange minimum and at most the room that
    -- the source's exposure cap leaves and the room that the account's cap leaves.
    pub plan_entry_sizing_bounds :
        (plan_entry_sizing i limits).skip_reason ≡ none
        → let notional = (plan_entry_sizing i limits).notional_usd in
          ((limits.min_order_notional_usd ⩽ notional) ≡ true)
          × ((notional ⩽ source_room i limits) ≡ true)
          × ((notional ⩽ total_room i limits) ≡ true)
    unfolding plan_entry_sizing
    plan_entry_sizing_bounds h =
        let notional = (plan_entry_sizing i limits).notional_usd in
        ground (
          arith,
          room-le,
          open_sizing_bounds,
          add_sizing_bounds,
          le_trans notional (room i limits) (source_room i limits),
          le_trans notional (room i limits) (total_room i limits),
        )

    -- With its inputs, an opening entry is approved exactly when the exchange minimum fits both
    -- exposure caps; it is refused by the cap that leaves less room, and is then 0.
    pub plan_entry_sizing-opening :
        HasInputs i
        → i.opening ≡ true
        → let decision = plan_entry_sizing i limits in
          ((decision.skip_reason ≡ none) ↔ ((limits.min_order_notional_usd ⩽ room i limits) ≡ true))
          × ((limits.min_order_notional_usd ⩽ room i limits) ≡ false
              → (decision.skip_reason ≡ some (cap_reason i limits))
                × (decision.notional_usd ≡ d.nought)
                × (decision.capped ≡ true))
    unfolding plan_entry_sizing
    plan_entry_sizing-opening inputs o =
        let desired = max (target i ⊖ current i) d.nought in
        ground (
          arith,
          le_total limits.min_order_notional_usd desired,
          le_trans limits.min_order_notional_usd desired (room i limits),
        )

    -- An approved add is rounded up to one exchange minimum, or is at most what is missing to the
    -- target position and at most the source's own fill plus one minimum.
    pub plan_entry_sizing-add :
        HasInputs i
        → i.opening ≡ false
        → (plan_entry_sizing i limits).skip_reason ≡ none
        → let decision = plan_entry_sizing i limits in
          ((decision.rounded_up ≡ true) × (decision.notional_usd ≡ limits.min_order_notional_usd))
          ⊎ ((decision.rounded_up ≡ false)
              × ((decision.notional_usd ⩽ target i ⊖ current i) ≡ true)
              × ((decision.notional_usd ⩽ fill_target i ⊕ limits.min_order_notional_usd) ≡ true))
    unfolding plan_entry_sizing
    plan_entry_sizing-add inputs o h =
        let missing = target i ⊖ current i in
        let chased = fill_target i ⊕ limits.min_order_notional_usd in
        let desired = add_desired i limits in
        let allowed = add_allowed i limits in
        ground (
          arith,
          min-le_left order desired (max (room i limits) d.nought),
          min-le_left order missing chased,
          min-le_right order missing chased,
          le_trans allowed desired missing,
          le_trans allowed desired chased,
        )

    -- A skipped entry is 0; an add is skipped as reached exactly when nothing is missing to the
    -- target, and as below the minimum only when no cap reduced it.
    pub plan_entry_sizing-skip :
        HasInputs i
        → i.opening ≡ false
        → let decision = plan_entry_sizing i limits in
          ((decision.skip_reason ≡ some target_position_reached)
            ↔ ((target i ⊖ current i ⩽ d.nought) ≡ true))
          × (decision.skip_reason ≡ some below_min_order_notional → decision.capped ≡ false)
          × (decision.skip_reason ≢ none → decision.notional_usd ≡ d.nought)
    unfolding plan_entry_sizing
    plan_entry_sizing-skip inputs o = ground arith
