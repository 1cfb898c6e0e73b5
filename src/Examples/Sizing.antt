-- ===== src/Examples/Sizing.antt =====
-- Entry sizing (backend/app/services/trading_core.py) at concrete inputs.
use copytrading_agent.Prelude.{◌≡◌, ◌≢◌, ◌↔◌, ◌⊎◌, Bool, true, false, none, some, refl}
use copytrading_agent.Prelude.Int.{ℤ, pos}
use copytrading_agent.Decimal.{◌⩽◌, ◌⊖◌, ◌⊕◌}
use copytrading_agent.Decimal.Units.{units_decimal, units-IsOrdered}
use copytrading_agent.Trade.Sizing.{
  EntrySizingInputs, EntrySizingLimits, plan_entry_sizing, open_sizing, add_sizing, source_room,
  total_room, room, fill_target, target, current, cap_reason,
}
use copytrading_agent.Trade.Sizing.Bounds.{
  HasInputs, plan_entry_sizing_bounds, plan_entry_sizing-opening, plan_entry_sizing-add,
}

abbrev limits : EntrySizingLimits ℤ
limits = record {
  min_order_notional_usd = pos 10;
  min_order_round_up_ratio = pos 1;
  max_source_exposure_multiple = pos 3;
  max_total_exposure_multiple = pos 5;
}

-- An account of 5000 that gives 1000 to a source of 1000, whose fill opens 20 at the price 10.
abbrev opening_inputs : EntrySizingInputs ℤ
opening_inputs = record {
  opening = true;
  allocation_usd = pos 1000;
  account_equity_usd = pos 5000;
  source_equity_usd = pos 1000;
  source_fill_size = pos 20;
  source_position_after = pos 20;
  current_position_size = pos 0;
  price = pos 10;
  source_exposure_usd = pos 0;
  account_exposure_usd = pos 100;
}

-- The same source adds 5 where 12 of its 25 are copied.
abbrev add_inputs : EntrySizingInputs ℤ
add_inputs = record opening_inputs {
  opening = false;
  source_fill_size = pos 5;
  source_position_after = pos 25;
  current_position_size = pos 12;
}

opening_notional : (plan_entry_sizing opening_inputs limits).notional_usd ≡ pos 200
unfolding plan_entry_sizing open_sizing copytrading_agent.Prelude.Int.◌-ℤ◌
    copytrading_agent.Prelude.Int.◌*ℤ◌ copytrading_agent.Prelude.Int.◌/ℤ◌
opening_notional = refl

opening_HasInputs : HasInputs opening_inputs
opening_HasInputs = record { allocation = refl; equity = refl; price = refl }

add_HasInputs : HasInputs add_inputs
add_HasInputs = record { allocation = refl; equity = refl; price = refl }

plan_entry_sizing_bounds_example :
    let notional = (plan_entry_sizing opening_inputs limits).notional_usd in
    ((pos 10 ⩽ notional) ≡ true)
    × ((notional ⩽ source_room opening_inputs limits) ≡ true)
    × ((notional ⩽ total_room opening_inputs limits) ≡ true)
unfolding plan_entry_sizing open_sizing copytrading_agent.Prelude.Int.◌-ℤ◌
    copytrading_agent.Prelude.Int.◌*ℤ◌ copytrading_agent.Prelude.Int.◌/ℤ◌
plan_entry_sizing_bounds_example =
    plan_entry_sizing_bounds units-IsOrdered opening_inputs limits refl

plan_entry_sizing-opening_example :
    let decision = plan_entry_sizing opening_inputs limits in
    ((decision.skip_reason ≡ none)
      ↔ ((limits.min_order_notional_usd ⩽ room opening_inputs limits) ≡ true))
    × ((limits.min_order_notional_usd ⩽ room opening_inputs limits) ≡ false
        → (decision.skip_reason ≡ some (cap_reason opening_inputs limits))
          × (decision.notional_usd ≡ pos 0)
          × (decision.capped ≡ true))
plan_entry_sizing-opening_example =
    plan_entry_sizing-opening units-IsOrdered opening_inputs limits opening_HasInputs refl

plan_entry_sizing-add_example :
    let decision = plan_entry_sizing add_inputs limits in
    ((decision.rounded_up ≡ true) × (decision.notional_usd ≡ limits.min_order_notional_usd))
    ⊎ ((decision.rounded_up ≡ false)
        × ((decision.notional_usd ⩽ target add_inputs ⊖ current add_inputs) ≡ true)
        × ((decision.notional_usd ⩽ fill_target add_inputs ⊕ limits.min_order_notional_usd) ≡ true))
unfolding plan_entry_sizing add_sizing copytrading_agent.Prelude.Int.◌-ℤ◌
    copytrading_agent.Prelude.Int.◌*ℤ◌ copytrading_agent.Prelude.Int.◌/ℤ◌
    copytrading_agent.Prelude.Int.◌+ℤ◌
plan_entry_sizing-add_example =
    plan_entry_sizing-add units-IsOrdered add_inputs limits add_HasInputs refl refl
