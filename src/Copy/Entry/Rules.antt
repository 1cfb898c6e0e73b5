-- ===== src/Copy/Entry/Rules.antt =====
-- What an entry decision promises (backend/app/services/copy_decision.py).
use copytrading_agent.Prelude.{
  true, false, ◌≡◌, ◌≢◌, none, some, arith, is_some, ◌&&◌, if◌then◌else◌, Option-cases, inl, inr,
}
use copytrading_agent.Decimal.{Decimal, IsOrdered, ◌⩽◌, ◌⋖◌, ◌⊘◌}
use copytrading_agent.Trade.{add}
use copytrading_agent.Trade.Sizing.{source_room, total_room, entry_sizing_limits}
use copytrading_agent.Trade.Sizing.Bounds.{plan_entry_sizing_bounds}
use copytrading_agent.Signal.Parts.{decimal_or_zero}
use copytrading_agent.Signal.Pricing.{ExecutionContext, is_preexisting_source_add}
use copytrading_agent.Copy.Entry.{
  EntryInputs, decide_entry, entry_precheck, precheck_of, entry_context, sizing_of,
  entry_sizing_inputs, limits_of, is_open_new, is_opposite, entry_price_drift_blocked,
}

module _ {D : Type 0} ⦃d : Decimal D⦄ where
  -- What an approved entry went through, with the context that it was priced by.
  pub record IsApproved (i : EntryInputs D) (context : ExecutionContext D) : Type 0 where
    pub source_price : (d.nought ⋖ decimal_or_zero i.fill.price) ≡ true
    pub equity : (d.nought ⋖ i.source_equity_usd) ≡ true
    pub same_side : is_opposite i.position i.part.side ≡ false
    pub first_is_active : i.position ≡ none → i.allocation_active ≡ true
    pub first_is_new :
        i.position ≡ none → is_preexisting_source_add i.part.start_position i.part.side ≡ false
    pub priced : entry_context i ≡ some context
    pub drift : (context.price_drift_bps ⩽ i.settings.trading_copy_max_price_drift_bps) ≡ true
    pub position_known : is_some i.position ≡ true → is_some i.part.start_position ≡ true
    pub sized : (sizing_of i context.execution_price).skip_reason ≡ none
    pub notional :
        (decide_entry i).notional_usd ≡ (sizing_of i context.execution_price).notional_usd
    pub size : (decide_entry i).size ≡ (decide_entry i).notional_usd ⊘ context.execution_price

  precheck-passed :
      (i : EntryInputs D)
      → precheck_of i ≡ none
      → ((d.nought ⋖ decimal_or_zero i.fill.price) ≡ true)
        × (is_opposite i.position i.part.side ≡ false)
        × (i.position ≡ none → i.allocation_active ≡ true)
        × (i.position ≡ none → is_preexisting_source_add i.part.start_position i.part.side ≡ false)
  unfolding entry_precheck
  precheck-passed i h = ground arith

  -- An entry is approved only past every rule: a positive source price and source equity, no position
  -- on the other side, an active allocation and no earlier source position for a first entry, a price
  -- within the drift limit, a known source position for a further entry, and a sizing that does not
  -- skip; its notional value is then that of the sizing.
  pub decide_entry-IsApproved :
      (i : EntryInputs D)
      → (decide_entry i).reason ≡ none
      → (context : ExecutionContext D) × IsApproved i context
  unfolding decide_entry entry_price_drift_blocked
  decide_entry-IsApproved i h = elim (Option-cases (entry_context i)) [
    | inl unpriced ↦ absurd (ground arith)
    | inr (context, priced) ↦ (context, ground (arith, precheck-passed i))
  ]

  -- An approved further entry is an add, where the source's fill opened.
  pub decide_entry-action :
      (i : EntryInputs D)
      → (decide_entry i).reason ≡ none
      → (decide_entry i).action
        ≡ some (if is_some i.position && is_open_new i.part.action then add else i.part.action)
  unfolding decide_entry
  decide_entry-action i h = ground arith

  -- A rejected entry trades nothing.
  pub decide_entry-rejected :
      (i : EntryInputs D)
      → (decide_entry i).reason ≢ none
      → ((decide_entry i).notional_usd ≡ d.nought)
        × ((decide_entry i).size ≡ d.nought)
        × ((decide_entry i).margin_usd ≡ d.nought)
        × ((decide_entry i).action ≡ none)
  unfolding decide_entry
  decide_entry-rejected i h = ground arith

module _ {D : Type 0} ⦃d : Decimal D⦄ (order : IsOrdered D) where
  -- An approved entry is at least the minimum order of its account, and fits the room that the source's
  -- and the account's exposure caps leave at the execution price.
  pub decide_entry_bounds :
      (i : EntryInputs D)
      → (decide_entry i).reason ≡ none
      → (context : ExecutionContext D) × (entry_context i ≡ some context)
        × ((i.min_order_notional_usd ⩽ (decide_entry i).notional_usd) ≡ true)
        × (((decide_entry i).notional_usd
              ⩽ source_room (entry_sizing_inputs i context.execution_price) (limits_of i))
            ≡ true)
        × (((decide_entry i).notional_usd
              ⩽ total_room (entry_sizing_inputs i context.execution_price) (limits_of i))
            ≡ true)
  unfolding entry_sizing_limits
  decide_entry_bounds i h =
      let (context, approved) = decide_entry-IsApproved i h in
      let bounds =
        plan_entry_sizing_bounds order (entry_sizing_inputs i context.execution_price) (limits_of i)
          approved.sized in
      (
        context,
        approved.priced,
        rw approved.notional bounds.0,
        rw approved.notional bounds.1,
        rw approved.notional bounds.2,
      )
