-- ===== src/Copy/Entry.antt =====
-- Entries: whether a source's part is copied, and how large, in
-- backend/app/services/copy_decision.py.
pub mod Rules
use copytrading_agent.Prelude.{
  ℕ, Bool, true, false, not, ◌&&◌, Option, none, some, is_none, is_some, get_or, if◌then◌else◌,
}
use copytrading_agent.Decimal.{Decimal, ◌⩽◌, ◌⋖◌, ◌⊗◌, ◌⊘◌, max}
use copytrading_agent.Settings.{Settings}
use copytrading_agent.Trade.{TradeAction, open_new, add, TradeSide, side_eq, margin_from_notional}
use copytrading_agent.Trade.Sizing.{
  SkipReason, EntrySizingInputs, EntrySizingLimits, EntrySizingDecision, entry_sizing_limits,
  plan_entry_sizing, source_position_after_fill,
}
use copytrading_agent.Signal.Parts.{SourceFill, SourceFillPart, decimal_or_zero}
use copytrading_agent.Signal.Pricing.{
  ExecutionContext, ExecutionMarketPrices, build_execution_context, is_preexisting_source_add,
}

-- The engine-neutral reasons, and those of the sizing.
pub data Reason : Type 0 where
  invalid_source_price preexisting_source_position opposite_position : Reason
  allocation_inactive source_equity_missing execution_price_unavailable : Reason
  price_drift_too_high source_position_unknown matching_position_missing : Reason
  close_already_pending close_ratio_missing close_size_zero close_below_min_order : Reason
  sizing_skip : SkipReason → Reason

pub record CopyPosition (D : Type 0) : Type 0 where
  pub side : TradeSide
  pub size : D

-- `action` is none where the source has the empty text.
pub record EntryDecision (D : Type 0) : Type 0 where
  pub reason : Option Reason
  pub execution_context : Option (ExecutionContext D)
  pub sizing : Option (EntrySizingDecision D)
  pub action : Option TradeAction
  pub size : D
  pub notional_usd : D
  pub margin_usd : D
  pub allocation_usd : D
  pub source_exposure_pct : D

-- The keyword arguments of `decide_entry`.
pub record EntryInputs (D : Type 0) : Type 0 where
  pub fill : SourceFill
  pub part : SourceFillPart D
  pub position : Option (CopyPosition D)
  pub allocation_active : Bool
  pub allocation_pct : D
  pub account_equity_usd : D
  pub source_equity_usd : D
  pub source_leverage : D
  pub market_prices : ExecutionMarketPrices D
  pub source_exposure_usd : D
  pub account_exposure_usd : D
  pub settings : Settings D
  pub min_order_notional_usd : D
  pub slippage_bps : Option D
  pub latency_ms : Option ℕ

abbrev is_open_new : TradeAction → Bool
is_open_new open_new = true
is_open_new _ = false

module _ {D : Type 0} ⦃d : Decimal D⦄ where
  abbrev pub entry_approved : EntryDecision D → Bool
  entry_approved decision = is_none decision.reason

  -- `position is not None and position.side != part.side`
  abbrev pub is_opposite : Option (CopyPosition D) → TradeSide → Bool
  is_opposite none side = false
  is_opposite (some position) side = not (side_eq position.side side)

  unfoldable pub entry_precheck :
      SourceFillPart D → Option (CopyPosition D) → Bool → D → Option Reason
  entry_precheck part position allocation_active source_price =
      if source_price ⩽ d.nought
      then some invalid_source_price
      else if is_none position && is_preexisting_source_add part.start_position part.side
      then some preexisting_source_position
      else if is_opposite position part.side
      then some opposite_position
      else if is_none position && not allocation_active
      then some allocation_inactive
      else none

  unfoldable pub entry_price_drift_blocked : ExecutionContext D → Settings D → Bool
  entry_price_drift_blocked execution_context settings =
      settings.trading_copy_max_price_drift_bps ⋖ execution_context.price_drift_bps

  -- `EntryDecision(reason=reason, execution_context=context)`, with the defaults of the class.
  abbrev pub rejected_entry : Reason → Option (ExecutionContext D) → EntryDecision D
  rejected_entry reason execution_context = record {
    reason = some reason;
    execution_context = execution_context;
    sizing = none;
    action = none;
    size = d.nought;
    notional_usd = d.nought;
    margin_usd = d.nought;
    allocation_usd = d.nought;
    source_exposure_pct = d.nought;
  }

  abbrev pub position_size : Option (CopyPosition D) → D
  position_size none = d.nought
  position_size (some position) = position.size

  abbrev pub equity_usd : EntryInputs D → D
  equity_usd i = max i.account_equity_usd d.nought

  abbrev pub allocation_usd : EntryInputs D → D
  allocation_usd i = equity_usd i ⊗ i.allocation_pct

  -- The call of `plan_entry_sizing`.
  unfoldable pub entry_sizing_inputs : EntryInputs D → D → EntrySizingInputs D
  entry_sizing_inputs i price = record {
    opening = is_none i.position;
    allocation_usd = allocation_usd i;
    account_equity_usd = equity_usd i;
    source_equity_usd = i.source_equity_usd;
    source_fill_size = i.part.source_size;
    source_position_after = source_position_after_fill i.part.start_position i.part.source_size;
    current_position_size = position_size i.position;
    price = price;
    source_exposure_usd = i.source_exposure_usd;
    account_exposure_usd = i.account_exposure_usd;
  }

  -- What follows the sizing.
  sized_entry : EntryInputs D → ExecutionContext D → EntrySizingDecision D → EntryDecision D
  sized_entry i context sizing =
      let source_exposure_pct = i.part.source_notional_usd ⊘ i.source_equity_usd in
      elim sizing.skip_reason [
        | some skip_reason ↦ record {
          reason = some (sizing_skip skip_reason);
          execution_context = some context;
          sizing = some sizing;
          action = none;
          size = d.nought;
          notional_usd = d.nought;
          margin_usd = d.nought;
          allocation_usd = allocation_usd i;
          source_exposure_pct = source_exposure_pct;
        }
        | none ↦ record {
          reason = none;
          execution_context = some context;
          sizing = some sizing;
          action =
              some (if is_some i.position && is_open_new i.part.action then add else i.part.action);
          size = sizing.notional_usd ⊘ context.execution_price;
          notional_usd = sizing.notional_usd;
          margin_usd = margin_from_notional sizing.notional_usd (some i.source_leverage);
          allocation_usd = allocation_usd i;
          source_exposure_pct = source_exposure_pct;
        }
      ]

  abbrev pub limits_of : EntryInputs D → EntrySizingLimits D
  limits_of i = entry_sizing_limits i.settings (some i.min_order_notional_usd)

  abbrev pub sizing_of : EntryInputs D → D → EntrySizingDecision D
  sizing_of i price = plan_entry_sizing (entry_sizing_inputs i price) (limits_of i)

  -- What follows the pricing.
  priced_entry : EntryInputs D → ExecutionContext D → EntryDecision D
  unfolding sized_entry
  priced_entry i context =
      if entry_price_drift_blocked context i.settings
      then rejected_entry price_drift_too_high (some context)
      else if is_some i.position && is_none i.part.start_position
      then rejected_entry source_position_unknown (some context)
      else sized_entry i context (sizing_of i context.execution_price)

  abbrev pub entry_context : EntryInputs D → Option (ExecutionContext D)
  entry_context i =
      build_execution_context i.fill i.part i.market_prices i.settings i.slippage_bps i.latency_ms

  abbrev pub precheck_of : EntryInputs D → Option Reason
  precheck_of i =
      entry_precheck i.part i.position i.allocation_active (decimal_or_zero i.fill.price)

  unfoldable pub decide_entry : EntryInputs D → EntryDecision D
  unfolding priced_entry
  decide_entry i = elim (precheck_of i) [
    | some reason ↦ rejected_entry reason none
    | none ↦
        if i.source_equity_usd ⩽ d.nought
        then rejected_entry source_equity_missing none
        else elim (entry_context i) [
          | none ↦ rejected_entry execution_price_unavailable none
          | some context ↦ priced_entry i context
        ]
  ]
