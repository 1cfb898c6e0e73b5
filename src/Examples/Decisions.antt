-- ===== src/Examples/Decisions.antt =====
-- Entry and close decisions (backend/app/services/copy_decision.py) at concrete inputs.
use copytrading_agent.Prelude.{
  ◌≡◌, ◌≢◌, ◌⊎◌, ◌&&◌, Bool, true, false, Option, none, some, List, [], ◌∷◌, refl, arith, is_some,
  if◌then◌else◌,
}
use copytrading_agent.Prelude.Int.{ℤ, pos}
use copytrading_agent.Decimal.{◌⩽◌, ◌⋖◌, ◌⊗◌, min}
use copytrading_agent.Decimal.Units.{units_decimal, units-IsOrdered}
use copytrading_agent.Settings.{Settings}
use copytrading_agent.Trade.{open_new, close, add, long}
use copytrading_agent.Trade.Sizing.{source_room, total_room}
use copytrading_agent.Signal.Parts.{SourceFill, SourceFillPart}
use copytrading_agent.Signal.Pricing.{ExecutionContext, position_epsilon}
use copytrading_agent.Copy.Entry.{
  CopyPosition, EntryInputs, price_drift_too_high, decide_entry, entry_context, entry_sizing_inputs,
  limits_of,
}
use copytrading_agent.Copy.Entry.Rules.{IsApproved, decide_entry-IsApproved, decide_entry_bounds}
use copytrading_agent.Copy.Close.{
  CloseInputs, decide_close, final_close_of, close_approved, aggregate_below_min_close,
}
use copytrading_agent.Copy.Close.Rules.{
  HasLeft, MayHold, decide_close-final, decide_close_bounds, aggregate_below_min_close-sent,
}

abbrev pub settings : Settings ℤ
settings = record {
  trading_copy_min_order_notional_usd = pos 10;
  trading_copy_min_order_round_up_ratio = pos 1;
  trading_copy_max_source_exposure_multiple = pos 3;
  trading_copy_max_total_exposure_multiple = pos 5;
  trading_copy_max_total_allocation_pct = pos 1;
  trading_copy_top_wallet_count = 1;
  trading_copy_max_price_drift_bps = pos 2000;
  trading_copy_use_live_mid_price = true;
  trading_copy_max_entry_age_seconds = 60;
  paper_copy_slippage_bps = pos 0;
  paper_copy_latency_ms = 0;
  paper_copy_loss_limits_enabled = true;
  live_trading_max_source_loss_pct = pos 10;
  live_trading_max_daily_loss_pct = pos 5;
  live_trading_max_weekly_loss_pct = pos 10;
  live_trading_max_drawdown_pct = pos 20;
}

-- The source buys 20 BTC at 10.
abbrev pub fill : SourceFill
fill = record {
  external_fill_id = some "7";
  coin = some "BTC";
  price = some "10";
  size = some "20";
  notional_usd = some "200";
  timestamp_ms = 1000;
  raw_json = some (record { dir = some "Open Long"; start_position = some "0" });
}

abbrev pub opening_part : SourceFillPart ℤ
opening_part = record {
  action = open_new;
  side = long;
  source_size = pos 20;
  source_notional_usd = pos 200;
  sequence_index = 0;
  close_ratio = none;
  start_position = some (pos 0);
}

-- The copier, who holds nothing yet, sees the coin at 10.
abbrev entry : EntryInputs ℤ
entry = record {
  fill = fill;
  part = opening_part;
  position = none;
  allocation_active = true;
  allocation_pct = pos 1;
  account_equity_usd = pos 1000;
  source_equity_usd = pos 1000;
  source_leverage = pos 2;
  market_prices = record { prices = ("BTC", pos 10) ∷ []; sources = [] };
  source_exposure_usd = pos 0;
  account_exposure_usd = pos 0;
  settings = settings;
  min_order_notional_usd = pos 10;
  slippage_bps = none;
  latency_ms = none;
}

abbrev copied : CopyPosition ℤ
copied = record { side = long; size = pos 12 }

-- The copier already holds 12 and adds where the source has 25.
abbrev further_entry : EntryInputs ℤ
further_entry = record entry {
  part = record opening_part { start_position = some (pos 20); source_size = pos 5 };
  position = some copied;
}

-- The source is not followed any more.
abbrev inactive_entry : EntryInputs ℤ
inactive_entry = record entry { allocation_active = false }

entry_notional : (decide_entry entry).notional_usd ≡ pos 200
unfolding decide_entry copytrading_agent.Copy.Entry.entry_precheck
    copytrading_agent.Signal.Pricing.is_preexisting_source_add copytrading_agent.Prelude.Int.◌/ℤ◌
    copytrading_agent.Signal.Pricing.build_execution_context copytrading_agent.Signal.Parts.lookup
    copytrading_agent.Signal.Pricing.apply_adverse_slippage
    copytrading_agent.Signal.Pricing.is_buy_execution copytrading_agent.Prelude.Int.◌*ℤ◌
    copytrading_agent.Prelude.Int.◌+ℤ◌ copytrading_agent.Copy.Entry.entry_price_drift_blocked
    copytrading_agent.Signal.Pricing.adverse_price_drift_bps copytrading_agent.Prelude.Int.◌-ℤ◌
    copytrading_agent.Trade.Sizing.plan_entry_sizing entry_sizing_inputs
    copytrading_agent.Trade.Sizing.entry_sizing_limits
    copytrading_agent.Trade.Sizing.source_position_after_fill
    copytrading_agent.Trade.Sizing.add_sizing copytrading_agent.Trade.Sizing.open_sizing
    copytrading_agent.Trade.margin_from_notional copytrading_agent.Trade.safe_leverage
entry_notional = refl

entry_is_approved : (decide_entry entry).reason ≡ none
unfolding decide_entry copytrading_agent.Copy.Entry.entry_precheck
    copytrading_agent.Signal.Pricing.is_preexisting_source_add copytrading_agent.Prelude.Int.◌/ℤ◌
    copytrading_agent.Signal.Pricing.build_execution_context copytrading_agent.Signal.Parts.lookup
    copytrading_agent.Signal.Pricing.apply_adverse_slippage
    copytrading_agent.Signal.Pricing.is_buy_execution copytrading_agent.Prelude.Int.◌*ℤ◌
    copytrading_agent.Prelude.Int.◌+ℤ◌ copytrading_agent.Copy.Entry.entry_price_drift_blocked
    copytrading_agent.Signal.Pricing.adverse_price_drift_bps copytrading_agent.Prelude.Int.◌-ℤ◌
    copytrading_agent.Trade.Sizing.plan_entry_sizing entry_sizing_inputs
    copytrading_agent.Trade.Sizing.entry_sizing_limits
    copytrading_agent.Trade.Sizing.source_position_after_fill
    copytrading_agent.Trade.Sizing.add_sizing copytrading_agent.Trade.Sizing.open_sizing
    copytrading_agent.Trade.margin_from_notional copytrading_agent.Trade.safe_leverage
entry_is_approved = refl

further_entry_is_approved : (decide_entry further_entry).reason ≡ none
unfolding decide_entry copytrading_agent.Copy.Entry.entry_precheck
    copytrading_agent.Signal.Pricing.is_preexisting_source_add copytrading_agent.Prelude.Int.◌/ℤ◌
    copytrading_agent.Signal.Pricing.build_execution_context copytrading_agent.Signal.Parts.lookup
    copytrading_agent.Signal.Pricing.apply_adverse_slippage
    copytrading_agent.Signal.Pricing.is_buy_execution copytrading_agent.Prelude.Int.◌*ℤ◌
    copytrading_agent.Prelude.Int.◌+ℤ◌ copytrading_agent.Copy.Entry.entry_price_drift_blocked
    copytrading_agent.Signal.Pricing.adverse_price_drift_bps copytrading_agent.Prelude.Int.◌-ℤ◌
    copytrading_agent.Trade.Sizing.plan_entry_sizing entry_sizing_inputs
    copytrading_agent.Trade.Sizing.entry_sizing_limits
    copytrading_agent.Trade.Sizing.source_position_after_fill
    copytrading_agent.Trade.Sizing.add_sizing copytrading_agent.Trade.Sizing.open_sizing
    copytrading_agent.Trade.margin_from_notional copytrading_agent.Trade.safe_leverage
further_entry_is_approved = refl

inactive_entry_rejected : (decide_entry inactive_entry).reason ≢ none
unfolding decide_entry copytrading_agent.Copy.Entry.entry_precheck
    copytrading_agent.Signal.Pricing.is_preexisting_source_add copytrading_agent.Prelude.Int.◌/ℤ◌
    copytrading_agent.Signal.Pricing.build_execution_context copytrading_agent.Signal.Parts.lookup
    copytrading_agent.Signal.Pricing.apply_adverse_slippage
    copytrading_agent.Signal.Pricing.is_buy_execution copytrading_agent.Prelude.Int.◌*ℤ◌
    copytrading_agent.Prelude.Int.◌+ℤ◌ copytrading_agent.Copy.Entry.entry_price_drift_blocked
    copytrading_agent.Signal.Pricing.adverse_price_drift_bps copytrading_agent.Prelude.Int.◌-ℤ◌
    copytrading_agent.Trade.Sizing.plan_entry_sizing entry_sizing_inputs
    copytrading_agent.Trade.Sizing.entry_sizing_limits
    copytrading_agent.Trade.Sizing.source_position_after_fill
    copytrading_agent.Trade.Sizing.add_sizing copytrading_agent.Trade.Sizing.open_sizing
    copytrading_agent.Trade.margin_from_notional copytrading_agent.Trade.safe_leverage
inactive_entry_rejected e = ground arith

decide_entry-IsApproved_example : (context : ExecutionContext ℤ) × IsApproved entry context
decide_entry-IsApproved_example = decide_entry-IsApproved entry entry_is_approved

decide_entry_bounds_example :
    (context : ExecutionContext ℤ) × (entry_context entry ≡ some context)
    × ((pos 10 ⩽ (decide_entry entry).notional_usd) ≡ true)
    × (((decide_entry entry).notional_usd
          ⩽ source_room (entry_sizing_inputs entry context.execution_price) (limits_of entry))
        ≡ true)
    × (((decide_entry entry).notional_usd
          ⩽ total_room (entry_sizing_inputs entry context.execution_price) (limits_of entry))
        ≡ true)
decide_entry_bounds_example = decide_entry_bounds units-IsOrdered entry entry_is_approved

-- The source closed its long and the copier still holds 12, of which 10 are free.
abbrev final_close : CloseInputs ℤ
final_close = record {
  fill = fill;
  part = record opening_part { action = close };
  position = some copied;
  available_size = pos 10;
  source_account_state = some (record {
    dex = [];
    perp_equity = pos 500;
    leverage_by_coin = [];
    positions_by_coin = [];
    margin_mode_by_coin = [];
    skip_reason = none;
  });
  market_prices = record { prices = ("BTC", pos 10) ∷ []; sources = [] };
  settings = settings;
  min_order_notional_usd = pos 10;
  slippage_bps = none;
  latency_ms = none;
}

final_close_approved : (decide_close final_close).reason ≡ none
unfolding decide_close copytrading_agent.Prelude.Int.◌/ℤ◌
    copytrading_agent.Signal.Pricing.build_execution_context copytrading_agent.Signal.Parts.lookup
    copytrading_agent.Signal.Pricing.apply_adverse_slippage
    copytrading_agent.Signal.Pricing.is_buy_execution copytrading_agent.Prelude.Int.◌*ℤ◌
    copytrading_agent.Prelude.Int.◌-ℤ◌ copytrading_agent.Copy.Close.copy_close_size
    copytrading_agent.Copy.Close.source_position_is_final_close
final_close_approved = refl

decide_close-final_example :
    (HasLeft final_close
      × ((decide_close final_close).final_close ≡ true)
      × ((decide_close final_close).close_size ≡ min (pos 12) (pos 10))
      × (close_approved (decide_close final_close) ≡ true))
    ⊎ (MayHold final_close
        × ((decide_close final_close).final_close ≡ false)
        × (ratio : ℤ) × (final_close.part.close_ratio ≡ some ratio)
        × ((decide_close final_close).close_size
            ≡ min (min (pos 12) (pos 10)) (min (pos 12) (pos 10) ⊗ ratio)))
decide_close-final_example = decide_close-final final_close copied refl final_close_approved

decide_close_bounds_example :
    ((position_epsilon ⋖ (decide_close final_close).close_size) ≡ true)
    × (((decide_close final_close).close_size ⩽ pos 12) ≡ true)
    × (((decide_close final_close).close_size ⩽ pos 10) ≡ true)
decide_close_bounds_example =
    decide_close_bounds units-IsOrdered final_close copied refl final_close_approved

final_close_sent :
    close_approved (aggregate_below_min_close (decide_close final_close) (pos 1) (pos 10) (pos 10))
    ≡ true
unfolding aggregate_below_min_close decide_close copytrading_agent.Prelude.Int.◌/ℤ◌
    copytrading_agent.Signal.Pricing.build_execution_context copytrading_agent.Signal.Parts.lookup
    copytrading_agent.Signal.Pricing.apply_adverse_slippage
    copytrading_agent.Signal.Pricing.is_buy_execution copytrading_agent.Prelude.Int.◌*ℤ◌
    copytrading_agent.Prelude.Int.◌-ℤ◌ copytrading_agent.Copy.Close.copy_close_size
    copytrading_agent.Copy.Close.source_position_is_final_close
final_close_sent = refl

aggregate_below_min_close-sent_example :
    let decision = aggregate_below_min_close (decide_close final_close) (pos 1) (pos 10) (pos 10) in
    (decision.final_close ≡ true) ⊎ ((pos 10 ⩽ decision.notional_usd) ≡ true)
aggregate_below_min_close-sent_example =
    aggregate_below_min_close-sent units-IsOrdered final_close (pos 1) final_close_sent
