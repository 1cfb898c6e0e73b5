-- ===== src/Copy/Close.antt =====
-- Closes: how much of a copied position a source's close part closes, in
-- backend/app/services/copy_decision.py.
pub mod Rules
use copytrading_agent.Prelude.{
  ℕ, Bool, true, false, not, ◌&&◌, ◌||◌, Option, none, some, is_none, get_or, if◌then◌else◌,
}
use copytrading_agent.Decimal.{Decimal, ◌⩽◌, ◌⋖◌, ◌⊕◌, ◌⊗◌, min, max}
use copytrading_agent.Settings.{Settings}
use copytrading_agent.Trade.{TradeSide, side_eq}
use copytrading_agent.Signal.Parts.{SourceFill, SourceFillPart}
use copytrading_agent.Signal.Coins.{Symbol, ByCoin, codes, resolve_coin}
use copytrading_agent.Signal.Pricing.{
  ExecutionContext, ExecutionMarketPrices, build_execution_context, position_epsilon,
}
use copytrading_agent.Copy.Entry.{
  Reason, matching_position_missing, close_already_pending, execution_price_unavailable,
  close_ratio_missing, close_size_zero, close_below_min_order, CopyPosition, is_opposite,
}

pub record SourceCurrentPosition (D : Type 0) : Type 0 where
  pub coin : Symbol
  pub side : TradeSide
  pub size : D

-- The skip reasons of a source account state.
pub data StateSkip : Type 0 where
  source_account_state_fetch_failed source_account_margin_summary_missing : StateSkip
  source_perp_equity_missing source_perp_equity_zero : StateSkip

pub record SourceAccountState (D : Type 0) : Type 0 where
  pub dex : Symbol
  pub perp_equity : D
  pub leverage_by_coin : ByCoin D
  pub positions_by_coin : ByCoin (SourceCurrentPosition D)
  pub margin_mode_by_coin : ByCoin Symbol
  pub skip_reason : Option StateSkip

pub record CloseDecision (D : Type 0) : Type 0 where
  pub reason : Option Reason
  pub execution_context : Option (ExecutionContext D)
  pub close_size : D
  pub notional_usd : D
  pub final_close : Bool
  pub needs_aggregation : Bool
  pub aggregated : Bool

-- The keyword arguments of `decide_close`.
pub record CloseInputs (D : Type 0) : Type 0 where
  pub fill : SourceFill
  pub part : SourceFillPart D
  pub position : Option (CopyPosition D)
  pub available_size : D
  pub source_account_state : Option (SourceAccountState D)
  pub market_prices : ExecutionMarketPrices D
  pub settings : Settings D
  pub min_order_notional_usd : D
  pub slippage_bps : Option D
  pub latency_ms : Option ℕ

abbrev is_unavailable : Option StateSkip → Bool
is_unavailable (some source_account_state_fetch_failed) = true
is_unavailable (some source_account_margin_summary_missing) = true
is_unavailable _ = false

-- `str(fill.get("coin") or "")`
abbrev pub fill_coin : SourceFill → Symbol
fill_coin fill = codes (get_or fill.coin "")

module _ {D : Type 0} ⦃d : Decimal D⦄ where
  abbrev pub close_approved : CloseDecision D → Bool
  close_approved decision = is_none decision.reason && not decision.needs_aggregation

  unfoldable pub source_state_available_for_reconciliation : Option (SourceAccountState D) → Bool
  source_state_available_for_reconciliation none = false
  source_state_available_for_reconciliation (some state) = not (is_unavailable state.skip_reason)

  unfoldable pub resolve_source_current_position :
      ByCoin (SourceCurrentPosition D) → Symbol → Option (SourceCurrentPosition D)
  unfolding resolve_coin
  resolve_source_current_position = resolve_coin some

  -- `source_position is None or source_position.side != side`
  abbrev pub left_side : Option (SourceCurrentPosition D) → TradeSide → Bool
  left_side none side = true
  left_side (some position) side = not (side_eq position.side side)

  unfoldable pub source_position_is_final_close :
      Option (SourceAccountState D) → Symbol → TradeSide → Bool
  unfolding source_state_available_for_reconciliation resolve_source_current_position
  source_position_is_final_close none coin side = false
  source_position_is_final_close (some state) coin side =
      source_state_available_for_reconciliation (some state)
      && left_side (resolve_source_current_position state.positions_by_coin coin) side

  unfoldable pub copy_close_size : D → SourceFillPart D → Bool → Option D → Option D
  copy_close_size position_size part final_close available_size =
      let size : D = elim available_size [ none ↦ position_size | some a ↦ min position_size a ] in
      if final_close then some size else elim part.close_ratio [
        | none ↦ none
        | some ratio ↦ if ratio ⩽ d.nought then none else some (min size (size ⊗ ratio))
      ]

  -- `CloseDecision(reason=reason, execution_context=context)`, with the defaults of the class.
  abbrev pub rejected_close : Reason → Option (ExecutionContext D) → CloseDecision D
  rejected_close reason execution_context = record {
    reason = some reason;
    execution_context = execution_context;
    close_size = d.nought;
    notional_usd = d.nought;
    final_close = false;
    needs_aggregation = false;
    aggregated = false;
  }

  -- What follows the pricing.
  sized_close : CloseInputs D → ExecutionContext D → Bool → Option D → CloseDecision D
  sized_close i context final_close none = rejected_close close_ratio_missing (some context)
  sized_close i context final_close (some close_size) =
      let notional_usd = close_size ⊗ context.execution_price in
      if close_size ⩽ position_epsilon
      then rejected_close close_size_zero (some context)
      else record {
        reason = none;
        execution_context = some context;
        close_size = close_size;
        notional_usd = notional_usd;
        final_close = final_close;
        needs_aggregation = not final_close && notional_usd ⋖ i.min_order_notional_usd;
        aggregated = false;
      }

  abbrev pub final_close_of : CloseInputs D → Bool
  final_close_of i =
      source_position_is_final_close i.source_account_state (fill_coin i.fill) i.part.side

  abbrev pub close_context : CloseInputs D → Option (ExecutionContext D)
  close_context i =
      build_execution_context i.fill i.part i.market_prices i.settings i.slippage_bps i.latency_ms

  -- The body from the check of the available size on, for a position on the part's side.
  matched_close : CloseInputs D → CopyPosition D → CloseDecision D
  unfolding sized_close
  matched_close i position =
      if i.available_size ⩽ position_epsilon
      then rejected_close close_already_pending none
      else elim (close_context i) [
        | none ↦ rejected_close execution_price_unavailable none
        | some context ↦
            sized_close i context (final_close_of i)
              (copy_close_size position.size i.part (final_close_of i) (some i.available_size))
      ]

  unfoldable pub decide_close : CloseInputs D → CloseDecision D
  unfolding matched_close
  decide_close i = elim i.position [
    | none ↦ rejected_close matching_position_missing none
    | some position ↦
        if is_opposite (some position) i.part.side
        then rejected_close matching_position_missing none
        else matched_close i position
  ]

  unfoldable pub aggregate_below_min_close : CloseDecision D → D → D → D → CloseDecision D
  aggregate_below_min_close decision previous_skipped_size available_size min_order_notional_usd =
      elim decision.execution_context [
        | none ↦ decision
        | some context ↦
            let aggregate_size =
              min (max (decision.close_size ⊕ previous_skipped_size) d.nought) available_size in
            let aggregate_notional = aggregate_size ⊗ context.execution_price in
            if not decision.needs_aggregation
            then decision
            else if aggregate_notional ⋖ min_order_notional_usd
            then record {
              reason = some close_below_min_order;
              execution_context = decision.execution_context;
              close_size = decision.close_size;
              notional_usd = decision.notional_usd;
              final_close = false;
              needs_aggregation = false;
              aggregated = false;
            }
            else record {
              reason = none;
              execution_context = decision.execution_context;
              close_size = aggregate_size;
              notional_usd = aggregate_notional;
              final_close = false;
              needs_aggregation = false;
              aggregated = d.nought ⋖ previous_skipped_size;
            }
      ]
