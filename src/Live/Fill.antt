-- ===== src/Live/Fill.antt =====
-- What is decided about each part of a source fill, one row a part:
-- backend/app/services/live_copy_state_service.py. A function here changes one row that its caller has
-- locked; the flush writes it.
pub mod Plan
pub mod Claim
pub mod Part
use copytrading_agent.Prelude.{
  ℕ, suc, ◌+◌, ◌-◌, ◌*◌, ◌^◌, String, Bool, true, false, not, Option, none, some, leb, is_none,
  ◌==◌, if◌then◌else◌,
}
use text.Mathlib.Text.{◌==◌ as str_eq}
use copytrading_agent.Trade.{TradeAction, TradeSide}
use copytrading_agent.Signal.Pricing.{Moment}
use copytrading_agent.Live.Order.{TradingOrder}

pub data FillOutcome : Type 0 where
  pending retryable order terminal_skip baseline_ignored : FillOutcome

pub record LiveCopyFillState (D : Type 0) : Type 0 where
  pub account_key : String
  pub source_wallet : String
  pub source_fill_id : String
  pub sequence_index : ℕ
  pub expected_part_count : ℕ
  pub plan_version : ℕ
  pub coin : String
  pub action : TradeAction
  pub side : TradeSide
  pub source_timestamp_ms : ℕ
  pub source_order_direction_rank : ℕ
  pub source_order_position : D
  pub source_order_fill_id_numeric : Option D
  pub observed_at : Option Moment
  pub first_observed_at : Option Moment
  pub execution_claimed_at : Option Moment
  pub processing_started_at : Option Moment
  pub decision_at : Option Moment
  pub origin : String
  pub outcome : FillOutcome
  pub reason : Option String
  pub attempt_count : ℕ
  pub first_seen_at : Moment
  pub last_attempt_at : Option Moment
  pub next_attempt_at : Option Moment
  pub fill_complete : Bool
  pub trading_order_id : Option ℕ

-- `outcome in LIVE_COPY_TERMINAL_OUTCOMES`
abbrev pub is_terminal : FillOutcome → Bool
is_terminal pending = false
is_terminal retryable = false
is_terminal order = true
is_terminal terminal_skip = true
is_terminal baseline_ignored = true

unfoldable pub live_copy_retry_delay_seconds : ℕ → ℕ → ℕ → ℕ
live_copy_retry_delay_seconds attempt_count base_seconds max_seconds =
    let safe_base = if leb base_seconds 1 then 1 else base_seconds in
    let safe_max = if leb max_seconds safe_base then safe_base else max_seconds in
    let exponent = if leb (attempt_count - 1) 16 then attempt_count - 1 else 16 in
    let delay = safe_base * 2 ^ exponent in if leb delay safe_max then delay else safe_max

-- `value[:n]`
unfoldable pub take_text : String → ℕ → String
take_text String.[] n = String.[]
take_text (String.◌∷◌ c s) n =
    let rest = take_text s (n - 1) in if n == 0 then String.[] else String.◌∷◌ c rest

-- `reason[:2000] if reason else None`
abbrev pub shortened : Option String → Option String
shortened none = none
shortened (some reason) = if str_eq reason "" then none else some (take_text reason 2000)

module _ {D : Type 0} where
  -- The row, and the delay.
  unfoldable pub mark_live_copy_fill_retryable :
      String → Moment → ℕ → ℕ → LiveCopyFillState D → LiveCopyFillState D × ℕ
  mark_live_copy_fill_retryable reason now base_seconds max_seconds state =
      let delay_seconds =
        live_copy_retry_delay_seconds (suc state.attempt_count) base_seconds max_seconds in
      (
        record state {
          attempt_count = suc state.attempt_count;
          outcome = retryable;
          reason = some (take_text reason 2000);
          last_attempt_at = some now;
          next_attempt_at = some (now + delay_seconds * 1_000_000);
          fill_complete = false;
          trading_order_id = none;
        },
        delay_seconds,
      )

  -- `defer_live_copy_fill_part`, with the two defaults.
  abbrev pub defer_live_copy_fill_part :
      String → Moment → LiveCopyFillState D → LiveCopyFillState D × ℕ
  defer_live_copy_fill_part reason now = mark_live_copy_fill_retryable reason now 5 300

  -- The row; the markers of markets are another table.
  unfoldable pub mark_live_copy_fill_baseline_ignored :
      String → Moment → LiveCopyFillState D → LiveCopyFillState D
  mark_live_copy_fill_baseline_ignored reason now state = record state {
    outcome = baseline_ignored;
    reason = some (take_text reason 2000);
    next_attempt_at = none;
    fill_complete = false;
    trading_order_id = none;
    decision_at = some now;
  }

  unfoldable pub mark_live_copy_fill_terminal_skip :
      String → Moment → LiveCopyFillState D → LiveCopyFillState D
  mark_live_copy_fill_terminal_skip reason now state = record state {
    outcome = terminal_skip;
    reason = some (take_text reason 2000);
    next_attempt_at = none;
    fill_complete = false;
    trading_order_id = none;
    decision_at = some now;
  }

  -- `none` is the `ValueError`. An order of the model has its identifier.
  unfoldable pub link_live_copy_fill_state_to_order :
      TradingOrder D
      → Bool
      → Option String
      → Moment
      → LiveCopyFillState D
      → Option (LiveCopyFillState D)
  link_live_copy_fill_state_to_order o is_terminal_skip reason now state =
      if not (str_eq o.account_key state.account_key)
      then none
      else if not (str_eq o.source_wallet state.source_wallet)
      then none
      else if not (str_eq o.source_fill_id state.source_fill_id)
      then none
      else if not (o.sequence_index == state.sequence_index)
      then none
      else some (record state {
        outcome = if is_terminal_skip then terminal_skip else FillOutcome.order;
        reason = shortened reason;
        next_attempt_at = none;
        fill_complete = false;
        trading_order_id = some o.id;
        decision_at = some now;
      })
