-- ===== src/Examples/Reject.antt =====
-- Rejected orders (backend/app/services/live_order_reject_policy.py) at concrete messages.
use copytrading_agent.Prelude.{String, ◌≡◌, refl, Option, none, some, false}
use copytrading_agent.Prelude.Int.{ℤ, pos}
use copytrading_agent.Trade.{open_new, long}
use copytrading_agent.Live.Fill.{LiveCopyFillState, retryable}
use copytrading_agent.Live.Reject.{
  RejectTexts, classify_live_order_reject, classify_texts, starts_with, contains, open_interest_cap,
  unknown_reject, retry_failed_order, live_copy_retry_delay_seconds,
}

-- For a message in lower case whose words have one space between them.
instance abbrev reject_texts : RejectTexts
reject_texts = record { normalized = λ s. s; compacted = λ s. s }

abbrev message : Option String
message = some "order rejected: open interest is at cap"

message_classified : classify_live_order_reject message ≡ open_interest_cap
unfolding classify_live_order_reject classify_texts contains starts_with
message_classified = refl

-- The part's row at its third attempt.
abbrev row : LiveCopyFillState ℤ
row = record {
  account_key = "live";
  source_wallet = "w";
  source_fill_id = "7";
  sequence_index = 0;
  expected_part_count = 1;
  plan_version = 1;
  coin = "BTC";
  action = open_new;
  side = long;
  source_timestamp_ms = 6000;
  source_order_direction_rank = 1;
  source_order_position = pos 0;
  source_order_fill_id_numeric = some (pos 7);
  observed_at = none;
  first_observed_at = none;
  execution_claimed_at = none;
  processing_started_at = none;
  decision_at = none;
  origin = "realtime";
  outcome = retryable;
  reason = some "processing";
  attempt_count = 2;
  first_seen_at = 6_000_000;
  last_attempt_at = none;
  next_attempt_at = none;
  fill_complete = false;
  trading_order_id = none;
}

-- The row waits for forty seconds at its third attempt.
row_waits : (retry_failed_order "exchange_open_interest_cap: at cap" 7_000_000 row).1 ≡ 40
unfolding retry_failed_order live_copy_retry_delay_seconds starts_with
    copytrading_agent.Live.Fill.mark_live_copy_fill_retryable
    copytrading_agent.Live.Fill.live_copy_retry_delay_seconds
row_waits = refl

other_classified : classify_live_order_reject (some "asset is halted") ≡ unknown_reject
unfolding classify_live_order_reject classify_texts contains starts_with
other_classified = refl
