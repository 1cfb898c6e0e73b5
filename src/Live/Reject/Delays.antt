-- ===== src/Live/Reject/Delays.antt =====
-- How long a rejected order is waited for: backend/app/services/live_order_reject_policy.py, with the
-- error that backend/app/services/live_trading_service.py keeps and the retry of
-- backend/app/services/live_copy_service.py that reads it.
use text.Mathlib.Text.{◌==◌ as str_eq}
use copytrading_agent.Prelude.{◌≤◌, String, ◌≡◌, some, ltb}
use copytrading_agent.Signal.Pricing.{Moment}
use copytrading_agent.Live.Fill.{LiveCopyFillState, live_copy_retry_delay_seconds as wait_seconds}
use copytrading_agent.Live.Reject.{
  LiveOrderRejectClassification, live_copy_retry_delay_seconds, append_text, retry_failed_order,
}

-- The delay that is read from an error that begins with a classification's code.
abbrev IsReadFrom : LiveOrderRejectClassification → String → Type 0
IsReadFrom c detail =
    live_copy_retry_delay_seconds (some (append_text c.code detail)) ≡ c.retry_delay_seconds

module _ {D : Type 0} where
  -- The delay that the retry reads from the error is the classification's, which is positive exactly
  -- when the rejection is transient, and the part then waits at least as long, and at least a second.
  abbrev pub IsDelayed :
      LiveOrderRejectClassification → String → Moment → LiveCopyFillState D → Type 0
  IsDelayed c error now state =
      (live_copy_retry_delay_seconds (some error) ≡ c.retry_delay_seconds)
      × (ltb 0 c.retry_delay_seconds ≡ c.transient)
      × (c.retry_delay_seconds ≤ (retry_failed_order error now state).1)
      × (1 ≤ (retry_failed_order error now state).1)
