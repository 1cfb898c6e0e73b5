-- ===== src/Live/Reject.antt =====
-- What the exchange's rejections of an order mean, and how long a copy waits after one:
-- backend/app/services/live_order_reject_policy.py.
pub mod Delays
use Prim.Native.Char.{code}
use text.Mathlib.Text.{◌==◌ as str_eq}
use copytrading_agent.Prelude.{
  ℕ, String, Bool, true, false, ◌&&◌, ◌||◌, Option, none, some, List, [], ◌∷◌, ◌==◌, leb,
  if◌then◌else◌,
}
use copytrading_agent.Signal.Pricing.{Moment}
use copytrading_agent.Live.Fill.{LiveCopyFillState, mark_live_copy_fill_retryable}

pub record LiveOrderRejectClassification : Type 0 where
  pub code : String
  pub transient : Bool
  pub retry_delay_seconds : ℕ

-- `" ".join(message.casefold().split())`, and the characters of a text for which `str.isalnum` holds.
pub record RejectTexts : Type 0 where
  pub normalized : String → String
  pub compacted : String → String

abbrev pub ioc_no_match : LiveOrderRejectClassification
ioc_no_match = record { code = "exchange_ioc_no_match"; transient = true; retry_delay_seconds = 5 }

abbrev pub open_interest_cap : LiveOrderRejectClassification
open_interest_cap = record {
  code = "exchange_open_interest_cap";
  transient = true;
  retry_delay_seconds = 10;
}

abbrev pub insufficient_margin : LiveOrderRejectClassification
insufficient_margin = record {
  code = "exchange_insufficient_margin";
  transient = false;
  retry_delay_seconds = 0;
}

abbrev pub invalid_order : LiveOrderRejectClassification
invalid_order = record {
  code = "exchange_invalid_order";
  transient = false;
  retry_delay_seconds = 0;
}

abbrev pub unknown_reject : LiveOrderRejectClassification
unknown_reject = record { code = "exchange_rejected"; transient = false; retry_delay_seconds = 0 }

abbrev pub open_interest_cap_cooldown_reason : String
open_interest_cap_cooldown_reason = "live_exchange_open_interest_cap_cooldown"

-- `text.startswith(prefix)`
unfoldable pub starts_with : String → String → Bool
starts_with text String.[] = true
starts_with String.[] (String.◌∷◌ e prefix) = false
starts_with (String.◌∷◌ c text) (String.◌∷◌ e prefix) = code c == code e && starts_with text prefix

-- `phrase in text`
unfoldable pub contains : String → String → Bool
contains String.[] phrase = starts_with String.[] phrase
contains (String.◌∷◌ c text) phrase = starts_with (String.◌∷◌ c text) phrase || contains text phrase

abbrev pub contains_any : String → List String → Bool
contains_any text [] = false
contains_any text (phrase ∷ rest) = contains text phrase || contains_any text rest

abbrev pub is_ioc_no_match : String → String → Bool
is_ioc_no_match normalized compact =
    contains normalized "could not immediately match"
    || (contains compact "ioccancel" || contains normalized "ioc" && contains normalized "match")

abbrev pub is_open_interest_cap : String → String → Bool
is_open_interest_cap normalized compact =
    contains_any normalized (
      "open interest cap" ∷ "open interest is at cap" ∷ "open interest limit"
      ∷ "open interest exceeded" ∷ "open interest too large" ∷ "too much open interest"
      ∷ "position would increase open interest" ∷ [])
    || contains_any compact (
        "positionincreaseatopeninterestcap" ∷ "positionflipatopeninterestcap"
        ∷ "tooaggressiveatopeninterestcap" ∷ "openinterestincrease" ∷ [])

abbrev pub is_insufficient_margin : String → Bool
is_insufficient_margin normalized =
    contains normalized "insufficient margin" || contains normalized "insufficient balance"

abbrev pub is_invalid_order : String → Bool
is_invalid_order normalized = contains_any normalized (
    "invalid tick" ∷ "tick size" ∷ "minimum notional" ∷ "minimum order" ∷ "min trade"
    ∷ "reduce-only" ∷ "reduce only" ∷ "lot size" ∷ [])

-- The branches over the two texts.
unfoldable pub classify_texts : String → String → LiveOrderRejectClassification
classify_texts normalized compact =
    if is_ioc_no_match normalized compact
    then ioc_no_match
    else if is_open_interest_cap normalized compact
    then open_interest_cap
    else if is_insufficient_margin normalized
    then insufficient_margin
    else if is_invalid_order normalized
    then invalid_order
    else unknown_reject

abbrev pub text_or_empty : Option String → String
text_or_empty none = ""
text_or_empty (some text) = text

unfoldable pub classify_live_order_reject :
    ⦃r : RejectTexts⦄ → Option String → LiveOrderRejectClassification
unfolding classify_texts
classify_live_order_reject ⦃r = r⦄ message =
    let normalized = r.normalized (text_or_empty message) in
    classify_texts normalized (r.compacted normalized)

unfoldable pub live_copy_retry_delay_seconds : Option String → ℕ
live_copy_retry_delay_seconds reason =
    let text = text_or_empty reason in
    if starts_with text open_interest_cap.code
    then open_interest_cap.retry_delay_seconds
    else if str_eq text open_interest_cap_cooldown_reason
    then open_interest_cap.retry_delay_seconds
    else if starts_with text ioc_no_match.code
    then ioc_no_match.retry_delay_seconds
    else 0

-- `first + second` of two texts.
unfoldable pub append_text : String → String → String
append_text String.[] t = t
append_text (String.◌∷◌ c s) t = String.◌∷◌ c (append_text s t)

-- `order.error`, as a rejection leaves it.
unfoldable pub rejected_order_error : LiveOrderRejectClassification → Option String → String
rejected_order_error classification error =
    let message =
      if str_eq (text_or_empty error) "" then "Order rejected." else text_or_empty error in
    append_text classification.code (append_text ": " message)

-- What the retry of an order with an error does to the part's row: its wait, at least a second for
-- its base, is doubled with each attempt and at most five minutes.
unfoldable pub retry_failed_order :
    {D : Type 0} → String → Moment → LiveCopyFillState D → LiveCopyFillState D × ℕ
retry_failed_order error now state =
    let delay = live_copy_retry_delay_seconds (some error) in
    mark_live_copy_fill_retryable error now (if leb delay 1 then 1 else delay) 300 state
