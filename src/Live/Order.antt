-- ===== src/Live/Order.antt =====
-- Live orders and their submit attempts: backend/app/services/live_execution_state.py.
pub mod Attempts
pub mod Restore
use text.Mathlib.Text.{◌==◌ as str_eq}
use copytrading_agent.Prelude.{
  ℕ, ◌+◌, String, Bool, true, false, ◌&&◌, ◌||◌, Option, none, some, List, [], ◌∷◌, ltb, leb, ◌==◌,
  is_none, get_or, if◌then◌else◌,
}
use copytrading_agent.Decimal.{Decimal, is_zero}
use copytrading_agent.Trade.{
  MarginMode, TradingAccountType, live, parse_trade_action, parse_trade_side, parse_margin_mode,
  action_text, side_text, margin_mode_text,
}
use copytrading_agent.Signal.Pricing.{Moment}
use copytrading_agent.Live.Intent.{Printed, Texts, TradeIntent, IntentPayload, trade_intent_payload}

pub data OrderStatus : Type 0 where
  planned ready submitting uncertain submitted accepted partially_filled filled : OrderStatus
  rejected canceled failed : OrderStatus

-- `unknown` is the text `"uncertain"` and `withdrawn` is `"canceled"`.
pub data DispatchStatus : Type 0 where
  pending dispatching unknown completed withdrawn : DispatchStatus

-- `max_live_order_submit_attempts`
abbrev pub max_live_order_submit_attempts : ℕ
max_live_order_submit_attempts = 3

pub record SubmitError : Type 0 where
  pub message : String
  pub type_name : String
  pub outcome : String

-- `raw_payload`, with the keys that the services write.
pub record OrderPayload : Type 0 where
  pub trade_intent : Option IntentPayload
  pub submit_error : Option SubmitError

pub record TradingOrder (D : Type 0) : Type 0 where
  pub id : ℕ
  pub account_key : String
  pub is_live : Bool
  pub source_wallet : String
  pub source_fill_id : String
  pub sequence_index : ℕ
  pub client_order_id : String
  pub coin : String
  pub action : String
  pub side : String
  pub is_buy : Bool
  pub reduce_only : Bool
  pub status : OrderStatus
  pub requested_size : D
  pub requested_notional_usd : D
  pub margin_usd : Option D
  pub leverage : Option D
  pub margin_mode : String
  pub limit_price : Option D
  pub filled_size : D
  pub filled_notional_usd : D
  pub fee_usd : D
  pub submitted_at : Option Moment
  pub error : Option String
  pub raw_payload : Option OrderPayload
  pub created_at : Moment

pub record TradingOrderDispatch : Type 0 where
  pub order_id : ℕ
  pub account_key : String
  pub client_order_id : String
  pub attempt_number : ℕ
  pub status : DispatchStatus
  pub attempt_count : ℕ
  pub available_at : Option Moment
  pub dispatch_started_at : Option Moment
  pub completed_at : Option Moment
  pub last_error : Option String
  pub exchange_status : Option String
  pub exchange_error_code : Option String
  pub exchange_error_message : Option String
  pub exchange_response : Option String
  pub status_lookup_count : ℕ
  pub last_status_lookup_at : Option Moment
  pub last_status_response : Option String
  pub last_status_lookup_error : Option String

-- The two tables. An order's key is its `id`, a dispatch's is its order and its attempt.
pub record OrderStore (D : Type 0) : Type 0 where
  pub orders : List (TradingOrder D)
  pub dispatches : List TradingOrderDispatch

-- `str(error) or error.__class__.__name__`
pub record RaisedError : Type 0 where
  pub text : String
  pub class_name : String

unfoldable pub message_of : RaisedError → String
message_of e = if str_eq e.text "" then e.class_name else e.text

-- `merge_payload` with either key.
unfoldable pub merge_trade_intent : Option OrderPayload → IntentPayload → Option OrderPayload
merge_trade_intent none intent = some (record { trade_intent = some intent; submit_error = none })
merge_trade_intent (some p) intent = some (record p { trade_intent = some intent })

unfoldable pub merge_submit_error : Option OrderPayload → SubmitError → Option OrderPayload
merge_submit_error none error = some (record { trade_intent = none; submit_error = some error })
merge_submit_error (some p) error = some (record p { submit_error = some error })

abbrev pub is_planned : OrderStatus → Bool
is_planned planned = true
is_planned _ = false

-- `select ... where order_id == ... order by attempt_number desc`, the first.
unfoldable pub load_live_order_dispatch :
    ℕ → List TradingOrderDispatch → Option TradingOrderDispatch
load_live_order_dispatch order_id [] = none
load_live_order_dispatch order_id (a ∷ rest) =
    let later = load_live_order_dispatch order_id rest in
    if a.order_id == order_id
    then elim later [
      | none ↦ some a
      | some b ↦ if leb b.attempt_number a.attempt_number then some a else some b
    ]
    else later

abbrev pub replace_dispatch :
    TradingOrderDispatch → List TradingOrderDispatch → List TradingOrderDispatch
replace_dispatch new [] = []
replace_dispatch new (a ∷ rest) =
    (if a.order_id == new.order_id && a.attempt_number == new.attempt_number then new else a)
    ∷ replace_dispatch new rest

module _ {D : Type 0} where
  abbrev pub order_by_client_id : String → List (TradingOrder D) → Option (TradingOrder D)
  order_by_client_id key [] = none
  order_by_client_id key (o ∷ rest) =
      let later = order_by_client_id key rest in
      if str_eq o.client_order_id key then some o else later

  abbrev pub replace_order : TradingOrder D → List (TradingOrder D) → List (TradingOrder D)
  replace_order new [] = []
  replace_order new (o ∷ rest) = (if o.id == new.id then new else o) ∷ replace_order new rest

module _ ⦃t : Texts⦄ where
  -- `none` is the `ValueError`.
  unfoldable pub build_dispatch_client_order_id : String → ℕ → Option String
  build_dispatch_client_order_id logical_client_order_id attempt_number =
      if leb attempt_number 0
      then none
      else some (t.digest (t.joined logical_client_order_id (t.str_int attempt_number)))

module _ {D : Type 0} ⦃t : Texts⦄ where
  -- A new dispatch, at its columns' defaults.
  unfoldable pub new_dispatch : TradingOrder D → ℕ → TradingOrderDispatch
  unfolding build_dispatch_client_order_id
  new_dispatch order attempt_number = record {
    order_id = order.id;
    account_key = order.account_key;
    client_order_id =
        get_or (build_dispatch_client_order_id order.client_order_id attempt_number) "";
    attempt_number = attempt_number;
    status = pending;
    attempt_count = 0;
    available_at = none;
    dispatch_started_at = none;
    completed_at = none;
    last_error = none;
    exchange_status = none;
    exchange_error_code = none;
    exchange_error_message = none;
    exchange_response = none;
    status_lookup_count = 0;
    last_status_lookup_at = none;
    last_status_response = none;
    last_status_lookup_error = none;
  }

module _ {D : Type 0} ⦃d : Decimal D⦄ ⦃p : Printed D⦄ ⦃t : Texts⦄ where
  -- The database gives the order its id and `created_at`.
  unfoldable pub trading_order_from_intent : ℕ → Moment → TradeIntent D → TradingOrder D
  trading_order_from_intent id now i = record {
    id = id;
    account_key = i.account_key;
    is_live = true;
    source_wallet = i.source_wallet;
    source_fill_id = i.source_fill_id;
    sequence_index = i.sequence_index;
    client_order_id = i.client_order_id;
    coin = i.coin;
    action = action_text i.action;
    side = side_text i.side;
    is_buy = i.is_buy;
    reduce_only = i.reduce_only;
    status = planned;
    requested_size = i.size;
    requested_notional_usd = i.notional_usd;
    margin_usd = some i.margin_usd;
    leverage = some i.leverage;
    margin_mode = margin_mode_text i.margin_mode;
    limit_price = some i.limit_price;
    filled_size = d.nought;
    filled_notional_usd = d.nought;
    fee_usd = d.nought;
    submitted_at = none;
    error = none;
    raw_payload =
        some (record { trade_intent = some (trade_intent_payload i); submit_error = none });
    created_at = now;
  }
