-- ===== src/Live/Order/Attempts.antt =====
-- The steps that an order and its submit attempts take: backend/app/services/live_execution_state.py.
pub mod Again
pub mod Laws
use text.Mathlib.Text.{◌==◌ as str_eq}
use copytrading_agent.Prelude.{
  ℕ, suc, ◌+◌, String, Bool, true, false, not, ◌||◌, Option, none, some, List, [], ◌∷◌, ltb, get_or,
  if◌then◌else◌,
}
use copytrading_agent.Decimal.{Decimal}
use copytrading_agent.Signal.Pricing.{Moment}
use copytrading_agent.Live.Intent.{Printed, Texts, TradeIntent, trade_intent_payload}
use copytrading_agent.Live.Order.{
  OrderStatus, DispatchStatus, TradingOrder, TradingOrderDispatch, OrderStore, RaisedError,
  max_live_order_submit_attempts, message_of, merge_trade_intent, merge_submit_error, is_planned,
  load_live_order_dispatch, replace_dispatch, order_by_client_id, replace_order, new_dispatch,
  trading_order_from_intent, ready, submitting, uncertain, failed, pending, dispatching, unknown,
  completed,
}

-- What `prepare_live_order_dispatch` commits and returns.
pub record Prepared (D : Type 0) : Type 0 where
  pub store : OrderStore D
  pub order : TradingOrder D
  pub dispatch : TradingOrderDispatch
  pub created : Bool

abbrev pub ready_dispatch : Moment → TradingOrderDispatch → TradingOrderDispatch
ready_dispatch now dispatch = record dispatch {
  status = pending;
  available_at = some now;
  last_error = none;
}

module _ {D : Type 0} ⦃d : Decimal D⦄ ⦃p : Printed D⦄ ⦃t : Texts⦄ where
  -- The order of the client id, or a new one with the id that the database gives.
  abbrev pub found_order :
      ℕ
      → Moment
      → TradeIntent D
      → List (TradingOrder D)
      → Option (TradingOrder D)
      → TradingOrder D × (List (TradingOrder D) × Bool)
  found_order fresh_id now intent orders (some order) = (order, (orders, false))
  found_order fresh_id now intent orders none =
      let order = trading_order_from_intent fresh_id now intent in (order, (order ∷ orders, true))

  -- The order's latest dispatch, or a first one.
  abbrev pub found_dispatch :
      TradingOrder D
      → List TradingOrderDispatch
      → Option TradingOrderDispatch
      → TradingOrderDispatch × List TradingOrderDispatch
  found_dispatch order dispatches (some a) = (a, dispatches)
  found_dispatch order dispatches none = let a = new_dispatch order 1 in (a, a ∷ dispatches)

  abbrev pub ready_order : TradeIntent D → TradingOrder D → TradingOrder D
  ready_order intent order = record order {
    status = ready;
    error = none;
    raw_payload = merge_trade_intent order.raw_payload (trade_intent_payload intent);
  }

  -- What is written, and returned, of the order and the dispatch at hand, each with its table.
  abbrev pub commit_prepared :
      Moment
      → TradeIntent D
      → TradingOrder D × (List (TradingOrder D) × Bool)
      → TradingOrderDispatch × List TradingOrderDispatch
      → Bool
      → Prepared D
  commit_prepared now intent (order, (orders, created)) (dispatch, dispatches) true = record {
    store = record {
      orders = replace_order (ready_order intent order) orders;
      dispatches = replace_dispatch (ready_dispatch now dispatch) dispatches;
    };
    order = ready_order intent order;
    dispatch = ready_dispatch now dispatch;
    created = created;
  }
  commit_prepared now intent (order, (orders, created)) (dispatch, dispatches) false = record {
    store = record { orders = orders; dispatches = dispatches };
    order = order;
    dispatch = dispatch;
    created = created;
  }

  unfoldable pub prepare_live_order_dispatch :
      ℕ → Moment → TradeIntent D → OrderStore D → Prepared D
  prepare_live_order_dispatch fresh_id now intent store =
      let o =
        found_order fresh_id now intent store.orders
          (order_by_client_id intent.client_order_id store.orders) in
      let a =
        found_dispatch o.0 store.dispatches (load_live_order_dispatch o.0.id store.dispatches) in
      commit_prepared now intent o a (o.1.1 || is_planned o.0.status)

-- `int(latest_attempt or 0) + 1`
abbrev pub next_attempt_number : Option TradingOrderDispatch → ℕ
next_attempt_number none = 1
next_attempt_number (some a) = suc a.attempt_number

module _ {D : Type 0} ⦃t : Texts⦄ where
  -- `none` is the `ValueError`.
  unfoldable pub create_next_live_order_dispatch :
      TradingOrder D
      → List TradingOrderDispatch
      → Option (TradingOrderDispatch × List TradingOrderDispatch)
  create_next_live_order_dispatch order dispatches =
      let attempt_number = next_attempt_number (load_live_order_dispatch order.id dispatches) in
      if ltb max_live_order_submit_attempts attempt_number
      then none
      else some (new_dispatch order attempt_number, new_dispatch order attempt_number ∷ dispatches)

module _ {D : Type 0} where
  unfoldable pub mark_live_order_dispatching :
      Moment → TradingOrder D → TradingOrderDispatch → TradingOrder D × TradingOrderDispatch
  mark_live_order_dispatching now order dispatch = (
    record order {
      status = submitting;
      submitted_at = some (get_or order.submitted_at now);
      error = none;
    },
    record dispatch {
      status = dispatching;
      attempt_count = suc dispatch.attempt_count;
      dispatch_started_at = some now;
      last_error = none;
      exchange_status = none;
      exchange_error_code = none;
      exchange_error_message = none;
      exchange_response = none;
    },
  )

  unfoldable pub mark_live_order_uncertain :
      RaisedError → TradingOrder D → TradingOrderDispatch → TradingOrder D × TradingOrderDispatch
  mark_live_order_uncertain error order dispatch =
      let message = message_of error in
      (
        record order {
          status = uncertain;
          error = some message;
          raw_payload =
              merge_submit_error order.raw_payload
                (record { message = message; type_name = error.class_name; outcome = "uncertain" });
        },
        record dispatch {
          status = unknown;
          last_error = some message;
          exchange_status = some "unknown";
          exchange_error_code = some "uncertain_submit";
          exchange_error_message = some message;
        },
      )

  unfoldable pub mark_live_order_failed :
      Moment
      → RaisedError
      → TradingOrder D
      → TradingOrderDispatch
      → TradingOrder D × TradingOrderDispatch
  mark_live_order_failed now error order dispatch =
      let message = message_of error in
      (
        record order {
          status = failed;
          error = some message;
          raw_payload = merge_submit_error order.raw_payload (record {
            message = message;
            type_name = error.class_name;
            outcome = "not_submitted";
          });
        },
        record dispatch {
          status = completed;
          completed_at = some now;
          last_error = some message;
          exchange_status = some "not_submitted";
          exchange_error_code = some "pre_submit_failure";
          exchange_error_message = some message;
        },
      )

unfoldable pub mark_live_order_dispatch_completed :
    Moment → TradingOrderDispatch → TradingOrderDispatch
mark_live_order_dispatch_completed now dispatch = record dispatch {
  status = completed;
  completed_at = some now;
}

unfoldable pub record_live_order_exchange_result :
    String → Option String → Option String → String → TradingOrderDispatch → TradingOrderDispatch
record_live_order_exchange_result exchange_status error_code error_message raw_response dispatch =
    record dispatch {
      exchange_status = some exchange_status;
      exchange_error_code = error_code;
      exchange_error_message = error_message;
      exchange_response = some raw_response;
      last_error = error_message;
    }

unfoldable pub record_live_order_status_lookup :
    Moment → Option String → Option RaisedError → TradingOrderDispatch → TradingOrderDispatch
record_live_order_status_lookup now response error dispatch = record dispatch {
  status_lookup_count = suc dispatch.status_lookup_count;
  last_status_lookup_at = some now;
  last_status_response = response;
  last_status_lookup_error = elim error [ none ↦ none | some e ↦ some (message_of e) ];
}
