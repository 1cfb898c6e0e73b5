-- ===== src/Examples/Live.antt =====
-- Live orders and accounts (backend/app/services/live_execution_state.py and
-- backend/app/services/trading_safety_service.py) at concrete inputs. Numbers are tallies here, so
-- that a number is read back from its text.
use text.Mathlib.Text.{◌==◌ as str_eq}
use text.Mathlib.TextEquality.{eq_iff}
use copytrading_agent.Prelude.{
  ℕ, zero, suc, ◌+◌, ◌-◌, ◌*◌, ◌/◌, ◌≡◌, ◌≤◌, ◌⊎◌, String, true, false, Option, none, some, [], ◌∷◌,
  refl, ap, inl, inr, Bool-cases, arith, leb,
}
use copytrading_agent.Decimal.{Decimal}
use copytrading_agent.Trade.{open_new, long, cross, live}
use copytrading_agent.Live.Intent.{
  Printed, Texts, TradeIntent, IntentInputs, build_copy_trade_intent,
}
use copytrading_agent.Live.Order.{
  OrderStore, TradingOrder, trading_order_from_intent, load_live_order_dispatch,
}
use copytrading_agent.Live.Order.Restore.{
  IsReadable, optional_string, trade_intent_from_order,
  trade_intent_from_order-trading_order_from_intent,
}
use copytrading_agent.Live.Order.Attempts.{
  prepare_live_order_dispatch, create_next_live_order_dispatch,
}
use copytrading_agent.Live.Order.Attempts.Again.{prepare_live_order_dispatch_idempotent}
use copytrading_agent.Live.Order.Attempts.Laws.{
  HasBoundedAttempts, HasAtMost, latest_number, next_dispatch,
  create_next_live_order_dispatch_bounds,
}
use copytrading_agent.Live.Safety.{
  LiveAccount, enabled, cancel_unsent_live_entries, trip_live_account_risk,
}
use copytrading_agent.Live.Safety.Stop.{
  HasNoUnsent, KeepsOthers, count_selected, is_enabled, cancel_unsent_live_entries_lem,
  trip_live_account_risk_lem,
}

-- A number as so many strokes, after one that stands for none.
abbrev strokes : ℕ → String
strokes zero = "|"
strokes (suc n) = String.◌∷◌ "|" (strokes n)

abbrev count_strokes : String → Option ℕ
count_strokes String.[] = none
count_strokes (String.◌∷◌ c s) = elim (count_strokes s) [ none ↦ some 0 | some n ↦ some (suc n) ]

count_strokes-strokes : (n : ℕ) → count_strokes (strokes n) ≡ some n
count_strokes-strokes zero = refl
count_strokes-strokes (suc n) = let IH = count_strokes-strokes n in ground (arith, IH)

instance abbrev tally : Decimal ℕ
tally = record {
  nought = 0;
  one = 1;
  le = leb;
  add = ◌+◌;
  sub = ◌-◌;
  mul = ◌*◌;
  div = ◌/◌;
  negate = λ a. 0;
  copy_abs = λ a. a;
  of_int = λ n. n;
  is_finite = λ _. true;
  parse = count_strokes;
}

instance abbrev printed_tally : Printed ℕ
printed_tally = record { str = strokes }

instance abbrev texts : Texts
texts = record {
  str_int = strokes;
  isoformat = strokes;
  fromisoformat = count_strokes;
  lower = λ s. s;
  strip = λ s. s;
  joined = λ a b. a;
  digest = λ s. s;
}

strokes_nonempty : (n : ℕ) → str_eq (strokes n) "" ≡ false
strokes_nonempty n = elim (Bool-cases (str_eq (strokes n) "")) [
  | inl h ↦
      absurd
        (ground (arith, ap count_strokes ((eq_iff (strokes n) "").0 h), count_strokes-strokes n))
  | inr h ↦ h
]

tally_IsReadable : IsReadable ℕ
tally_IsReadable = record {
  parse-str = count_strokes-strokes;
  str_nonempty = λ a. strokes_nonempty a;
  fromisoformat-isoformat = count_strokes-strokes;
  isoformat_nonempty = λ m. strokes_nonempty m;
}

abbrev inputs : IntentInputs ℕ
inputs = record {
  account_key = "main";
  account_type = live;
  source_wallet = "w";
  source_fill_id = "7";
  sequence_index = 0;
  coin = "BTC";
  action = open_new;
  side = long;
  size = 2;
  notional_usd = 20;
  margin_usd = 10;
  leverage = 2;
  limit_price = 11;
  source_price = some 10;
  observed_price = some 10;
  price_drift_bps = some 0;
  price_source = some "live_mid";
  allocation_pct = some 1;
  allocation_usd = none;
  source_perp_equity_usd = some 1000;
  source_exposure_pct = none;
  created_at = 5;
  margin_mode = cross;
}

abbrev intent : TradeIntent ℕ
intent = build_copy_trade_intent inputs

intent_price_source : optional_string intent.price_source ≡ intent.price_source
unfolding build_copy_trade_intent optional_string
intent_price_source = refl

intent_is_live : intent.account_type ≡ live
unfolding build_copy_trade_intent
intent_is_live = refl

trade_intent_from_order_example :
    trade_intent_from_order (trading_order_from_intent 1 9 intent) ≡ some intent
unfolding build_copy_trade_intent
trade_intent_from_order_example =
    trade_intent_from_order-trading_order_from_intent tally_IsReadable 1 9 intent intent_is_live
      refl refl refl intent_price_source

abbrev order : TradingOrder ℕ
order = trading_order_from_intent 1 9 intent

abbrev empty_store : OrderStore ℕ
empty_store = record { orders = []; dispatches = [] }

abbrev store : OrderStore ℕ
store = record { orders = order ∷ []; dispatches = [] }

prepare_live_order_dispatch_idempotent_example :
    let first = prepare_live_order_dispatch 1 9 intent empty_store in
    prepare_live_order_dispatch 2 10 intent first.store ≡ record {
      store = first.store;
      order = first.order;
      dispatch = first.dispatch;
      created = false;
    }
prepare_live_order_dispatch_idempotent_example =
    prepare_live_order_dispatch_idempotent 1 2 9 10 intent empty_store

create_next_live_order_dispatch_bounds_example :
    ((create_next_live_order_dispatch order [] ≡ none)
      × (3 ≤ latest_number (load_live_order_dispatch order.id [])))
    ⊎ ((create_next_live_order_dispatch order []
          ≡ some (next_dispatch order [], next_dispatch order [] ∷ []))
        × HasAtMost order.id (latest_number (load_live_order_dispatch order.id [])) []
        × HasBoundedAttempts (next_dispatch order [] ∷ []))
create_next_live_order_dispatch_bounds_example =
    create_next_live_order_dispatch_bounds order [] (ground arith)

cancel_unsent_live_entries_lem_example :
    let result = cancel_unsent_live_entries (some "main") none "stop" 9 store in
    HasNoUnsent (some "main") none result.0.orders
    × KeepsOthers store.orders result.0.orders
    × (result.1 ≡ count_selected (some "main") none store.orders)
cancel_unsent_live_entries_lem_example =
    cancel_unsent_live_entries_lem (some "main") none "stop" 9 store

abbrev account : LiveAccount
account = record {
  key = "main";
  status = enabled;
  lifecycle_version = 3;
  status_changed_at = none;
  status_reason = none;
}

trip_live_account_risk_lem_example :
    let result = trip_live_account_risk account "max_drawdown" "too deep" none none 9 store in
    ((result.0.key ≡ "main")
      × (is_enabled result.0.status ≡ false)
      × (3 ≤ result.0.lifecycle_version))
    × HasNoUnsent (some result.0.key) none result.1.0.orders
    × KeepsOthers store.orders result.1.0.orders
trip_live_account_risk_lem_example =
    trip_live_account_risk_lem account "max_drawdown" "too deep" none none 9 store
