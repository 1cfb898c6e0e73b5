-- ===== src/Live/Order/Restore.antt =====
-- How a trade intent is read back from its order: backend/app/services/live_execution_state.py.
use text.Mathlib.Text.{◌==◌ as str_eq}
use copytrading_agent.Prelude.{
  ℕ, ◌≡◌, refl, String, false, ◌||◌, Option, none, some, get_or, if◌then◌else◌, arith,
}
use copytrading_agent.Decimal.{Decimal, is_zero}
use copytrading_agent.Trade.{
  TradeAction, TradeSide, MarginMode, open_new, add, reduce, close, flip_close, flip_open, long,
  short, cross, isolated, live, parse_trade_action, parse_trade_side, parse_margin_mode,
  action_text, side_text, margin_mode_text,
}
use copytrading_agent.Signal.Pricing.{Moment}
use copytrading_agent.Live.Intent.{
  Printed, Texts, TradeIntent, IntentPayload, trade_intent_payload, optional_text,
}
use copytrading_agent.Live.Order.{TradingOrder, OrderPayload, trading_order_from_intent}

-- Exceptions: `none` raises.
abbrev pub bind {ℓ κ} : {A : Type ℓ} {B : Type κ} → Option A → (A → Option B) → Option B
bind none f = none
bind (some a) f = f a

-- `raw_intent.get(key)`, where there is no intent `None`.
abbrev pub from_payload {ℓ} :
    {A : Type ℓ} → (IntentPayload → Option A) → Option OrderPayload → Option A
from_payload f none = none
from_payload f (some p) = bind p.trade_intent f

module _ ⦃t : Texts⦄ where
  unfoldable pub parse_datetime : Option String → Option Moment
  parse_datetime none = none
  parse_datetime (some value) = if str_eq value "" then none else t.fromisoformat value

  unfoldable pub optional_string : Option String → Option String
  optional_string none = none
  optional_string (some value) =
      let text = t.strip value in if str_eq text "" then none else some text

module _ {D : Type 0} ⦃d : Decimal D⦄ where
  -- The outer `none` is the exception.
  unfoldable pub optional_decimal : Option String → Option (Option D)
  optional_decimal none = some none
  optional_decimal (some value) =
      if str_eq value "" then some none else bind (d.parse value) (λ a. some (some a))

  -- `value or default`: a zero is the default.
  abbrev pub or_default : Option D → D → D
  or_default none default = default
  or_default (some a) default = if is_zero a then default else a

-- `raw_intent["marginMode"] if ... in MARGIN_MODES else order.margin_mode`
unfoldable pub margin_mode_of : Option String → String → Option MarginMode
margin_mode_of none fallback = parse_margin_mode fallback
margin_mode_of (some raw) fallback =
    if str_eq raw "cross" || str_eq raw "isolated"
    then parse_margin_mode raw
    else parse_margin_mode fallback

module _ {D : Type 0} ⦃d : Decimal D⦄ ⦃t : Texts⦄ where
  unfoldable pub trade_intent_from_order : TradingOrder D → Option (TradeIntent D)
  unfolding parse_datetime optional_string optional_decimal margin_mode_of
  trade_intent_from_order order =
      let raw = order.raw_payload in
      bind (parse_trade_action order.action) (λ action. bind (parse_trade_side order.side) (λ side.
        bind (margin_mode_of (from_payload (λ i. some i.margin_mode) raw) order.margin_mode)
          (λ margin_mode.
            bind (optional_decimal (from_payload (λ i. i.source_price) raw)) (λ source_price.
              bind (optional_decimal (from_payload (λ i. i.observed_price) raw)) (λ observed_price.
                bind (optional_decimal (from_payload (λ i. i.price_drift_bps) raw))
                  (λ price_drift_bps.
                    bind (optional_decimal (from_payload (λ i. i.allocation_pct) raw))
                      (λ allocation_pct.
                        bind (optional_decimal (from_payload (λ i. i.allocation_usd) raw))
                          (λ allocation_usd.
                            bind
                              (optional_decimal (from_payload (λ i. i.source_perp_equity_usd) raw))
                              (λ source_perp_equity_usd.
                                bind
                                  (optional_decimal (from_payload (λ i. i.source_exposure_pct) raw))
                                  (λ source_exposure_pct. some (record {
                                    account_key = order.account_key;
                                    account_type = live;
                                    source_wallet = order.source_wallet;
                                    source_fill_id = order.source_fill_id;
                                    sequence_index = order.sequence_index;
                                    client_order_id = order.client_order_id;
                                    coin = order.coin;
                                    action = action;
                                    side = side;
                                    is_buy = order.is_buy;
                                    reduce_only = order.reduce_only;
                                    size = order.requested_size;
                                    notional_usd = order.requested_notional_usd;
                                    margin_usd = or_default order.margin_usd d.nought;
                                    leverage = or_default order.leverage d.one;
                                    limit_price = or_default order.limit_price d.nought;
                                    source_price = source_price;
                                    observed_price = observed_price;
                                    price_drift_bps = price_drift_bps;
                                    price_source =
                                        optional_string (from_payload (λ i. i.price_source) raw);
                                    allocation_pct = allocation_pct;
                                    allocation_usd = allocation_usd;
                                    source_perp_equity_usd = source_perp_equity_usd;
                                    source_exposure_pct = source_exposure_pct;
                                    created_at =
                                        get_or
                                          (parse_datetime
                                            (from_payload (λ i. some i.created_at) raw))
                                          order.created_at;
                                    margin_mode = margin_mode;
                                  })))))))))))

-- Printing and reading are inverse, and no number or moment prints as nothing.
pub record IsReadable (D : Type 0) ⦃d : Decimal D⦄ ⦃p : Printed D⦄ ⦃t : Texts⦄ : Type 0 where
  pub parse-str : (a : D) → d.parse (p.str a) ≡ some a
  pub str_nonempty : (a : D) → str_eq (p.str a) "" ≡ false
  pub fromisoformat-isoformat : (m : Moment) → t.fromisoformat (t.isoformat m) ≡ some m
  pub isoformat_nonempty : (m : Moment) → str_eq (t.isoformat m) "" ≡ false

parse_trade_action-action_text : (a : TradeAction) → parse_trade_action (action_text a) ≡ some a
unfolding parse_trade_action
parse_trade_action-action_text open_new = refl
parse_trade_action-action_text add = refl
parse_trade_action-action_text reduce = refl
parse_trade_action-action_text close = refl
parse_trade_action-action_text flip_close = refl
parse_trade_action-action_text flip_open = refl

parse_trade_side-side_text : (s : TradeSide) → parse_trade_side (side_text s) ≡ some s
unfolding parse_trade_side
parse_trade_side-side_text long = refl
parse_trade_side-side_text short = refl

margin_mode_of-text :
    (m : MarginMode) (fallback : String)
    → margin_mode_of (some (margin_mode_text m)) fallback ≡ some m
unfolding margin_mode_of parse_margin_mode
margin_mode_of-text cross fallback = refl
margin_mode_of-text isolated fallback = refl

module _ {D : Type 0} ⦃d : Decimal D⦄ ⦃p : Printed D⦄ ⦃t : Texts⦄ (laws : IsReadable D) where
  optional_decimal-text : (a : Option D) → optional_decimal (optional_text a) ≡ some a
  unfolding optional_decimal
  optional_decimal-text none = refl
  optional_decimal-text (some a) = ground (arith, laws.parse-str a, laws.str_nonempty a)

  parse_datetime-isoformat : (m : Moment) → parse_datetime (some (t.isoformat m)) ≡ some m
  unfolding parse_datetime
  parse_datetime-isoformat m =
      ground (arith, laws.fromisoformat-isoformat m, laws.isoformat_nonempty m)

  -- Where printing and reading are inverse, a live intent whose margin, leverage and limit price are
  -- not zero, and whose price source is a stripped text or none, is read back unchanged from the order
  -- that was made of it.
  pub trade_intent_from_order-trading_order_from_intent :
      (id : ℕ) (now : Moment) (i : TradeIntent D)
      → i.account_type ≡ live
      → is_zero i.margin_usd ≡ false
      → is_zero i.leverage ≡ false
      → is_zero i.limit_price ≡ false
      → optional_string i.price_source ≡ i.price_source
      → trade_intent_from_order (trading_order_from_intent id now i) ≡ some i
  unfolding trade_intent_from_order trading_order_from_intent trade_intent_payload
  trade_intent_from_order-trading_order_from_intent id now i l m v x s = ground (
    arith,
    parse_trade_action-action_text i.action,
    parse_trade_side-side_text i.side,
    margin_mode_of-text i.margin_mode (margin_mode_text i.margin_mode),
    optional_decimal-text i.source_price,
    optional_decimal-text i.observed_price,
    optional_decimal-text i.price_drift_bps,
    optional_decimal-text i.allocation_pct,
    optional_decimal-text i.allocation_usd,
    optional_decimal-text i.source_perp_equity_usd,
    optional_decimal-text i.source_exposure_pct,
    parse_datetime-isoformat i.created_at,
  )
