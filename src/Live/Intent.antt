-- ===== src/Live/Intent.antt =====
-- Trade intents of backend/app/services/trading_core.py: their identity and their payload.
use copytrading_agent.Prelude.{ℕ, String, Bool, Option, none, some}
use copytrading_agent.Trade.{
  TradeAction, TradeSide, MarginMode, TradingAccountType, paper, live, action_text, side_text,
  margin_mode_text, is_reducing, trade_is_buy,
}
use copytrading_agent.Signal.Pricing.{Moment}

-- The texts that the program makes of its values and reads again, and the digest of its identifiers.
pub record Printed (D : Type 0) : Type 0 where
  pub str : D → String

pub record Texts : Type 0 where
  pub str_int : ℕ → String
  pub isoformat : Moment → String
  -- `datetime.fromisoformat` with a final `Z` as `+00:00`, at UTC where the text names no zone; `none` is the `ValueError`
  pub fromisoformat : String → Option Moment
  pub lower : String → String
  pub strip : String → String
  -- `"|".join(...)`
  pub joined : String → String → String
  -- `"0x" + blake2s(key.encode("utf-8"), digest_size=16).hexdigest()`
  pub digest : String → String

pub record TradeIntent (D : Type 0) : Type 0 where
  pub account_key : String
  pub account_type : TradingAccountType
  pub source_wallet : String
  pub source_fill_id : String
  pub sequence_index : ℕ
  pub client_order_id : String
  pub coin : String
  pub action : TradeAction
  pub side : TradeSide
  pub is_buy : Bool
  pub reduce_only : Bool
  pub size : D
  pub notional_usd : D
  pub margin_usd : D
  pub leverage : D
  pub limit_price : D
  pub source_price : Option D
  pub observed_price : Option D
  pub price_drift_bps : Option D
  pub price_source : Option String
  pub allocation_pct : Option D
  pub allocation_usd : Option D
  pub source_perp_equity_usd : Option D
  pub source_exposure_pct : Option D
  pub created_at : Moment
  pub margin_mode : MarginMode

-- What the caller of `build_copy_trade_intent` gives.
pub record IntentInputs (D : Type 0) : Type 0 where
  pub account_key : String
  pub account_type : TradingAccountType
  pub source_wallet : String
  pub source_fill_id : String
  pub sequence_index : ℕ
  pub coin : String
  pub action : TradeAction
  pub side : TradeSide
  pub size : D
  pub notional_usd : D
  pub margin_usd : D
  pub leverage : D
  pub limit_price : D
  pub source_price : Option D
  pub observed_price : Option D
  pub price_drift_bps : Option D
  pub price_source : Option String
  pub allocation_pct : Option D
  pub allocation_usd : Option D
  pub source_perp_equity_usd : Option D
  pub source_exposure_pct : Option D
  pub created_at : Moment
  pub margin_mode : MarginMode

-- The payload of an intent, its decimals and its moment as text.
pub record IntentPayload : Type 0 where
  pub account_key : String
  pub account_type : String
  pub source_wallet : String
  pub source_fill_id : String
  pub sequence_index : ℕ
  pub client_order_id : String
  pub coin : String
  pub action : String
  pub side : String
  pub is_buy : Bool
  pub reduce_only : Bool
  pub size : String
  pub notional_usd : String
  pub margin_usd : String
  pub leverage : String
  pub margin_mode : String
  pub limit_price : String
  pub source_price : Option String
  pub observed_price : Option String
  pub price_drift_bps : Option String
  pub price_source : Option String
  pub allocation_pct : Option String
  pub allocation_usd : Option String
  pub source_perp_equity_usd : Option String
  pub source_exposure_pct : Option String
  pub created_at : String

abbrev account_type_text : TradingAccountType → String
account_type_text paper = "paper"
account_type_text live = "live"

module _ ⦃t : Texts⦄ where
  unfoldable pub build_client_order_id : String → String → String → ℕ → String → String
  build_client_order_id account_key source_wallet source_fill_id sequence_index action = t.digest (
      t.joined (t.lower account_key) (
        t.joined (t.lower source_wallet)
          (t.joined source_fill_id (t.joined (t.str_int sequence_index) action))))

module _ {D : Type 0} ⦃t : Texts⦄ where
  unfoldable pub build_copy_trade_intent : IntentInputs D → TradeIntent D
  unfolding build_client_order_id
  build_copy_trade_intent i =
      let reduce_only = is_reducing i.action in
      record {
        account_key = i.account_key;
        account_type = i.account_type;
        source_wallet = t.lower i.source_wallet;
        source_fill_id = i.source_fill_id;
        sequence_index = i.sequence_index;
        client_order_id =
            build_client_order_id i.account_key i.source_wallet i.source_fill_id i.sequence_index
              (action_text i.action);
        coin = i.coin;
        action = i.action;
        side = i.side;
        is_buy = trade_is_buy i.side reduce_only;
        reduce_only = reduce_only;
        size = i.size;
        notional_usd = i.notional_usd;
        margin_usd = i.margin_usd;
        leverage = i.leverage;
        limit_price = i.limit_price;
        source_price = i.source_price;
        observed_price = i.observed_price;
        price_drift_bps = i.price_drift_bps;
        price_source = i.price_source;
        allocation_pct = i.allocation_pct;
        allocation_usd = i.allocation_usd;
        source_perp_equity_usd = i.source_perp_equity_usd;
        source_exposure_pct = i.source_exposure_pct;
        created_at = i.created_at;
        margin_mode = i.margin_mode;
      }

module _ {D : Type 0} ⦃p : Printed D⦄ where
  -- `str(value) if value is not None else None`
  abbrev pub optional_text : Option D → Option String
  optional_text none = none
  optional_text (some a) = some (p.str a)

module _ {D : Type 0} ⦃p : Printed D⦄ ⦃t : Texts⦄ where
  unfoldable pub trade_intent_payload : TradeIntent D → IntentPayload
  trade_intent_payload i = record {
    account_key = i.account_key;
    account_type = account_type_text i.account_type;
    source_wallet = i.source_wallet;
    source_fill_id = i.source_fill_id;
    sequence_index = i.sequence_index;
    client_order_id = i.client_order_id;
    coin = i.coin;
    action = action_text i.action;
    side = side_text i.side;
    is_buy = i.is_buy;
    reduce_only = i.reduce_only;
    size = p.str i.size;
    notional_usd = p.str i.notional_usd;
    margin_usd = p.str i.margin_usd;
    leverage = p.str i.leverage;
    margin_mode = margin_mode_text i.margin_mode;
    limit_price = p.str i.limit_price;
    source_price = optional_text i.source_price;
    observed_price = optional_text i.observed_price;
    price_drift_bps = optional_text i.price_drift_bps;
    price_source = i.price_source;
    allocation_pct = optional_text i.allocation_pct;
    allocation_usd = optional_text i.allocation_usd;
    source_perp_equity_usd = optional_text i.source_perp_equity_usd;
    source_exposure_pct = optional_text i.source_exposure_pct;
    created_at = t.isoformat i.created_at;
  }
