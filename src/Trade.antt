-- ===== src/Trade.antt =====
-- The vocabulary of backend/app/services/trading_core.py: actions, sides, margin modes, and margin.

pub mod Sizing
use text.Mathlib.Text.{◌==◌ as str_eq}
use copytrading_agent.Prelude.{
  String, Bool, true, false, not, ◌&&◌, Option, none, some, if◌then◌else◌,
}
use copytrading_agent.Decimal.{Decimal, ◌⩽◌, ◌⋖◌, ◌⊘◌}

-- `"open"` is spelled `open_new`.
pub data TradeAction : Type 0 where
  open_new add reduce close flip_close flip_open : TradeAction

pub data TradeSide : Type 0 where
  long short : TradeSide

pub data MarginMode : Type 0 where
  cross isolated : MarginMode

pub data TradingAccountType : Type 0 where
  paper live : TradingAccountType

-- `none` is the `ValueError`.
unfoldable pub parse_trade_action : String → Option TradeAction
parse_trade_action value =
    if str_eq value "open"
    then some open_new
    else if str_eq value "add"
    then some add
    else if str_eq value "reduce"
    then some reduce
    else if str_eq value "close"
    then some close
    else if str_eq value "flip_close"
    then some flip_close
    else if str_eq value "flip_open"
    then some flip_open
    else none

unfoldable pub parse_trade_side : String → Option TradeSide
parse_trade_side value =
    if str_eq value "long" then some long else if str_eq value "short" then some short else none

unfoldable pub parse_margin_mode : String → Option MarginMode
parse_margin_mode value =
    if str_eq value "cross"
    then some cross
    else if str_eq value "isolated"
    then some isolated
    else none

-- The texts that the literals stand for.
abbrev pub action_text : TradeAction → String
action_text open_new = "open"
action_text add = "add"
action_text reduce = "reduce"
action_text close = "close"
action_text flip_close = "flip_close"
action_text flip_open = "flip_open"

abbrev pub side_text : TradeSide → String
side_text long = "long"
side_text short = "short"

abbrev pub margin_mode_text : MarginMode → String
margin_mode_text cross = "cross"
margin_mode_text isolated = "isolated"

-- `action in {"reduce", "close", "flip_close"}`
abbrev pub is_reducing : TradeAction → Bool
is_reducing reduce = true
is_reducing close = true
is_reducing flip_close = true
is_reducing _ = false

-- `action in {"open", "add", "flip_open"}`
abbrev pub is_entry : TradeAction → Bool
is_entry open_new = true
is_entry add = true
is_entry flip_open = true
is_entry _ = false

abbrev pub side_eq : TradeSide → TradeSide → Bool
side_eq long long = true
side_eq short short = true
side_eq _ _ = false

unfoldable pub trade_is_buy : TradeSide → Bool → Bool
trade_is_buy long reduce_only = not reduce_only
trade_is_buy short reduce_only = reduce_only

module _ {D : Type 0} ⦃d : Decimal D⦄ where
  unfoldable pub safe_leverage : Option D → D
  safe_leverage none = d.one
  safe_leverage (some leverage) =
      if d.is_finite leverage && d.nought ⋖ leverage then leverage else d.one

  unfoldable pub margin_from_notional : D → Option D → D
  margin_from_notional notional_usd leverage =
      let resolved_leverage = safe_leverage leverage in
      if notional_usd ⩽ d.nought then d.nought else notional_usd ⊘ resolved_leverage
