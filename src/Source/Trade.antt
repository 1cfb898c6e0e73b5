-- ===== src/Source/Trade.antt =====
-- A source trade while it is open, and as it is recorded:
-- backend/app/services/source_trade_reconstruction_service.py. A price is never NaN here.
pub mod Sizes
use copytrading_agent.Prelude.{
  ℕ, suc, ◌-◌, String, Bool, true, false, Option, none, some, ◌==◌, if◌then◌else◌, get_or,
}
use copytrading_agent.Prelude.Int.{ℤ, sub_ℕ}
use copytrading_agent.Decimal.{Decimal, ◌⩽◌, ◌⋖◌, ◌⊕◌, ◌⊖◌, ◌⊗◌, ◌⊘◌, min}
use copytrading_agent.Trade.{TradeSide, long, short}
use copytrading_agent.Signal.Pricing.{position_epsilon}

pub record OpenSourceTrade (D : Type 0) : Type 0 where
  pub wallet_address : String
  pub coin : String
  pub side : TradeSide
  pub opened_at_ms : ℕ
  pub entry_size : D
  pub closed_size : D
  pub remaining_size : D
  pub entry_notional_usd : D
  pub close_notional_usd : D
  pub realized_pnl_usd : D
  pub fee_usd : D
  pub entry_fill_count : ℕ
  pub close_fill_count : ℕ
  pub has_liquidation : Bool
  pub liquidation_fill_count : ℕ
  pub liquidation_notional_usd : D
  pub underwater_add_notional_usd : D

-- The text that these make, joined by colons.
pub record SourceTradeId : Type 0 where
  pub wallet_address : String
  pub coin : String
  pub side : TradeSide
  pub opened_at_ms : ℕ
  pub closed_at_ms : ℕ
  pub sequence : ℕ

-- `"open"` and `"closed"`.
pub data TradeStatus : Type 0 where
  still_open closed : TradeStatus

pub record ReconstructedSourceTrade (D : Type 0) : Type 0 where
  pub id : SourceTradeId
  pub wallet_address : String
  pub coin : String
  pub side : TradeSide
  pub status : TradeStatus
  pub opened_at_ms : ℕ
  pub closed_at_ms : Option ℕ
  pub duration_ms : Option ℤ
  pub entry_size : D
  pub closed_size : D
  pub remaining_size : D
  pub entry_notional_usd : D
  pub close_notional_usd : D
  pub average_entry_price : Option D
  pub average_exit_price : Option D
  pub realized_pnl_usd : D
  pub fee_usd : D
  pub net_pnl_usd : D
  pub entry_fill_count : ℕ
  pub close_fill_count : ℕ
  pub has_liquidation : Bool
  pub liquidation_fill_count : ℕ
  pub liquidation_notional_usd : D
  pub underwater_add_notional_usd : D

abbrev pub duration_of : ℕ → Option ℕ → Option ℤ
duration_of opened_at_ms none = none
duration_of opened_at_ms (some closed_at_ms) = some (sub_ℕ closed_at_ms opened_at_ms)

abbrev pub is_status_closed : TradeStatus → Bool
is_status_closed closed = true
is_status_closed still_open = false

module _ {D : Type 0} ⦃d : Decimal D⦄ where
  -- `OpenSourceTrade(...)` with the defaults of the class.
  abbrev pub new_trade : String → String → TradeSide → ℕ → OpenSourceTrade D
  new_trade wallet_address coin side opened_at_ms = record {
    wallet_address = wallet_address;
    coin = coin;
    side = side;
    opened_at_ms = opened_at_ms;
    entry_size = d.nought;
    closed_size = d.nought;
    remaining_size = d.nought;
    entry_notional_usd = d.nought;
    close_notional_usd = d.nought;
    realized_pnl_usd = d.nought;
    fee_usd = d.nought;
    entry_fill_count = 0;
    close_fill_count = 0;
    has_liquidation = false;
    liquidation_fill_count = 0;
    liquidation_notional_usd = d.nought;
    underwater_add_notional_usd = d.nought;
  }

  -- `total / size`, where the size is positive.
  abbrev pub average_of : D → D → Option D
  average_of total size = if size ⩽ d.nought then none else some (total ⊘ size)

  unfoldable pub average_entry_price : OpenSourceTrade D → Option D
  average_entry_price trade = average_of trade.entry_notional_usd trade.entry_size

  unfoldable pub average_exit_price : OpenSourceTrade D → Option D
  average_exit_price trade = average_of trade.close_notional_usd trade.closed_size

  unfoldable pub is_closed : OpenSourceTrade D → Bool
  is_closed trade = d.copy_abs trade.remaining_size ⩽ position_epsilon

  unfoldable pub net_pnl_usd : OpenSourceTrade D → D
  net_pnl_usd trade = trade.realized_pnl_usd ⊖ trade.fee_usd

  -- Whether the side is at a loss at the price, with that average.
  abbrev pub is_worse : TradeSide → D → Option D → Bool
  is_worse side price none = false
  is_worse long price (some average) = price ⋖ average
  is_worse short price (some average) = average ⋖ price

  unfoldable pub is_underwater_at : OpenSourceTrade D → D → Bool
  unfolding average_entry_price
  is_underwater_at trade price =
      if trade.remaining_size ⩽ position_epsilon
      then false
      else is_worse trade.side price (average_entry_price trade)

  unfoldable pub add_entry : OpenSourceTrade D → D → D → D → ℕ → OpenSourceTrade D
  unfolding is_underwater_at
  add_entry trade size notional_usd fee_usd timestamp_ms =
      let is_first = trade.entry_fill_count == 0 in
      record trade {
        opened_at_ms = if is_first then timestamp_ms else trade.opened_at_ms;
        underwater_add_notional_usd =
            if is_first
            then trade.underwater_add_notional_usd
            else if is_underwater_at trade (notional_usd ⊘ size)
            then trade.underwater_add_notional_usd ⊕ notional_usd
            else trade.underwater_add_notional_usd;
        entry_size = trade.entry_size ⊕ size;
        remaining_size = trade.remaining_size ⊕ size;
        entry_notional_usd = trade.entry_notional_usd ⊕ notional_usd;
        fee_usd = trade.fee_usd ⊕ fee_usd;
        entry_fill_count = suc trade.entry_fill_count;
      }

  abbrev pub closing : OpenSourceTrade D → D → D → D → D → D → Bool → OpenSourceTrade D
  closing trade closed_size ratio notional_usd pnl_usd fee_usd is_liquidation = record trade {
    remaining_size = trade.remaining_size ⊖ closed_size;
    closed_size = trade.closed_size ⊕ closed_size;
    close_notional_usd = trade.close_notional_usd ⊕ notional_usd ⊗ ratio;
    realized_pnl_usd = trade.realized_pnl_usd ⊕ pnl_usd ⊗ ratio;
    fee_usd = trade.fee_usd ⊕ fee_usd ⊗ ratio;
    close_fill_count = suc trade.close_fill_count;
    has_liquidation = if is_liquidation then true else trade.has_liquidation;
    liquidation_fill_count =
        if is_liquidation then suc trade.liquidation_fill_count else trade.liquidation_fill_count;
    liquidation_notional_usd =
        if is_liquidation
        then trade.liquidation_notional_usd ⊕ notional_usd ⊗ ratio
        else trade.liquidation_notional_usd;
  }

  -- The trade, and the size that the fill closed of it.
  unfoldable pub add_close : OpenSourceTrade D → D → D → D → D → Bool → OpenSourceTrade D × D
  add_close trade size notional_usd pnl_usd fee_usd is_liquidation =
      let closed_size = min size trade.remaining_size in
      if size ⩽ d.nought
      then (trade, d.nought)
      else if trade.remaining_size ⩽ d.nought
      then (trade, d.nought)
      else (
        closing trade closed_size (closed_size ⊘ size) notional_usd pnl_usd fee_usd is_liquidation,
        closed_size,
      )

  unfoldable pub source_trade_from_open_trade :
      OpenSourceTrade D → ℕ → TradeStatus → Option ℕ → ReconstructedSourceTrade D
  unfolding average_entry_price average_exit_price net_pnl_usd
  source_trade_from_open_trade trade sequence status closed_at_ms = record {
    id = record {
      wallet_address = trade.wallet_address;
      coin = trade.coin;
      side = trade.side;
      opened_at_ms = trade.opened_at_ms;
      closed_at_ms = get_or closed_at_ms 0;
      sequence = sequence;
    };
    wallet_address = trade.wallet_address;
    coin = trade.coin;
    side = trade.side;
    status = status;
    opened_at_ms = trade.opened_at_ms;
    closed_at_ms = closed_at_ms;
    duration_ms = duration_of trade.opened_at_ms closed_at_ms;
    entry_size = trade.entry_size;
    closed_size = trade.closed_size;
    remaining_size = trade.remaining_size;
    entry_notional_usd = trade.entry_notional_usd;
    close_notional_usd = trade.close_notional_usd;
    average_entry_price = average_entry_price trade;
    average_exit_price = average_exit_price trade;
    realized_pnl_usd = trade.realized_pnl_usd;
    fee_usd = trade.fee_usd;
    net_pnl_usd = net_pnl_usd trade;
    entry_fill_count = trade.entry_fill_count;
    close_fill_count = trade.close_fill_count;
    has_liquidation = trade.has_liquidation;
    liquidation_fill_count = trade.liquidation_fill_count;
    liquidation_notional_usd = trade.liquidation_notional_usd;
    underwater_add_notional_usd = trade.underwater_add_notional_usd;
  }

  unfoldable pub realized_entry_notional_for_trade : ReconstructedSourceTrade D → D
  realized_entry_notional_for_trade trade =
      if is_status_closed trade.status
      then trade.entry_notional_usd
      else if trade.closed_size ⩽ d.nought
      then d.nought
      else if trade.entry_size ⩽ d.nought
      then d.nought
      else trade.entry_notional_usd ⊗ min (trade.closed_size ⊘ trade.entry_size) d.one
