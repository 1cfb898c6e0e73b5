-- ===== src/Source/Wallet/Stored.antt =====
-- The stored trades of a wallet and how its totals are taken from them again:
-- backend/app/services/source_trade_reconstruction_service.py. The text of a trade's key stands for
-- the values that it is made of.
use copytrading_agent.Prelude.{
  ℕ, suc, ◌+◌, String, Bool, false, Option, none, some, [], ◌∷◌, ◌++◌, ◌==◌, leb, if◌then◌else◌,
  get_or,
}
use copytrading_agent.Prelude.Int.{ℤ}
use copytrading_agent.Decimal.{Decimal, ◌⋖◌, ◌⊕◌, ◌⊖◌, max}
use copytrading_agent.Trade.{TradeSide}
use copytrading_agent.Source.Trade.{
  ReconstructedSourceTrade, SourceTradeId, TradeStatus, is_status_closed,
}
use copytrading_agent.Source.Wallet.{
  ReconstructedWalletTrades, add_day, add_notional, add_text, day_of, record_open_trade_item,
}

-- A row as it is written and read; a number may be missing.
pub record SourceTradeRow (D : Type 0) : Type 0 where
  pub trade_key : SourceTradeId
  pub wallet_address : String
  pub coin : String
  pub side : TradeSide
  pub status : TradeStatus
  pub opened_at_ms : ℕ
  pub closed_at_ms : Option ℕ
  pub duration_ms : Option ℤ
  pub entry_size : Option D
  pub closed_size : Option D
  pub remaining_size : Option D
  pub entry_notional_usd : Option D
  pub close_notional_usd : Option D
  pub average_entry_price : Option D
  pub average_exit_price : Option D
  pub realized_pnl_usd : Option D
  pub fee_usd : Option D
  pub net_pnl_usd : Option D
  pub entry_fill_count : Option ℕ
  pub close_fill_count : Option ℕ
  pub has_liquidation : Option Bool
  pub liquidation_fill_count : Option ℕ
  pub liquidation_notional_usd : Option D
  pub underwater_add_notional_usd : Option D

module _ {D : Type 0} ⦃d : Decimal D⦄ where
  unfoldable pub source_trade_record : ReconstructedSourceTrade D → SourceTradeRow D
  source_trade_record item = record {
    trade_key = item.id;
    wallet_address = item.wallet_address;
    coin = item.coin;
    side = item.side;
    status = item.status;
    opened_at_ms = item.opened_at_ms;
    closed_at_ms = item.closed_at_ms;
    duration_ms = item.duration_ms;
    entry_size = some item.entry_size;
    closed_size = some item.closed_size;
    remaining_size = some item.remaining_size;
    entry_notional_usd = some item.entry_notional_usd;
    close_notional_usd = some item.close_notional_usd;
    average_entry_price = item.average_entry_price;
    average_exit_price = item.average_exit_price;
    realized_pnl_usd = some item.realized_pnl_usd;
    fee_usd = some item.fee_usd;
    net_pnl_usd = some item.net_pnl_usd;
    entry_fill_count = some item.entry_fill_count;
    close_fill_count = some item.close_fill_count;
    has_liquidation = some item.has_liquidation;
    liquidation_fill_count = some item.liquidation_fill_count;
    liquidation_notional_usd = some item.liquidation_notional_usd;
    underwater_add_notional_usd = some item.underwater_add_notional_usd;
  }

  unfoldable pub reconstructed_source_trade_from_row : SourceTradeRow D → ReconstructedSourceTrade D
  reconstructed_source_trade_from_row row = record {
    id = row.trade_key;
    wallet_address = row.wallet_address;
    coin = row.coin;
    side = row.side;
    status = row.status;
    opened_at_ms = row.opened_at_ms;
    closed_at_ms = row.closed_at_ms;
    duration_ms = row.duration_ms;
    entry_size = get_or row.entry_size d.nought;
    closed_size = get_or row.closed_size d.nought;
    remaining_size = get_or row.remaining_size d.nought;
    entry_notional_usd = get_or row.entry_notional_usd d.nought;
    close_notional_usd = get_or row.close_notional_usd d.nought;
    average_entry_price = row.average_entry_price;
    average_exit_price = row.average_exit_price;
    realized_pnl_usd = get_or row.realized_pnl_usd d.nought;
    fee_usd = get_or row.fee_usd d.nought;
    net_pnl_usd = get_or row.net_pnl_usd d.nought;
    entry_fill_count = get_or row.entry_fill_count 0;
    close_fill_count = get_or row.close_fill_count 0;
    has_liquidation = get_or row.has_liquidation false;
    liquidation_fill_count = get_or row.liquidation_fill_count 0;
    liquidation_notional_usd = get_or row.liquidation_notional_usd d.nought;
    underwater_add_notional_usd = get_or row.underwater_add_notional_usd d.nought;
  }

  -- `int(item.closed_at_ms or item.opened_at_ms)`
  abbrev pub closed_time : ReconstructedSourceTrade D → Option ℕ → ℕ
  closed_time item none = item.opened_at_ms
  closed_time item (some ms) = if ms == 0 then item.opened_at_ms else ms

  unfoldable pub record_closed_trade_item :
      ReconstructedSourceTrade D → ℕ → ℕ → ReconstructedWalletTrades D → ReconstructedWalletTrades D
  record_closed_trade_item item start_24h_ms start_7d_ms w =
      let closed_at_ms = closed_time item item.closed_at_ms in
      let net = item.net_pnl_usd in
      let is_win = d.nought ⋖ net in
      let is_loss = net ⋖ d.nought in
      let cumulative = w.cumulative_pnl_usd ⊕ net in
      let peak = max w.peak_pnl_usd cumulative in
      let in_24h = leb start_24h_ms closed_at_ms in
      let in_7d = leb start_7d_ms closed_at_ms in
      record w {
        closed_trade_count = suc w.closed_trade_count;
        entry_fill_count = w.entry_fill_count + item.entry_fill_count;
        close_fill_count = w.close_fill_count + item.close_fill_count;
        unique_coins = add_text item.coin w.unique_coins;
        active_days = add_day (day_of closed_at_ms) w.active_days;
        coin_notional_usd = add_notional item.coin item.entry_notional_usd w.coin_notional_usd;
        total_entry_notional_usd = w.total_entry_notional_usd ⊕ item.entry_notional_usd;
        closed_entry_notional_usd = w.closed_entry_notional_usd ⊕ item.entry_notional_usd;
        closed_underwater_add_notional_usd =
            w.closed_underwater_add_notional_usd ⊕ item.underwater_add_notional_usd;
        realized_entry_notional_usd = w.realized_entry_notional_usd ⊕ item.entry_notional_usd;
        total_close_notional_usd = w.total_close_notional_usd ⊕ item.close_notional_usd;
        realized_pnl_usd = w.realized_pnl_usd ⊕ item.realized_pnl_usd;
        fee_usd = w.fee_usd ⊕ item.fee_usd;
        net_pnl_usd = w.net_pnl_usd ⊕ net;
        gross_profit_usd = if is_win then w.gross_profit_usd ⊕ net else w.gross_profit_usd;
        winning_trade_count = if is_win then suc w.winning_trade_count else w.winning_trade_count;
        winning_trade_pnls =
            if is_win then w.winning_trade_pnls ++ net ∷ [] else w.winning_trade_pnls;
        gross_loss_usd =
            if is_win
            then w.gross_loss_usd
            else if is_loss
            then w.gross_loss_usd ⊕ d.copy_abs net
            else w.gross_loss_usd;
        losing_trade_count =
            if is_win
            then w.losing_trade_count
            else if is_loss
            then suc w.losing_trade_count
            else w.losing_trade_count;
        liquidation_trade_count =
            if item.has_liquidation
            then suc w.liquidation_trade_count
            else w.liquidation_trade_count;
        liquidation_close_fill_count =
            if item.has_liquidation
            then w.liquidation_close_fill_count + item.liquidation_fill_count
            else w.liquidation_close_fill_count;
        liquidation_notional_usd =
            if item.has_liquidation
            then w.liquidation_notional_usd ⊕ item.liquidation_notional_usd
            else w.liquidation_notional_usd;
        cumulative_pnl_usd = cumulative;
        peak_pnl_usd = peak;
        max_drawdown_usd = max w.max_drawdown_usd (peak ⊖ cumulative);
        first_trade_time_ms = some (get_or w.first_trade_time_ms closed_at_ms);
        last_trade_time_ms = some closed_at_ms;
        trades_24h = if in_24h then suc w.trades_24h else w.trades_24h;
        notional_24h = if in_24h then w.notional_24h ⊕ item.entry_notional_usd else w.notional_24h;
        net_pnl_24h = if in_24h then w.net_pnl_24h ⊕ net else w.net_pnl_24h;
        trades_7d = if in_7d then suc w.trades_7d else w.trades_7d;
        notional_7d = if in_7d then w.notional_7d ⊕ item.entry_notional_usd else w.notional_7d;
        net_pnl_7d = if in_7d then w.net_pnl_7d ⊕ net else w.net_pnl_7d;
        items = w.items ++ item ∷ [];
      }

  -- What the row does to the totals of its wallet.
  unfoldable pub record_materialized_trade :
      SourceTradeRow D → ℕ → ℕ → ReconstructedWalletTrades D → ReconstructedWalletTrades D
  record_materialized_trade row start_24h_ms start_7d_ms w =
      let item = reconstructed_source_trade_from_row row in
      if is_status_closed item.status
      then record_closed_trade_item item start_24h_ms start_7d_ms w
      else record_open_trade_item item w
