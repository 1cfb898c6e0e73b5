-- ===== src/Source/Wallet.antt =====
-- What is kept of one wallet's trades: `ReconstructedWalletTrades` of
-- backend/app/services/source_trade_reconstruction_service.py. A set is the list of its members, and
-- a day is its number since the epoch.
pub mod Restored
pub mod Stored
pub mod Totals
use text.Mathlib.Text.{◌==◌ as str_eq}
use copytrading_agent.Prelude.{
  ℕ, suc, ◌+◌, ◌/◌, String, Bool, true, false, Option, none, some, List, [], ◌∷◌, ◌++◌, ◌==◌, leb,
  ltb, if◌then◌else◌, get_or, length,
}
use copytrading_agent.Decimal.{Decimal, ◌⩽◌, ◌⋖◌, ◌⊕◌, ◌⊖◌, ◌⊗◌, ◌⊘◌, max}
use copytrading_agent.Source.Trade.{
  OpenSourceTrade, ReconstructedSourceTrade, TradeStatus, still_open, closed, net_pnl_usd,
  source_trade_from_open_trade, realized_entry_notional_for_trade,
}

pub data IgnoreReason : Type 0 where
  unmatched_close preexisting_open : IgnoreReason

pub record IgnoredSourceFill : Type 0 where
  pub wallet_address : String
  pub external_fill_id : String
  pub timestamp_ms : ℕ
  pub reason : IgnoreReason

pub record ReconstructedWalletTrades (D : Type 0) : Type 0 where
  pub wallet_address : String
  pub closed_trade_count : ℕ
  pub open_trade_count : ℕ
  pub unmatched_close_fill_count : ℕ
  pub preexisting_open_fill_count : ℕ
  pub entry_fill_count : ℕ
  pub close_fill_count : ℕ
  pub unique_coins : List String
  pub active_days : List ℕ
  pub coin_notional_usd : List (String × D)
  pub total_entry_notional_usd : D
  pub closed_entry_notional_usd : D
  pub closed_underwater_add_notional_usd : D
  pub realized_entry_notional_usd : D
  pub total_close_notional_usd : D
  pub realized_pnl_usd : D
  pub fee_usd : D
  pub net_pnl_usd : D
  pub gross_profit_usd : D
  pub gross_loss_usd : D
  pub winning_trade_count : ℕ
  pub losing_trade_count : ℕ
  pub max_drawdown_usd : D
  pub first_trade_time_ms : Option ℕ
  pub last_trade_time_ms : Option ℕ
  pub trades_24h : ℕ
  pub notional_24h : D
  pub net_pnl_24h : D
  pub trades_7d : ℕ
  pub notional_7d : D
  pub net_pnl_7d : D
  pub liquidation_trade_count : ℕ
  pub liquidation_close_fill_count : ℕ
  pub liquidation_notional_usd : D
  pub items : List (ReconstructedSourceTrade D)
  pub ignored_fills : List IgnoredSourceFill
  pub winning_trade_pnls : List D
  pub cumulative_pnl_usd : D
  pub peak_pnl_usd : D

-- `datetime.fromtimestamp(ms / 1000, tz=UTC).date()`
abbrev pub day_of : ℕ → ℕ
day_of ms = ms / 86_400_000

abbrev pub add_text : String → List String → List String
add_text s [] = s ∷ []
add_text s (t ∷ rest) = if str_eq t s then t ∷ rest else t ∷ add_text s rest

abbrev pub add_day : ℕ → List ℕ → List ℕ
add_day n [] = n ∷ []
add_day n (m ∷ rest) = if m == n then m ∷ rest else m ∷ add_day n rest

module _ {D : Type 0} ⦃d : Decimal D⦄ where
  -- `coin_notional_usd[coin] = coin_notional_usd.get(coin, 0) + notional`
  abbrev pub add_notional : String → D → List (String × D) → List (String × D)
  add_notional coin notional [] = (coin, d.nought ⊕ notional) ∷ []
  add_notional coin notional ((c, total) ∷ rest) =
      if str_eq c coin
      then (c, total ⊕ notional) ∷ rest
      else (c, total) ∷ add_notional coin notional rest

  abbrev pub new_wallet_trades : String → ReconstructedWalletTrades D
  new_wallet_trades wallet_address = record {
    wallet_address = wallet_address;
    closed_trade_count = 0;
    open_trade_count = 0;
    unmatched_close_fill_count = 0;
    preexisting_open_fill_count = 0;
    entry_fill_count = 0;
    close_fill_count = 0;
    unique_coins = [];
    active_days = [];
    coin_notional_usd = [];
    total_entry_notional_usd = d.nought;
    closed_entry_notional_usd = d.nought;
    closed_underwater_add_notional_usd = d.nought;
    realized_entry_notional_usd = d.nought;
    total_close_notional_usd = d.nought;
    realized_pnl_usd = d.nought;
    fee_usd = d.nought;
    net_pnl_usd = d.nought;
    gross_profit_usd = d.nought;
    gross_loss_usd = d.nought;
    winning_trade_count = 0;
    losing_trade_count = 0;
    max_drawdown_usd = d.nought;
    first_trade_time_ms = none;
    last_trade_time_ms = none;
    trades_24h = 0;
    notional_24h = d.nought;
    net_pnl_24h = d.nought;
    trades_7d = 0;
    notional_7d = d.nought;
    net_pnl_7d = d.nought;
    liquidation_trade_count = 0;
    liquidation_close_fill_count = 0;
    liquidation_notional_usd = d.nought;
    items = [];
    ignored_fills = [];
    winning_trade_pnls = [];
    cumulative_pnl_usd = d.nought;
    peak_pnl_usd = d.nought;
  }

  unfoldable pub average_trade_notional_usd : ReconstructedWalletTrades D → D
  average_trade_notional_usd w =
      if leb w.closed_trade_count 0
      then d.nought
      else w.closed_entry_notional_usd ⊘ d.of_int w.closed_trade_count

  abbrev largest : D → List (String × D) → D
  largest top [] = top
  largest top ((c, n) ∷ rest) = largest (max top n) rest

  abbrev largest_notional : List (String × D) → D
  largest_notional [] = d.nought
  largest_notional ((c, n) ∷ rest) = largest n rest

  unfoldable pub max_coin_notional_usd : ReconstructedWalletTrades D → D
  max_coin_notional_usd w = largest_notional w.coin_notional_usd

  -- The sum of squared shares of the winners in the gross profit.
  abbrev concentration : D → D → List D → D
  concentration gross total [] = total
  concentration gross total (profit ∷ rest) =
      concentration gross
        (if profit ⩽ d.nought then total else total ⊕ profit ⊘ gross ⊗ (profit ⊘ gross)) rest

  abbrev effective_count : D → List D → Option D
  effective_count gross [] = none
  effective_count gross (p ∷ pnls) =
      let hhi = concentration gross d.nought (p ∷ pnls) in
      if gross ⩽ d.nought then none else if hhi ⩽ d.nought then none else some (d.one ⊘ hhi)

  unfoldable pub effective_winning_trade_count : ReconstructedWalletTrades D → Option D
  effective_winning_trade_count w = effective_count w.gross_profit_usd w.winning_trade_pnls

  unfoldable pub record_closed_trade :
      OpenSourceTrade D → ℕ → ℕ → ℕ → ReconstructedWalletTrades D → ReconstructedWalletTrades D
  unfolding source_trade_from_open_trade net_pnl_usd
  record_closed_trade trade closed_at_ms start_24h_ms start_7d_ms w =
      let net = net_pnl_usd trade in
      let item =
        source_trade_from_open_trade trade (suc w.closed_trade_count) closed (some closed_at_ms) in
      let is_win = d.nought ⋖ net in
      let is_loss = net ⋖ d.nought in
      let cumulative = w.cumulative_pnl_usd ⊕ net in
      let peak = max w.peak_pnl_usd cumulative in
      let in_24h = leb start_24h_ms closed_at_ms in
      let in_7d = leb start_7d_ms closed_at_ms in
      record w {
        closed_trade_count = suc w.closed_trade_count;
        entry_fill_count = w.entry_fill_count + trade.entry_fill_count;
        close_fill_count = w.close_fill_count + trade.close_fill_count;
        unique_coins = add_text trade.coin w.unique_coins;
        active_days = add_day (day_of closed_at_ms) w.active_days;
        coin_notional_usd = add_notional trade.coin trade.entry_notional_usd w.coin_notional_usd;
        total_entry_notional_usd = w.total_entry_notional_usd ⊕ trade.entry_notional_usd;
        closed_entry_notional_usd = w.closed_entry_notional_usd ⊕ trade.entry_notional_usd;
        closed_underwater_add_notional_usd =
            w.closed_underwater_add_notional_usd ⊕ trade.underwater_add_notional_usd;
        realized_entry_notional_usd = w.realized_entry_notional_usd ⊕ trade.entry_notional_usd;
        total_close_notional_usd = w.total_close_notional_usd ⊕ trade.close_notional_usd;
        realized_pnl_usd = w.realized_pnl_usd ⊕ trade.realized_pnl_usd;
        fee_usd = w.fee_usd ⊕ trade.fee_usd;
        net_pnl_usd = w.net_pnl_usd ⊕ net;
        gross_profit_usd = if is_win then w.gross_profit_usd ⊕ net else w.gross_profit_usd;
        winning_trade_count = if is_win then suc w.winning_trade_count else w.winning_trade_count;
        winning_trade_pnls =
            if is_win then w.winning_trade_pnls ++ net ∷ [] else w.winning_trade_pnls;
        gross_loss_usd =
            if is_win
            then w.gross_loss_usd
            else if is_loss
            then w.gross_loss_usd ⊕ d.copy_abs net
            else w.gross_loss_usd;
        losing_trade_count =
            if is_win
            then w.losing_trade_count
            else if is_loss
            then suc w.losing_trade_count
            else w.losing_trade_count;
        liquidation_trade_count =
            if trade.has_liquidation
            then suc w.liquidation_trade_count
            else w.liquidation_trade_count;
        liquidation_close_fill_count =
            if trade.has_liquidation
            then w.liquidation_close_fill_count + trade.liquidation_fill_count
            else w.liquidation_close_fill_count;
        liquidation_notional_usd =
            if trade.has_liquidation
            then w.liquidation_notional_usd ⊕ trade.liquidation_notional_usd
            else w.liquidation_notional_usd;
        cumulative_pnl_usd = cumulative;
        peak_pnl_usd = peak;
        max_drawdown_usd = max w.max_drawdown_usd (peak ⊖ cumulative);
        first_trade_time_ms = some (get_or w.first_trade_time_ms closed_at_ms);
        last_trade_time_ms = some closed_at_ms;
        trades_24h = if in_24h then suc w.trades_24h else w.trades_24h;
        notional_24h = if in_24h then w.notional_24h ⊕ trade.entry_notional_usd else w.notional_24h;
        net_pnl_24h = if in_24h then w.net_pnl_24h ⊕ net else w.net_pnl_24h;
        trades_7d = if in_7d then suc w.trades_7d else w.trades_7d;
        notional_7d = if in_7d then w.notional_7d ⊕ trade.entry_notional_usd else w.notional_7d;
        net_pnl_7d = if in_7d then w.net_pnl_7d ⊕ net else w.net_pnl_7d;
        items = w.items ++ item ∷ [];
      }

  abbrev pub count_liquidation :
      Bool → ℕ → D → ReconstructedWalletTrades D → ReconstructedWalletTrades D
  count_liquidation false fills notional w = w
  count_liquidation true fills notional w = record w {
    liquidation_trade_count = suc w.liquidation_trade_count;
    liquidation_close_fill_count = w.liquidation_close_fill_count + fills;
    liquidation_notional_usd = w.liquidation_notional_usd ⊕ notional;
  }

  abbrev pub count_drawdown : D → ReconstructedWalletTrades D → ReconstructedWalletTrades D
  count_drawdown net w =
      let cumulative = w.cumulative_pnl_usd ⊕ net in
      let peak = max w.peak_pnl_usd cumulative in
      record w {
        cumulative_pnl_usd = cumulative;
        peak_pnl_usd = peak;
        max_drawdown_usd = max w.max_drawdown_usd (peak ⊖ cumulative);
      }

  -- Profit or loss of an open trade, which is neither won nor lost yet.
  abbrev pub count_open_result : D → ReconstructedWalletTrades D → ReconstructedWalletTrades D
  count_open_result net w =
      let is_win = d.nought ⋖ net in
      record w {
        gross_profit_usd = if is_win then w.gross_profit_usd ⊕ net else w.gross_profit_usd;
        gross_loss_usd =
            if is_win
            then w.gross_loss_usd
            else if net ⋖ d.nought
            then w.gross_loss_usd ⊕ d.copy_abs net
            else w.gross_loss_usd;
      }

  -- What a partly closed trade has realized.
  unfoldable pub count_partial :
      ReconstructedSourceTrade D → ReconstructedWalletTrades D → ReconstructedWalletTrades D
  unfolding realized_entry_notional_for_trade
  count_partial item w =
      let net = item.net_pnl_usd in
      let counted = record w {
        close_fill_count = w.close_fill_count + item.close_fill_count;
        realized_entry_notional_usd =
            w.realized_entry_notional_usd ⊕ realized_entry_notional_for_trade item;
        total_close_notional_usd = w.total_close_notional_usd ⊕ item.close_notional_usd;
        realized_pnl_usd = w.realized_pnl_usd ⊕ item.realized_pnl_usd;
        fee_usd = w.fee_usd ⊕ item.fee_usd;
        net_pnl_usd = w.net_pnl_usd ⊕ net;
      } in
      count_drawdown net (
        count_liquidation item.has_liquidation item.liquidation_fill_count
          item.liquidation_notional_usd (count_open_result net counted))

  unfoldable pub record_open_trade_item :
      ReconstructedSourceTrade D → ReconstructedWalletTrades D → ReconstructedWalletTrades D
  unfolding count_partial
  record_open_trade_item item w =
      let counted = record w {
        open_trade_count = suc w.open_trade_count;
        total_entry_notional_usd = w.total_entry_notional_usd ⊕ item.entry_notional_usd;
      } in
      let after = if ltb 0 item.close_fill_count then count_partial item counted else counted in
      record after { items = after.items ++ item ∷ [] }

  unfoldable pub record_open_trade :
      OpenSourceTrade D → ReconstructedWalletTrades D → ReconstructedWalletTrades D
  unfolding record_open_trade_item source_trade_from_open_trade
  record_open_trade trade w =
      record_open_trade_item
        (source_trade_from_open_trade trade (suc (w.closed_trade_count + w.open_trade_count))
          still_open none)
        w

abbrev pub ignored_fill : String → String → ℕ → IgnoreReason → IgnoredSourceFill
ignored_fill wallet_address external_fill_id timestamp_ms reason = record {
  wallet_address = wallet_address;
  external_fill_id = external_fill_id;
  timestamp_ms = timestamp_ms;
  reason = reason;
}

unfoldable pub record_ignored_fill :
    {D : Type 0} → IgnoredSourceFill → ReconstructedWalletTrades D → ReconstructedWalletTrades D
record_ignored_fill fill w = elim fill.reason [
  | unmatched_close ↦ record w {
    unmatched_close_fill_count = suc w.unmatched_close_fill_count;
    ignored_fills = w.ignored_fills ++ fill ∷ [];
  }
  | preexisting_open ↦ record w {
    preexisting_open_fill_count = suc w.preexisting_open_fill_count;
    ignored_fills = w.ignored_fills ++ fill ∷ [];
  }
]
