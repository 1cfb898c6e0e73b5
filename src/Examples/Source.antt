-- ===== src/Examples/Source.antt =====
-- Reconstructed source trades (backend/app/services/source_trade_reconstruction_service.py) at
-- concrete inputs.
use copytrading_agent.Prelude.{
  ℕ, suc, String, ◌≡◌, ◌≢◌, refl, Bool, true, false, Option, none, some, List, [], ◌∷◌, arith,
  length,
}
use copytrading_agent.Prelude.Int.{ℤ, pos}
use copytrading_agent.Decimal.{◌⩽◌, ◌⊕◌}
use copytrading_agent.Decimal.Units.{units_decimal, units-IsOrdered, units-IsRounded, units-IsExact}
use copytrading_agent.Trade.{long, short}
use copytrading_agent.Source.Trade.{
  OpenSourceTrade, new_trade, closed, add_entry, add_close, source_trade_from_open_trade,
}
use copytrading_agent.Source.Wallet.{
  ReconstructedWalletTrades, new_wallet_trades, record_closed_trade,
}
use copytrading_agent.Source.Wallet.Totals.{IsSound}
use copytrading_agent.Source.Wallet.Restored.{
  WalletTrade, ended, going, rows_of, record_trades, restore_trades, restore_trades-rows_of,
}
use copytrading_agent.Source.Rebuild.{
  TradeFillRow, FillParts, TradeBooks, TradeKey, key_eq, get_trade, process_trade_fill, process_all,
  fill_of, split_flip_size, reconstruct_wallet_trades, empty_books,
}
use copytrading_agent.Source.Rebuild.Book.{
  AllValues, IsBook, process_all-IsBook, reconstruct_wallet_trades-AllValues,
}
use copytrading_agent.Source.Rebuild.Others.{process_trade_fill-get_trade, split_flip_size-bounds}

-- A purchase of 4 units for 40.
abbrev buy : TradeFillRow ℤ
buy = record {
  wallet_address = "wallet";
  external_fill_id = "1";
  coin = "BTC";
  direction = "Open Long";
  timestamp_ms = 1000;
  size = some (pos 4);
  notional_usd = pos 40;
  fee_usd = pos 0;
  pnl_usd = pos 0;
  start_position = some "0";
  is_liquidation = false;
}

-- A sale of 6 units for 72, which closes the 4 and opens 2 short.
abbrev turn : TradeFillRow ℤ
turn = record buy {
  external_fill_id = "2";
  direction = "Long > Short";
  timestamp_ms = 2000;
  size = some (pos 6);
  notional_usd = pos 72;
  pnl_usd = pos 12;
  start_position = some "4";
}

abbrev turned : TradeBooks ℤ
turned = process_all 0 0 (buy ∷ turn ∷ []) empty_books

process_all-IsBook_example : IsBook turned
process_all-IsBook_example =
    process_all-IsBook units-IsOrdered units-IsRounded units-IsExact 0 0 (buy ∷ turn ∷ [])
      empty_books (record { trades = tt; sound = tt })

reconstruct_wallet_trades-AllValues_example :
    AllValues IsSound (reconstruct_wallet_trades 0 0 (buy ∷ turn ∷ []))
reconstruct_wallet_trades-AllValues_example =
    reconstruct_wallet_trades-AllValues units-IsOrdered units-IsRounded units-IsExact 0 0
      (buy ∷ turn ∷ [])

abbrev other_key : TradeKey
other_key = record { wallet_address = "wallet"; coin = "ETH"; side = long }

process_trade_fill-get_trade_example :
    get_trade other_key (process_trade_fill 0 0 buy turned).open_trades
    ≡ get_trade other_key turned.open_trades
process_trade_fill-get_trade_example = process_trade_fill-get_trade 0 0 buy turned other_key refl

split_flip_size-bounds_example :
    let sizes = split_flip_size (fill_of turn) long in
    ((pos 0 ⩽ sizes.0) ≡ true)
    × ((sizes.0 ⩽ pos 6) ≡ true)
    × ((pos 0 ⩽ sizes.1) ≡ true)
    × (sizes.0 ⊕ sizes.1 ≡ pos 6)
split_flip_size-bounds_example =
    split_flip_size-bounds units-IsOrdered units-IsRounded units-IsExact (fill_of turn) long refl

abbrev four_sold : OpenSourceTrade ℤ
four_sold =
    (add_close (add_entry (new_trade "wallet" "BTC" long 1000) (pos 4) (pos 40) (pos 0) 1000)
      (pos 4) (pos 48) (pos 8) (pos 0) false).0

abbrev recorded : List (WalletTrade ℤ)
recorded =
    ended four_sold 2000
    ∷ going (add_entry (new_trade "wallet" "ETH" short 1500) (pos 2) (pos 30) (pos 0) 1500)
    ∷ []

restore_trades-rows_of_example :
    restore_trades 0 0
      (rows_of 0 0 recorded (new_wallet_trades "wallet"))
      (new_wallet_trades "wallet")
    ≡ record_trades 0 0 recorded (new_wallet_trades "wallet")
restore_trades-rows_of_example =
    restore_trades-rows_of 0 0 recorded (new_wallet_trades "wallet") (omega arith, (tt, tt))

-- The sale closes what was held and opens the rest on the other side.
abbrev remaining_of : Option (OpenSourceTrade ℤ) → ℤ
remaining_of none = pos 0
remaining_of (some trade) = trade.remaining_size

abbrev short_key : TradeKey
short_key = record other_key { coin = "BTC"; side = short }

turn_split : split_flip_size (fill_of turn) long ≡ (pos 4, pos 2)
unfolding split_flip_size copytrading_agent.Prelude.Int.◌-ℤ◌
turn_split = refl

turn_opens_rest : remaining_of (get_trade short_key turned.open_trades) ≡ pos 2
unfolding get_trade process_all process_trade_fill copytrading_agent.Source.Rebuild.apply_direction
    copytrading_agent.Source.Rebuild.apply_flip split_flip_size copytrading_agent.Prelude.Int.◌-ℤ◌
    copytrading_agent.Prelude.Int.◌+ℤ◌ copytrading_agent.Prelude.Int.◌*ℤ◌
    copytrading_agent.Source.Rebuild.apply_open copytrading_agent.Source.Rebuild.apply_close
    copytrading_agent.Signal.Pricing.is_preexisting_source_add copytrading_agent.Prelude.Int.◌/ℤ◌
    copytrading_agent.Source.Rebuild.put_trade key_eq
    copytrading_agent.Source.Rebuild.proportional_fill copytrading_agent.Source.Trade.is_closed
    add_close add_entry copytrading_agent.Source.Rebuild.on_wallet
    copytrading_agent.Source.Rebuild.pop_trade copytrading_agent.Source.Trade.average_entry_price
    copytrading_agent.Source.Trade.average_exit_price
    copytrading_agent.Source.Trade.is_underwater_at copytrading_agent.Source.Trade.net_pnl_usd
    source_trade_from_open_trade record_closed_trade
    copytrading_agent.Source.Wallet.record_ignored_fill
turn_opens_rest = refl

turn_counts : length turned.open_trades ≡ 1
unfolding get_trade process_all process_trade_fill copytrading_agent.Source.Rebuild.apply_direction
    copytrading_agent.Source.Rebuild.apply_flip split_flip_size copytrading_agent.Prelude.Int.◌-ℤ◌
    copytrading_agent.Prelude.Int.◌+ℤ◌ copytrading_agent.Prelude.Int.◌*ℤ◌
    copytrading_agent.Source.Rebuild.apply_open copytrading_agent.Source.Rebuild.apply_close
    copytrading_agent.Signal.Pricing.is_preexisting_source_add copytrading_agent.Prelude.Int.◌/ℤ◌
    copytrading_agent.Source.Rebuild.put_trade key_eq
    copytrading_agent.Source.Rebuild.proportional_fill copytrading_agent.Source.Trade.is_closed
    add_close add_entry copytrading_agent.Source.Rebuild.on_wallet
    copytrading_agent.Source.Rebuild.pop_trade copytrading_agent.Source.Trade.average_entry_price
    copytrading_agent.Source.Trade.average_exit_price
    copytrading_agent.Source.Trade.is_underwater_at copytrading_agent.Source.Trade.net_pnl_usd
    source_trade_from_open_trade record_closed_trade
    copytrading_agent.Source.Wallet.record_ignored_fill
turn_counts = refl
