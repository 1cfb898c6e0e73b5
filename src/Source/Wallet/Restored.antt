-- ===== src/Source/Wallet/Restored.antt =====
-- The totals of a wallet are the same when they are taken from its stored trades again:
-- backend/app/services/source_trade_reconstruction_service.py.
use copytrading_agent.Prelude.{
  ℕ, suc, ◌==◌, ◌≡◌, ◌≢◌, ◌∙◌, ap, refl, false, none, some, List, [], ◌∷◌, ◌+◌, arith, All,
}
use copytrading_agent.Decimal.{Decimal}
use copytrading_agent.Source.Trade.{
  OpenSourceTrade, closed, still_open, source_trade_from_open_trade,
}
use copytrading_agent.Source.Wallet.{
  ReconstructedWalletTrades, record_closed_trade, record_open_trade,
}
use copytrading_agent.Source.Wallet.Stored.{
  SourceTradeRow, source_trade_record, reconstructed_source_trade_from_row,
  record_closed_trade_item, record_materialized_trade,
}

-- A trade that is recorded: closed at a time, or open still.
pub data WalletTrade (D : Type 0) : Type 0 where
  ended : OpenSourceTrade D → ℕ → WalletTrade D
  going : OpenSourceTrade D → WalletTrade D

module _ {D : Type 0} where
  -- A closed trade has a time.
  abbrev pub IsDated : WalletTrade D → Type 0
  IsDated (ended trade closed_at_ms) = closed_at_ms ≢ 0
  IsDated (going trade) = Unit

module _ {D : Type 0} ⦃d : Decimal D⦄ (start_24h_ms start_7d_ms : ℕ) where
  abbrev pub record_trade :
      WalletTrade D → ReconstructedWalletTrades D → ReconstructedWalletTrades D
  record_trade (ended trade closed_at_ms) w =
      record_closed_trade trade closed_at_ms start_24h_ms start_7d_ms w
  record_trade (going trade) w = record_open_trade trade w

  -- The row of a trade that is recorded next.
  abbrev pub row_of : WalletTrade D → ReconstructedWalletTrades D → SourceTradeRow D
  row_of (ended trade closed_at_ms) w =
      source_trade_record
        (source_trade_from_open_trade trade (suc w.closed_trade_count) closed (some closed_at_ms))
  row_of (going trade) w = source_trade_record (
      source_trade_from_open_trade trade (suc (w.closed_trade_count + w.open_trade_count))
        still_open none)

  unfoldable pub record_trades :
      List (WalletTrade D) → ReconstructedWalletTrades D → ReconstructedWalletTrades D
  record_trades [] w = w
  record_trades (t ∷ trades) w = record_trades trades (record_trade t w)

  unfoldable pub rows_of :
      List (WalletTrade D) → ReconstructedWalletTrades D → List (SourceTradeRow D)
  rows_of [] w = []
  rows_of (t ∷ trades) w = row_of t w ∷ rows_of trades (record_trade t w)

  unfoldable pub restore_trades :
      List (SourceTradeRow D) → ReconstructedWalletTrades D → ReconstructedWalletTrades D
  restore_trades [] w = w
  restore_trades (row ∷ rows) w =
      restore_trades rows (record_materialized_trade row start_24h_ms start_7d_ms w)

  record_materialized_trade-row_of :
      (t : WalletTrade D) (w : ReconstructedWalletTrades D)
      → IsDated t
      → record_materialized_trade (row_of t w) start_24h_ms start_7d_ms w ≡ record_trade t w
  unfolding record_materialized_trade source_trade_record reconstructed_source_trade_from_row
      record_closed_trade record_closed_trade_item record_open_trade source_trade_from_open_trade
  record_materialized_trade-row_of (ended trade closed_at_ms) w h =
      let is_set : (closed_at_ms == 0) ≡ false = ground arith in rw is_set refl
  record_materialized_trade-row_of (going trade) w h = refl

  -- Where closed trades have a time other than 0, recording closed and open trades of a wallet as they
  -- are reconstructed leads to the same totals, items included, as recording what is read back from the
  -- rows that are written for them, taken in the same order and with the values that were written.
  pub restore_trades-rows_of :
      (trades : List (WalletTrade D)) (w : ReconstructedWalletTrades D)
      → All IsDated trades
      → restore_trades (rows_of trades w) w ≡ record_trades trades w
  unfolding restore_trades rows_of record_trades
  restore_trades-rows_of [] w h = refl
  restore_trades-rows_of (t ∷ trades) w (h, hs) =
      ap (restore_trades (rows_of trades (record_trade t w)))
        (record_materialized_trade-row_of t w h)
      ∙ restore_trades-rows_of trades (record_trade t w) hs
