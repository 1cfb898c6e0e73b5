-- ===== src/Source/Wallet/Totals.antt =====
-- What the totals of a wallet's trades keep:
-- backend/app/services/source_trade_reconstruction_service.py.
use copytrading_agent.Prelude.{
  ℕ, suc, String, ◌+◌, ◌≤◌, ◌≡◌, refl, true, none, some, List, [], ◌∷◌, ◌++◌, arith, length,
}
use copytrading_agent.Decimal.{Decimal, IsOrdered, IsRounded, ◌⩽◌, ◌⋖◌, ◌⊕◌, ◌⊖◌, max}
use copytrading_agent.Decimal.Order.{le_of_lt, le-max_left, le-max_right}
use copytrading_agent.Source.Trade.{
  OpenSourceTrade, ReconstructedSourceTrade, closed, still_open, net_pnl_usd,
  source_trade_from_open_trade,
}
use copytrading_agent.Source.Wallet.{
  ReconstructedWalletTrades, record_closed_trade, record_open_trade_item, record_open_trade,
  record_ignored_fill, IgnoredSourceFill, new_wallet_trades,
}

length-snoc {ℓ} : {A : Type ℓ} (xs : List A) (x : A) → length (xs ++ x ∷ []) ≡ suc (length xs)
length-snoc [] x = refl
length-snoc (y ∷ xs) x = omega (arith, length-snoc xs x)

module _ {D : Type 0} ⦃d : Decimal D⦄ where
  -- The totals agree with one another: every item is counted, no more trades are won and lost than
  -- are closed, each winner's profit is kept, profits and losses are not negative, the peak is at least
  -- the running total and 0, and the largest drawdown at least the present one.
  pub record IsSound (w : ReconstructedWalletTrades D) : Type 0 where
    pub counted : length w.items ≡ w.closed_trade_count + w.open_trade_count
    pub winners : length w.winning_trade_pnls ≡ w.winning_trade_count
    pub decided : w.winning_trade_count + w.losing_trade_count ≤ w.closed_trade_count
    pub recent : w.trades_24h ≤ w.closed_trade_count
    pub weekly : w.trades_7d ≤ w.closed_trade_count
    pub profit : (d.nought ⩽ w.gross_profit_usd) ≡ true
    pub loss : (d.nought ⩽ w.gross_loss_usd) ≡ true
    pub peak : (d.nought ⩽ w.peak_pnl_usd) ≡ true
    pub above : (w.cumulative_pnl_usd ⩽ w.peak_pnl_usd) ≡ true
    pub drawdown : (w.peak_pnl_usd ⊖ w.cumulative_pnl_usd ⩽ w.max_drawdown_usd) ≡ true

module _ {D : Type 0} ⦃d : Decimal D⦄ (order : IsOrdered D) (rounded : IsRounded D) where
  open order use {le_refl, le_trans, le_total}
  open rounded use {add_nonneg, nought-le-abs}

  pub record_open_trade_item-IsSound :
      (item : ReconstructedSourceTrade D) {w : ReconstructedWalletTrades D}
      → IsSound w
      → IsSound (record_open_trade_item item w)
  unfolding record_open_trade_item
  record_open_trade_item-IsSound item {w} s =
      let net = item.net_pnl_usd in
      let cumulative = w.cumulative_pnl_usd ⊕ net in
      let peak = max w.peak_pnl_usd cumulative in
      let profit = λ (h : (d.nought ⋖ net) ≡ true).
        add_nonneg w.gross_profit_usd net s.profit (le_of_lt order d.nought net h) in
      let loss = add_nonneg w.gross_loss_usd (d.copy_abs net) s.loss (nought-le-abs net) in
      let higher =
        le_trans d.nought w.peak_pnl_usd peak s.peak
          (le-max_left order w.peak_pnl_usd cumulative) in
      record {
        counted = ground (arith, length-snoc w.items item);
        winners = ground arith;
        decided = ground arith;
        recent = ground arith;
        weekly = ground arith;
        profit = ground (arith, profit);
        loss = ground (arith, loss);
        peak = ground (arith, higher);
        above = ground (arith, le-max_right order w.peak_pnl_usd cumulative);
        drawdown = ground (arith, le-max_right order w.max_drawdown_usd (peak ⊖ cumulative));
      }

  pub record_ignored_fill-IsSound :
      (fill : IgnoredSourceFill) {w : ReconstructedWalletTrades D}
      → IsSound w
      → IsSound (record_ignored_fill fill w)
  unfolding record_ignored_fill
  record_ignored_fill-IsSound fill {w} s = ground arith

  pub new_wallet_trades-IsSound :
      (wallet_address : String)
      → (d.nought ⊖ d.nought ⩽ d.nought) ≡ true
      → IsSound (new_wallet_trades {D = D} wallet_address)
  new_wallet_trades-IsSound wallet_address h = ground (arith, le_refl d.nought)

  pub record_closed_trade-IsSound :
      (trade : OpenSourceTrade D) (closed_at_ms start_24h_ms start_7d_ms : ℕ)
      {w : ReconstructedWalletTrades D}
      → IsSound w
      → IsSound (record_closed_trade trade closed_at_ms start_24h_ms start_7d_ms w)
  unfolding record_closed_trade
  record_closed_trade-IsSound trade closed_at_ms a b {w} s =
      let net = net_pnl_usd trade in
      let cumulative = w.cumulative_pnl_usd ⊕ net in
      let peak = max w.peak_pnl_usd cumulative in
      let profit = λ (h : (d.nought ⋖ net) ≡ true).
        add_nonneg w.gross_profit_usd net s.profit (le_of_lt order d.nought net h) in
      let loss = add_nonneg w.gross_loss_usd (d.copy_abs net) s.loss (nought-le-abs net) in
      let higher =
        le_trans d.nought w.peak_pnl_usd peak s.peak
          (le-max_left order w.peak_pnl_usd cumulative) in
      let item =
        source_trade_from_open_trade trade (suc w.closed_trade_count) closed (some closed_at_ms) in
      record {
        counted = ground (arith, length-snoc w.items item);
        winners = ground (arith, length-snoc w.winning_trade_pnls net);
        decided = ground arith;
        recent = ground arith;
        weekly = ground arith;
        profit = ground (arith, profit);
        loss = ground (arith, loss);
        peak = ground (arith, higher);
        above = ground (arith, le-max_right order w.peak_pnl_usd cumulative);
        drawdown = ground (arith, le-max_right order w.max_drawdown_usd (peak ⊖ cumulative));
      }

  pub record_open_trade-IsSound :
      (trade : OpenSourceTrade D) {w : ReconstructedWalletTrades D}
      → IsSound w
      → IsSound (record_open_trade trade w)
  unfolding record_open_trade
  record_open_trade-IsSound trade {w} s =
      record_open_trade_item-IsSound
        (source_trade_from_open_trade trade (suc (w.closed_trade_count + w.open_trade_count))
          still_open none)
        s
