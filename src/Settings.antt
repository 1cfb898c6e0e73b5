-- ===== src/Settings.antt =====
-- The fields of `Settings` (backend/app/core/config.py) that the modelled code reads.
use copytrading_agent.Prelude.{ℕ, Bool}

pub record Settings (D : Type 0) : Type 0 where
  pub trading_copy_min_order_notional_usd : D
  pub trading_copy_min_order_round_up_ratio : D
  pub trading_copy_max_source_exposure_multiple : D
  pub trading_copy_max_total_exposure_multiple : D
  pub trading_copy_max_total_allocation_pct : D
  pub trading_copy_top_wallet_count : ℕ
  pub trading_copy_max_price_drift_bps : D
  pub trading_copy_use_live_mid_price : Bool
  pub trading_copy_max_entry_age_seconds : ℕ
  pub paper_copy_slippage_bps : D
  pub paper_copy_latency_ms : ℕ
  pub paper_copy_loss_limits_enabled : Bool
  pub live_trading_max_source_loss_pct : D
  pub live_trading_max_daily_loss_pct : D
  pub live_trading_max_weekly_loss_pct : D
  pub live_trading_max_drawdown_pct : D
