-- ===== src/Examples/Score.antt =====
-- The score of a wallet (backend/app/services/wallet_score_service.py) at concrete metrics.
use native.Mathlib.Nat.{mul_comm}
use copytrading_agent.Prelude.{◌+◌, ◌*◌, ◌≡◌, refl, true, false, some, arith}
use copytrading_agent.Prelude.Int.{ℤ, pos, pos_part, neg_part, sub_ℕ, ◌*ℤ◌}
use copytrading_agent.Decimal.{◌⩽◌}
use copytrading_agent.Decimal.Units.{units_decimal, units-IsOrdered, units-IsRounded}
use copytrading_agent.Score.Rules.{Quanta, IsQuantized, inverse_range_score, score_sample_cap}
use copytrading_agent.Score.Rules.Laws.{IsScore, inverse_range_score_mono}
use copytrading_agent.Score.Wallet.{
  ScoreSettings, WalletScoreMetrics, ItemScores, calculate_wallet_score, current_drawdown_score_cap,
  small_copy_score_cap, again,
}
use copytrading_agent.Score.Wallet.Bounds.{IsUnder, calculate_wallet_score_bounds}

-- Whole units are rounded already.
instance abbrev units_quanta : Quanta ℤ
units_quanta = record { quantize_score = λ a. a; quantize_ratio = λ a. a }

mul_comm_units : (a b : ℤ) → a *ℤ b ≡ b *ℤ a
unfolding ◌*ℤ◌
mul_comm_units a b =
    let plus : pos_part a * pos_part b + neg_part a * neg_part b
        ≡ pos_part b * pos_part a + neg_part b * neg_part a =
      omega (arith, mul_comm (pos_part a) (pos_part b), mul_comm (neg_part a) (neg_part b)) in
    let minus : pos_part a * neg_part b + neg_part a * pos_part b
        ≡ pos_part b * neg_part a + neg_part b * pos_part a =
      omega (arith, mul_comm (pos_part a) (neg_part b), mul_comm (neg_part a) (pos_part b)) in
    λ i. sub_ℕ (plus i) (minus i)

units-IsQuantized : IsQuantized ℤ
units-IsQuantized = record {
  quantize_score_mono = λ a b h. h;
  quantize_score_int = λ n. refl;
  of_int_nought = refl;
  mul_comm = mul_comm_units;
}

inverse_range_score_mono_example :
    ((inverse_range_score (some (pos 6)) (pos 2) (pos 10)
        ⩽ inverse_range_score (some (pos 4)) (pos 2) (pos 10))
      ≡ true)
    × IsScore (inverse_range_score (some (pos 4)) (pos 2) (pos 10))
inverse_range_score_mono_example =
    inverse_range_score_mono units-IsOrdered units-IsRounded units-IsQuantized (pos 4) (pos 6)
      (pos 2) (pos 10) refl

-- Ratios are in percent here, where the program has shares of 1.
abbrev settings : ScoreSettings ℤ
settings = record {
  scoring_min_trades = 20;
  scoring_stale_days = 7;
  scoring_window_days = 30;
  scoring_sample_cap_max_score = pos 45;
  scoring_shrinkage_full_credibility_trades = 1;
  scoring_shrinkage_neutral_score = pos 50;
  scoring_weight_pnl = pos 3;
  scoring_weight_consistency = pos 2;
  scoring_weight_risk = pos 2;
  scoring_weight_copyability = pos 2;
  scoring_weight_recency = pos 1;
  scoring_current_drawdown_missing_penalty = pos 10;
  scoring_current_drawdown_score_cap_start_ratio = pos 20;
  scoring_current_drawdown_score_cap_zero_ratio = pos 60;
  scoring_copyability_small_copy_min_ratio = pos 50;
  scoring_copyability_small_copy_max_score = pos 40;
  scoring_penalty_no_closed_trades = pos 100;
  scoring_penalty_low_sample_max = pos 20;
  scoring_penalty_negative_pnl_max = pos 20;
  scoring_penalty_stale_recency = pos 20;
  scoring_penalty_open_only = pos 20;
  scoring_profitability_roi_full_score_at = pos 5;
  scoring_window_score_activity_trade_cap = 10;
  scoring_window_score_weight_profitability = pos 7;
  scoring_window_score_weight_activity = pos 3;
  scoring_consistency_profit_distribution_full_score_ratio = pos 1;
  scoring_consistency_largest_win_full_score_at_or_below = pos 15;
  scoring_consistency_largest_win_zero_score_at_or_above = pos 60;
  scoring_consistency_trade_roi_stddev_full_score_at_or_below = pos 5;
  scoring_consistency_trade_roi_stddev_zero_score_at_or_above = pos 30;
  scoring_consistency_downside_stddev_full_score_at_or_below = pos 5;
  scoring_consistency_downside_stddev_zero_score_at_or_above = pos 30;
  scoring_consistency_active_day_full_score_ratio = pos 1;
  scoring_consistency_max_inactive_gap_full_score_days = 2;
  scoring_consistency_max_inactive_gap_zero_score_days = 10;
  scoring_consistency_weight_profit_distribution = pos 1;
  scoring_consistency_weight_largest_win_dependency = pos 1;
  scoring_consistency_weight_trade_roi_stability = pos 1;
  scoring_consistency_weight_downside_stability = pos 1;
  scoring_consistency_weight_active_day_regularity = pos 1;
  scoring_consistency_weight_max_inactive_gap = pos 1;
}

abbrev metrics : WalletScoreMetrics ℤ
metrics = record {
  trade_count = 12;
  open_trade_count = 1;
  active_days = 20;
  net_pnl_usd = pos 900;
  gross_profit_usd = pos 1200;
  profitable_trade_count = 8;
  effective_winning_trade_count = some (pos 6);
  largest_win_profit_share = some (pos 30);
  trade_roi_stddev = some (pos 10);
  downside_trade_roi_stddev = some (pos 8);
  max_inactive_gap_days = some 3;
  last_trade_time_ms = some 1_000;
  current_drawdown_pct = some (pos 30);
  is_drawdown_missing = false;
}

abbrev items : ItemScores ℤ
items = record {
  profitability = pos 80;
  risk = pos 70;
  copyability = pos 90;
  copy_size_ratio = some (pos 40);
}

calculate_wallet_score_bounds_example :
    let score = calculate_wallet_score metrics items settings 2_000 in
    IsScore score
    × IsUnder score (current_drawdown_score_cap metrics.current_drawdown_pct settings)
    × IsUnder score (small_copy_score_cap items.copy_size_ratio settings)
    × IsUnder score (
        again (
          score_sample_cap metrics.trade_count settings.scoring_min_trades
            settings.scoring_sample_cap_max_score))
calculate_wallet_score_bounds_example =
    calculate_wallet_score_bounds units-IsOrdered units-IsRounded units-IsQuantized metrics items
      settings 2_000
