-- ===== src/Score/Wallet.antt =====
-- The score of a wallet from its component scores: backend/app/services/wallet_score_service.py. The
-- scores of profitability, risk and copyability, before they are shrunk, are arguments.
pub mod Bounds
use copytrading_agent.Prelude.{
  ℕ, ◌-◌, ◌+◌, Bool, true, false, Option, none, some, List, [], ◌∷◌, leb, ltb, ◌==◌, if◌then◌else◌,
}
use copytrading_agent.Decimal.{Decimal, ◌⩽◌, ◌⋖◌, ◌⊕◌, ◌⊖◌, ◌⊗◌, ◌⊘◌}
use copytrading_agent.Score.Rules.{
  Quanta, hundred, min_decimal, score_value, inverse_range_score, weighted_score,
  profitability_ratio_score, score_sample_cap, calculate_recency_score, ramp_penalty, sum_from,
}

pub record ScoreSettings (D : Type 0) : Type 0 where
  pub scoring_min_trades : ℕ
  pub scoring_stale_days : ℕ
  pub scoring_window_days : ℕ
  pub scoring_sample_cap_max_score : D
  pub scoring_shrinkage_full_credibility_trades : ℕ
  pub scoring_shrinkage_neutral_score : D
  pub scoring_weight_pnl : D
  pub scoring_weight_consistency : D
  pub scoring_weight_risk : D
  pub scoring_weight_copyability : D
  pub scoring_weight_recency : D
  pub scoring_current_drawdown_missing_penalty : D
  pub scoring_current_drawdown_score_cap_start_ratio : D
  pub scoring_current_drawdown_score_cap_zero_ratio : D
  pub scoring_copyability_small_copy_min_ratio : D
  pub scoring_copyability_small_copy_max_score : D
  pub scoring_penalty_no_closed_trades : D
  pub scoring_penalty_low_sample_max : D
  pub scoring_penalty_negative_pnl_max : D
  pub scoring_penalty_stale_recency : D
  pub scoring_penalty_open_only : D
  pub scoring_profitability_roi_full_score_at : D
  pub scoring_window_score_activity_trade_cap : ℕ
  pub scoring_window_score_weight_profitability : D
  pub scoring_window_score_weight_activity : D
  pub scoring_consistency_profit_distribution_full_score_ratio : D
  pub scoring_consistency_largest_win_full_score_at_or_below : D
  pub scoring_consistency_largest_win_zero_score_at_or_above : D
  pub scoring_consistency_trade_roi_stddev_full_score_at_or_below : D
  pub scoring_consistency_trade_roi_stddev_zero_score_at_or_above : D
  pub scoring_consistency_downside_stddev_full_score_at_or_below : D
  pub scoring_consistency_downside_stddev_zero_score_at_or_above : D
  pub scoring_consistency_active_day_full_score_ratio : D
  pub scoring_consistency_max_inactive_gap_full_score_days : ℕ
  pub scoring_consistency_max_inactive_gap_zero_score_days : ℕ
  pub scoring_consistency_weight_profit_distribution : D
  pub scoring_consistency_weight_largest_win_dependency : D
  pub scoring_consistency_weight_trade_roi_stability : D
  pub scoring_consistency_weight_downside_stability : D
  pub scoring_consistency_weight_active_day_regularity : D
  pub scoring_consistency_weight_max_inactive_gap : D

-- The metrics that are read here. `is_drawdown_missing` is
-- `current_drawdown_status in {"unavailable", "zero_equity"}`.
pub record WalletScoreMetrics (D : Type 0) : Type 0 where
  pub trade_count : ℕ
  pub open_trade_count : ℕ
  pub active_days : ℕ
  pub net_pnl_usd : D
  pub gross_profit_usd : D
  pub profitable_trade_count : ℕ
  pub effective_winning_trade_count : Option D
  pub largest_win_profit_share : Option D
  pub trade_roi_stddev : Option D
  pub downside_trade_roi_stddev : Option D
  pub max_inactive_gap_days : Option ℕ
  pub last_trade_time_ms : Option ℕ
  pub current_drawdown_pct : Option D
  pub is_drawdown_missing : Bool

-- What the lists of detail items come to, and the ratio of the copy size.
pub record ItemScores (D : Type 0) : Type 0 where
  pub profitability : D
  pub risk : D
  pub copyability : D
  pub copy_size_ratio : Option D

module _ {D : Type 0} ⦃d : Decimal D⦄ ⦃q : Quanta D⦄ where
  unfoldable pub sample_credibility : ℕ → ScoreSettings D → D
  sample_credibility trade_count settings =
      let n = settings.scoring_shrinkage_full_credibility_trades in
      let full_trades = if leb n 1 then 1 else n in
      q.quantize_ratio (min_decimal (d.of_int trade_count ⊘ d.of_int full_trades) d.one)

  unfoldable pub shrink_score : D → D → ScoreSettings D → D
  shrink_score score credibility settings =
      let neutral = settings.scoring_shrinkage_neutral_score in
      score_value (neutral ⊕ credibility ⊗ (score ⊖ neutral))

  unfoldable pub small_copy_score_cap : Option D → ScoreSettings D → Option D
  small_copy_score_cap none settings = none
  small_copy_score_cap (some copy_size_ratio) settings =
      let min_ratio = settings.scoring_copyability_small_copy_min_ratio in
      if min_ratio ⩽ d.nought
      then none
      else if min_ratio ⩽ copy_size_ratio
      then none
      else some (
          score_value
            (copy_size_ratio ⊘ min_ratio ⊗ settings.scoring_copyability_small_copy_max_score))

  unfoldable pub current_drawdown_score_cap : Option D → ScoreSettings D → Option D
  current_drawdown_score_cap none settings = none
  current_drawdown_score_cap (some current_drawdown_pct) settings =
      if current_drawdown_pct ⩽ settings.scoring_current_drawdown_score_cap_start_ratio
      then none
      else some (
          inverse_range_score (some current_drawdown_pct)
            settings.scoring_current_drawdown_score_cap_start_ratio
            settings.scoring_current_drawdown_score_cap_zero_ratio)

  abbrev pub distribution_of : Option D → ℕ → Option D
  distribution_of none profitable_trade_count = none
  distribution_of (some effective) profitable_trade_count =
      if effective ⩽ d.nought
      then none
      else if profitable_trade_count == 0
      then none
      else some (min_decimal (effective ⊘ d.of_int profitable_trade_count) d.one)

  unfoldable pub profit_distribution_ratio : WalletScoreMetrics D → Option D
  profit_distribution_ratio metrics =
      distribution_of metrics.effective_winning_trade_count metrics.profitable_trade_count

  unfoldable pub profit_distribution_consistency_score : Option D → ScoreSettings D → D
  profit_distribution_consistency_score none settings = d.nought
  profit_distribution_consistency_score (some distribution_ratio) settings =
      if distribution_ratio ⩽ d.nought
      then d.nought
      else score_value (
          min_decimal
            (distribution_ratio ⊘ settings.scoring_consistency_profit_distribution_full_score_ratio)
            d.one
          ⊗ hundred)

  unfoldable pub active_day_regularity_score : WalletScoreMetrics D → ScoreSettings D → D
  active_day_regularity_score metrics settings =
      let window_days =
        if leb settings.scoring_window_days 1 then 1 else settings.scoring_window_days in
      let active_day_ratio =
        min_decimal (d.of_int metrics.active_days ⊘ d.of_int window_days) d.one in
      score_value (
        min_decimal (active_day_ratio ⊘ settings.scoring_consistency_active_day_full_score_ratio)
          d.one
        ⊗ hundred)

  unfoldable pub max_inactive_gap_score : Option ℕ → ScoreSettings D → D
  max_inactive_gap_score none settings = d.nought
  max_inactive_gap_score (some max_inactive_gap_days) settings =
      inverse_range_score (some (d.of_int max_inactive_gap_days))
        (d.of_int settings.scoring_consistency_max_inactive_gap_full_score_days)
        (d.of_int settings.scoring_consistency_max_inactive_gap_zero_score_days)

  unfoldable pub calculate_consistency_score : WalletScoreMetrics D → ScoreSettings D → D
  calculate_consistency_score metrics settings = weighted_score (
      (
        profit_distribution_consistency_score (profit_distribution_ratio metrics) settings,
        settings.scoring_consistency_weight_profit_distribution,
      )
      ∷ (
        inverse_range_score metrics.largest_win_profit_share
            settings.scoring_consistency_largest_win_full_score_at_or_below
            settings.scoring_consistency_largest_win_zero_score_at_or_above,
        settings.scoring_consistency_weight_largest_win_dependency,
      )
      ∷ (
        inverse_range_score metrics.trade_roi_stddev
            settings.scoring_consistency_trade_roi_stddev_full_score_at_or_below
            settings.scoring_consistency_trade_roi_stddev_zero_score_at_or_above,
        settings.scoring_consistency_weight_trade_roi_stability,
      )
      ∷ (
        inverse_range_score metrics.downside_trade_roi_stddev
            settings.scoring_consistency_downside_stddev_full_score_at_or_below
            settings.scoring_consistency_downside_stddev_zero_score_at_or_above,
        settings.scoring_consistency_weight_downside_stability,
      )
      ∷ (
        active_day_regularity_score metrics settings,
        settings.scoring_consistency_weight_active_day_regularity,
      )
      ∷ (
        max_inactive_gap_score metrics.max_inactive_gap_days settings,
        settings.scoring_consistency_weight_max_inactive_gap,
      )
      ∷ [])

  unfoldable pub calculate_pnl_score : D → D → ScoreSettings D → D
  calculate_pnl_score net_pnl_usd notional_usd settings =
      let roi = if notional_usd ⩽ d.nought then d.nought else net_pnl_usd ⊘ notional_usd in
      profitability_ratio_score roi settings.scoring_profitability_roi_full_score_at

  unfoldable pub calculate_window_score : ℕ → D → D → ScoreSettings D → D
  calculate_window_score trades net_pnl_usd notional_usd settings =
      let n = settings.scoring_window_score_activity_trade_cap in
      let activity_cap = if leb n 1 then 1 else n in
      let counted = if leb trades activity_cap then trades else activity_cap in
      let activity_score = score_value (d.of_int counted ⊘ d.of_int activity_cap ⊗ hundred) in
      if trades == 0
      then d.nought
      else weighted_score (
          (
            calculate_pnl_score net_pnl_usd notional_usd settings,
            settings.scoring_window_score_weight_profitability,
          )
          ∷ (activity_score, settings.scoring_window_score_weight_activity)
          ∷ [])

  abbrev pub low_sample_penalty : ℕ → ℕ → ScoreSettings D → D
  low_sample_penalty trade_count min_trades settings =
      if ltb trade_count min_trades
      then d.of_int (min_trades - trade_count)
        ⊘ d.of_int min_trades
        ⊗ settings.scoring_penalty_low_sample_max
      else d.nought

  abbrev pub negative_pnl_penalty : WalletScoreMetrics D → ScoreSettings D → D
  negative_pnl_penalty metrics settings =
      let loss = d.copy_abs metrics.net_pnl_usd in
      let loss_base = loss ⊕ metrics.gross_profit_usd ⊕ d.one in
      if metrics.net_pnl_usd ⋖ d.nought
      then min_decimal (loss ⊘ loss_base ⊗ settings.scoring_penalty_negative_pnl_max)
          settings.scoring_penalty_negative_pnl_max
      else d.nought

  -- The values of the items.
  unfoldable pub calculate_penalty_items : WalletScoreMetrics D → ℕ → D → ScoreSettings D → List D
  calculate_penalty_items metrics min_trades recency_score settings =
      if metrics.trade_count == 0
      then score_value settings.scoring_penalty_no_closed_trades ∷ []
      else score_value (low_sample_penalty metrics.trade_count min_trades settings)
        ∷ score_value (
            if metrics.is_drawdown_missing
            then settings.scoring_current_drawdown_missing_penalty
            else d.nought)
        ∷ score_value (negative_pnl_penalty metrics settings)
        ∷ score_value
            (if recency_score ⩽ d.nought then settings.scoring_penalty_stale_recency else d.nought)
        ∷ score_value d.nought
        ∷ []

  unfoldable pub calculate_penalty_score : WalletScoreMetrics D → ℕ → D → ScoreSettings D → D
  calculate_penalty_score metrics min_trades recency_score settings =
      score_value
        (sum_from d.nought (calculate_penalty_items metrics min_trades recency_score settings))

  abbrev pub capped : D → Option D → D
  capped score none = score
  capped score (some cap) = min_decimal score cap

  -- `score_value(sample_cap or ZERO)`, only where the sample is small.
  abbrev pub again : Option D → Option D
  again none = none
  again (some cap) = some (score_value cap)

  unfoldable pub score_weight_sum : ScoreSettings D → D
  score_weight_sum settings =
      let weight_sum =
        settings.scoring_weight_pnl ⊕ settings.scoring_weight_consistency
        ⊕ settings.scoring_weight_risk ⊕ settings.scoring_weight_copyability
        ⊕ settings.scoring_weight_recency in
      if weight_sum ⩽ d.nought then d.one else weight_sum

  -- `final_score` before its caps.
  unfoldable pub gross_less_penalty : WalletScoreMetrics D → ItemScores D → ScoreSettings D → ℕ → D
  gross_less_penalty metrics items settings now_ms =
      let credibility = sample_credibility metrics.trade_count settings in
      let recency =
        calculate_recency_score metrics.last_trade_time_ms now_ms settings.scoring_stale_days in
      let gross =
        (shrink_score items.profitability credibility settings ⊗ settings.scoring_weight_pnl
          ⊕ shrink_score (calculate_consistency_score metrics settings) credibility settings
            ⊗ settings.scoring_weight_consistency
          ⊕ shrink_score items.risk credibility settings ⊗ settings.scoring_weight_risk
          ⊕ items.copyability ⊗ settings.scoring_weight_copyability
          ⊕ recency ⊗ settings.scoring_weight_recency)
        ⊘ score_weight_sum settings in
      score_value
        (gross ⊖ calculate_penalty_score metrics settings.scoring_min_trades recency settings)

  -- The field `score`.
  unfoldable pub calculate_wallet_score :
      WalletScoreMetrics D → ItemScores D → ScoreSettings D → ℕ → D
  calculate_wallet_score metrics items settings now_ms =
      let live =
        capped (gross_less_penalty metrics items settings now_ms)
          (current_drawdown_score_cap metrics.current_drawdown_pct settings) in
      let copied = capped live (small_copy_score_cap items.copy_size_ratio settings) in
      if metrics.trade_count == 0
      then d.nought
      else capped copied (
          again (
            score_sample_cap metrics.trade_count settings.scoring_min_trades
              settings.scoring_sample_cap_max_score))
