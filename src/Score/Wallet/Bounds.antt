-- ===== src/Score/Wallet/Bounds.antt =====
-- A wallet's score keeps to its range and to its caps: backend/app/services/wallet_score_service.py.
use copytrading_agent.Prelude.{ℕ, ◌≡◌, true, Option, none, some, arith, ◌==◌, inl, inr, Bool-cases}
use copytrading_agent.Decimal.{Decimal, IsOrdered, IsRounded, ◌⩽◌}
use copytrading_agent.Score.Rules.{Quanta, IsQuantized, score_sample_cap}
use copytrading_agent.Score.Rules.Laws.{
  IsScore, nought-IsScore, score_value-IsScore, inverse_range_score-IsScore,
}
use copytrading_agent.Score.Wallet.{
  ScoreSettings, WalletScoreMetrics, ItemScores, capped, again, small_copy_score_cap,
  current_drawdown_score_cap, gross_less_penalty, calculate_wallet_score,
}

module _ {D : Type 0} ⦃d : Decimal D⦄ where
  -- A score that is not above a cap, if there is one.
  abbrev pub IsUnder : D → Option D → Type 0
  IsUnder score none = Unit
  IsUnder score (some cap) = (score ⩽ cap) ≡ true

  -- A cap, if there is one, is a score.
  abbrev IsCap : Option D → Type 0
  IsCap none = Unit
  IsCap (some cap) = IsScore cap

module _ {D : Type 0} ⦃d : Decimal D⦄ ⦃q : Quanta D⦄ (order : IsOrdered D) (rounded : IsRounded D)
    (quantized : IsQuantized D) where
  open order use {le_refl, le_trans, le_total}

  capped-IsUnder :
      (score : D) (cap : Option D)
      → IsScore score
      → IsCap cap
      → IsScore (capped score cap)
        × IsUnder (capped score cap) cap
        × ((capped score cap ⩽ score) ≡ true)
  capped-IsUnder score none s c = (s, tt, le_refl score)
  capped-IsUnder score (some cap) s c =
      let less = le_total score cap in
      (ground (arith, s, c), ground (arith, less, le_refl cap), ground (arith, less, le_refl score))

  IsUnder-less : (a b : D) (cap : Option D) → (a ⩽ b) ≡ true → IsUnder b cap → IsUnder a cap
  IsUnder-less a b none h u = tt
  IsUnder-less a b (some cap) h u = le_trans a b cap h u

  nought-IsUnder : (cap : Option D) → IsCap cap → IsUnder d.nought cap
  nought-IsUnder none c = tt
  nought-IsUnder (some cap) c = c.0

  drawdown-IsCap :
      (pct : Option D) (settings : ScoreSettings D)
      → IsCap (current_drawdown_score_cap pct settings)
  unfolding current_drawdown_score_cap
  drawdown-IsCap none settings = tt
  drawdown-IsCap (some pct) settings =
      elim (Bool-cases (pct ⩽ settings.scoring_current_drawdown_score_cap_start_ratio)) [
        | inl e ↦ rw e tt
        | inr e ↦ rw e (inverse_range_score-IsScore order rounded quantized _ _ _)
      ]

  small-IsCap :
      (ratio : Option D) (settings : ScoreSettings D) → IsCap (small_copy_score_cap ratio settings)
  unfolding small_copy_score_cap
  small-IsCap none settings = tt
  small-IsCap (some ratio) settings =
      elim (Bool-cases (settings.scoring_copyability_small_copy_min_ratio ⩽ d.nought)) [
        | inl e ↦ rw e tt
        | inr e ↦ elim (Bool-cases (settings.scoring_copyability_small_copy_min_ratio ⩽ ratio)) [
          | inl f ↦ rw (e, f) tt
          | inr f ↦ rw (e, f) (score_value-IsScore order rounded quantized _)
        ]
      ]

  again-IsCap : (cap : Option D) → IsCap (again cap)
  again-IsCap none = tt
  again-IsCap (some cap) = score_value-IsScore order rounded quantized cap

  gross-IsScore :
      (metrics : WalletScoreMetrics D) (items : ItemScores D) (settings : ScoreSettings D)
      (now_ms : ℕ)
      → IsScore (gross_less_penalty metrics items settings now_ms)
  unfolding gross_less_penalty
  gross-IsScore metrics items settings now_ms = score_value-IsScore order rounded quantized _

  -- Whatever the metrics and the settings are, a wallet's score is from 0 to 100, not above the cap
  -- of its current drawdown, not above the cap of small copies, and not above the cap of a small sample,
  -- where these caps apply.
  pub calculate_wallet_score_bounds :
      (metrics : WalletScoreMetrics D) (items : ItemScores D) (settings : ScoreSettings D)
      (now_ms : ℕ)
      → let score = calculate_wallet_score metrics items settings now_ms in
        IsScore score
        × IsUnder score (current_drawdown_score_cap metrics.current_drawdown_pct settings)
        × IsUnder score (small_copy_score_cap items.copy_size_ratio settings)
        × IsUnder score (
            again (
              score_sample_cap metrics.trade_count settings.scoring_min_trades
                settings.scoring_sample_cap_max_score))
  unfolding calculate_wallet_score
  calculate_wallet_score_bounds metrics items settings now_ms =
      let drawdown = current_drawdown_score_cap metrics.current_drawdown_pct settings in
      let small = small_copy_score_cap items.copy_size_ratio settings in
      let sample = again (
        score_sample_cap metrics.trade_count settings.scoring_min_trades
          settings.scoring_sample_cap_max_score) in
      let d_cap = drawdown-IsCap metrics.current_drawdown_pct settings in
      let s_cap = small-IsCap items.copy_size_ratio settings in
      let a_cap = again-IsCap (
        score_sample_cap metrics.trade_count settings.scoring_min_trades
          settings.scoring_sample_cap_max_score) in
      let first = capped-IsUnder _ drawdown (gross-IsScore metrics items settings now_ms) d_cap in
      let second = capped-IsUnder _ small first.0 s_cap in
      let third = capped-IsUnder _ sample second.0 a_cap in
      elim (Bool-cases (metrics.trade_count == 0)) [
        | inl e ↦ rw e (
          nought-IsScore order rounded quantized,
          nought-IsUnder drawdown d_cap,
          nought-IsUnder small s_cap,
          nought-IsUnder sample a_cap,
        )
        | inr e ↦ rw e (
          third.0,
          IsUnder-less _ _ drawdown (le_trans _ _ _ third.2 second.2) first.1,
          IsUnder-less _ _ small third.2 second.1,
          third.1,
        )
      ]
