-- ===== src/Score/Rules.antt =====
-- The rules that turn a measure into a score from 0 to 100:
-- backend/app/services/wallet_score_service.py. No measure is NaN here.
pub mod Laws
use copytrading_agent.Prelude.{
  ℕ, ◌-◌, ◌≤◌, ◌≡◌, Bool, true, false, Option, none, some, List, [], ◌∷◌, leb, ltb, ◌==◌,
  if◌then◌else◌,
}
use copytrading_agent.Decimal.{Decimal, ◌⩽◌, ◌⋖◌, ◌⊕◌, ◌⊖◌, ◌⊗◌, ◌⊘◌}

-- `value.quantize(SCORE_QUANT)` and `value.quantize(RATIO_QUANT)` of the standard library.
pub record Quanta (D : Type 0) : Type 0 where
  pub quantize_score : D → D
  pub quantize_ratio : D → D

-- Rounding to two places keeps the order and the whole numbers; a product does not depend on the order
-- of its factors.
pub record IsQuantized (D : Type 0) ⦃d : Decimal D⦄ ⦃q : Quanta D⦄ : Type 0 where
  pub quantize_score_mono :
      (a b : D) → d.le a b ≡ true → d.le (q.quantize_score a) (q.quantize_score b) ≡ true
  pub quantize_score_int : (n : ℕ) → q.quantize_score (d.of_int n) ≡ d.of_int n
  pub of_int_nought : d.of_int 0 ≡ d.nought
  pub mul_comm : (a b : D) → d.mul a b ≡ d.mul b a

module _ {D : Type 0} ⦃d : Decimal D⦄ where
  abbrev pub hundred : D
  hundred = d.of_int 100

  -- `left if left <= right else right`
  abbrev pub min_decimal : D → D → D
  min_decimal left right = if left ⩽ right then left else right

  abbrev pub max_decimal : D → D → D
  max_decimal left right = if right ⩽ left then left else right

  unfoldable pub clamp_decimal : D → D → D → D
  clamp_decimal value low high = max_decimal low (min_decimal value high)

  -- `sum(values, total)`
  abbrev pub sum_from : D → List D → D
  sum_from total [] = total
  sum_from total (v ∷ rest) = sum_from (total ⊕ v) rest

  -- The scores times their weights, and the weights.
  abbrev pub weighted : List (D × D) → List D
  weighted [] = []
  weighted ((score, weight) ∷ rest) = (score ⊗ weight) ∷ weighted rest

  abbrev pub weights : List (D × D) → List D
  weights [] = []
  weights ((score, weight) ∷ rest) = weight ∷ weights rest

  unfoldable pub score_group_weight_sum : List D → D
  score_group_weight_sum values =
      let weight_sum = sum_from d.nought values in
      if weight_sum ⩽ d.nought then d.one else weight_sum

  -- Zero up to `start`, linear to `maximum` at `full`, flat above.
  unfoldable pub ramp_penalty : Option D → D → D → D → D
  ramp_penalty none start full maximum = d.nought
  ramp_penalty (some value) start full maximum =
      if value ⩽ start
      then d.nought
      else if full ⩽ value
      then maximum
      else if full ⩽ start
      then maximum
      else (value ⊖ start) ⊘ (full ⊖ start) ⊗ maximum

module _ {D : Type 0} ⦃d : Decimal D⦄ ⦃q : Quanta D⦄ where
  unfoldable pub score_value : D → D
  unfolding clamp_decimal
  score_value value = q.quantize_score (clamp_decimal value d.nought hundred)

  unfoldable pub inverse_range_score : Option D → D → D → D
  inverse_range_score none full_score_at_or_below zero_score_at_or_above = d.nought
  inverse_range_score (some value) full_score_at_or_below zero_score_at_or_above =
      let span = zero_score_at_or_above ⊖ full_score_at_or_below in
      if value ⩽ full_score_at_or_below
      then hundred
      else if zero_score_at_or_above ⩽ value
      then d.nought
      else if span ⩽ d.nought
      then d.nought
      else score_value ((zero_score_at_or_above ⊖ value) ⊘ span ⊗ hundred)

  unfoldable pub weighted_score : List (D × D) → D
  unfolding score_group_weight_sum
  weighted_score items =
      score_value (sum_from d.nought (weighted items) ⊘ score_group_weight_sum (weights items))

  unfoldable pub profitability_ratio_score : D → D → D
  profitability_ratio_score value full_gain =
      if value ⩽ d.nought
      then d.nought
      else if full_gain ⩽ d.nought
      then d.nought
      else score_value (min_decimal (value ⊘ full_gain) d.one ⊗ hundred)

  -- From the notional of a copy, the multiple of the minimum order at which it is full, and that.
  unfoldable pub copy_notional_score : Option D → D → D → D
  copy_notional_score none full_multiple min_order_usd = d.nought
  copy_notional_score (some copy_notional_usd) full_multiple min_order_usd =
      let target = min_order_usd ⊗ full_multiple in
      if copy_notional_usd ⩽ d.nought
      then d.nought
      else if target ⩽ d.nought
      then hundred
      else score_value (min_decimal (copy_notional_usd ⊘ target) d.one ⊗ hundred)

  unfoldable pub score_sample_cap : ℕ → ℕ → D → Option D
  score_sample_cap trade_count min_trades max_score =
      let min_trade_count = if leb min_trades 1 then 1 else min_trades in
      if leb min_trades trade_count
      then none
      else some (score_value (d.of_int trade_count ⊘ d.of_int min_trade_count ⊗ max_score))

  -- The time is `timestamp_ms(now)`.
  unfoldable pub calculate_recency_score : Option ℕ → ℕ → ℕ → D
  calculate_recency_score none now_ms stale_days = d.nought
  calculate_recency_score (some last_fill_time_ms) now_ms stale_days =
      let age_days = d.of_int (now_ms - last_fill_time_ms) ⊘ d.of_int 86_400_000 in
      let stale_day_count = if leb stale_days 1 then 1 else stale_days in
      score_value (hundred ⊖ age_days ⊘ d.of_int stale_day_count ⊗ hundred)

  unfoldable pub calculate_profit_factor : D → D → Option D
  calculate_profit_factor gross_profit_usd gross_loss_usd =
      if gross_loss_usd ⩽ d.nought
      then if gross_profit_usd ⩽ d.nought then none else some (d.of_int 999)
      else some (gross_profit_usd ⊘ gross_loss_usd)
