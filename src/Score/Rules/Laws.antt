-- ===== src/Score/Rules/Laws.antt =====
-- Scores are from 0 to 100, and worse measures have no better scores:
-- backend/app/services/wallet_score_service.py.
use copytrading_agent.Prelude.{◌≡◌, ◌∙◌, ap, sym, true, Option, none, some, arith}
use copytrading_agent.Decimal.{Decimal, IsOrdered, IsRounded, ◌⩽◌, ◌⊖◌, ◌⊗◌, ◌⊘◌}
use copytrading_agent.Score.Rules.{
  Quanta, IsQuantized, hundred, clamp_decimal, score_value, inverse_range_score,
}

module _ {D : Type 0} ⦃d : Decimal D⦄ where
  -- The value is a score.
  abbrev pub IsScore : D → Type 0
  IsScore score = ((d.nought ⩽ score) ≡ true) × ((score ⩽ hundred) ≡ true)

module _ {D : Type 0} ⦃d : Decimal D⦄ ⦃q : Quanta D⦄ (order : IsOrdered D) (rounded : IsRounded D)
    (quantized : IsQuantized D) where
  open order use {le_refl, le_trans, le_total}
  open rounded use {sub_mono, div_mono, mul_mono, of_int_nonneg}
  open quantized use {quantize_score_mono, quantize_score_int, of_int_nought, mul_comm}

  quantize_score-nought : q.quantize_score d.nought ≡ d.nought
  quantize_score-nought = cc (quantize_score_int 0, of_int_nought)

  pub nought-IsScore : IsScore d.nought
  nought-IsScore = (le_refl d.nought, of_int_nonneg 100)

  pub hundred-IsScore : IsScore {D = D} hundred
  hundred-IsScore = (of_int_nonneg 100, le_refl hundred)

  clamp_decimal-IsScore : (value : D) → IsScore (clamp_decimal value d.nought hundred)
  unfolding clamp_decimal
  clamp_decimal-IsScore value = ground (
    arith,
    le_refl d.nought,
    le_refl hundred,
    of_int_nonneg 100,
    le_total value hundred,
    le_total value d.nought,
    le_total hundred d.nought,
  )

  clamp_decimal_mono :
      (a b : D)
      → (a ⩽ b) ≡ true
      → (clamp_decimal a d.nought hundred ⩽ clamp_decimal b d.nought hundred) ≡ true
  unfolding clamp_decimal
  clamp_decimal_mono a b h = ground (
    arith,
    le_refl d.nought,
    le_refl hundred,
    of_int_nonneg 100,
    le_total a hundred,
    le_total b hundred,
    le_total a d.nought,
    le_total b d.nought,
    le_trans a b hundred,
    le_trans a b d.nought,
    le_trans d.nought a b,
    le_refl a,
    le_refl b,
    le_trans a hundred d.nought,
    le_trans d.nought hundred a,
  )

  pub score_value-IsScore : (value : D) → IsScore (score_value value)
  unfolding score_value
  score_value-IsScore value =
      let c = clamp_decimal value d.nought hundred in
      let k = clamp_decimal-IsScore value in
      let low = quantize_score_mono d.nought c k.0 in
      let high = quantize_score_mono c hundred k.1 in
      (
        ap (λ x. x ⩽ q.quantize_score c) (sym quantize_score-nought) ∙ low,
        ap (λ x. q.quantize_score c ⩽ x) (sym (quantize_score_int 100)) ∙ high,
      )

  pub score_value_mono : (a b : D) → (a ⩽ b) ≡ true → (score_value a ⩽ score_value b) ≡ true
  unfolding score_value
  score_value_mono a b h = quantize_score_mono _ _ (clamp_decimal_mono a b h)

  mul_mono_right : (a b c : D) → (a ⩽ b) ≡ true → (d.nought ⩽ c) ≡ true → (a ⊗ c ⩽ b ⊗ c) ≡ true
  mul_mono_right a b c h p =
      ap (λ x. x ⩽ b ⊗ c) (mul_comm a c) ∙ (ap (λ x. c ⊗ a ⩽ x) (mul_comm b c) ∙ mul_mono a b c h p)

  pub inverse_range_score-IsScore :
      (value : Option D) (full zero_at : D) → IsScore (inverse_range_score value full zero_at)
  unfolding inverse_range_score
  inverse_range_score-IsScore none full zero_at = nought-IsScore
  inverse_range_score-IsScore (some value) full zero_at = ground (
    arith,
    nought-IsScore,
    hundred-IsScore,
    score_value-IsScore ((zero_at ⊖ value) ⊘ (zero_at ⊖ full) ⊗ hundred),
  )

  -- Between the two limits of a rule, and beyond them, a greater measure has no greater score, whatever
  -- the limits are; every score is from 0 to 100.
  pub inverse_range_score_mono :
      (a b full zero_at : D)
      → (a ⩽ b) ≡ true
      → ((inverse_range_score (some b) full zero_at ⩽ inverse_range_score (some a) full zero_at)
          ≡ true)
        × IsScore (inverse_range_score (some a) full zero_at)
  unfolding inverse_range_score
  inverse_range_score_mono a b full zero_at h =
      let span = zero_at ⊖ full in
      let x = λ (v : D). score_value ((zero_at ⊖ v) ⊘ span ⊗ hundred) in
      let inside : (d.nought ⩽ span) ≡ true → (x b ⩽ x a) ≡ true = λ p. score_value_mono _ _ (
        mul_mono_right ((zero_at ⊖ b) ⊘ span) ((zero_at ⊖ a) ⊘ span) hundred
          (div_mono (zero_at ⊖ b) (zero_at ⊖ a) span (sub_mono a b zero_at h) p)
          (of_int_nonneg 100)) in
      (
        ground (
          arith,
          inside,
          le_total span d.nought,
          le_trans a b full,
          le_trans zero_at a b,
          le_refl hundred,
          le_refl d.nought,
          (hundred-IsScore).0,
          (score_value-IsScore ((zero_at ⊖ a) ⊘ span ⊗ hundred)).0,
          (score_value-IsScore ((zero_at ⊖ b) ⊘ span ⊗ hundred)).1,
        ),
        inverse_range_score-IsScore (some a) full zero_at,
      )
