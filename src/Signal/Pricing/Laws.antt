-- ===== src/Signal/Pricing/Laws.antt =====
-- What the price of a copy promises (backend/app/services/copy_signal_service.py).
use mathlib.Core.Path.{subst}
use copytrading_agent.Prelude.{
  ℕ, ◌+◌, ◌*◌, ◌<◌, Bool, true, false, ◌≡◌, ◌↔◌, ◌⊎◌, ◌∙◌, inl, inr, refl, sym, ap, Option, some,
  arith, get_or, Bool-cases,
}
use copytrading_agent.Decimal.{
  Decimal, IsOrdered, IsRounded, IsExact, ◌⩽◌, ◌⋖◌, ◌⊕◌, ◌⊖◌, ◌⊗◌, ◌⊘◌, max,
}
use copytrading_agent.Decimal.Order.{le_of_lt, le-max_right}
use copytrading_agent.Settings.{Settings}
use copytrading_agent.Trade.{TradeAction, TradeSide, long, short, is_entry}
use copytrading_agent.Signal.Parts.{SourceFill, SourceFillPart, lookup}
use copytrading_agent.Signal.Pricing.{
  ExecutionContext, ExecutionMarketPrices, is_buy_execution, apply_adverse_slippage,
  adverse_price_drift_bps, build_execution_context, bps_denominator,
  source_fill_age_exceeds_entry_limit, Moment,
}

TradeSide-cases : (side : TradeSide) → (side ≡ long) ⊎ (side ≡ short)
TradeSide-cases long = inl refl
TradeSide-cases short = inr refl

module _ {D : Type 0} ⦃d : Decimal D⦄ where
  -- The prices of a context can be divided by and traded at.
  pub record IsPriced (c : ExecutionContext D) : Type 0 where
    pub source : (d.nought ⋖ c.source_price) ≡ true
    pub observed : (d.nought ⋖ c.observed_price) ≡ true
    pub execution : (d.nought ⋖ c.execution_price) ≡ true

  -- The execution price is no better for the copier than the observed one: an entry of a long and an
  -- exit of a short buy, the others sell.
  abbrev pub IsAgainst : TradeSide → Bool → D → D → Type 0
  IsAgainst long true observed execution = (observed ⩽ execution) ≡ true
  IsAgainst long false observed execution = (execution ⩽ observed) ≡ true
  IsAgainst short true observed execution = (execution ⩽ observed) ≡ true
  IsAgainst short false observed execution = (observed ⩽ execution) ≡ true

module _ {D : Type 0} ⦃d : Decimal D⦄ (order : IsOrdered D) (rounded : IsRounded D) where
  open order use {le_refl, le_trans, le_total}
  open rounded use {
    of_int_nonneg, add_mono, sub_mono, mul_mono, div_mono, sub_nonpos, sub_nonneg, negate_nonpos,
    div_nonneg, mul_nonneg, div_nonpos, mul_nonpos,
  }

  -- Slippage only ever costs: with more of it a buy is priced no lower and a sell no higher.
  pub apply_adverse_slippage_mono :
      (price slippage more : D) (side : TradeSide) (action : TradeAction)
      → (d.nought ⩽ price) ≡ true
      → (slippage ⩽ more) ≡ true
      → let cheap = apply_adverse_slippage price side action slippage in
        let dear = apply_adverse_slippage price side action more in
        (is_buy_execution side action ≡ true → (cheap ⩽ dear) ≡ true)
        × (is_buy_execution side action ≡ false → (dear ⩽ cheap) ≡ true)
  unfolding apply_adverse_slippage
  apply_adverse_slippage_mono price slippage more side action p h =
      let a = slippage ⊘ bps_denominator in
      let b = more ⊘ bps_denominator in
      let kept = d.one ⊖ a in
      let less = d.one ⊖ b in
      ground (
        arith,
        div_mono slippage more bps_denominator h (of_int_nonneg 10_000),
        add_mono a b d.one,
        sub_mono a b d.one,
        le_trans d.nought less kept,
        le_refl d.nought,
        mul_mono (d.one ⊕ a) (d.one ⊕ b) price,
        mul_mono (max less d.nought) (max kept d.nought) price,
      )

  -- The drift is never negative, and a market that moved in the copier's favour has drift 0 or less.
  pub adverse_price_drift_bps_bounds :
      (source observed : D) (side : TradeSide) (action : TradeAction)
      → let drift = adverse_price_drift_bps source observed side action in
        ((d.nought ⩽ drift) ≡ true)
        × (is_buy_execution side action ≡ true
            → (observed ⩽ source) ≡ true
            → (drift ⩽ d.nought) ≡ true)
        × (is_buy_execution side action ≡ false
            → (source ⩽ observed) ≡ true
            → (drift ⩽ d.nought) ≡ true)
  unfolding adverse_price_drift_bps
  adverse_price_drift_bps_bounds source observed side action =
      let drift = observed ⊖ source in
      let bought = max drift d.nought in
      let sold = max (d.negate drift) d.nought in
      ground (
        arith,
        le_refl d.nought,
        le_of_lt order d.nought source,
        le-max_right order drift d.nought,
        le-max_right order (d.negate drift) d.nought,
        sub_nonpos observed source,
        sub_nonneg observed source,
        negate_nonpos drift,
        div_nonneg bought source,
        div_nonneg sold source,
        div_nonpos bought source,
        div_nonpos sold source,
        of_int_nonneg 10_000,
        mul_nonneg (bought ⊘ source) bps_denominator,
        mul_nonneg (sold ⊘ source) bps_denominator,
        mul_nonpos (bought ⊘ source) bps_denominator,
        mul_nonpos (sold ⊘ source) bps_denominator,
      )

-- An entry is too old exactly when the limit is on, the fill has a time, and more than the limit has
-- passed since; a fill from the future is never too old.
pub source_fill_age_exceeds_entry_limit_iff :
    {D : Type 0} (fill : SourceFill) (settings : Settings D) (now : Moment)
    → (source_fill_age_exceeds_entry_limit fill settings now ≡ true) ↔ (
        (0 < settings.trading_copy_max_entry_age_seconds)
        × (0 < fill.timestamp_ms)
        × (fill.timestamp_ms * 1000 + settings.trading_copy_max_entry_age_seconds * 1_000_000
            < now))
unfolding source_fill_age_exceeds_entry_limit
source_fill_age_exceeds_entry_limit_iff fill settings now = ground arith

module _ {D : Type 0} ⦃d : Decimal D⦄ (order : IsOrdered D) (rounded : IsRounded D)
    (exact : IsExact D) where
  open order use {le_refl, le_trans, le_total}
  open rounded use {of_int_nonneg, add_mono, sub_mono, mul_mono, div_nonneg, nought-le-one}
  open exact use {add-nought, sub-nought, mul-one}

  apply_adverse_slippage-IsAgainst :
      (price slippage : D) (side : TradeSide) (action : TradeAction)
      → (d.nought ⩽ price) ≡ true
      → (d.nought ⩽ slippage) ≡ true
      → IsAgainst side (is_entry action) price (apply_adverse_slippage price side action slippage)
  unfolding apply_adverse_slippage is_buy_execution
  apply_adverse_slippage-IsAgainst price slippage side action p h =
      let a = slippage ⊘ bps_denominator in
      let nonneg : (d.nought ⩽ a) ≡ true =
        div_nonneg slippage bps_denominator h (of_int_nonneg 10_000) in
      let more : (d.one ⩽ d.one ⊕ a) ≡ true =
        ap (λ x. x ⩽ d.one ⊕ a) (sym (add-nought d.one)) ∙ add_mono d.nought a d.one nonneg in
      let less : (d.one ⊖ a ⩽ d.one) ≡ true =
        ap (λ x. d.one ⊖ a ⩽ x) (sym (sub-nought d.one)) ∙ sub_mono d.nought a d.one nonneg in
      let kept = max (d.one ⊖ a) d.nought in
      let capped : (kept ⩽ d.one) ≡ true = ground (arith, less, nought-le-one) in
      let dear : (price ⩽ price ⊗ (d.one ⊕ a)) ≡ true =
        ap (λ x. x ⩽ price ⊗ (d.one ⊕ a)) (sym (mul-one price))
        ∙ mul_mono d.one (d.one ⊕ a) price more p in
      let cheap : (price ⊗ kept ⩽ price) ≡ true =
        ap (λ x. price ⊗ kept ⩽ x) (sym (mul-one price)) ∙ mul_mono kept d.one price capped p in
      elim (TradeSide-cases side) [
        | inl e ↦ elim (Bool-cases (is_entry action)) [
          | inl f ↦ rw (e, f) dear
          | inr f ↦ rw (e, f) cheap
        ]
        | inr e ↦ elim (Bool-cases (is_entry action)) [
          | inl f ↦ rw (e, f) cheap
          | inr f ↦ rw (e, f) dear
        ]
      ]

  -- Where arithmetic is exact and slippage is not negative: a context is built only with positive
  -- prices; what is observed is the live mid price of the coin where mids are used, and else the
  -- source's price; and the execution price is not below what is observed where a long is entered or a
  -- short is left, and not above it where a short is entered or a long is left.
  pub build_execution_context-IsPriced :
      (fill : SourceFill) (part : SourceFillPart D) (market : ExecutionMarketPrices D)
      (settings : Settings D) (slippage_bps : Option D) (latency_ms : Option ℕ)
      {c : ExecutionContext D}
      → build_execution_context fill part market settings slippage_bps latency_ms ≡ some c
      → (d.nought ⩽ c.slippage_bps) ≡ true
      → IsPriced c
        × IsAgainst part.side (is_entry part.action) c.observed_price c.execution_price
        × (((settings.trading_copy_use_live_mid_price ≡ true)
              × (lookup (get_or fill.coin "") market.prices ≡ some c.observed_price))
            ⊎ ((settings.trading_copy_use_live_mid_price ≡ false)
                × (c.observed_price ≡ c.source_price)))
  unfolding build_execution_context
  build_execution_context-IsPriced fill part market settings slippage_bps latency_ms {c} h n =
      let priced : IsPriced c = ground arith in
      let applied : c.execution_price
          ≡ apply_adverse_slippage c.observed_price part.side part.action c.slippage_bps =
        ground arith in
      let against =
        apply_adverse_slippage-IsAgainst c.observed_price c.slippage_bps part.side part.action
          (le_of_lt order d.nought c.observed_price priced.observed) n in
      (
        priced,
        subst (IsAgainst part.side (is_entry part.action) c.observed_price) (sym applied) against,
        ground arith,
      )
