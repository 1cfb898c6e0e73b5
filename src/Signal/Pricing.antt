-- ===== src/Signal/Pricing.antt =====
-- Prices, slippage, drift and age of a copied fill: the second half of
-- backend/app/services/copy_signal_service.py.
pub mod Laws
use copytrading_agent.Prelude.{
  ℕ, ◌+◌, ◌*◌, String, Bool, true, false, not, Option, none, some, List, ltb, get_or, if◌then◌else◌,
  ◌==◌,
}
use copytrading_agent.Prelude.Int.{ℤ, sub_ℕ, pos, negsuc}
use copytrading_agent.Decimal.{Decimal, ◌⩽◌, ◌⋖◌, ◌⊕◌, ◌⊖◌, ◌⊗◌, ◌⊘◌, max}
use copytrading_agent.Settings.{Settings}
use copytrading_agent.Trade.{TradeAction, TradeSide, long, short, is_entry}
use copytrading_agent.Signal.Parts.{SourceFill, SourceFillPart, decimal_or_zero, lookup}

pub record ExecutionContext (D : Type 0) : Type 0 where
  pub source_price : D
  pub observed_price : D
  pub execution_price : D
  pub price_drift_bps : D
  pub slippage_bps : D
  pub latency_ms : ℕ
  pub price_source : String

pub record ExecutionMarketPrices (D : Type 0) : Type 0 where
  pub prices : List (String × D)
  pub sources : List (String × String)

unfoldable pub is_buy_execution : TradeSide → TradeAction → Bool
is_buy_execution long action = is_entry action
is_buy_execution short action = not (is_entry action)

module _ {D : Type 0} ⦃d : Decimal D⦄ where
  -- Decimal("0.00000001") and Decimal("10000")
  abbrev pub position_epsilon : D
  position_epsilon = d.one ⊘ d.of_int 100_000_000

  abbrev pub bps_denominator : D
  bps_denominator = d.of_int 10_000

  unfoldable pub apply_adverse_slippage : D → TradeSide → TradeAction → D → D
  apply_adverse_slippage price side action slippage_bps =
      let adjustment = slippage_bps ⊘ bps_denominator in
      if is_buy_execution side action
      then price ⊗ (d.one ⊕ adjustment)
      else price ⊗ max (d.one ⊖ adjustment) d.nought

  unfoldable pub adverse_price_drift_bps : D → D → TradeSide → TradeAction → D
  adverse_price_drift_bps source_price observed_price side action =
      let drift = observed_price ⊖ source_price in
      let adverse_drift =
        if is_buy_execution side action
        then max drift d.nought
        else max (d.negate drift) d.nought in
      if source_price ⩽ d.nought then d.nought else adverse_drift ⊘ source_price ⊗ bps_denominator

  -- The price that the copy is held to: the live mid, or the source's own where mids are not used.
  observed_price_for : ExecutionMarketPrices D → Settings D → String → D → Option D
  observed_price_for market_prices settings coin source_price =
      if settings.trading_copy_use_live_mid_price
      then lookup coin market_prices.prices
      else some source_price

  unfoldable pub build_execution_context :
      SourceFill
      → SourceFillPart D
      → ExecutionMarketPrices D
      → Settings D
      → Option D
      → Option ℕ
      → Option (ExecutionContext D)
  unfolding observed_price_for
  build_execution_context fill part market_prices settings slippage_bps latency_ms =
      let source_price : D = decimal_or_zero fill.price in
      let coin = get_or fill.coin "" in
      let slippage = get_or slippage_bps settings.paper_copy_slippage_bps in
      if source_price ⩽ d.nought
      then none
      else elim (observed_price_for market_prices settings coin source_price) [
        | none ↦ none
        | some observed_price ↦
            if observed_price ⩽ d.nought
            then none
            else let execution_price =
                apply_adverse_slippage observed_price part.side part.action slippage in
              if execution_price ⩽ d.nought
              then none
              else some (record {
                source_price = source_price;
                observed_price = observed_price;
                execution_price = execution_price;
                price_drift_bps =
                    adverse_price_drift_bps source_price observed_price part.side part.action;
                slippage_bps = slippage;
                latency_ms = get_or latency_ms settings.paper_copy_latency_ms;
                price_source =
                    if settings.trading_copy_use_live_mid_price
                    then get_or (lookup coin market_prices.sources) "live_mid"
                    else "source_fill";
              })
      ]

  unfoldable pub is_preexisting_source_add : Option D → TradeSide → Bool
  is_preexisting_source_add none side = false
  is_preexisting_source_add (some start_position) long = position_epsilon ⋖ start_position
  is_preexisting_source_add (some start_position) short = start_position ⋖ d.negate position_epsilon

-- Moments are microseconds since the epoch, the resolution of `datetime`.
abbrev pub Moment : Type 0
Moment = ℕ

-- The age in microseconds, negative for a fill from the future; a fill without a time has none.
unfoldable pub source_fill_age : SourceFill → Moment → Option ℤ
source_fill_age fill now =
    if fill.timestamp_ms == 0 then none else some (sub_ℕ now (fill.timestamp_ms * 1000))

age_exceeds : Option ℤ → ℕ → Bool
age_exceeds (some (pos age)) limit = ltb limit age
age_exceeds _ limit = false

module _ {D : Type 0} where
  unfoldable pub source_fill_age_exceeds_entry_limit : SourceFill → Settings D → Moment → Bool
  unfolding age_exceeds source_fill_age
  source_fill_age_exceeds_entry_limit fill settings now =
      let max_age_seconds = settings.trading_copy_max_entry_age_seconds in
      if max_age_seconds == 0
      then false
      else age_exceeds (source_fill_age fill now) (max_age_seconds * 1_000_000)
