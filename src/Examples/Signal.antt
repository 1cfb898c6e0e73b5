-- ===== src/Examples/Signal.antt =====
-- Parts and prices of source fills (backend/app/services/copy_signal_service.py) at concrete inputs.
use copytrading_agent.Prelude.{
  ◌≡◌, ◌<◌, ◌⊎◌, ◌+◌, ◌*◌, Bool, true, false, Option, none, some, List, [], ◌∷◌, refl, arith, All,
  get_or,
}
use copytrading_agent.Prelude.Int.{ℤ, pos}
use copytrading_agent.Decimal.Units.{units_decimal, units-IsOrdered, units-IsRounded, units-IsExact}
use copytrading_agent.Trade.{long}
use copytrading_agent.Signal.Parts.{
  SourceFill, lookup, decimal_or_zero, plan_source_fill, raw_json_from_fill,
}
use copytrading_agent.Signal.Parts.Laws.{FitFill, plan_source_fill-FitFill}
use copytrading_agent.Signal.Pricing.{
  ExecutionContext, ExecutionMarketPrices, build_execution_context, apply_adverse_slippage,
  adverse_price_drift_bps, is_buy_execution,
}
use copytrading_agent.Signal.Pricing.Laws.{IsAgainst, IsPriced, build_execution_context-IsPriced}
use copytrading_agent.Examples.Decisions.{settings, fill, opening_part}

-- A fill of 20 that takes a short of 12 to a long of 8.
abbrev flip : SourceFill
flip = record fill {
  size = some "20";
  raw_json = some (record { dir = some "Short > Long"; start_position = some "12" });
}

plan_source_fill-FitFill_example :
    FitFill {D = ℤ} (decimal_or_zero flip.size) (plan_source_fill flip)
plan_source_fill-FitFill_example = plan_source_fill-FitFill units-IsOrdered units-IsRounded flip

abbrev market : ExecutionMarketPrices ℤ
market = record { prices = ("BTC", pos 11) ∷ []; sources = [] }

abbrev context : ExecutionContext ℤ
context = record {
  source_price = pos 10;
  observed_price = pos 11;
  execution_price = pos 11;
  price_drift_bps = pos 0;
  slippage_bps = pos 0;
  latency_ms = 0;
  price_source = "live_mid";
}

context_built : build_execution_context fill opening_part market settings none none ≡ some context
unfolding build_execution_context copytrading_agent.Signal.Parts.lookup apply_adverse_slippage
    is_buy_execution copytrading_agent.Prelude.Int.◌*ℤ◌ copytrading_agent.Prelude.Int.◌+ℤ◌
    copytrading_agent.Prelude.Int.◌/ℤ◌ adverse_price_drift_bps copytrading_agent.Prelude.Int.◌-ℤ◌
context_built = refl

build_execution_context-IsPriced_example :
    IsPriced context
    × IsAgainst long true (pos 11) (pos 11)
    × (((settings.trading_copy_use_live_mid_price ≡ true)
          × (lookup (get_or fill.coin "") market.prices ≡ some (pos 11)))
        ⊎ ((settings.trading_copy_use_live_mid_price ≡ false) × (pos 11 ≡ pos 10)))
build_execution_context-IsPriced_example =
    build_execution_context-IsPriced units-IsOrdered units-IsRounded units-IsExact fill opening_part
      market settings none none context_built refl
