-- ===== src/Examples/Paper.antt =====
-- The paper engine (backend/app/services/paper_execution_simulator.py and
-- backend/app/services/paper_risk_service.py) at concrete inputs.
use mathlib.Core.Logic.{inl}
use copytrading_agent.Prelude.{
  ℕ, String, ◌≡◌, ◌↔◌, Bool, true, false, Option, none, some, List, [], ◌∷◌, refl, arith, All,
}
use copytrading_agent.Prelude.Int.{ℤ, pos}
use copytrading_agent.Decimal.{◌⩽◌, max}
use copytrading_agent.Decimal.Units.{units_decimal, units-IsOrdered, units-IsRounded, units-IsExact}
use copytrading_agent.Trade.{long, cross, isolated}
use copytrading_agent.Paper.Book.{
  OrderBook, RawSide, parse_order_book, simulate_ioc_fill, opposite_side, price_ascending,
  price_descending,
}
use copytrading_agent.Paper.Book.Fill.{HasSizes, simulate_ioc_fill_bounds, simulate_ioc_fill-limit}
use copytrading_agent.Paper.Book.Sorted.{IsSide, parse_order_book-IsSide}
use copytrading_agent.Paper.Margin.{SimulatedPosition, cross_liquidation_due}
use copytrading_agent.Paper.Margin.Laws.{HasUnpricedCross, cross_liquidation_due-unpriced}
use copytrading_agent.Paper.Loss.{
  AccountLossState, IsFirstBreach, IsNoLater, max_drawdown, account_loss_breach,
  account_loss_breach_lem,
}
use copytrading_agent.Paper.Account.{PaperAccount, PaperPosition}
use copytrading_agent.Paper.Account.Ledger.{Booking, fee, funding, realized}
use copytrading_agent.Signal.Parts.{lookup}
use copytrading_agent.Examples.Decisions.{settings}

abbrev book : OrderBook ℤ
book = record {
  bids = record { price = pos 9; size = pos 5 } ∷ [];
  asks = record { price = pos 10; size = pos 3 } ∷ record { price = pos 11; size = pos 5 } ∷ [];
}

asks_HasSizes : HasSizes (opposite_side book true)
asks_HasSizes = ground arith

simulate_ioc_fill_bounds_example :
    let filled = (simulate_ioc_fill book true (pos 4) (pos 11)).filled_size in
    ((pos 0 ⩽ filled) ≡ true) × ((filled ⩽ max (pos 4) (pos 0)) ≡ true)
simulate_ioc_fill_bounds_example =
    simulate_ioc_fill_bounds units-IsOrdered units-IsRounded units-IsExact book true (pos 4)
      (pos 11) asks_HasSizes

book_average : (simulate_ioc_fill book true (pos 4) (pos 11)).average_price ≡ some (pos 10)
unfolding simulate_ioc_fill copytrading_agent.Prelude.Int.◌-ℤ◌ copytrading_agent.Prelude.Int.◌+ℤ◌
    copytrading_agent.Prelude.Int.◌/ℤ◌ copytrading_agent.Prelude.Int.◌*ℤ◌
book_average = refl

simulate_ioc_fill-limit_example :
    (true ≡ true → (pos 10 ⩽ pos 11) ≡ true) × (true ≡ false → (pos 11 ⩽ pos 10) ≡ true)
simulate_ioc_fill-limit_example =
    simulate_ioc_fill-limit units-IsOrdered units-IsRounded units-IsExact book true (pos 4) (pos 11)
      asks_HasSizes book_average

abbrev raw_asks : RawSide
raw_asks = some (
    some (record { px = some "11"; sz = some "5" })
    ∷ none
    ∷ some (record { px = some "10"; sz = some "3" })
    ∷ some (record { px = some "12"; sz = none })
    ∷ [])

abbrev raw_bids : RawSide
raw_bids = some (some (record { px = some "9"; sz = some "5" }) ∷ [])

book_parsed : parse_order_book (some (raw_bids ∷ raw_asks ∷ [])) ≡ some book
unfolding parse_order_book
book_parsed = refl

parse_order_book-IsSide_example :
    IsSide units-IsOrdered price_descending raw_bids book.bids
    × IsSide units-IsOrdered price_ascending raw_asks book.asks
parse_order_book-IsSide_example =
    parse_order_book-IsSide units-IsOrdered raw_bids raw_asks [] book book_parsed

abbrev position : SimulatedPosition ℤ
position = record {
  key = "BTC";
  side = long;
  size = pos 2;
  entry_price = pos 100;
  margin_usd = pos 20;
  margin_mode = isolated;
  funding_usd = pos 0;
  max_leverage = some 10;
}

abbrev crossed : List (SimulatedPosition ℤ)
crossed = record position { margin_mode = cross } ∷ []

crossed-HasUnpricedCross : HasUnpricedCross [] crossed
unfolding lookup
crossed-HasUnpricedCross = inl (refl, refl)

cross_liquidation_due-unpriced_example : cross_liquidation_due crossed (pos 5) [] ≡ false
cross_liquidation_due-unpriced_example =
    cross_liquidation_due-unpriced crossed (pos 5) [] crossed-HasUnpricedCross

abbrev state : AccountLossState ℤ
state = record { daily_loss_pct = pos 2; weekly_loss_pct = pos 12; drawdown_pct = pos 1 }

abbrev worse : AccountLossState ℤ
worse = record { daily_loss_pct = pos 3; weekly_loss_pct = pos 13; drawdown_pct = pos 1 }

account_loss_breach_lem_example :
    let breach = account_loss_breach (some state) settings in
    IsFirstBreach max_drawdown state settings breach
    × IsNoLater breach (account_loss_breach (some worse) settings)
account_loss_breach_lem_example =
    account_loss_breach_lem units-IsOrdered max_drawdown state worse settings
      (record { daily = refl; weekly = refl; drawdown = refl })

abbrev account : PaperAccount ℤ
account = record {
  key = "paper";
  cash_balance_usd = pos 1000;
  equity_usd = pos 1000;
  realized_pnl_usd = pos 0;
  fee_usd = pos 0;
  funding_usd = pos 0;
  peak_equity_usd = some (pos 1200);
  exit_only_at = none;
  exit_only_reason = none;
}

abbrev bookings : List (Booking ℤ)
bookings = fee (pos 3) ∷ realized (pos 50) (pos 2) ∷ funding (pos 4) ∷ []

abbrev held : List (PaperPosition ℤ)
held =
    record {
      account_key = "paper";
      source_wallet = "w";
      coin = "BTC";
      side = long;
      size = pos 2;
      entry_price = pos 10;
    }
    ∷ []
