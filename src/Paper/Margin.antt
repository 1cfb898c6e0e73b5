-- ===== src/Paper/Margin.antt =====
-- Profit, liquidation and funding of simulated positions:
-- backend/app/services/paper_execution_simulator.py.
pub mod Laws
use copytrading_agent.Prelude.{
  ℕ, String, Bool, true, false, not, ◌&&◌, ◌||◌, Option, none, some, List, [], ◌∷◌, length, ltb,
  leb, ◌==◌, if◌then◌else◌,
}
use copytrading_agent.Decimal.{Decimal, ◌⩽◌, ◌⋖◌, ◌⊕◌, ◌⊖◌, ◌⊗◌, ◌⊘◌, min, max, is_zero}
use copytrading_agent.Trade.{TradeSide, long, short, MarginMode, cross, isolated}
use copytrading_agent.Signal.Parts.{lookup}

-- The fields of a paper position that liquidation and funding need.
pub record SimulatedPosition (D : Type 0) : Type 0 where
  pub key : String
  pub side : TradeSide
  pub size : D
  pub entry_price : D
  pub margin_usd : D
  pub margin_mode : MarginMode
  pub funding_usd : D
  pub max_leverage : Option ℕ

abbrev pub is_isolated : MarginMode → Bool
is_isolated isolated = true
is_isolated cross = false

-- `max_leverage` where it is positive, or else the default of 20.
abbrev pub usable_leverage : Option ℕ → ℕ
usable_leverage none = 20
usable_leverage (some n) = if n == 0 then 20 else n

module _ {D : Type 0} ⦃d : Decimal D⦄ where
  unfoldable pub position_pnl : TradeSide → D → D → D → D
  position_pnl long entry_price exit_price size = (exit_price ⊖ entry_price) ⊗ size
  position_pnl short entry_price exit_price size = (entry_price ⊖ exit_price) ⊗ size

  unfoldable pub maintenance_margin_rate : Option ℕ → D
  maintenance_margin_rate max_leverage =
      d.one ⊘ (d.of_int 2 ⊗ d.of_int (usable_leverage max_leverage))

  unfoldable pub maintenance_margin_usd : SimulatedPosition D → D → D
  unfolding maintenance_margin_rate
  maintenance_margin_usd position mark_price =
      position.size ⊗ mark_price ⊗ maintenance_margin_rate position.max_leverage

  abbrev pub pnl_at : SimulatedPosition D → D → D
  pnl_at position mark_price =
      position_pnl position.side position.entry_price mark_price position.size

  unfoldable pub isolated_liquidation_due : SimulatedPosition D → D → Bool
  isolated_liquidation_due position mark_price =
      let equity = position.margin_usd ⊕ pnl_at position mark_price ⊕ position.funding_usd in
      equity ⩽ maintenance_margin_usd position mark_price

  -- `mark_prices.get(key)`, where a price of 0 is as good as none.
  abbrev pub price_of : List (String × D) → String → Option D
  price_of mark_prices key = elim (lookup key mark_prices) [
    | none ↦ none
    | some price ↦ if is_zero price then none else some price
  ]

  -- The cross positions' profits and maintenance margins at their prices; `none` where one of them
  -- has no price.
  cross_sums : List (String × D) → List (SimulatedPosition D) → D → D → Option (D × D)
  cross_sums mark_prices [] unrealized maintenance = some (unrealized, maintenance)
  cross_sums mark_prices (position ∷ rest) unrealized maintenance =
      let skipped = cross_sums mark_prices rest unrealized maintenance in
      if is_isolated position.margin_mode
      then skipped
      else elim (price_of mark_prices position.key) [
        | none ↦ none
        | some price ↦
            cross_sums mark_prices rest (unrealized ⊕ pnl_at position price)
              (maintenance ⊕ maintenance_margin_usd position price)
      ]

  isolated_margin : List (SimulatedPosition D) → D → D
  isolated_margin [] total = total
  isolated_margin (position ∷ rest) total =
      isolated_margin rest
        (if is_isolated position.margin_mode then total ⊕ position.margin_usd else total)

  has_cross : List (SimulatedPosition D) → Bool
  has_cross [] = false
  has_cross (position ∷ rest) = not (is_isolated position.margin_mode) || has_cross rest

  unfoldable pub cross_liquidation_due : List (SimulatedPosition D) → D → List (String × D) → Bool
  unfolding cross_sums isolated_margin has_cross
  cross_liquidation_due positions cash_balance_usd mark_prices =
      if has_cross positions
      then elim (cross_sums mark_prices positions d.nought d.nought) [
        | none ↦ false
        | some (unrealized, maintenance) ↦
            cash_balance_usd ⊖ isolated_margin positions d.nought ⊕ unrealized ⩽ maintenance
      ]
      else false

  unfoldable pub liquidation_realized_pnl : SimulatedPosition D → D → D
  liquidation_realized_pnl position mark_price =
      let pnl = pnl_at position mark_price in
      if is_isolated position.margin_mode
      then max pnl (d.negate (position.margin_usd ⊕ position.funding_usd))
      else pnl

  unfoldable pub funding_payment : TradeSide → D → D → D → D
  funding_payment side size price rate =
      let amount = size ⊗ price ⊗ rate in elim side [ long ↦ d.negate amount | short ↦ amount ]
