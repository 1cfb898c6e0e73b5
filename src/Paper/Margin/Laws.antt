-- ===== src/Paper/Margin/Laws.antt =====
-- What liquidation and funding promise (backend/app/services/paper_execution_simulator.py).
use copytrading_agent.Prelude.{
  String, true, false, ◌≡◌, ◌⊎◌, none, List, [], ◌∷◌, arith, inl, inr, Option-cases,
}
use copytrading_agent.Decimal.{Decimal, IsOrdered, IsRounded, ◌⩽◌, ◌⊕◌, ◌⊖◌, ◌⊗◌}
use copytrading_agent.Decimal.Order.{le-max_right, le-max_left}
use copytrading_agent.Trade.{TradeSide, long, short, isolated, cross}
use copytrading_agent.Paper.Margin.{
  SimulatedPosition, maintenance_margin_usd, position_pnl, pnl_at, price_of, is_isolated,
  cross_sums, cross_liquidation_due, liquidation_realized_pnl, funding_payment,
}

module _ {D : Type 0} ⦃d : Decimal D⦄ where
  -- A cross position that has no usable price stands in the list.
  abbrev pub HasUnpricedCross : List (String × D) → List (SimulatedPosition D) → Type 0
  HasUnpricedCross prices [] = ⊥
  HasUnpricedCross prices (position ∷ rest) =
      ((is_isolated position.margin_mode ≡ false) × (price_of prices position.key ≡ none))
      ⊎ HasUnpricedCross prices rest

  cross_sums-unpriced :
      (prices : List (String × D)) (positions : List (SimulatedPosition D)) (u m : D)
      → HasUnpricedCross prices positions
      → cross_sums prices positions u m ≡ none
  unfolding cross_sums
  cross_sums-unpriced prices [] u m h = absurd h
  cross_sums-unpriced prices (position ∷ rest) u m (inl (c, e)) = ground arith
  cross_sums-unpriced prices (position ∷ rest) u m (inr later) =
      elim (Option-cases (price_of prices position.key)) [
        | inl e ↦ ground (arith, cross_sums-unpriced prices rest u m later)
        | inr (price, e) ↦ ground (
          arith,
          cross_sums-unpriced prices rest u m later,
          cross_sums-unpriced prices rest (u ⊕ pnl_at position price)
              (m ⊕ maintenance_margin_usd position price) later,
        )
      ]

  -- Cross positions are not liquidated while one of them has no price, whatever the balance is.
  pub cross_liquidation_due-unpriced :
      (positions : List (SimulatedPosition D)) (cash : D) (prices : List (String × D))
      → HasUnpricedCross prices positions
      → cross_liquidation_due positions cash prices ≡ false
  unfolding cross_liquidation_due
  cross_liquidation_due-unpriced positions cash prices h =
      ground (arith, cross_sums-unpriced prices positions d.nought d.nought h)

module _ {D : Type 0} ⦃d : Decimal D⦄ (order : IsOrdered D) (rounded : IsRounded D) where
  open order use {le_refl, le_trans, le_total}
  open rounded use {
    mul_mono, sub_mono, sub_nonneg, sub_nonpos, mul_nonneg, mul_nonpos, negate_nonpos,
    negate_nonneg,
  }

  -- A liquidation realizes at least the profit at the mark price; an isolated one never loses more than
  -- the margin and the funding of its position, and a cross one realizes just that profit.
  pub liquidation_realized_pnl_bounds :
      (position : SimulatedPosition D) (mark : D)
      → let realized = liquidation_realized_pnl position mark in
        ((pnl_at position mark ⩽ realized) ≡ true)
        × (position.margin_mode ≡ isolated
            → (d.negate (position.margin_usd ⊕ position.funding_usd) ⩽ realized) ≡ true)
        × (position.margin_mode ≡ cross → realized ≡ pnl_at position mark)
  unfolding liquidation_realized_pnl
  liquidation_realized_pnl_bounds position mark =
      let floor = d.negate (position.margin_usd ⊕ position.funding_usd) in
      ground (
        arith,
        le_refl (pnl_at position mark),
        le-max_left order (pnl_at position mark) floor,
        le-max_right order (pnl_at position mark) floor,
      )

  -- A long gains when the price is not below its entry, a short when it is not above.
  pub position_pnl-sign :
      (side : TradeSide) (entry exit size : D)
      → (d.nought ⩽ size) ≡ true
      → ((entry ⩽ exit) ≡ true
          → (side ≡ long → (d.nought ⩽ position_pnl side entry exit size) ≡ true)
            × (side ≡ short → (position_pnl side entry exit size ⩽ d.nought) ≡ true))
        × ((exit ⩽ entry) ≡ true
            → (side ≡ long → (position_pnl side entry exit size ⩽ d.nought) ≡ true)
              × (side ≡ short → (d.nought ⩽ position_pnl side entry exit size) ≡ true))
  unfolding position_pnl
  position_pnl-sign side entry exit size h = ground (
    arith,
    sub_nonneg exit entry,
    sub_nonneg entry exit,
    sub_nonpos exit entry,
    sub_nonpos entry exit,
    mul_nonneg (exit ⊖ entry) size,
    mul_nonneg (entry ⊖ exit) size,
    mul_nonpos (exit ⊖ entry) size,
    mul_nonpos (entry ⊖ exit) size,
  )

  -- At a positive rate longs pay and shorts receive.
  pub funding_payment-sign :
      (side : TradeSide) (size price rate : D)
      → (d.nought ⩽ size) ≡ true
      → (d.nought ⩽ price) ≡ true
      → (d.nought ⩽ rate) ≡ true
      → (side ≡ long → (funding_payment side size price rate ⩽ d.nought) ≡ true)
        × (side ≡ short → (d.nought ⩽ funding_payment side size price rate) ≡ true)
  unfolding funding_payment
  funding_payment-sign side size price rate s p r = ground (
    arith,
    mul_nonneg size price,
    mul_nonneg (size ⊗ price) rate,
    negate_nonpos (size ⊗ price ⊗ rate),
  )
