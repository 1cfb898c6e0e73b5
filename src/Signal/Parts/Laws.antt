-- ===== src/Signal/Parts/Laws.antt =====
-- What the parts of a source fill promise to both engines
-- (backend/app/services/copy_signal_service.py).
use text.Mathlib.Text.{◌==◌ as str_eq}
use text.Mathlib.TextEquality.{eq_iff}
use copytrading_agent.Prelude.{
  String, Bool, true, false, ◌≡◌, refl, inl, inr, Option, none, some, List, ◌||◌, arith, get_or,
  All, Bool-cases, if◌then◌else◌,
}
use copytrading_agent.Decimal.{Decimal, IsOrdered, IsRounded, ◌⩽◌, ◌⋖◌, ◌⊖◌, ◌⊘◌, min, max}
use copytrading_agent.Decimal.Order.{le_of_lt, min-le_left, min-le_right}
use copytrading_agent.Trade.{
  TradeAction, close, flip_close, TradeSide, long, short, is_reducing, trade_is_buy,
}
use copytrading_agent.Signal.Parts.{
  SourceFill, SourceFillPart, plan_source_fill, plan_direction, flip_parts, flip_open_part,
  close_parts, open_part, close_ratio_from_start_position, decimal_or_none, decimal_or_zero,
  fill_notional, is_unusable, raw_json_from_fill,
}
use copytrading_agent.Signal.Pricing.{is_buy_execution}

-- Both engines send a part in one direction: trading_core's `trade_is_buy`, asked with the part's
-- reduce-only flag, is copy_signal_service's `is_buy_execution`.
pub trade_is_buy-is_reducing :
    (side : TradeSide) (action : TradeAction)
    → trade_is_buy side (is_reducing action) ≡ is_buy_execution side action
unfolding trade_is_buy is_buy_execution
trade_is_buy-is_reducing side action = ground arith

-- The directions that the exchange reports for a buy.
abbrev pub is_buy_direction : String → Bool
is_buy_direction direction =
    str_eq direction "Open Long"
    || str_eq direction "Close Short"
    || str_eq direction "Short > Long"

either {ℓ κ} :
    {A : Type ℓ} (P : A → Type κ) (b : Bool) (x y : A) → P x → P y → P (if b then x else y)
either P true x y h k = h
either P false x y h k = k

module _ {D : Type 0} ⦃d : Decimal D⦄ where
  -- A part of a fill of the given size: it is positive, it closes no more than the fill traded, and
  -- its close ratio, where it has one, lies between 0 and 1.
  abbrev pub FitsFill : D → SourceFillPart D → Type 0
  FitsFill size part =
      ((d.nought ⋖ part.source_size) ≡ true)
      × (is_reducing part.action ≡ true → (part.source_size ⩽ size) ≡ true)
      × ((ratio : D)
          → part.close_ratio ≡ some ratio
          → ((d.nought ⩽ ratio) ≡ true) × ((ratio ⩽ d.one) ≡ true))

  -- Every part fits.
  pub record FitFill (size : D) (parts : List (SourceFillPart D)) : Type 0 where
    pub fits : All (FitsFill size) parts

  -- The part is a buy, or a sell.
  abbrev pub Trades : Bool → SourceFillPart D → Type 0
  Trades buy part = is_buy_execution part.side part.action ≡ buy

module _ {D : Type 0} ⦃d : Decimal D⦄ (order : IsOrdered D) (rounded : IsRounded D) where
  open order use {le_refl, le_trans, le_total}
  open rounded use {nought-le-abs, div_nonneg, nought-le-one}

  close_ratio_bounds :
      (size : D) (start : Option D) (ratio : D)
      → (d.nought ⋖ size) ≡ true
      → close_ratio_from_start_position size start ≡ some ratio
      → ((d.nought ⩽ ratio) ≡ true) × ((ratio ⩽ d.one) ≡ true)
  unfolding close_ratio_from_start_position
  close_ratio_bounds size none ratio p h = cc
  close_ratio_bounds size (some start) ratio p h = ground (
    arith,
    nought-le-one,
    le_of_lt order d.nought size,
    div_nonneg size (d.copy_abs start),
    nought-le-abs start,
    min-le_right order (size ⊘ d.copy_abs start) d.one,
  )

  close_parts-FitsFill :
      (side : TradeSide) (size notional : D) (start : Option D) (action : TradeAction)
      → (d.nought ⋖ size) ≡ true
      → All (FitsFill size) (close_parts side size notional start action)
  unfolding close_parts
  close_parts-FitsFill side size notional start action p =
      ((p, (λ _. le_refl size), λ ratio e. close_ratio_bounds size start ratio p e), tt)

  flip_open_part-FitsFill :
      (side : TradeSide) (size notional opened : D)
      → All (FitsFill size) (flip_open_part side size notional opened)
  unfolding flip_open_part
  flip_open_part-FitsFill side size notional opened = elim (Bool-cases (d.nought ⋖ opened)) [
    | inl p ↦ rw p ((p, (λ e. cc), λ ratio e. cc), tt)
    | inr n ↦ rw n tt
  ]

  flip_parts-FitsFill :
      (close_side open_side : TradeSide) (size notional : D) (start : Option D)
      → (d.nought ⋖ size) ≡ true
      → All (FitsFill size) (flip_parts close_side open_side size notional start)
  unfolding flip_parts
  flip_parts-FitsFill close_side open_side size notional none p =
      close_parts-FitsFill close_side size notional none flip_close p
  flip_parts-FitsFill close_side open_side size notional (some start) p =
      let closed = min size (d.copy_abs start) in
      let opened = flip_open_part-FitsFill open_side size notional (max (size ⊖ closed) d.nought) in
      elim (Bool-cases (d.nought ⋖ closed)) [
        | inl q ↦ rw q (
          (
            q,
            (λ _. min-le_left order size (d.copy_abs start)),
            λ ratio e. close_ratio_bounds closed (some start) ratio q e,
          ),
          opened,
        )
        | inr n ↦ rw n opened
      ]

  plan_direction-FitFill :
      (direction : String) (size notional : D) (start : Option D)
      → (d.nought ⋖ size) ≡ true
      → FitFill size (plan_direction direction size notional start)
  unfolding plan_direction
  plan_direction-FitFill direction size notional start p =
      either P (str_eq direction "Open Long") _ _ (opened long) (
        either P (str_eq direction "Open Short") _ _ (opened short) (
          either P (str_eq direction "Close Long") _ _ (closed long) (
            either P (str_eq direction "Close Short") _ _ (closed short) (
              either P (str_eq direction "Long > Short") _ _ (flipped long short) (
                either P (str_eq direction "Short > Long") _ _ (flipped short long)
                  (record { fits = tt }))))))
    where
      P : List (SourceFillPart D) → Type 0
      P = FitFill size

      opened : (side : TradeSide) → P (open_part side size notional start)
      opened side = record { fits = ((p, (λ e. cc), λ ratio e. cc), tt) }

      closed : (side : TradeSide) → P (close_parts side size notional start close)
      closed side = record { fits = close_parts-FitsFill side size notional start close p }

      flipped : (from to : TradeSide) → P (flip_parts from to size notional start)
      flipped from to = record { fits = flip_parts-FitsFill from to size notional start p }

  -- Whatever the fill says, each of its parts is positive, closes no more than the fill traded, and
  -- has a close ratio between 0 and 1 where it has one.
  pub plan_source_fill-FitFill :
      (fill : SourceFill) → FitFill {D = D} (decimal_or_zero fill.size) (plan_source_fill fill)
  unfolding plan_source_fill
  plan_source_fill-FitFill fill =
      let size : D = decimal_or_zero fill.size in
      elim (Bool-cases (is_unusable size (decimal_or_zero fill.price) (fill_notional fill))) [
        | inl e ↦ rw e (record { fits = tt })
        | inr n ↦ rw n (
            plan_direction-FitFill (get_or (raw_json_from_fill fill).dir "") size
              (fill_notional fill) (decimal_or_none (raw_json_from_fill fill).start_position)
              (ground arith))
      ]

module _ {D : Type 0} ⦃d : Decimal D⦄ where
  flip_parts-Trades :
      (size notional : D) (start : Option D)
      → All (Trades false) (flip_parts long short size notional start)
        × All (Trades true) (flip_parts short long size notional start)
  unfolding flip_parts flip_open_part close_parts is_buy_execution
  flip_parts-Trades size notional none = ((refl, tt), (refl, tt))
  flip_parts-Trades size notional (some start) = ground arith

  plan_direction-Trades :
      (direction : String) (size notional : D) (start : Option D)
      → All (Trades (is_buy_direction direction)) (plan_direction direction size notional start)
  unfolding plan_direction close_parts is_buy_execution
  plan_direction-Trades direction size notional start =
      elim (Bool-cases (str_eq direction "Open Long")) [
        | inl e ↦ rw ((eq_iff direction "Open Long").0 e) ((refl, tt))
        | inr n0 ↦ elim (Bool-cases (str_eq direction "Open Short")) [
          | inl e ↦ rw ((eq_iff direction "Open Short").0 e) ((refl, tt))
          | inr n1 ↦ elim (Bool-cases (str_eq direction "Close Long")) [
            | inl e ↦ rw ((eq_iff direction "Close Long").0 e) ((refl, tt))
            | inr n2 ↦ elim (Bool-cases (str_eq direction "Close Short")) [
              | inl e ↦ rw ((eq_iff direction "Close Short").0 e) ((refl, tt))
              | inr n3 ↦ elim (Bool-cases (str_eq direction "Long > Short")) [
                | inl e ↦
                    rw ((eq_iff direction "Long > Short").0 e)
                      ((flip_parts-Trades size notional start).0)
                | inr n4 ↦ elim (Bool-cases (str_eq direction "Short > Long")) [
                  | inl e ↦
                      rw ((eq_iff direction "Short > Long").0 e)
                        ((flip_parts-Trades size notional start).1)
                  | inr n5 ↦ rw (n0, n1, n2, n3, n4, n5) tt
                ]
              ]
            ]
          ]
        ]
      ]

module _ (D : Type 0) ⦃d : Decimal D⦄ where
  -- The parts of a fill all trade in the direction that the exchange reports: a flip from short to
  -- long, a long opening and a short closing are copied by buys alone, and the
  -- fills of all other directions by sells.
  pub plan_source_fill-Trades :
      (fill : SourceFill)
      → All
          (Trades {D = D} (is_buy_direction (get_or (raw_json_from_fill fill).dir "")))
          (plan_source_fill fill)
  unfolding plan_source_fill
  plan_source_fill-Trades fill =
      let size : D = decimal_or_zero fill.size in
      elim (Bool-cases (is_unusable size (decimal_or_zero fill.price) (fill_notional fill))) [
        | inl e ↦ rw e tt
        | inr n ↦ rw n (
            plan_direction-Trades (get_or (raw_json_from_fill fill).dir "") size
              (fill_notional fill) (decimal_or_none (raw_json_from_fill fill).start_position))
      ]
