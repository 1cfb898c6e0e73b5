-- ===== src/Source/Rebuild/Others.antt =====
-- Which open trades a fill leaves alone, and how a flip is split:
-- backend/app/services/source_trade_reconstruction_service.py.
use text.Mathlib.Text.{◌==◌ as str_eq}
use text.Mathlib.TextEquality.{eq_iff}
use copytrading_agent.Prelude.{
  ℕ, String, ◌≡◌, ◌∙◌, refl, Bool, true, false, not, ◌&&◌, some, List, [], ◌∷◌, arith,
  if◌then◌else◌, Bool-cases, Option-cases, inl, inr,
}
use copytrading_agent.Decimal.{Decimal, IsOrdered, IsRounded, IsExact, ◌⩽◌, ◌⋖◌, ◌⊕◌, ◌⊖◌, max}
use copytrading_agent.Decimal.Order.{min-le_left}
use copytrading_agent.Trade.{TradeSide, long, short, side_eq}
use copytrading_agent.Source.Trade.{OpenSourceTrade, is_closed}
use copytrading_agent.Signal.Pricing.{is_preexisting_source_add}
use copytrading_agent.Source.Rebuild.{
  TradeFillRow, FillParts, TradeKey, TradeBooks, get_trade, put_trade, pop_trade, key_of,
  apply_open, apply_close, after_close, apply_flip, split_flip_size, flip_close_size,
  proportional_fill, opening_of, process_trade_fill, apply_direction, fill_of, key_eq,
}

side_eq-true : (a b : TradeSide) → side_eq a b ≡ true → a ≡ b
unfolding side_eq
side_eq-true long long e = refl
side_eq-true short short e = refl
side_eq-true long short e = cc
side_eq-true short long e = cc

-- The keys of the dictionary are compared by their texts and the side.
key_eq_lem : (a b : TradeKey) → key_eq a b ≡ true → a ≡ b
unfolding key_eq
key_eq_lem a b e = ground (
  arith,
  eq_iff a.wallet_address b.wallet_address,
  eq_iff a.coin b.coin,
  side_eq-true a.side b.side,
)

key_eq_refl : (a b : TradeKey) → a ≡ b → key_eq a b ≡ true
unfolding key_eq
key_eq_refl a b e = ground (arith, eq_iff a.wallet_address b.wallet_address, eq_iff a.coin b.coin)

module _ {V : Type 0} where
  get_trade-put_trade :
      (key other : TradeKey) (t : V) (trades : List (TradeKey × V))
      → get_trade other (put_trade key t trades)
        ≡ (if key_eq key other then some t else get_trade other trades)
  unfolding get_trade put_trade
  get_trade-put_trade key other t [] = refl
  get_trade-put_trade key other t ((k, u) ∷ rest) = ground (
    arith,
    get_trade-put_trade key other t rest,
    key_eq_lem k key,
    key_eq_lem k other,
    key_eq_lem key other,
    key_eq_refl k key,
  )

  get_trade-pop_trade :
      (key other : TradeKey) (trades : List (TradeKey × V))
      → key_eq key other ≡ false
      → get_trade other (pop_trade key trades) ≡ get_trade other trades
  unfolding get_trade pop_trade
  get_trade-pop_trade key other [] h = refl
  get_trade-pop_trade key other ((k, u) ∷ rest) h =
      ground (arith, get_trade-pop_trade key other rest h, key_eq_lem k key)

-- The key is of another wallet or of another coin.
abbrev pub is_other : String → String → TradeKey → Bool
is_other wallet_address coin key =
    not (str_eq wallet_address key.wallet_address && str_eq coin key.coin)

module _ {D : Type 0} ⦃d : Decimal D⦄ where
  key_of-other :
      (fill : FillParts D) (side : TradeSide) (key : TradeKey)
      → is_other fill.wallet_address fill.coin key ≡ true
      → key_eq (key_of fill side) key ≡ false
  unfolding key_eq
  key_of-other fill side key h = ground arith

  -- The open trade at the key is as it was.
  abbrev IsKept : TradeKey → TradeBooks D → TradeBooks D → Type 0
  IsKept key books after = get_trade key after.open_trades ≡ get_trade key books.open_trades

  put-IsKept :
      (key own : TradeKey) (t : OpenSourceTrade D) (trades : List (TradeKey × OpenSourceTrade D))
      → key_eq own key ≡ false
      → get_trade key (put_trade own t trades) ≡ get_trade key trades
  put-IsKept key own t trades h = get_trade-put_trade own key t trades ∙ rw h refl

  apply_open-IsKept :
      (fill : FillParts D) (side : TradeSide) (books : TradeBooks D) (key : TradeKey)
      → key_eq (key_of fill side) key ≡ false
      → IsKept key books (apply_open fill side books)
  unfolding apply_open
  apply_open-IsKept fill side books key h =
      elim (Option-cases (get_trade (key_of fill side) books.open_trades)) [
        | inr (trade, e) ↦
            rw (e, apply_open) (put-IsKept key (key_of fill side) _ books.open_trades h)
        | inl e ↦
            rw (e, apply_open)
              (elim (Bool-cases (is_preexisting_source_add fill.start_position side)) [
                | inl q ↦ rw q refl
                | inr q ↦ rw q (put-IsKept key (key_of fill side) _ books.open_trades h)
              ])
      ]

  after_close-IsKept :
      (fill : FillParts D) (side : TradeSide) (start_24h_ms start_7d_ms : ℕ)
      (trade : OpenSourceTrade D) (closed_size : D) (books : TradeBooks D) (key : TradeKey)
      → key_eq (key_of fill side) key ≡ false
      → IsKept key books (after_close fill side start_24h_ms start_7d_ms (trade, closed_size) books)
  after_close-IsKept fill side start_24h_ms start_7d_ms trade closed_size books key h =
      elim (Bool-cases (is_closed trade)) [
        | inl q ↦ rw q (get_trade-pop_trade (key_of fill side) key books.open_trades h)
        | inr q ↦ rw q (put-IsKept key (key_of fill side) trade books.open_trades h)
      ]

  apply_close-IsKept :
      (fill : FillParts D) (side : TradeSide) (start_24h_ms start_7d_ms : ℕ) (books : TradeBooks D)
      (key : TradeKey)
      → key_eq (key_of fill side) key ≡ false
      → IsKept key books (apply_close fill side start_24h_ms start_7d_ms books)
  unfolding apply_close
  apply_close-IsKept fill side start_24h_ms start_7d_ms books key h =
      elim (Option-cases (get_trade (key_of fill side) books.open_trades)) [
        | inl e ↦ rw (e, apply_close) refl
        | inr (trade, e) ↦
            rw (e, apply_close)
              (after_close-IsKept fill side start_24h_ms start_7d_ms _ _ books key h)
      ]

  apply_flip-IsKept :
      (fill : FillParts D) (close_side open_side : TradeSide) (start_24h_ms start_7d_ms : ℕ)
      (books : TradeBooks D) (key : TradeKey)
      → is_other fill.wallet_address fill.coin key ≡ true
      → IsKept key books (apply_flip fill close_side open_side start_24h_ms start_7d_ms books)
  unfolding apply_flip proportional_fill
  apply_flip-IsKept fill close_side open_side start_24h_ms start_7d_ms books key h =
      let sizes = split_flip_size fill close_side in
      let closes = proportional_fill fill sizes.0 in
      let after : TradeBooks D =
        (if d.nought ⋖ sizes.0
          then apply_close closes close_side start_24h_ms start_7d_ms books
          else books) in
      let kept : IsKept key books after = elim (Bool-cases (d.nought ⋖ sizes.0)) [
        | inl q ↦ rw q (
            apply_close-IsKept closes close_side start_24h_ms start_7d_ms books key
              (key_of-other closes close_side key h))
        | inr q ↦ rw q refl
      ] in
      let opens = proportional_fill (opening_of fill) sizes.1 in
      elim (Bool-cases (d.nought ⋖ sizes.1)) [
        | inl q ↦ rw q (
            apply_open-IsKept opens open_side after key (key_of-other opens open_side key h) ∙ kept)
        | inr q ↦ rw q kept
      ]

  apply_direction-IsKept :
      (direction : String) (fill : FillParts D) (start_24h_ms start_7d_ms : ℕ)
      (books : TradeBooks D) (key : TradeKey)
      → is_other fill.wallet_address fill.coin key ≡ true
      → IsKept key books (apply_direction direction fill start_24h_ms start_7d_ms books)
  unfolding apply_direction
  apply_direction-IsKept direction fill start_24h_ms start_7d_ms books key h = ground (
    arith,
    apply_open-IsKept fill long books key (key_of-other fill long key h),
    apply_open-IsKept fill short books key (key_of-other fill short key h),
    apply_close-IsKept fill long start_24h_ms start_7d_ms books key (key_of-other fill long key h),
    apply_close-IsKept fill short start_24h_ms start_7d_ms books key
        (key_of-other fill short key h),
    apply_flip-IsKept fill long short start_24h_ms start_7d_ms books key h,
    apply_flip-IsKept fill short long start_24h_ms start_7d_ms books key h,
  )

  -- A fill of one coin of one wallet leaves the open trades of every other wallet, and of every other
  -- coin, as they were.
  pub process_trade_fill-get_trade :
      (start_24h_ms start_7d_ms : ℕ) (row : TradeFillRow D) (books : TradeBooks D) (key : TradeKey)
      → is_other row.wallet_address row.coin key ≡ true
      → get_trade key (process_trade_fill start_24h_ms start_7d_ms row books).open_trades
        ≡ get_trade key books.open_trades
  unfolding process_trade_fill
  process_trade_fill-get_trade start_24h_ms start_7d_ms row books key h =
      let fill = fill_of row in
      elim (Bool-cases (fill.size ⩽ d.nought)) [
        | inl q ↦ rw q refl
        | inr q ↦
            rw q (apply_direction-IsKept row.direction fill start_24h_ms start_7d_ms books key h)
      ]

module _ {D : Type 0} ⦃d : Decimal D⦄ (order : IsOrdered D) (rounded : IsRounded D)
    (exact : IsExact D) where
  open order use {le_refl, le_trans, le_total}
  open rounded use {sub_nonneg}

  flip_close_size-bounds :
      (size : D) (close_side : TradeSide) (start_position : D)
      → (d.nought ⩽ size) ≡ true
      → ((d.nought ⩽ flip_close_size size close_side start_position) ≡ true)
        × ((flip_close_size size close_side start_position ⩽ size) ≡ true)
  flip_close_size-bounds size long start_position p =
      ground (arith, min-le_left order size (max start_position d.nought), le_refl d.nought)
  flip_close_size-bounds size short start_position p =
      ground
        (arith, min-le_left order size (max (d.copy_abs start_position) d.nought), le_refl d.nought)

  add-sub : (part size : D) → part ⊕ (size ⊖ part) ≡ size
  add-sub part size =
      cc (exact.add-add_sub d.nought part size, exact.nought-add part, exact.nought-add size)

  -- The split of a flip whose size is not negative, where sums are exact: the closing part is not negative and at most the size, and the
  -- opening part is what is left of it, also not negative.
  pub split_flip_size-bounds :
      (fill : FillParts D) (close_side : TradeSide)
      → (d.nought ⩽ fill.size) ≡ true
      → ((d.nought ⩽ (split_flip_size fill close_side).0) ≡ true)
        × (((split_flip_size fill close_side).0 ⩽ fill.size) ≡ true)
        × ((d.nought ⩽ (split_flip_size fill close_side).1) ≡ true)
        × ((split_flip_size fill close_side).0 ⊕ (split_flip_size fill close_side).1 ≡ fill.size)
  unfolding split_flip_size
  split_flip_size-bounds fill close_side p = elim (Option-cases fill.start_position) [
    | inl e ↦ rw e (p, le_refl fill.size, le_refl d.nought, exact.add-nought fill.size)
    | inr (start_position, e) ↦
        let part = flip_close_size fill.size close_side start_position in
        let bounds = flip_close_size-bounds fill.size close_side start_position p in
        let rest = sub_nonneg fill.size part bounds.1 in
        rw (e, rest) (bounds.0, bounds.1, rest, add-sub part fill.size)
  ]
