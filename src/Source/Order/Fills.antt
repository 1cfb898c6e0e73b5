-- ===== src/Source/Order/Fills.antt =====
-- In which order the fills of a source are taken: backend/app/services/source_fill_ordering.py.
use copytrading_agent.Prelude.{
  String, ◌≡◌, ◌⊎◌, ◌∙◌, ap, refl, inl, inr, Bool, true, false, some, arith, get_or, if◌then◌else◌,
}
use copytrading_agent.Decimal.{Decimal, IsOrdered, IsExact, ◌⩽◌}
use copytrading_agent.Signal.Parts.{SourceFill, decimal_or_none, raw_json_from_fill}
use copytrading_agent.Source.Order.{
  Digits, SourceFillOrderKey, source_fill_order_key, source_position_of, is_close_direction,
  key_before,
}
use copytrading_agent.Source.Order.Total.{
  key_before_connected, key_before_trans, key_before_irrefl, text_before_irrefl,
}

-- The directions of fills that are copied.
pub data FillDirection : Type 0 where
  open_long open_short close_long close_short long_to_short short_to_long : FillDirection

abbrev pub direction_text : FillDirection → String
direction_text open_long = "Open Long"
direction_text open_short = "Open Short"
direction_text close_long = "Close Long"
direction_text close_short = "Close Short"
direction_text long_to_short = "Long > Short"
direction_text short_to_long = "Short > Long"

-- Whether a fill of the direction reduces the position that it starts from.
abbrev pub reduces : FillDirection → Bool
reduces open_long = false
reduces open_short = false
reduces _ = true

-- The direction and the start position that are read from a fill.
abbrev pub direction_of : SourceFill → String
direction_of fill = get_or (raw_json_from_fill fill).dir ""

is_close_direction_lem : (x : FillDirection) → is_close_direction (direction_text x) ≡ reduces x
is_close_direction_lem open_long = refl
is_close_direction_lem open_short = refl
is_close_direction_lem close_long = refl
is_close_direction_lem close_short = refl
is_close_direction_lem long_to_short = refl
is_close_direction_lem short_to_long = refl

module _ {D : Type 0} ⦃d : Decimal D⦄ where
  -- Of two fills at one time, the sizes that they start from, and whether each comes before the other:
  -- what reduces comes first; of two that reduce, the one that starts from more; of two that open, the
  -- one that starts from less.
  abbrev pub IsSequenced : Bool → Bool → D → D → Bool → Bool → Type 0
  IsSequenced true false m n before after = (before ≡ true) × (after ≡ false)
  IsSequenced false true m n before after = (before ≡ false) × (after ≡ true)
  IsSequenced true true m n before after = ((m ⩽ n) ≡ true) ⊎ ((before ≡ true) × (after ≡ false))
  IsSequenced false false m n before after = ((n ⩽ m) ≡ true) ⊎ ((before ≡ true) × (after ≡ false))

module _ {D : Type 0} ⦃d : Decimal D⦄ ⦃g : Digits⦄ (order : IsOrdered D) (exact : IsExact D) where
  open order use {le_total}
  open exact use {negate-le}

  key_before-IsSequenced :
      (x y : Bool) (m n : D) (a b : SourceFillOrderKey D)
      → a.timestamp_ms ≡ b.timestamp_ms
      → a.coin ≡ b.coin
      → a.direction_rank ≡ (if x then 0 else 1)
      → b.direction_rank ≡ (if y then 0 else 1)
      → a.position_rank ≡ (if x then d.negate m else m)
      → b.position_rank ≡ (if y then d.negate n else n)
      → IsSequenced x y m n (key_before a b) (key_before b a)
  unfolding key_before
  key_before-IsSequenced true false m n a b t c r s p q = ground (arith, text_before_irrefl a.coin)
  key_before-IsSequenced false true m n a b t c r s p q = ground (arith, text_before_irrefl a.coin)
  key_before-IsSequenced true true m n a b t c r s p q =
      ground (arith, text_before_irrefl a.coin, negate-le m n, negate-le n m, le_total m n)
  key_before-IsSequenced false false m n a b t c r s p q =
      ground (arith, text_before_irrefl a.coin, le_total m n)

  rank_of :
      (a : SourceFill) (x : FillDirection)
      → direction_of a ≡ direction_text x
      → (source_fill_order_key {D = D} a).direction_rank ≡ (if reduces x then 0 else 1)
  unfolding source_fill_order_key
  rank_of a x u =
      ap (λ s. if is_close_direction s then 0 else 1) u
      ∙ ap (λ c. if c then 0 else 1) (is_close_direction_lem x)

  position_of :
      (a : SourceFill) (x : FillDirection) (m : D)
      → direction_of a ≡ direction_text x
      → decimal_or_none (raw_json_from_fill a).start_position ≡ some m
      → (source_fill_order_key a).position_rank
        ≡ (if reduces x then d.negate (d.copy_abs m) else d.copy_abs m)
  unfolding source_fill_order_key
  position_of a x m u p =
      ap
        (λ o.
          if is_close_direction (direction_of a)
          then d.negate (source_position_of o)
          else source_position_of o)
        p
      ∙ (ap (λ s. if is_close_direction s then d.negate (d.copy_abs m) else d.copy_abs m) u
          ∙ ap (λ c. if c then d.negate (d.copy_abs m) else d.copy_abs m)
              (is_close_direction_lem x))

  -- Of two fills of a coin at one time, whose directions and start positions can be read and where
  -- negation is exact: one that closes or flips comes before one that opens; of two that close or flip,
  -- the one that starts from the larger position comes first; and of two that open, the one that
  -- starts from the smaller.
  pub source_fill_order_key-IsSequenced :
      (a b : SourceFill) (x y : FillDirection) (m n : D)
      → direction_of a ≡ direction_text x
      → direction_of b ≡ direction_text y
      → decimal_or_none {D = D} (raw_json_from_fill a).start_position ≡ some m
      → decimal_or_none {D = D} (raw_json_from_fill b).start_position ≡ some n
      → a.timestamp_ms ≡ b.timestamp_ms
      → get_or a.coin "" ≡ get_or b.coin ""
      → IsSequenced
          (reduces x)
          (reduces y)
          (d.copy_abs m)
          (d.copy_abs n)
          (key_before {D = D} (source_fill_order_key {D = D} a) (source_fill_order_key {D = D} b))
          (key_before {D = D} (source_fill_order_key {D = D} b) (source_fill_order_key {D = D} a))
  unfolding source_fill_order_key
  source_fill_order_key-IsSequenced a b x y m n u v p q t c =
      key_before-IsSequenced (reduces x) (reduces y) (d.copy_abs m) (d.copy_abs n)
        (source_fill_order_key {D = D} a) (source_fill_order_key {D = D} b) t c (rank_of a x u)
        (rank_of b y v) (position_of a x m u p) (position_of b y n v q)

module _ {D : Type 0} ⦃d : Decimal D⦄ ⦃g : Digits⦄ (order : IsOrdered D) where
  -- Of two fills exactly one comes before the other, or they have the same identifier, time and coin.
  pub source_fill_order_key-connected :
      (a b : SourceFill)
      → let before =
          key_before {D = D} (source_fill_order_key {D = D} a) (source_fill_order_key {D = D} b) in
        let after =
          key_before {D = D} (source_fill_order_key {D = D} b) (source_fill_order_key {D = D} a) in
        ((before ≡ true) × (after ≡ false))
        ⊎ (((before ≡ false) × (after ≡ true))
            ⊎ ((get_or a.external_fill_id "" ≡ get_or b.external_fill_id "")
                × (a.timestamp_ms ≡ b.timestamp_ms)
                × (get_or a.coin "" ≡ get_or b.coin "")))
  unfolding source_fill_order_key
  source_fill_order_key-connected a b =
      let k : SourceFillOrderKey D = source_fill_order_key a in
      let l : SourceFillOrderKey D = source_fill_order_key b in
      elim (key_before_connected order k l) [
        | inl h ↦ inl (
          h,
          ground (
            arith,
            (λ (r : key_before l k ≡ true). key_before_trans order k l k h r),
            key_before_irrefl order k,
          ),
        )
        | inr (inl h) ↦ inr (
            inl (
              ground (
                arith,
                (λ (r : key_before k l ≡ true). key_before_trans order l k l h r),
                key_before_irrefl order l,
              ),
              h,
            ))
        | inr (inr e) ↦ inr (inr e)
      ]
