-- ===== src/Signal/Parts.antt =====
-- A source fill as parts to copy: backend/app/services/copy_signal_service.py.
-- A fill is the dictionary that `source_fill_from_wallet_fill` builds: its decimals are still text.
pub mod Laws
use text.Mathlib.Text.{◌==◌ as str_eq}
use copytrading_agent.Prelude.{
  ℕ, ◌+◌, ◌*◌, String, Bool, true, false, ◌||◌, Option, none, some, List, [], ◌∷◌, ltb, leb, get_or,
  if◌then◌else◌,
}
use copytrading_agent.Prelude.Int.{ℤ, sub_ℕ}
use copytrading_agent.Decimal.{Decimal, ◌⩽◌, ◌⋖◌, ◌⊕◌, ◌⊖◌, ◌⊗◌, ◌⊘◌, min, max, is_zero}
use copytrading_agent.Settings.{Settings}
use copytrading_agent.Trade.{
  TradeAction, open_new, close, flip_close, flip_open, TradeSide, long, short, is_entry,
}

-- `rawJson`, where it is a dictionary: `dir` and `startPosition`.
pub record RawFill : Type 0 where
  pub dir : Option String
  pub start_position : Option String

pub record SourceFill : Type 0 where
  pub external_fill_id : Option String
  pub coin : Option String
  pub price : Option String
  pub size : Option String
  pub notional_usd : Option String
  -- `int(fill.get("timestampMs") or 0)`, not negative
  pub timestamp_ms : ℕ
  pub raw_json : Option RawFill

abbrev pub raw_json_from_fill : SourceFill → RawFill
raw_json_from_fill fill = get_or fill.raw_json (record { dir = none; start_position = none })

pub record SourceFillPart (D : Type 0) : Type 0 where
  pub action : TradeAction
  pub side : TradeSide
  pub source_size : D
  pub source_notional_usd : D
  pub sequence_index : ℕ
  pub close_ratio : Option D
  pub start_position : Option D

-- A dictionary with text keys; a missing key is `none`.
module _ {A : Type 0} where
  unfoldable pub lookup : String → List (String × A) → Option A
  lookup key [] = none
  lookup key ((k, a) ∷ rest) = if str_eq k key then some a else lookup key rest

module _ {D : Type 0} ⦃d : Decimal D⦄ where
  abbrev pub decimal_or_none : Option String → Option D
  decimal_or_none none = none
  decimal_or_none (some value) = d.parse value

  -- `decimal_or_none(value) or ZERO`
  abbrev pub decimal_or_zero : Option String → D
  decimal_or_zero value = elim (decimal_or_none value) [
    | none ↦ d.nought
    | some x ↦ if is_zero x then d.nought else x
  ]

  unfoldable pub close_ratio_from_start_position : D → Option D → Option D
  close_ratio_from_start_position source_size none = none
  close_ratio_from_start_position source_size (some start_position) =
      if d.copy_abs start_position ⩽ d.nought
      then none
      else some (min (source_size ⊘ d.copy_abs start_position) d.one)

  unfoldable pub proportional_value : D → D → D → D
  proportional_value value part total = if total ⩽ d.nought then d.nought else value ⊗ part ⊘ total

  unfoldable pub close_parts : TradeSide → D → D → Option D → TradeAction → List (SourceFillPart D)
  close_parts side source_size source_notional start_position action =
      record {
        action = action;
        side = side;
        source_size = source_size;
        source_notional_usd = source_notional;
        sequence_index = 0;
        close_ratio = close_ratio_from_start_position source_size start_position;
        start_position = start_position;
      }
      ∷ []

  -- The second part of a flip, if anything is left to open.
  flip_open_part : TradeSide → D → D → D → List (SourceFillPart D)
  flip_open_part open_side source_size source_notional open_size =
      if d.nought ⋖ open_size
      then record {
        action = flip_open;
        side = open_side;
        source_size = open_size;
        source_notional_usd = proportional_value source_notional open_size source_size;
        sequence_index = 1;
        close_ratio = none;
        start_position = some d.nought;
      }
        ∷ []
      else []

  unfoldable pub flip_parts : TradeSide → TradeSide → D → D → Option D → List (SourceFillPart D)
  unfolding close_parts flip_open_part
  flip_parts close_side open_side source_size source_notional none =
      close_parts close_side source_size source_notional none flip_close
  flip_parts close_side open_side source_size source_notional (some start) =
      let close_size = min source_size (d.copy_abs start) in
      let open_size = max (source_size ⊖ close_size) d.nought in
      let opened = flip_open_part open_side source_size source_notional open_size in
      if d.nought ⋖ close_size
      then record {
        action = flip_close;
        side = close_side;
        source_size = close_size;
        source_notional_usd = proportional_value source_notional close_size source_size;
        sequence_index = 0;
        close_ratio = close_ratio_from_start_position close_size (some start);
        start_position = some start;
      }
        ∷ opened
      else opened

  -- The part of an opening fill.
  abbrev pub open_part : TradeSide → D → D → Option D → List (SourceFillPart D)
  open_part side source_size source_notional start_position =
      record {
        action = open_new;
        side = side;
        source_size = source_size;
        source_notional_usd = source_notional;
        sequence_index = 0;
        close_ratio = none;
        start_position = start_position;
      }
      ∷ []

  -- The ladder of directions in `plan_source_fill`.
  plan_direction : String → D → D → Option D → List (SourceFillPart D)
  unfolding close_parts flip_parts
  plan_direction direction size notional start =
      if str_eq direction "Open Long"
      then open_part long size notional start
      else if str_eq direction "Open Short"
      then open_part short size notional start
      else if str_eq direction "Close Long"
      then close_parts long size notional start close
      else if str_eq direction "Close Short"
      then close_parts short size notional start close
      else if str_eq direction "Long > Short"
      then flip_parts long short size notional start
      else if str_eq direction "Short > Long"
      then flip_parts short long size notional start
      else []

  -- The notional value that the fill states, or else its price times its size.
  abbrev pub fill_notional : SourceFill → D
  fill_notional fill =
      let given : D = decimal_or_zero fill.notional_usd in
      if is_zero given then decimal_or_zero fill.price ⊗ decimal_or_zero fill.size else given

  -- The fills of which nothing is copied.
  abbrev pub is_unusable : D → D → D → Bool
  is_unusable source_size source_price source_notional =
      source_size ⩽ d.nought || source_price ⩽ d.nought || source_notional ⩽ d.nought

  unfoldable pub plan_source_fill : SourceFill → List (SourceFillPart D)
  unfolding plan_direction
  plan_source_fill fill =
      let raw_json = raw_json_from_fill fill in
      let direction = get_or raw_json.dir "" in
      let source_size : D = decimal_or_zero fill.size in
      let source_price : D = decimal_or_zero fill.price in
      let source_notional : D = fill_notional fill in
      let start_position : Option D = decimal_or_none raw_json.start_position in
      if is_unusable source_size source_price source_notional
      then []
      else plan_direction direction source_size source_notional start_position

  abbrev pub part_requires_source_equity : SourceFillPart D → Bool
  part_requires_source_equity part = is_entry part.action
