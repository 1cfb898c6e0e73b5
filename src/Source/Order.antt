-- ===== src/Source/Order.antt =====
-- The order of source fills: backend/app/services/source_fill_ordering.py. Texts are compared by the
-- numbers of their characters, as Python does.
pub mod Fills
pub mod Total
use Prim.Native.Char.{code}
use text.Mathlib.Text.{◌==◌ as str_eq}
use copytrading_agent.Prelude.{
  ℕ, String, Bool, true, false, ◌&&◌, ◌||◌, Option, none, some, ltb, ◌==◌, if◌then◌else◌, get_or,
}
use copytrading_agent.Decimal.{Decimal, ◌⩽◌, ◌⋖◌}
use copytrading_agent.Signal.Parts.{SourceFill, decimal_or_none, raw_json_from_fill}

unfoldable pub text_before : String → String → Bool
text_before s String.[] = false
text_before String.[] (String.◌∷◌ e t) = true
text_before (String.◌∷◌ c s) (String.◌∷◌ e t) =
    let rest = text_before s t in
    if ltb (code c) (code e) then true else if code c == code e then rest else false

-- Python's `str.isdigit`.
pub record Digits : Type 0 where
  pub is_digit : String → Bool

-- The tuple, without the rank and the zero of an identifier that is not numeric.
pub record SourceFillOrderKey (D : Type 0) : Type 0 where
  pub timestamp_ms : ℕ
  pub coin : String
  pub direction_rank : ℕ
  pub position_rank : D
  pub numeric_fill_id : Option D
  pub source_fill_id : String

-- `SOURCE_CLOSE_DIRECTIONS`
abbrev pub is_close_direction : String → Bool
is_close_direction direction =
    str_eq direction "Close Long"
    || (str_eq direction "Close Short"
        || (str_eq direction "Long > Short" || str_eq direction "Short > Long"))

module _ {D : Type 0} ⦃d : Decimal D⦄ where
  abbrev pub source_position_of : Option D → D
  source_position_of none = d.nought
  source_position_of (some start_position) = d.copy_abs start_position

  unfoldable pub source_fill_id_numeric_value : ⦃g : Digits⦄ → String → Option D
  source_fill_id_numeric_value ⦃g = g⦄ source_fill_id =
      if g.is_digit source_fill_id then d.parse source_fill_id else none

  unfoldable pub source_fill_order_key : ⦃g : Digits⦄ → SourceFill → SourceFillOrderKey D
  source_fill_order_key fill =
      let raw_json = raw_json_from_fill fill in
      let position = source_position_of (decimal_or_none raw_json.start_position) in
      let closes = is_close_direction (get_or raw_json.dir "") in
      let source_fill_id = get_or fill.external_fill_id "" in
      record {
        timestamp_ms = fill.timestamp_ms;
        coin = get_or fill.coin "";
        direction_rank = if closes then 0 else 1;
        position_rank = if closes then d.negate position else position;
        numeric_fill_id = source_fill_id_numeric_value source_fill_id;
        source_fill_id = source_fill_id;
      }

  -- The comparison of the last three members of two tuples.
  unfoldable pub fill_id_before : Option D → Option D → String → String → Bool
  fill_id_before (some m) (some n) s t = m ⋖ n || m ⩽ n && (n ⩽ m && text_before s t)
  fill_id_before (some m) none s t = true
  fill_id_before none (some n) s t = false
  fill_id_before none none s t = text_before s t

  -- `a < b` of two tuples.
  unfoldable pub key_before : SourceFillOrderKey D → SourceFillOrderKey D → Bool
  key_before a b =
      let ids =
        fill_id_before a.numeric_fill_id b.numeric_fill_id a.source_fill_id b.source_fill_id in
      if ltb a.timestamp_ms b.timestamp_ms
      then true
      else if ltb b.timestamp_ms a.timestamp_ms
      then false
      else if text_before a.coin b.coin
      then true
      else if text_before b.coin a.coin
      then false
      else if ltb a.direction_rank b.direction_rank
      then true
      else if ltb b.direction_rank a.direction_rank
      then false
      else if a.position_rank ⋖ b.position_rank
      then true
      else if b.position_rank ⋖ a.position_rank
      then false
      else ids
