-- ===== src/Live/Fill/Claim.antt =====
-- What a claim of a part reads besides its rows: orders whose effect is not known, the baseline, and
-- the positions that are owned (backend/app/services/live_copy_state_service.py).
use text.Mathlib.Text.{◌==◌ as str_eq}
use copytrading_agent.Prelude.{
  ℕ, ◌/◌, String, Bool, true, false, not, ◌&&◌, ◌||◌, Option, none, some, List, [], ◌∷◌, leb, ◌==◌,
  if◌then◌else◌,
}
use copytrading_agent.Decimal.{Decimal, ◌⋖◌, ◌⊕◌, ◌⊘◌}
use copytrading_agent.Trade.{TradeAction, open_new, add, flip_open, TradeSide, long, short, side_eq}
use copytrading_agent.Signal.Parts.{SourceFillPart}
use copytrading_agent.Signal.Pricing.{Moment}
use copytrading_agent.Source.Order.{SourceFillOrderKey, key_before}
use copytrading_agent.Live.Order.{
  TradingOrder, OrderStatus, planned, ready, submitting, uncertain, submitted, accepted,
  partially_filled, filled,
}
use copytrading_agent.Live.Fill.{LiveCopyFillState}
use copytrading_agent.Live.Fill.Plan.{LiveCopySourceState, LiveCopyFill}

pub record TradingFill (D : Type 0) : Type 0 where
  pub order_id : ℕ
  pub size : D

-- The columns of a position that the claim reads; a lifecycle is there where the four columns are.
pub record OwnedPosition (D : Type 0) : Type 0 where
  pub account_key : String
  pub is_live : Bool
  pub source_wallet : String
  pub coin : String
  pub side : TradeSide
  pub size : D
  pub lifecycle : Option (SourceFillOrderKey D)

-- The other tables.
pub record Ledger (D : Type 0) : Type 0 where
  pub orders : List (TradingOrder D)
  pub fills : List (TradingFill D)
  pub positions : List (OwnedPosition D)

-- `LIVE_COPY_ACTIVE_ORDER_STATUSES`
abbrev pub is_active_status : OrderStatus → Bool
is_active_status planned = true
is_active_status ready = true
is_active_status submitting = true
is_active_status uncertain = true
is_active_status submitted = true
is_active_status accepted = true
is_active_status partially_filled = true
is_active_status _ = false

abbrev pub is_filled_status : OrderStatus → Bool
is_filled_status filled = true
is_filled_status _ = false

abbrev pub is_entry_action : TradeAction → Bool
is_entry_action open_new = true
is_entry_action add = true
is_entry_action flip_open = true
is_entry_action _ = false

abbrev pub is_continued_action : TradeAction → Bool
is_continued_action open_new = true
is_continued_action add = true
is_continued_action _ = false

module _ {D : Type 0} ⦃d : Decimal D⦄ where
  -- `POSITION_EPSILON` of this file
  abbrev pub live_position_epsilon : D
  live_position_epsilon = d.one ⊘ d.of_int 1_000_000_000_000

  abbrev pub has_fill : ℕ → List (TradingFill D) → Bool
  has_fill id [] = false
  has_fill id (f ∷ rest) = f.order_id == id || has_fill id rest

  abbrev pub filled_size_of : ℕ → List (TradingFill D) → D
  filled_size_of id [] = d.nought
  filled_size_of id (f ∷ rest) =
      let sum = filled_size_of id rest in if f.order_id == id then f.size ⊕ sum else sum

  unfoldable pub live_copy_unresolved_order_predicate : List (TradingFill D) → TradingOrder D → Bool
  live_copy_unresolved_order_predicate fills o =
      is_active_status o.status
      || is_filled_status o.status
        && (not (has_fill o.id fills)
            || filled_size_of o.id fills ⊕ live_position_epsilon ⋖ o.filled_size)

  -- `exists(select(TradingOrder.id).where(...))`
  unfoldable pub has_unresolved_order : Ledger D → List (TradingOrder D) → Option ℕ → Bool
  has_unresolved_order ledger orders none = false
  has_unresolved_order ledger [] (some id) = false
  has_unresolved_order ledger (o ∷ rest) (some id) =
      o.id == id && live_copy_unresolved_order_predicate ledger.fills o
      || has_unresolved_order ledger rest (some id)

  abbrev pub is_unresolved : Ledger D → LiveCopyFillState D → Bool
  is_unresolved ledger s = has_unresolved_order ledger ledger.orders s.trading_order_id

  abbrev pub post_baseline_at : Option Moment → Moment → LiveCopyFill D → Bool
  post_baseline_at none activated_at fill = false
  post_baseline_at (some first_observed_at) activated_at fill =
      leb activated_at first_observed_at && leb (activated_at / 1000) fill.timestamp_ms

  unfoldable pub is_live_copy_fill_post_baseline :
      LiveCopySourceState → LiveCopyFill D → Option Moment → Bool
  is_live_copy_fill_post_baseline source fill first_observed_at =
      post_baseline_at first_observed_at source.activated_at fill

  abbrev pub is_on_side : TradeSide → Option D → Bool
  is_on_side side none = false
  is_on_side long (some start_position) = live_position_epsilon ⋖ start_position
  is_on_side short (some start_position) = start_position ⋖ d.negate live_position_epsilon

  unfoldable pub is_same_side_owned_continuation_part : TradeAction → TradeSide → Option D → Bool
  is_same_side_owned_continuation_part action side start_position =
      is_continued_action action && is_on_side side start_position

  abbrev pub key_of_fill : LiveCopyFill D → SourceFillOrderKey D
  key_of_fill fill = record {
    timestamp_ms = fill.timestamp_ms;
    coin = fill.coin;
    direction_rank = fill.direction_rank;
    position_rank = fill.position;
    numeric_fill_id = fill.fill_id_numeric;
    source_fill_id = fill.source_fill_id;
  }

  abbrev pub lifecycle_before : Option (SourceFillOrderKey D) → LiveCopyFill D → Bool
  lifecycle_before none fill = false
  lifecycle_before (some key) fill = key_before key (key_of_fill fill)

  abbrev pub follows_position :
      LiveCopySourceState → LiveCopyFill D → TradeSide → List (OwnedPosition D) → Bool
  follows_position source fill side [] = false
  follows_position source fill side (p ∷ rest) =
      str_eq p.account_key source.account_key
        && (p.is_live
            && (str_eq p.source_wallet source.source_wallet
                && (str_eq p.coin fill.coin
                    && (side_eq p.side side
                        && (live_position_epsilon ⋖ p.size && lifecycle_before p.lifecycle fill)))))
      || follows_position source fill side rest

  unfoldable pub live_copy_entry_follows_owned_position_lifecycle :
      LiveCopySourceState → LiveCopyFill D → SourceFillPart D → List (OwnedPosition D) → Bool
  live_copy_entry_follows_owned_position_lifecycle source fill part positions =
      is_same_side_owned_continuation_part part.action part.side part.start_position
      && follows_position source fill part.side positions
