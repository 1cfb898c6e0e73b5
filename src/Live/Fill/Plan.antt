-- ===== src/Live/Fill/Plan.antt =====
-- The plan of a source fill: one row for each of its parts, all of them there before the first is
-- executed (backend/app/services/live_copy_state_service.py).
pub mod Complete
pub mod Durable
use text.Mathlib.Text.{◌==◌ as str_eq}
use copytrading_agent.Prelude.{
  ℕ, suc, ◌+◌, ◌-◌, String, Bool, true, false, not, ◌&&◌, ◌||◌, Option, none, some, List, [], ◌∷◌,
  ◌++◌, leb, ltb, ◌==◌, is_none, get_or, length, if◌then◌else◌,
}
use copytrading_agent.Decimal.{Decimal, is_equal}
use copytrading_agent.Trade.{TradeAction, TradeSide, action_text, side_eq}
use copytrading_agent.Signal.Parts.{SourceFillPart}
use copytrading_agent.Signal.Pricing.{Moment}
use copytrading_agent.Live.Fill.{LiveCopyFillState, pending, is_terminal}

-- `status == "active"` is a Boolean. The wallet is normalized when it is written.
pub record LiveCopySourceState : Type 0 where
  pub account_key : String
  pub source_wallet : String
  pub is_active : Bool
  pub activated_at : Moment

-- What the functions `live_copy_fill_*` read of a fill.
pub record LiveCopyFill (D : Type 0) : Type 0 where
  pub source_fill_id : String
  pub coin : String
  pub timestamp_ms : ℕ
  pub direction_rank : ℕ
  pub position : D
  pub fill_id_numeric : Option D
  pub observed_at : Option Moment

-- The arguments of the call that only a new row keeps.
pub record PlanContext : Type 0 where
  pub origin : String
  pub now : Moment
  pub observed_at : Option Moment
  pub first_observed_at : Option Moment
  pub execution_claimed_at : Option Moment

abbrev pub first_some : Option Moment → Option Moment → Option Moment
first_some none b = b
first_some (some a) b = some a

-- `LIVE_COPY_FILL_PLAN_VERSION`
abbrev pub live_copy_fill_plan_version : ℕ
live_copy_fill_plan_version = 1

module _ {D : Type 0} where
  abbrev pub get_part : ℕ → List (SourceFillPart D) → Option (SourceFillPart D)
  get_part n [] = none
  get_part n (p ∷ rest) = if p.sequence_index == n then some p else get_part n rest

  abbrev pub has_duplicates : List (SourceFillPart D) → Bool
  has_duplicates [] = false
  has_duplicates (p ∷ rest) = not (is_none (get_part p.sequence_index rest)) || has_duplicates rest

  abbrev pub cons_part :
      Option (SourceFillPart D)
      → Option (List (SourceFillPart D))
      → Option (List (SourceFillPart D))
  cons_part none rest = none
  cons_part (some p) none = none
  cons_part (some p) (some rest) = some (p ∷ rest)

  -- The parts from a sequence index on, in its order; `none` where one is missing.
  unfoldable pub parts_from : List (SourceFillPart D) → ℕ → ℕ → Option (List (SourceFillPart D))
  parts_from parts n ℕ.zero = some []
  parts_from parts n (suc count) = cons_part (get_part n parts) (parts_from parts (suc n) count)

  -- `none` is the `ValueError`. As many different indexes as there are parts are contiguous from zero
  -- where none of these is missing.
  unfoldable pub normalize_live_copy_fill_plan_parts :
      List (SourceFillPart D) → Option (List (SourceFillPart D))
  normalize_live_copy_fill_plan_parts parts =
      if has_duplicates parts
      then none
      else if length parts == 0
      then none
      else parts_from parts 0 (length parts)

  abbrev pub is_of_fill : LiveCopySourceState → String → LiveCopyFillState D → Bool
  is_of_fill source source_fill_id s =
      str_eq s.account_key source.account_key
      && (str_eq s.source_wallet source.source_wallet && str_eq s.source_fill_id source_fill_id)

  -- The rows of the query.
  unfoldable pub states_of_fill :
      LiveCopySourceState → String → List (LiveCopyFillState D) → List (LiveCopyFillState D)
  states_of_fill source source_fill_id [] = []
  states_of_fill source source_fill_id (s ∷ rest) =
      if is_of_fill source source_fill_id s
      then s ∷ states_of_fill source source_fill_id rest
      else states_of_fill source source_fill_id rest

  -- `by_sequence`, whose keys the table's constraint makes unique.
  unfoldable pub get_state : ℕ → List (LiveCopyFillState D) → Option (LiveCopyFillState D)
  get_state n [] = none
  get_state n (s ∷ rest) = if s.sequence_index == n then some s else get_state n rest

  -- `set(by_sequence) == set(range(count))`
  abbrev pub all_below : ℕ → List (LiveCopyFillState D) → Bool
  all_below count [] = true
  all_below count (s ∷ rest) = ltb s.sequence_index count && all_below count rest

  abbrev pub has_all : ℕ → ℕ → List (LiveCopyFillState D) → Bool
  has_all n ℕ.zero states = true
  has_all n (suc count) states = not (is_none (get_state n states)) && has_all (suc n) count states

  -- Every row has the count and the version.
  abbrev pub all_versioned : ℕ → List (LiveCopyFillState D) → Bool
  all_versioned count [] = true
  all_versioned count (s ∷ rest) =
      s.expected_part_count == count
      && (s.plan_version == live_copy_fill_plan_version && all_versioned count rest)

  abbrev pub all_terminal : List (LiveCopyFillState D) → Bool
  all_terminal [] = true
  all_terminal (s ∷ rest) = is_terminal s.outcome && all_terminal rest

  abbrev pub completed : LiveCopyFillState D → LiveCopyFillState D
  completed s = record s { fill_complete = true; next_attempt_at = none }

  unfoldable pub complete_states :
      LiveCopySourceState → String → List (LiveCopyFillState D) → List (LiveCopyFillState D)
  complete_states source source_fill_id [] = []
  complete_states source source_fill_id (s ∷ rest) =
      (if is_of_fill source source_fill_id s then completed s else s)
      ∷ complete_states source source_fill_id rest

  -- The table and the answer; `none` is the `ValueError`.
  unfoldable pub mark_live_copy_fill_complete_if_durable :
      LiveCopySourceState
      → String
      → List (SourceFillPart D)
      → List (LiveCopyFillState D)
      → Option (List (LiveCopyFillState D) × Bool)
  mark_live_copy_fill_complete_if_durable source source_fill_id planned_parts table =
      let states = states_of_fill source source_fill_id table in
      elim (normalize_live_copy_fill_plan_parts planned_parts) [
        | none ↦ none
        | some parts ↦
            let count = length parts in
            if all_below count states
              && has_all 0 count states
              && (all_terminal states && all_versioned count states)
            then some (complete_states source source_fill_id table, true)
            else some (table, false)
      ]

module _ {D : Type 0} ⦃d : Decimal D⦄ where
  abbrev pub same_numeric : Option D → Option D → Bool
  same_numeric none none = true
  same_numeric (some a) (some b) = is_equal a b
  same_numeric _ _ = false

  -- `false` is the `ValueError`.
  unfoldable pub validate_live_copy_fill_plan_state :
      LiveCopyFill D → SourceFillPart D → ℕ → LiveCopyFillState D → Bool
  validate_live_copy_fill_plan_state fill part expected_part_count s =
      s.expected_part_count == expected_part_count
      && (s.plan_version == live_copy_fill_plan_version
          && (str_eq s.coin fill.coin
              && (str_eq (action_text s.action) (action_text part.action)
                  && (side_eq s.side part.side
                      && (s.source_timestamp_ms == fill.timestamp_ms
                          && (s.source_order_direction_rank == fill.direction_rank
                              && (is_equal s.source_order_position fill.position
                                  && same_numeric s.source_order_fill_id_numeric
                                      fill.fill_id_numeric)))))))

  abbrev pub claimed_at : Option Moment → LiveCopyFillState D → LiveCopyFillState D
  claimed_at execution_claimed_at s =
      if is_none s.execution_claimed_at
      then record s { execution_claimed_at = execution_claimed_at }
      else s

  -- The rows that are there, checked against the plan; `none` is the `ValueError`.
  abbrev pub checked : LiveCopyFill D → ℕ → LiveCopyFillState D → Option (SourceFillPart D) → Bool
  checked fill count s none = false
  checked fill count s (some part) = validate_live_copy_fill_plan_state fill part count s

  unfoldable pub validate_all :
      LiveCopyFill D → List (SourceFillPart D) → ℕ → List (LiveCopyFillState D) → Bool
  validate_all fill parts count [] = true
  validate_all fill parts count (s ∷ rest) =
      checked fill count s (get_part s.sequence_index parts) && validate_all fill parts count rest

  unfoldable pub claim_existing :
      LiveCopySourceState
      → String
      → Option Moment
      → List (LiveCopyFillState D)
      → List (LiveCopyFillState D)
  claim_existing source source_fill_id execution_claimed_at [] = []
  claim_existing source source_fill_id execution_claimed_at (s ∷ rest) =
      (if is_of_fill source source_fill_id s then claimed_at execution_claimed_at s else s)
      ∷ claim_existing source source_fill_id execution_claimed_at rest

  abbrev pub new_state :
      LiveCopySourceState
      → LiveCopyFill D
      → PlanContext
      → ℕ
      → SourceFillPart D
      → LiveCopyFillState D
  new_state source fill context count part = record {
    account_key = source.account_key;
    source_wallet = source.source_wallet;
    source_fill_id = fill.source_fill_id;
    sequence_index = part.sequence_index;
    expected_part_count = count;
    plan_version = live_copy_fill_plan_version;
    coin = fill.coin;
    action = part.action;
    side = part.side;
    source_timestamp_ms = fill.timestamp_ms;
    source_order_direction_rank = fill.direction_rank;
    source_order_position = fill.position;
    source_order_fill_id_numeric = fill.fill_id_numeric;
    observed_at = first_some fill.observed_at context.observed_at;
    first_observed_at = context.first_observed_at;
    execution_claimed_at = context.execution_claimed_at;
    processing_started_at = none;
    decision_at = none;
    origin = context.origin;
    outcome = pending;
    reason = none;
    attempt_count = 0;
    first_seen_at = context.now;
    last_attempt_at = none;
    next_attempt_at = none;
    fill_complete = false;
    trading_order_id = none;
  }

  -- The rows that are not there yet.
  unfoldable pub missing_states :
      LiveCopySourceState
      → LiveCopyFill D
      → PlanContext
      → ℕ
      → List (LiveCopyFillState D)
      → List (SourceFillPart D)
      → List (LiveCopyFillState D)
  missing_states source fill context count existing [] = []
  missing_states source fill context count existing (part ∷ parts) =
      let rest = missing_states source fill context count existing parts in
      if is_none (get_state part.sequence_index existing)
      then new_state source fill context count part ∷ rest
      else rest

  -- The table; `none` is the exception, which leaves it as it was.
  unfoldable pub ensure_live_copy_fill_plan_states :
      LiveCopySourceState
      → LiveCopyFill D
      → List (SourceFillPart D)
      → PlanContext
      → List (LiveCopyFillState D)
      → Option (List (LiveCopyFillState D))
  ensure_live_copy_fill_plan_states source fill planned_parts context table =
      elim (normalize_live_copy_fill_plan_parts planned_parts) [
        | none ↦ none
        | some parts ↦
            let existing = states_of_fill source fill.source_fill_id table in
            let count = length parts in
            if str_eq fill.source_fill_id ""
            then none
            else if validate_all fill parts count existing
            then some (
                claim_existing source fill.source_fill_id context.execution_claimed_at table
                ++ missing_states source fill context count existing parts)
            else none
      ]
