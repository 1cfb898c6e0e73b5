-- ===== src/Live/Fill/Part.antt =====
-- The claim of one part of a source fill: backend/app/services/live_copy_state_service.py. A claim is
-- one transaction, whose locks keep the rows that it reads.
pub mod Barriers
pub mod Leased
pub mod Leases
pub mod Progress
pub mod Rows
pub mod Turn
use text.Mathlib.Text.{◌==◌ as str_eq}
use copytrading_agent.Prelude.{
  ℕ, ◌+◌, ◌*◌, String, Bool, true, false, not, ◌&&◌, ◌||◌, Option, none, some, List, [], ◌∷◌, leb,
  ltb, ◌==◌, is_none, length, if◌then◌else◌,
}
use copytrading_agent.Decimal.{Decimal, ◌⩽◌, ◌⋖◌, is_equal}
use copytrading_agent.Signal.Parts.{SourceFillPart}
use copytrading_agent.Signal.Pricing.{Moment}
use copytrading_agent.Live.Work.{TextOrder}
use copytrading_agent.Live.Fill.{LiveCopyFillState, retryable, is_terminal}
use copytrading_agent.Live.Fill.Plan.{
  LiveCopySourceState, LiveCopyFill, states_of_fill, get_state, all_below, has_all, all_versioned,
  validate_live_copy_fill_plan_state,
}
use copytrading_agent.Live.Fill.Claim.{
  Ledger, is_unresolved, is_entry_action, is_live_copy_fill_post_baseline,
  live_copy_entry_follows_owned_position_lifecycle,
}

pub data ClaimReason : Type 0 where
  claimed baseline blocked complete missing_plan not_due : ClaimReason

pub record LiveCopyPartClaim (D : Type 0) : Type 0 where
  pub state : Option (LiveCopyFillState D)
  pub reason : ClaimReason

abbrev pub is_due : Option Moment → Moment → Bool
is_due none now = true
is_due (some next_attempt_at) now = leb next_attempt_at now

module _ {D : Type 0} where
  abbrev pub same_row : LiveCopyFillState D → LiveCopyFillState D → Bool
  same_row a b =
      str_eq a.account_key b.account_key
      && (str_eq a.source_wallet b.source_wallet
          && (str_eq a.source_fill_id b.source_fill_id && a.sequence_index == b.sequence_index))

  unfoldable pub replace_state :
      LiveCopyFillState D → List (LiveCopyFillState D) → List (LiveCopyFillState D)
  replace_state new [] = []
  replace_state new (s ∷ rest) = (if same_row s new then new else s) ∷ replace_state new rest

  -- Of two rows, the one with the lower sequence index, the first where they are equal.
  abbrev pub lower_of :
      LiveCopyFillState D → Option (LiveCopyFillState D) → Option (LiveCopyFillState D)
  lower_of s none = some s
  lower_of s (some t) = if leb s.sequence_index t.sequence_index then some s else some t

  abbrev pub is_at : LiveCopyFillState D → Option (LiveCopyFillState D) → Bool
  is_at s none = false
  is_at s (some t) = s.sequence_index == t.sequence_index

  -- The five assignments; the lease is at least a second.
  abbrev pub processing : Moment → ℕ → LiveCopyFillState D → LiveCopyFillState D
  processing now lease_seconds s = record s {
    outcome = retryable;
    reason = some "processing";
    last_attempt_at = some now;
    processing_started_at =
        if is_none s.processing_started_at then some now else s.processing_started_at;
    next_attempt_at = some (now + (if leb lease_seconds 1 then 1 else lease_seconds) * 1_000_000);
  }

module _ {D : Type 0} ⦃d : Decimal D⦄ where
  -- `unresolved_lower_sequence`: the lowest row of the fill before the target whose order's effect is
  -- not known.
  unfoldable pub unresolved_lower :
      Ledger D → ℕ → List (LiveCopyFillState D) → Option (LiveCopyFillState D)
  unresolved_lower ledger target [] = none
  unresolved_lower ledger target (s ∷ rest) =
      let later = unresolved_lower ledger target rest in
      if ltb s.sequence_index target && is_unresolved ledger s then lower_of s later else later

  unfoldable pub lower_sequence_blocker :
      Option (LiveCopyFillState D) → ℕ → List (LiveCopyFillState D) → Option (LiveCopyFillState D)
  lower_sequence_blocker unresolved target [] = none
  lower_sequence_blocker unresolved target (s ∷ rest) =
      let later = lower_sequence_blocker unresolved target rest in
      if ltb s.sequence_index target && (not (is_terminal s.outcome) || is_at s unresolved)
      then lower_of s later
      else later

  module _ ⦃t : TextOrder⦄ where
    -- `earlier_source_order`, from its numeric rank on.
    abbrev pub earlier_id : Option D → Option D → String → String → Bool
    earlier_id (some m) (some n) a b = m ⋖ n || is_equal m n && t.text_lt a b
    earlier_id (some m) none a b = true
    earlier_id none (some n) a b = false
    earlier_id none none a b = t.text_lt a b

    unfoldable pub earlier_source_order : LiveCopyFill D → LiveCopyFillState D → Bool
    earlier_source_order fill s =
        ltb s.source_timestamp_ms fill.timestamp_ms
        || s.source_timestamp_ms == fill.timestamp_ms
          && (ltb s.source_order_direction_rank fill.direction_rank
              || s.source_order_direction_rank == fill.direction_rank
                && (s.source_order_position ⋖ fill.position
                    || is_equal s.source_order_position fill.position
                      && earlier_id s.source_order_fill_id_numeric fill.fill_id_numeric
                          s.source_fill_id fill.source_fill_id))

    -- The `where` of the query.
    unfoldable pub is_prior_blocker :
        Ledger D → LiveCopySourceState → LiveCopyFill D → LiveCopyFillState D → Bool
    is_prior_blocker ledger source fill s =
        str_eq s.account_key source.account_key
        && (str_eq s.source_wallet source.source_wallet
            && (str_eq s.coin fill.coin
                && ((not s.fill_complete && not (is_terminal s.outcome) || is_unresolved ledger s)
                    && earlier_source_order fill s)))

    -- The row that the query's order has first: the lower sequence index where a fill has two.
    abbrev pub earlier_row : LiveCopyFillState D → LiveCopyFillState D → Bool
    earlier_row a b =
        ltb a.source_timestamp_ms b.source_timestamp_ms
        || a.source_timestamp_ms == b.source_timestamp_ms
          && (ltb a.source_order_direction_rank b.source_order_direction_rank
              || a.source_order_direction_rank == b.source_order_direction_rank
                && (a.source_order_position ⋖ b.source_order_position
                    || is_equal a.source_order_position b.source_order_position
                      && (earlier_id a.source_order_fill_id_numeric b.source_order_fill_id_numeric
                            a.source_fill_id b.source_fill_id
                          || str_eq a.source_fill_id b.source_fill_id
                            && ltb a.sequence_index b.sequence_index)))

    abbrev pub earlier_of :
        LiveCopyFillState D → Option (LiveCopyFillState D) → Option (LiveCopyFillState D)
    earlier_of s none = some s
    earlier_of s (some u) = if earlier_row u s then some u else some s

    unfoldable pub prior_blocker_in :
        Ledger D
        → LiveCopySourceState
        → LiveCopyFill D
        → List (LiveCopyFillState D)
        → Option (LiveCopyFillState D)
    prior_blocker_in ledger source fill [] = none
    prior_blocker_in ledger source fill (s ∷ rest) =
        let later = prior_blocker_in ledger source fill rest in
        if is_prior_blocker ledger source fill s then earlier_of s later else later

    unfoldable pub get_prior_live_copy_fill_blocker :
        Ledger D
        → LiveCopySourceState
        → LiveCopyFill D
        → List (LiveCopyFillState D)
        → Option (LiveCopyFillState D)
    get_prior_live_copy_fill_blocker ledger source fill table =
        if str_eq fill.source_fill_id ""
        then none
        else if str_eq fill.coin ""
        then none
        else prior_blocker_in ledger source fill table

    -- The claim and the table after it.
    abbrev pub refused :
        List (LiveCopyFillState D)
        → Option (LiveCopyFillState D)
        → ClaimReason
        → LiveCopyPartClaim D × List (LiveCopyFillState D)
    refused table state reason = (record { state = state; reason = reason }, table)

    -- From the due time on.
    abbrev pub claim_if_due :
        Moment
        → ℕ
        → List (LiveCopyFillState D)
        → LiveCopyFillState D
        → LiveCopyPartClaim D × List (LiveCopyFillState D)
    claim_if_due now lease_seconds table s =
        if is_due s.next_attempt_at now
        then (
          record { state = some (processing now lease_seconds s); reason = claimed },
          replace_state (processing now lease_seconds s) table,
        )
        else refused table (some s) not_due

    -- The two barriers of order.
    abbrev pub claim_in_turn :
        Moment
        → ℕ
        → List (LiveCopyFillState D)
        → LiveCopyFillState D
        → Option (LiveCopyFillState D)
        → Option (LiveCopyFillState D)
        → LiveCopyPartClaim D × List (LiveCopyFillState D)
    claim_in_turn now lease_seconds table s (some lower) prior = refused table (some lower) blocked
    claim_in_turn now lease_seconds table s none (some prior) = refused table (some prior) blocked
    claim_in_turn now lease_seconds table s none none = claim_if_due now lease_seconds table s

    -- From the checks of the plan on.
    unfoldable pub claim_planned :
        LiveCopySourceState
        → LiveCopyFill D
        → SourceFillPart D
        → Moment
        → ℕ
        → Bool
        → Ledger D
        → List (LiveCopyFillState D)
        → LiveCopyFillState D
        → LiveCopyPartClaim D × List (LiveCopyFillState D)
    claim_planned source fill part now lease_seconds entry_is_stale ledger table s =
        let states = states_of_fill source fill.source_fill_id table in
        let is_entry_part = is_entry_action part.action in
        if s.fill_complete || is_terminal s.outcome
        then refused table (some s) complete
        else if is_entry_part
            && (not (is_live_copy_fill_post_baseline source fill s.first_observed_at)
                && not (
                    live_copy_entry_follows_owned_position_lifecycle source fill part
                      ledger.positions))
        then refused table (some s) baseline
        else if is_entry_part && entry_is_stale
        then claim_if_due now lease_seconds table s
        else claim_in_turn now lease_seconds table s
            (lower_sequence_blocker (unresolved_lower ledger part.sequence_index states)
              part.sequence_index states)
            (get_prior_live_copy_fill_blocker ledger source fill table)

    abbrev pub claim_target :
        LiveCopySourceState
        → LiveCopyFill D
        → SourceFillPart D
        → Moment
        → ℕ
        → Bool
        → Ledger D
        → List (LiveCopyFillState D)
        → Option (LiveCopyFillState D)
        → LiveCopyPartClaim D × List (LiveCopyFillState D)
    claim_target source fill part now lease_seconds entry_is_stale ledger table none =
        refused table none missing_plan
    claim_target source fill part now lease_seconds entry_is_stale ledger table (some s) =
        let states = states_of_fill source fill.source_fill_id table in
        let count = length states in
        if all_below count states && (has_all 0 count states && all_versioned count states)
        then if validate_live_copy_fill_plan_state fill part count s
          then claim_planned source fill part now lease_seconds entry_is_stale ledger table s
          else refused table (some s) missing_plan
        else refused table (some s) missing_plan

    -- `source` is the row as it is read again under the lock.
    unfoldable pub claim_live_copy_fill_part :
        Option LiveCopySourceState
        → LiveCopyFill D
        → SourceFillPart D
        → Moment
        → ℕ
        → Bool
        → Ledger D
        → List (LiveCopyFillState D)
        → LiveCopyPartClaim D × List (LiveCopyFillState D)
    claim_live_copy_fill_part none fill part now lease_seconds entry_is_stale ledger table =
        refused table none missing_plan
    claim_live_copy_fill_part (some source) fill part now lease_seconds entry_is_stale ledger
          table =
        if not source.is_active
        then refused table none missing_plan
        else if str_eq fill.source_fill_id ""
        then refused table none missing_plan
        else claim_target source fill part now lease_seconds entry_is_stale ledger table
            (get_state part.sequence_index (states_of_fill source fill.source_fill_id table))
