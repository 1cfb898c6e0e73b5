-- ===== src/Live/Fill/Part/Progress.antt =====
-- A part whose turn it is can be claimed: backend/app/services/live_copy_state_service.py.
use text.Mathlib.Text.{◌==◌ as str_eq}
use copytrading_agent.Prelude.{
  ℕ, ◌≡◌, ◌∙◌, ap, refl, Bool, true, false, not, ◌||◌, none, some, List, [], ◌∷◌, arith, All,
  length,
}
use copytrading_agent.Decimal.{Decimal}
use copytrading_agent.Signal.Parts.{SourceFillPart}
use copytrading_agent.Signal.Pricing.{Moment}
use copytrading_agent.Live.Work.{TextOrder}
use copytrading_agent.Live.Fill.{LiveCopyFillState, is_terminal}
use copytrading_agent.Live.Fill.Plan.{
  LiveCopySourceState, LiveCopyFill, states_of_fill, get_state, all_below, has_all, all_versioned,
  validate_live_copy_fill_plan_state,
}
use copytrading_agent.Live.Fill.Claim.{
  Ledger, is_entry_action, is_live_copy_fill_post_baseline,
  live_copy_entry_follows_owned_position_lifecycle,
}
use copytrading_agent.Live.Fill.Part.{
  claimed, claim_live_copy_fill_part, claim_planned, unresolved_lower, lower_sequence_blocker,
  get_prior_live_copy_fill_blocker, prior_blocker_in, is_prior_blocker, is_due,
}
use copytrading_agent.Live.Fill.Part.Barriers.{holds_back}
use copytrading_agent.Live.Fill.Part.Turn.{IsInTurn}

module _ {D : Type 0} ⦃d : Decimal D⦄ where
  unresolved_lower-none :
      (ledger : Ledger D) (target : ℕ) (states : List (LiveCopyFillState D))
      → All (λ s. holds_back ledger target s ≡ false) states
      → unresolved_lower ledger target states ≡ none
  unfolding unresolved_lower
  unresolved_lower-none ledger target [] a = refl
  unresolved_lower-none ledger target (s ∷ rest) (p, a) =
      ground (arith, p, unresolved_lower-none ledger target rest a)

  lower_sequence_blocker-none :
      (ledger : Ledger D) (target : ℕ) (states : List (LiveCopyFillState D))
      → All (λ s. holds_back ledger target s ≡ false) states
      → lower_sequence_blocker none target states ≡ none
  unfolding lower_sequence_blocker
  lower_sequence_blocker-none ledger target [] a = refl
  lower_sequence_blocker-none ledger target (s ∷ rest) (p, a) =
      ground (arith, p, lower_sequence_blocker-none ledger target rest a)

  module _ ⦃t : TextOrder⦄ where
    prior_blocker_in-none :
        (ledger : Ledger D) (source : LiveCopySourceState) (fill : LiveCopyFill D)
        (table : List (LiveCopyFillState D))
        → All (λ s. is_prior_blocker ledger source fill s ≡ false) table
        → prior_blocker_in ledger source fill table ≡ none
    unfolding prior_blocker_in
    prior_blocker_in-none ledger source fill [] a = refl
    prior_blocker_in-none ledger source fill (s ∷ rest) (p, a) =
        ground (arith, p, prior_blocker_in-none ledger source fill rest a)

    -- The rows of the fill's plan, as many as its parts, and the part's own agrees with the fill.
    abbrev pub IsPlanned :
        LiveCopySourceState
        → LiveCopyFill D
        → SourceFillPart D
        → List (LiveCopyFillState D)
        → LiveCopyFillState D
        → Type 0
    IsPlanned source fill part table s =
        let states = states_of_fill source fill.source_fill_id table in
        (get_state part.sequence_index states ≡ some s)
        × (all_below (length states) states ≡ true)
        × (has_all 0 (length states) states ≡ true)
        × (all_versioned (length states) states ≡ true)
        × (validate_live_copy_fill_plan_state fill part (length states) s ≡ true)

    claim_planned-in_turn :
        (source : LiveCopySourceState) (fill : LiveCopyFill D) (part : SourceFillPart D)
        (now : Moment) (lease_seconds : ℕ) (entry_is_stale : Bool) (ledger : Ledger D)
        (table : List (LiveCopyFillState D)) (s : LiveCopyFillState D)
        → (s.fill_complete || is_terminal s.outcome) ≡ false
        → (not (is_entry_action part.action)
            || (is_live_copy_fill_post_baseline source fill s.first_observed_at
                || live_copy_entry_follows_owned_position_lifecycle source fill part
                    ledger.positions))
          ≡ true
        → is_due s.next_attempt_at now ≡ true
        → IsInTurn source fill part ledger table
        → (claim_planned source fill part now lease_seconds entry_is_stale ledger table s).0.reason
          ≡ claimed
    unfolding claim_planned get_prior_live_copy_fill_blocker
    claim_planned-in_turn source fill part now lease_seconds entry_is_stale ledger table s undecided
          entry due turn =
        let target = part.sequence_index in
        let states = states_of_fill source fill.source_fill_id table in
        let none_unknown = unresolved_lower-none ledger target states turn.0 in
        let lower : lower_sequence_blocker (unresolved_lower ledger target states) target states
            ≡ none =
          ap (λ u. lower_sequence_blocker u target states) none_unknown
          ∙ lower_sequence_blocker-none ledger target states turn.0 in
        let prior = prior_blocker_in-none ledger source fill table turn.1 in
        ground (arith, undecided, entry, due, lower, prior)

    -- A planned part of an active source that is undecided and due, and that nothing earlier holds back,
    -- is claimed; an entry, if it is after the baseline or continues an owned position.
    pub claim_live_copy_fill_part-claimed :
        (source : LiveCopySourceState) (fill : LiveCopyFill D) (part : SourceFillPart D)
        (now : Moment) (lease_seconds : ℕ) (entry_is_stale : Bool) (ledger : Ledger D)
        (table : List (LiveCopyFillState D)) (s : LiveCopyFillState D)
        → source.is_active ≡ true
        → str_eq fill.source_fill_id "" ≡ false
        → IsPlanned source fill part table s
        → (s.fill_complete || is_terminal s.outcome) ≡ false
        → (not (is_entry_action part.action)
            || (is_live_copy_fill_post_baseline source fill s.first_observed_at
                || live_copy_entry_follows_owned_position_lifecycle source fill part
                    ledger.positions))
          ≡ true
        → is_due s.next_attempt_at now ≡ true
        → IsInTurn source fill part ledger table
        → (claim_live_copy_fill_part
            (some source)
            fill
            part
            now
            lease_seconds
            entry_is_stale
            ledger
            table).0.reason
          ≡ claimed
    unfolding claim_live_copy_fill_part
    claim_live_copy_fill_part-claimed source fill part now lease_seconds entry_is_stale ledger table
          s active id planned undecided entry due turn =
        let inner =
          claim_planned-in_turn source fill part now lease_seconds entry_is_stale ledger table s
            undecided entry due turn in
        ground (arith, active, id, planned.0, planned.1, planned.2, planned.3, planned.4, inner)
