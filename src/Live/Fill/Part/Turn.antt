-- ===== src/Live/Fill/Part/Turn.antt =====
-- Parts are claimed in the order of the source, one at a time:
-- backend/app/services/live_copy_state_service.py.
use text.Mathlib.Text.{◌==◌ as str_eq}
use copytrading_agent.Prelude.{
  ℕ, ◌≡◌, ◌≢◌, ◌⊎◌, ◌∙◌, refl, Bool, true, false, not, ◌&&◌, ◌||◌, Option, none, some, List, arith,
  All, Option-cases, Bool-cases, inl, inr,
}
use copytrading_agent.Decimal.{Decimal}
use copytrading_agent.Signal.Parts.{SourceFillPart}
use copytrading_agent.Signal.Pricing.{Moment}
use copytrading_agent.Live.Work.{TextOrder}
use copytrading_agent.Live.Fill.{LiveCopyFillState, is_terminal}
use copytrading_agent.Live.Fill.Plan.{LiveCopySourceState, LiveCopyFill, states_of_fill, get_state}
use copytrading_agent.Live.Fill.Claim.{
  Ledger, is_entry_action, is_live_copy_fill_post_baseline,
  live_copy_entry_follows_owned_position_lifecycle,
}
use copytrading_agent.Live.Fill.Part.{
  claimed, LiveCopyPartClaim, claim_live_copy_fill_part, claim_planned, unresolved_lower,
  lower_sequence_blocker, get_prior_live_copy_fill_blocker, prior_blocker_in, is_prior_blocker,
  replace_state, processing, is_due,
}
use copytrading_agent.Live.Fill.Part.Barriers.{holds_back, lower-holds_back, prior_blocker_in-All}

module _ {D : Type 0} ⦃d : Decimal D⦄ where
  module _ ⦃t : TextOrder⦄ where
    -- Nothing earlier holds the part back: no part of its fill with a lower index, and no part of an
    -- earlier fill of the wallet and coin.
    abbrev pub IsInTurn :
        LiveCopySourceState
        → LiveCopyFill D
        → SourceFillPart D
        → Ledger D
        → List (LiveCopyFillState D)
        → Type 0
    IsInTurn source fill part ledger table =
        All (λ s. holds_back ledger part.sequence_index s ≡ false)
          (states_of_fill source fill.source_fill_id table)
        × All (λ s. is_prior_blocker ledger source fill s ≡ false) table

    claim_planned-claimed :
        (source : LiveCopySourceState) (fill : LiveCopyFill D) (part : SourceFillPart D)
        (now : Moment) (lease_seconds : ℕ) (entry_is_stale : Bool) (ledger : Ledger D)
        (table : List (LiveCopyFillState D)) (s : LiveCopyFillState D)
        → str_eq fill.coin "" ≡ false
        → str_eq fill.source_fill_id "" ≡ false
        → (claim_planned source fill part now lease_seconds entry_is_stale ledger table s).0.reason
          ≡ claimed
        → ((s.fill_complete || is_terminal s.outcome) ≡ false)
          × ((not (is_entry_action part.action)
                || (is_live_copy_fill_post_baseline source fill s.first_observed_at
                    || live_copy_entry_follows_owned_position_lifecycle source fill part
                        ledger.positions))
              ≡ true)
          × (is_due s.next_attempt_at now ≡ true)
          × (((is_entry_action part.action && entry_is_stale) ≡ true)
              ⊎ IsInTurn source fill part ledger table)
          × (claim_planned source fill part now lease_seconds entry_is_stale ledger table s ≡ (
            record { state = some (processing now lease_seconds s); reason = claimed },
            replace_state (processing now lease_seconds s) table,
          ))
    unfolding claim_planned get_prior_live_copy_fill_blocker
    claim_planned-claimed source fill part now lease_seconds entry_is_stale ledger table s nc nf h =
        let target = part.sequence_index in
        let states = states_of_fill source fill.source_fill_id table in
        elim (Option-cases
          (lower_sequence_blocker (unresolved_lower ledger target states) target states)) [
            | inl lower ↦ elim (Option-cases (prior_blocker_in ledger source fill table)) [
              | inl prior ↦
                  let turn : IsInTurn source fill part ledger table = (
                    lower-holds_back ledger target states lower,
                    prior_blocker_in-All ledger source fill table prior,
                  ) in
                  (
                    ground (arith, lower, prior),
                    ground (arith, lower, prior),
                    ground (arith, lower, prior),
                    inr turn,
                    ground (arith, lower, prior),
                  )
              | inr (v, prior) ↦ (
                ground (arith, lower, prior),
                ground (arith, lower, prior),
                ground (arith, lower, prior),
                inl (ground (arith, lower, prior)),
                ground (arith, lower, prior),
              )
            ]
            | inr (v, lower) ↦ (
              ground (arith, lower),
              ground (arith, lower),
              ground (arith, lower),
              inl (ground (arith, lower)),
              ground (arith, lower),
            )
          ]

    -- What a successful claim found at the part's row, and what it wrote.
    abbrev pub IsClaim :
        LiveCopySourceState
        → LiveCopyFill D
        → SourceFillPart D
        → Moment
        → ℕ
        → Bool
        → Ledger D
        → List (LiveCopyFillState D)
        → LiveCopyPartClaim D × List (LiveCopyFillState D)
        → LiveCopyFillState D
        → Type 0
    IsClaim source fill part now lease_seconds entry_is_stale ledger table r s =
        (get_state part.sequence_index (states_of_fill source fill.source_fill_id table) ≡ some s)
        × ((s.fill_complete || is_terminal s.outcome) ≡ false)
        × ((not (is_entry_action part.action)
              || (is_live_copy_fill_post_baseline source fill s.first_observed_at
                  || live_copy_entry_follows_owned_position_lifecycle source fill part
                      ledger.positions))
            ≡ true)
        × (is_due s.next_attempt_at now ≡ true)
        × (((is_entry_action part.action && entry_is_stale) ≡ true)
            ⊎ IsInTurn source fill part ledger table)
        × (r ≡ (
          record { state = some (processing now lease_seconds s); reason = claimed },
          replace_state (processing now lease_seconds s) table,
        ))

    -- A part with a coin is claimed only while its source is active, where the part is undecided and
    -- due; an entry, only after the baseline or as the continuation of an owned position; and, but for a
    -- stale entry, only when no part of the fill with a lower index and no part of an earlier fill of the
    -- wallet's coin is undecided or has an order of unknown effect. The claim writes a lease into the
    -- part's row.
    pub claim_live_copy_fill_part-IsClaim :
        (source : LiveCopySourceState) (fill : LiveCopyFill D) (part : SourceFillPart D)
        (now : Moment) (lease_seconds : ℕ) (entry_is_stale : Bool) (ledger : Ledger D)
        (table : List (LiveCopyFillState D))
        → str_eq fill.coin "" ≡ false
        → (claim_live_copy_fill_part
            (some source)
            fill
            part
            now
            lease_seconds
            entry_is_stale
            ledger
            table).0.reason
          ≡ claimed
        → (source.is_active ≡ true)
          × (s : LiveCopyFillState D) × IsClaim source fill part now lease_seconds entry_is_stale
              ledger table
              (claim_live_copy_fill_part
                (some source)
                fill
                part
                now
                lease_seconds
                entry_is_stale
                ledger
                table)
              s
    unfolding claim_live_copy_fill_part
    claim_live_copy_fill_part-IsClaim source fill part now lease_seconds entry_is_stale ledger table
          nc h =
        elim (Bool-cases source.is_active) [
          | inr q ↦ absurd (ground (arith, q))
          | inl active ↦ elim (Bool-cases (str_eq fill.source_fill_id "")) [
            | inl q ↦ absurd (ground (arith, q, active))
            | inr nf ↦
                elim (Option-cases (
                  get_state part.sequence_index
                    (states_of_fill source fill.source_fill_id table))) [
                      | inl e ↦ absurd (ground (arith, e, nf, active))
                      | inr (s, e) ↦
                          let planned =
                            claim_planned source fill part now lease_seconds entry_is_stale ledger
                              table s in
                          let same : (claim_live_copy_fill_part (some source) fill part now
                                  lease_seconds entry_is_stale ledger table
                                ≡ planned)
                              × (planned.0.reason ≡ claimed) =
                            ground (arith, e, nf, active) in
                          let found =
                            claim_planned-claimed source fill part now lease_seconds entry_is_stale
                              ledger table s nc nf same.1 in
                          (active, s, (e, found.0, found.1, found.2, found.3, same.0 ∙ found.4))
                    ]
          ]
        ]

    claim_planned-refused :
        (source : LiveCopySourceState) (fill : LiveCopyFill D) (part : SourceFillPart D)
        (now : Moment) (lease_seconds : ℕ) (entry_is_stale : Bool) (ledger : Ledger D)
        (table : List (LiveCopyFillState D)) (s : LiveCopyFillState D)
        → (claim_planned source fill part now lease_seconds entry_is_stale ledger table s).0.reason
          ≢ claimed
        → (claim_planned source fill part now lease_seconds entry_is_stale ledger table s).1 ≡ table
    unfolding claim_planned
    claim_planned-refused source fill part now lease_seconds entry_is_stale ledger table s h =
        let target = part.sequence_index in
        let states = states_of_fill source fill.source_fill_id table in
        elim (Option-cases
          (lower_sequence_blocker (unresolved_lower ledger target states) target states)) [
            | inl lower ↦
                elim (Option-cases (get_prior_live_copy_fill_blocker ledger source fill table)) [
                  | inl prior ↦ ground (arith, lower, prior)
                  | inr (v, prior) ↦ ground (arith, lower, prior)
                ]
            | inr (v, lower) ↦ ground (arith, lower)
          ]

    -- A claim that does not succeed changes nothing.
    pub claim_live_copy_fill_part-refused :
        (source : Option LiveCopySourceState) (fill : LiveCopyFill D) (part : SourceFillPart D)
        (now : Moment) (lease_seconds : ℕ) (entry_is_stale : Bool) (ledger : Ledger D)
        (table : List (LiveCopyFillState D))
        → (claim_live_copy_fill_part source fill part now lease_seconds entry_is_stale ledger
            table).0.reason
          ≢ claimed
        → (claim_live_copy_fill_part source fill part now lease_seconds entry_is_stale ledger
            table).1
          ≡ table
    unfolding claim_live_copy_fill_part
    claim_live_copy_fill_part-refused none fill part now lease_seconds entry_is_stale ledger table
          h =
        refl
    claim_live_copy_fill_part-refused (some source) fill part now lease_seconds entry_is_stale
          ledger table h =
        elim (Option-cases
          (get_state part.sequence_index (states_of_fill source fill.source_fill_id table))) [
            | inl e ↦ ground (arith, e)
            | inr (s, e) ↦ ground (
              arith,
              e,
              claim_planned-refused source fill part now lease_seconds entry_is_stale ledger table
                  s,
            )
          ]
