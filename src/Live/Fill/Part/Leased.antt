-- ===== src/Live/Fill/Part/Leased.antt =====
-- What a claim of a part writes, and the row that it leases:
-- backend/app/services/live_copy_state_service.py.
use copytrading_agent.Prelude.{
  ℕ, ◌<◌, String, ◌≡◌, ◌++◌, ◌∙◌, ap, sym, refl, Bool, true, false, ◌&&◌, Option, none, some, List,
  [], ◌∷◌, arith, ◌==◌, Bool-cases, Option-cases, inl, inr,
}
use copytrading_agent.Decimal.{Decimal}
use copytrading_agent.Signal.Parts.{SourceFillPart}
use copytrading_agent.Signal.Pricing.{Moment}
use copytrading_agent.Live.Work.{TextOrder}
use copytrading_agent.Live.Fill.{LiveCopyFillState}
use copytrading_agent.Live.Fill.Plan.{
  LiveCopySourceState, LiveCopyFill, states_of_fill, get_state, is_of_fill,
}
use copytrading_agent.Live.Fill.Claim.{Ledger}
use copytrading_agent.Live.Fill.Part.{
  claimed, claim_planned, claim_live_copy_fill_part, replace_state, processing, is_due,
}
use copytrading_agent.Live.Fill.Part.Rows.{
  get_state-replace_state, get_state-replace_state_other, states_of_fill-same,
}

module _ {D : Type 0} ⦃d : Decimal D⦄ ⦃t : TextOrder⦄ where
  claim_planned-due :
      (source : LiveCopySourceState) (fill : LiveCopyFill D) (part : SourceFillPart D)
      (now : Moment) (lease_seconds : ℕ) (stale : Bool) (ledger : Ledger D)
      (table : List (LiveCopyFillState D)) (s : LiveCopyFillState D)
      → let result = claim_planned source fill part now lease_seconds stale ledger table s in
        result.0.reason ≡ claimed
        → (is_due s.next_attempt_at now ≡ true)
          × (result.1 ≡ replace_state (processing now lease_seconds s) table)
  unfolding claim_planned
  claim_planned-due source fill part now lease_seconds stale ledger table s h = ground arith

  -- What a claim finds and writes.
  pub claim-due :
      (read : Option LiveCopySourceState) (fill : LiveCopyFill D) (part : SourceFillPart D)
      (now : Moment) (lease_seconds : ℕ) (stale : Bool) (ledger : Ledger D)
      (table : List (LiveCopyFillState D))
      → let result =
          claim_live_copy_fill_part read fill part now lease_seconds stale ledger table in
        result.0.reason ≡ claimed
        → (source : LiveCopySourceState) × (read ≡ some source)
          × (s : LiveCopyFillState D) × (get_state part.sequence_index
                (states_of_fill source fill.source_fill_id table)
              ≡ some s)
          × (is_due s.next_attempt_at now ≡ true)
          × (result.1 ≡ replace_state (processing now lease_seconds s) table)
  unfolding claim_live_copy_fill_part
  claim-due none fill part now lease_seconds stale ledger table h = absurd (ground arith)
  claim-due (some source) fill part now lease_seconds stale ledger table h =
      elim (Option-cases
        (get_state part.sequence_index (states_of_fill source fill.source_fill_id table))) [
          | inl e ↦ absurd (ground (arith, e))
          | inr (s, e) ↦
              let planned =
                claim_planned-due source fill part now lease_seconds stale ledger table s in
              (source, refl, s, e, ground (arith, e, planned), ground (arith, e, planned))
        ]

module _ {D : Type 0} where
  pub get_state-added :
      (source : LiveCopySourceState) (id : String) (n : ℕ) (table rows : List (LiveCopyFillState D))
      (s : LiveCopyFillState D)
      → get_state n (states_of_fill source id table) ≡ some s
      → get_state n (states_of_fill source id (table ++ rows)) ≡ some s
  unfolding get_state states_of_fill
  get_state-added source id n [] rows s h = absurd (ground arith)
  get_state-added source id n (u ∷ rest) rows s h =
      let IH = get_state-added source id n rest rows s in
      elim (Bool-cases (is_of_fill source id u)) [
        | inr q ↦ ground (arith, q, IH)
        | inl q ↦ elim (Bool-cases (u.sequence_index == n)) [
          | inl r ↦ ground (arith, q, r)
          | inr r ↦ ground (arith, q, r, IH)
        ]
      ]

  -- The row of the key is due again at the moment.
  abbrev pub IsLeased :
      LiveCopySourceState → String → ℕ → Moment → List (LiveCopyFillState D) → Type 0
  IsLeased source id n until table =
      (s : LiveCopyFillState D) × (get_state n (states_of_fill source id table) ≡ some s)
      × (s.next_attempt_at ≡ some until)

  pub IsLeased-replace_state :
      (source : LiveCopySourceState) (id : String) (n : ℕ) (until : Moment)
      (table : List (LiveCopyFillState D)) (new : LiveCopyFillState D)
      → IsLeased source id n until table
      → ((is_of_fill source id new && new.sequence_index == n) ≡ true
          → new.next_attempt_at ≡ some until)
      → IsLeased source id n until (replace_state new table)
  IsLeased-replace_state source id n until table new (s, found, lease) keep =
      elim (Bool-cases (is_of_fill source id new && new.sequence_index == n)) [
        | inl q ↦ (
          new,
          get_state-replace_state source id n table s new (ground (arith, q)) (ground (arith, q))
              found,
          keep q,
        )
        | inr q ↦ (s, get_state-replace_state_other source id n table new q ∙ found, lease)
      ]

  -- The row of a leased key is not due before the moment, however its key is come by.
  pub IsLeased-not_due :
      (source other : LiveCopySourceState) (id id' : String) (n n' : ℕ) (until now : Moment)
      (table : List (LiveCopyFillState D)) (u : LiveCopyFillState D)
      → IsLeased source id n until table
      → now < until
      → other.account_key ≡ source.account_key
      → other.source_wallet ≡ source.source_wallet
      → id' ≡ id
      → n' ≡ n
      → get_state n' (states_of_fill other id' table) ≡ some u
      → is_due u.next_attempt_at now ≡ false
  IsLeased-not_due source other id id' n n' until now table u (s, found, lease) within a w i m h =
      let same : some s ≡ some u =
        sym found
        ∙ (ap (get_state n) (sym (states_of_fill-same other source id table a w))
            ∙ (ap (λ x. get_state n (states_of_fill other x table)) (sym i)
                ∙ (ap (λ x. get_state x (states_of_fill other id' table)) (sym m) ∙ h))) in
      ground (arith, same, lease, within)
