-- ===== src/Live/Fill/Part/Leases.antt =====
-- A claimed part is not claimed again while its lease lasts:
-- backend/app/services/live_copy_state_service.py.
use mathlib.Core.Path.{subst}
use text.Mathlib.TextEquality.{eq_iff}
use copytrading_agent.Prelude.{
  ℕ, ◌+◌, ◌*◌, ◌<◌, String, ◌≡◌, ◌≢◌, ◌⊎◌, ◌++◌, ◌∙◌, ap, sym, refl, Bool, true, ◌&&◌, Option, some,
  List, [], ◌∷◌, arith, leb, ◌==◌, if◌then◌else◌, All, inl, inr,
}
use copytrading_agent.Decimal.{Decimal}
use copytrading_agent.Signal.Parts.{SourceFillPart}
use copytrading_agent.Signal.Pricing.{Moment}
use copytrading_agent.Live.Work.{TextOrder}
use copytrading_agent.Live.Fill.{LiveCopyFillState}
use copytrading_agent.Live.Fill.Plan.{
  LiveCopySourceState, LiveCopyFill, states_of_fill, get_state, is_of_fill,
}
use copytrading_agent.Live.Fill.Claim.{Ledger}
use copytrading_agent.Live.Fill.Part.{
  ClaimReason, claimed, claim_live_copy_fill_part, replace_state, processing,
}
use copytrading_agent.Live.Fill.Part.Rows.{get_state-found, get_state-replace_state}
use copytrading_agent.Live.Fill.Part.Turn.{claim_live_copy_fill_part-refused}
use copytrading_agent.Live.Fill.Part.Leased.{
  claim-due, get_state-added, IsLeased, IsLeased-replace_state, IsLeased-not_due,
}

-- The length of a lease in microseconds: at least a second.
abbrev pub lease_of : ℕ → ℕ
lease_of lease_seconds = (if leb lease_seconds 1 then 1 else lease_seconds) * 1_000_000

is_claimed-or_not : (r : ClaimReason) → (r ≡ claimed) ⊎ (r ≢ claimed)
is_claimed-or_not claimed = inl refl
is_claimed-or_not _ = inr (ground arith)

-- A write of the table of parts: a claim, the replacement of a row, or the insertion of new rows.
pub data TableWrite (D : Type 0) : Type 0 where
  claim_part :
      Option LiveCopySourceState
      → LiveCopyFill D
      → SourceFillPart D
      → Moment
      → ℕ
      → Bool
      → Ledger D
      → TableWrite D
  set_row : LiveCopyFillState D → TableWrite D
  add_rows : List (LiveCopyFillState D) → TableWrite D

module _ {D : Type 0} ⦃d : Decimal D⦄ ⦃t : TextOrder⦄ where
  abbrev pub apply_write : TableWrite D → List (LiveCopyFillState D) → List (LiveCopyFillState D)
  apply_write (claim_part read fill part now lease_seconds stale ledger) table =
      (claim_live_copy_fill_part read fill part now lease_seconds stale ledger table).1
  apply_write (set_row new) table = replace_state new table
  apply_write (add_rows rows) table = table ++ rows

  unfoldable pub run_writes :
      List (TableWrite D) → List (LiveCopyFillState D) → List (LiveCopyFillState D)
  run_writes [] table = table
  run_writes (w ∷ writes) table = run_writes writes (apply_write w table)

  -- A claim before the moment, with whatever it reads; a row of another key, or one that is still due
  -- at the moment; or new rows.
  abbrev pub KeepsLease : LiveCopySourceState → String → ℕ → Moment → TableWrite D → Type 0
  KeepsLease source id n until (claim_part read fill part now lease_seconds stale ledger) =
      now < until
  KeepsLease source id n until (set_row new) =
      (is_of_fill source id new && new.sequence_index == n) ≡ true
      → new.next_attempt_at ≡ some until
  KeepsLease source id n until (add_rows rows) = Unit

  IsLeased-claim :
      (source : LiveCopySourceState) (id : String) (n : ℕ) (until : Moment)
      (read : Option LiveCopySourceState) (fill : LiveCopyFill D) (part : SourceFillPart D)
      (now : Moment) (lease_seconds : ℕ) (stale : Bool) (ledger : Ledger D)
      (table : List (LiveCopyFillState D))
      → IsLeased source id n until table
      → now < until
      → IsLeased source id n until
          (claim_live_copy_fill_part read fill part now lease_seconds stale ledger table).1
  IsLeased-claim source id n until read fill part now lease_seconds stale ledger table l within =
      let result = claim_live_copy_fill_part read fill part now lease_seconds stale ledger table in
      elim (is_claimed-or_not result.0.reason) [
        | inr kept ↦
            subst (IsLeased source id n until)
              (sym (
                claim_live_copy_fill_part-refused read fill part now lease_seconds stale ledger
                  table kept))
              l
        | inl ok ↦
            let (other, e, s, found, due, written) =
              claim-due read fill part now lease_seconds stale ledger table ok in
            let key = get_state-found other fill.source_fill_id part.sequence_index table s found in
            subst (IsLeased source id n until) (sym written) (
              IsLeased-replace_state source id n until table (processing now lease_seconds s) l
                (λ own. absurd (
                  ground (
                    arith,
                    due,
                    key,
                    own,
                    eq_iff s.account_key source.account_key,
                    eq_iff s.source_wallet source.source_wallet,
                    eq_iff s.source_fill_id id,
                    eq_iff s.account_key other.account_key,
                    eq_iff s.source_wallet other.source_wallet,
                    eq_iff s.source_fill_id fill.source_fill_id,
                    IsLeased-not_due source other id fill.source_fill_id n part.sequence_index until
                        now table s l within,
                  ))))
      ]

  IsLeased-run_writes :
      (source : LiveCopySourceState) (id : String) (n : ℕ) (until : Moment)
      (writes : List (TableWrite D)) (table : List (LiveCopyFillState D))
      → IsLeased source id n until table
      → All (KeepsLease source id n until) writes
      → IsLeased source id n until (run_writes writes table)
  unfolding run_writes
  IsLeased-run_writes source id n until [] table l k = l
  IsLeased-run_writes source id n until
        (claim_part read fill part now lease_seconds stale ledger ∷ writes) table l (k, ks) =
      IsLeased-run_writes source id n until writes _
        (IsLeased-claim source id n until read fill part now lease_seconds stale ledger table l k)
        ks
  IsLeased-run_writes source id n until (set_row new ∷ writes) table l (k, ks) =
      IsLeased-run_writes source id n until writes _
        (IsLeased-replace_state source id n until table new l k) ks
  IsLeased-run_writes source id n until (add_rows rows ∷ writes) table (s, found, lease) (k, ks) =
      IsLeased-run_writes source id n until writes _
        (s, get_state-added source id n table rows s found, lease) ks

  -- A successful claim leases the part's row.
  claim-IsLeased :
      (source : LiveCopySourceState) (fill : LiveCopyFill D) (part : SourceFillPart D)
      (now : Moment) (lease_seconds : ℕ) (stale : Bool) (ledger : Ledger D)
      (table : List (LiveCopyFillState D))
      → let result =
          claim_live_copy_fill_part (some source) fill part now lease_seconds stale ledger table in
        result.0.reason ≡ claimed
        → IsLeased source fill.source_fill_id part.sequence_index
            (now + lease_of lease_seconds)
            result.1
  claim-IsLeased source fill part now lease_seconds stale ledger table h =
      let id = fill.source_fill_id in
      let n = part.sequence_index in
      let (other, e, s, found, due, written) =
        claim-due (some source) fill part now lease_seconds stale ledger table h in
      let same : other ≡ source = ground (arith, e) in
      let row : get_state n (states_of_fill source id table) ≡ some s =
        ap (λ x. get_state n (states_of_fill x id table)) (sym same) ∙ found in
      let key = get_state-found source id n table s row in
      let held = processing now lease_seconds s in
      (
        held,
        ap (λ rows. get_state n (states_of_fill source id rows)) written
            ∙ get_state-replace_state source id n table s held key.0 key.1 row,
        refl,
      )

  -- After a claim of a part, and after any further writes of the table that are claims of any parts
  -- before the first claim's lease has passed, new rows, and rows of other keys or rows that are due when
  -- the lease ends, no claim of the part's row succeeds before the lease has passed, whatever else the
  -- source's row, the fill, the part and the other tables hold by then.
  pub claim_live_copy_fill_part-claim_live_copy_fill_part :
      (source again : LiveCopySourceState) (fill fill' : LiveCopyFill D)
      (part part' : SourceFillPart D) (now later : Moment) (lease_seconds other_seconds : ℕ)
      (stale other_stale : Bool) (ledger other_ledger : Ledger D) (writes : List (TableWrite D))
      (table : List (LiveCopyFillState D))
      → again.account_key ≡ source.account_key
      → again.source_wallet ≡ source.source_wallet
      → fill'.source_fill_id ≡ fill.source_fill_id
      → part'.sequence_index ≡ part.sequence_index
      → let first =
          claim_live_copy_fill_part (some source) fill part now lease_seconds stale ledger table in
        let until = now + lease_of lease_seconds in
        first.0.reason ≡ claimed
        → All (KeepsLease source fill.source_fill_id part.sequence_index until) writes
        → later < until
        → (claim_live_copy_fill_part
            (some again)
            fill'
            part'
            later
            other_seconds
            other_stale
            other_ledger
            (run_writes writes first.1)).0.reason
          ≢ claimed
  claim_live_copy_fill_part-claim_live_copy_fill_part source again fill fill' part part' now later
        lease_seconds other_seconds stale other_stale ledger other_ledger writes table a w i m h
        keeps within k =
      let id = fill.source_fill_id in
      let n = part.sequence_index in
      let until = now + lease_of lease_seconds in
      let leased = claim-IsLeased source fill part now lease_seconds stale ledger table h in
      let after =
        run_writes writes
          (claim_live_copy_fill_part (some source) fill part now lease_seconds stale ledger
            table).1 in
      let (other, e, s, found, due, _) =
        claim-due (some again) fill' part' later other_seconds other_stale other_ledger after k in
      let kept = IsLeased-run_writes source id n until writes _ leased keeps in
      let same : again ≡ other = ground (arith, e) in
      let not_due =
        IsLeased-not_due source other id fill'.source_fill_id n part'.sequence_index until later
          after s kept within (ap (λ x. x.account_key) (sym same) ∙ a)
          (ap (λ x. x.source_wallet) (sym same) ∙ w) i m found in
      ground (arith, due, not_due)
