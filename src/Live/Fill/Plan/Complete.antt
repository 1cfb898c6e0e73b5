-- ===== src/Live/Fill/Plan/Complete.antt =====
-- When a source fill is complete: backend/app/services/live_copy_state_service.py.
use mathlib.Core.Path.{subst}
use copytrading_agent.Prelude.{
  String, ◌≡◌, sym, refl, Bool, true, false, not, ◌||◌, some, List, [], ◌∷◌, arith, All, length,
  Bool-cases, inl, inr,
}
use copytrading_agent.Signal.Parts.{SourceFillPart}
use copytrading_agent.Live.Fill.{LiveCopyFillState, is_terminal}
use copytrading_agent.Live.Fill.Plan.{
  LiveCopySourceState, states_of_fill, is_of_fill, all_terminal, all_below, has_all,
  complete_states, mark_live_copy_fill_complete_if_durable, normalize_live_copy_fill_plan_parts,
}

module _ {D : Type 0} where
  -- The constraint of the table: what is complete is decided.
  abbrev pub IsConsistent : List (LiveCopyFillState D) → Type 0
  IsConsistent = All (λ s. (not s.fill_complete || is_terminal s.outcome) ≡ true)

  complete_states-IsConsistent :
      (source : LiveCopySourceState) (id : String) (table : List (LiveCopyFillState D))
      → all_terminal (states_of_fill source id table) ≡ true
      → IsConsistent table
      → IsConsistent (complete_states source id table)
  unfolding states_of_fill complete_states
  complete_states-IsConsistent source id [] h c = tt
  complete_states-IsConsistent source id (s ∷ table) h (c, rest) =
      elim (Bool-cases (is_of_fill source id s)) [
        | inl e ↦ (
          ground (arith, e, h),
          complete_states-IsConsistent source id table (ground (arith, e, h)) rest,
        )
        | inr e ↦ (
          ground (arith, e, c),
          complete_states-IsConsistent source id table (ground (arith, e, h)) rest,
        )
      ]

  complete_states-All :
      (source : LiveCopySourceState) (id : String) (table : List (LiveCopyFillState D))
      → All
          (λ s. s.fill_complete ≡ true)
          (states_of_fill source id (complete_states source id table))
  unfolding states_of_fill complete_states
  complete_states-All source id [] = tt
  complete_states-All source id (s ∷ table) = elim (Bool-cases (is_of_fill source id s)) [
    | inl e ↦ rw (e, e) (refl, complete_states-All source id table)
    | inr e ↦ rw (e, e) (complete_states-All source id table)
  ]

  -- What the call answers: either all rows of the fill were decided, as many as the plan has parts,
  -- and all are complete now; or the table is as it was.
  abbrev pub IsAnswer :
      LiveCopySourceState
      → String
      → List (SourceFillPart D)
      → List (LiveCopyFillState D)
      → List (LiveCopyFillState D) × Bool
      → Type 0
  IsAnswer source id parts table (after, true) =
      (all_terminal (states_of_fill source id table) ≡ true)
      × (all_below (length parts) (states_of_fill source id table) ≡ true)
      × (has_all 0 (length parts) (states_of_fill source id table) ≡ true)
      × All (λ s. s.fill_complete ≡ true) (states_of_fill source id after)
  IsAnswer source id parts table (after, false) = after ≡ table

  -- A fill is marked complete only when each part of its plan has a row that is decided, and no other
  -- row; then all its rows are complete, else nothing changes. Either way what is complete is decided,
  -- in a table where that was so.
  pub mark_live_copy_fill_complete_if_durable_lem :
      (source : LiveCopySourceState) (id : String) (planned_parts parts : List (SourceFillPart D))
      (table : List (LiveCopyFillState D)) (r : List (LiveCopyFillState D) × Bool)
      → normalize_live_copy_fill_plan_parts planned_parts ≡ some parts
      → mark_live_copy_fill_complete_if_durable source id planned_parts table ≡ some r
      → IsConsistent table
      → IsAnswer source id parts table r × IsConsistent r.0
  unfolding mark_live_copy_fill_complete_if_durable
  mark_live_copy_fill_complete_if_durable_lem source id planned_parts parts table (after, true) e h
        c =
      let states = states_of_fill source id table in
      let done : all_terminal states ≡ true = ground (arith, e, h) in
      let below : all_below (length parts) states ≡ true = ground (arith, e, h) in
      let every : has_all 0 (length parts) states ≡ true = ground (arith, e, h) in
      let result : complete_states source id table ≡ after = ground (arith, e, h) in
      subst (λ rows. (IsAnswer source id parts table (rows, true)) × IsConsistent rows) result
        (
          (done, below, every, complete_states-All source id table),
          complete_states-IsConsistent source id table done c,
        )
  mark_live_copy_fill_complete_if_durable_lem source id planned_parts parts table (after, false) e h
        c =
      let result : table ≡ after = ground (arith, e, h) in (sym result, subst IsConsistent result c)
