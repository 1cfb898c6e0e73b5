-- ===== src/Live/Fill/Part/Barriers.antt =====
-- What the two barriers of a claim find: backend/app/services/live_copy_state_service.py.
use mathlib.Core.Path.{subst}
use copytrading_agent.Prelude.{
  ℕ, ◌≡◌, ◌∙◌, sym, ap, Bool, true, false, not, ◌&&◌, ◌||◌, Option, none, some, List, [], ◌∷◌,
  arith, All, leb, ltb, Option-cases, Bool-cases, inl, inr,
}
use copytrading_agent.Decimal.{Decimal}
use copytrading_agent.Live.Work.{TextOrder}
use copytrading_agent.Live.Fill.{LiveCopyFillState, is_terminal}
use copytrading_agent.Live.Fill.Plan.{LiveCopySourceState, LiveCopyFill}
use copytrading_agent.Live.Fill.Claim.{Ledger, is_unresolved}
use copytrading_agent.Live.Fill.Part.{
  unresolved_lower, lower_sequence_blocker, prior_blocker_in, is_prior_blocker, is_at,
}

module _ {D : Type 0} ⦃d : Decimal D⦄ where
  -- A part before the target may be overtaken by nothing.
  abbrev pub holds_back : Ledger D → ℕ → LiveCopyFillState D → Bool
  holds_back ledger target s =
      ltb s.sequence_index target && (not (is_terminal s.outcome) || is_unresolved ledger s)

  unresolved_lower-All :
      (ledger : Ledger D) (target : ℕ) (states : List (LiveCopyFillState D))
      → unresolved_lower ledger target states ≡ none
      → All (λ s. (ltb s.sequence_index target && is_unresolved ledger s) ≡ false) states
  unfolding unresolved_lower
  unresolved_lower-All ledger target [] h = tt
  unresolved_lower-All ledger target (s ∷ rest) h =
      elim (Option-cases (unresolved_lower ledger target rest)) [
        | inl e ↦ (ground (arith, e), unresolved_lower-All ledger target rest e)
        | inr (u, e) ↦ absurd (ground (arith, e))
      ]

  -- What is found is one of the rows, and before the target.
  unresolved_lower-some :
      (P : LiveCopyFillState D → Type 0) (ledger : Ledger D) (target : ℕ)
      (states : List (LiveCopyFillState D)) (u : LiveCopyFillState D)
      → All P states
      → unresolved_lower ledger target states ≡ some u
      → P u × (ltb u.sequence_index target ≡ true)
  unfolding unresolved_lower
  unresolved_lower-some P ledger target [] u a h = absurd (ground arith)
  unresolved_lower-some P ledger target (s ∷ rest) u (p, a) h =
      elim (Bool-cases (ltb s.sequence_index target && is_unresolved ledger s)) [
        | inr q ↦ unresolved_lower-some P ledger target rest u a (ground (arith, q, h))
        | inl q ↦ elim (Option-cases (unresolved_lower ledger target rest)) [
          | inl e ↦ let same : s ≡ u = ground (arith, e, q) in (subst P same p, ground (arith, q))
          | inr (v, e) ↦ elim (Bool-cases (leb s.sequence_index v.sequence_index)) [
            | inl l ↦
                let same : s ≡ u = ground (arith, e, q, l) in (subst P same p, ground (arith, q))
            | inr l ↦
                let same : v ≡ u = ground (arith, e, q, l) in
                unresolved_lower-some P ledger target rest u a (e ∙ ap some same)
          ]
        ]
      ]

  lower_sequence_blocker-All :
      (unresolved : Option (LiveCopyFillState D)) (target : ℕ) (states : List (LiveCopyFillState D))
      → lower_sequence_blocker unresolved target states ≡ none
      → All
          (λ s.
            (ltb s.sequence_index target && (not (is_terminal s.outcome) || is_at s unresolved))
            ≡ false)
          states
  unfolding lower_sequence_blocker
  lower_sequence_blocker-All unresolved target [] h = tt
  lower_sequence_blocker-All unresolved target (s ∷ rest) h =
      elim (Option-cases (lower_sequence_blocker unresolved target rest)) [
        | inl e ↦ (ground (arith, e), lower_sequence_blocker-All unresolved target rest e)
        | inr (u, e) ↦ absurd (ground (arith, e))
      ]

  All-both :
      (ledger : Ledger D) (target : ℕ) (states : List (LiveCopyFillState D))
      → All (λ s. (ltb s.sequence_index target && is_unresolved ledger s) ≡ false) states
      → All
          (λ s. (ltb s.sequence_index target && (not (is_terminal s.outcome) || false)) ≡ false)
          states
      → All (λ s. holds_back ledger target s ≡ false) states
  All-both ledger target [] a b = tt
  All-both ledger target (s ∷ rest) (p, a) (q, b) =
      (ground (arith, p, q), All-both ledger target rest a b)

  pub lower-holds_back :
      (ledger : Ledger D) (target : ℕ) (states : List (LiveCopyFillState D))
      → lower_sequence_blocker (unresolved_lower ledger target states) target states ≡ none
      → All (λ s. holds_back ledger target s ≡ false) states
  lower-holds_back ledger target states h =
      elim (Option-cases (unresolved_lower ledger target states)) [
        | inl e ↦
            let b : lower_sequence_blocker none target states ≡ none =
              ap (λ u. lower_sequence_blocker u target states) (sym e) ∙ h in
            All-both ledger target states (unresolved_lower-All ledger target states e)
              (lower_sequence_blocker-All none target states b)
        | inr (u, e) ↦
            let b : lower_sequence_blocker (some u) target states ≡ none =
              ap (λ v. lower_sequence_blocker v target states) (sym e) ∙ h in
            let found =
              unresolved_lower-some
                (λ s.
                  (ltb s.sequence_index target && (not (is_terminal s.outcome) || is_at s (some u)))
                  ≡ false)
                ledger target states u (lower_sequence_blocker-All (some u) target states b) e in
            absurd (ground (arith, found))
      ]

  module _ ⦃t : TextOrder⦄ where
    pub prior_blocker_in-All :
        (ledger : Ledger D) (source : LiveCopySourceState) (fill : LiveCopyFill D)
        (table : List (LiveCopyFillState D))
        → prior_blocker_in ledger source fill table ≡ none
        → All (λ s. is_prior_blocker ledger source fill s ≡ false) table
    unfolding prior_blocker_in
    prior_blocker_in-All ledger source fill [] h = tt
    prior_blocker_in-All ledger source fill (s ∷ rest) h =
        elim (Option-cases (prior_blocker_in ledger source fill rest)) [
          | inl e ↦ (ground (arith, e), prior_blocker_in-All ledger source fill rest e)
          | inr (u, e) ↦ absurd (ground (arith, e))
        ]
