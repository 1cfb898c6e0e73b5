-- ===== src/Live/Fill/Plan/Durable.antt =====
-- Every part of a plan has its row before one of them is executed:
-- backend/app/services/live_copy_state_service.py.
use text.Mathlib.TextEquality.{eq_iff}
use copytrading_agent.Prelude.{
  ℕ, String, ◌≡◌, ◌∙◌, ap, refl, true, Option, none, some, List, [], ◌∷◌, ◌++◌, map, arith, is_none,
  ◌==◌, length, Option-cases, Bool-cases, inl, inr,
}
use copytrading_agent.Decimal.{Decimal, IsOrdered}
use copytrading_agent.Trade.{action_text}
use copytrading_agent.Signal.Parts.{SourceFillPart}
use copytrading_agent.Signal.Pricing.{Moment}
use copytrading_agent.Live.Fill.{LiveCopyFillState}
use copytrading_agent.Live.Fill.Plan.{
  LiveCopySourceState, LiveCopyFill, PlanContext, states_of_fill, get_state, get_part, same_numeric,
  claimed_at, claim_existing, missing_states, new_state, validate_all,
  validate_live_copy_fill_plan_state, ensure_live_copy_fill_plan_states,
  normalize_live_copy_fill_plan_parts,
}

module _ {D : Type 0} where
  states_of_fill-append :
      (source : LiveCopySourceState) (id : String) (a b : List (LiveCopyFillState D))
      → states_of_fill source id (a ++ b) ≡ states_of_fill source id a ++ states_of_fill source id b
  unfolding states_of_fill
  states_of_fill-append source id [] b = refl
  states_of_fill-append source id (s ∷ a) b = ground (arith, states_of_fill-append source id a b)

  get_state-append-some :
      (n : ℕ) (a b : List (LiveCopyFillState D)) (s : LiveCopyFillState D)
      → get_state n a ≡ some s
      → get_state n (a ++ b) ≡ some s
  unfolding get_state
  get_state-append-some n [] b s h = absurd (ground arith)
  get_state-append-some n (u ∷ a) b s h = ground (arith, get_state-append-some n a b s)

  get_state-append-none :
      (n : ℕ) (a b : List (LiveCopyFillState D))
      → get_state n a ≡ none
      → get_state n (a ++ b) ≡ get_state n b
  unfolding get_state
  get_state-append-none n [] b h = refl
  get_state-append-none n (u ∷ a) b h = ground (arith, get_state-append-none n a b)

module _ {D : Type 0} ⦃d : Decimal D⦄ where
  states_of_fill-claim_existing :
      (source : LiveCopySourceState) (id : String) (at : Option Moment)
      (table : List (LiveCopyFillState D))
      → states_of_fill source id (claim_existing source id at table)
        ≡ map (claimed_at at) (states_of_fill source id table)
  unfolding states_of_fill claim_existing
  states_of_fill-claim_existing source id at [] = refl
  states_of_fill-claim_existing source id at (s ∷ table) =
      ground (arith, states_of_fill-claim_existing source id at table)

  get_state-claimed_at-some :
      (n : ℕ) (at : Option Moment) (states : List (LiveCopyFillState D)) (s : LiveCopyFillState D)
      → get_state n states ≡ some s
      → get_state n (map (claimed_at at) states) ≡ some (claimed_at at s)
  unfolding get_state
  get_state-claimed_at-some n at [] s h = absurd (ground arith)
  get_state-claimed_at-some n at (u ∷ states) s h =
      ground (arith, get_state-claimed_at-some n at states s)

  get_state-claimed_at-none :
      (n : ℕ) (at : Option Moment) (states : List (LiveCopyFillState D))
      → get_state n states ≡ none
      → get_state n (map (claimed_at at) states) ≡ none
  unfolding get_state
  get_state-claimed_at-none n at [] h = refl
  get_state-claimed_at-none n at (u ∷ states) h =
      ground (arith, get_state-claimed_at-none n at states)

  states_of_fill-missing_states :
      (source : LiveCopySourceState) (fill : LiveCopyFill D) (context : PlanContext) (count : ℕ)
      (existing : List (LiveCopyFillState D)) (parts : List (SourceFillPart D))
      → states_of_fill source fill.source_fill_id
          (missing_states source fill context count existing parts)
        ≡ missing_states source fill context count existing parts
  unfolding states_of_fill missing_states
  states_of_fill-missing_states source fill context count existing [] = refl
  states_of_fill-missing_states source fill context count existing (p ∷ parts) = ground (
    arith,
    states_of_fill-missing_states source fill context count existing parts,
    eq_iff source.account_key source.account_key,
    eq_iff source.source_wallet source.source_wallet,
    eq_iff fill.source_fill_id fill.source_fill_id,
  )

  get_state-missing_states :
      (n : ℕ) (source : LiveCopySourceState) (fill : LiveCopyFill D) (context : PlanContext)
      (count : ℕ) (existing : List (LiveCopyFillState D)) (parts : List (SourceFillPart D))
      (p : SourceFillPart D)
      → get_state n existing ≡ none
      → get_part n parts ≡ some p
      → get_state n (missing_states source fill context count existing parts)
        ≡ some (new_state source fill context count p)
  unfolding get_state missing_states
  get_state-missing_states n source fill context count existing [] p e h = absurd (ground arith)
  get_state-missing_states n source fill context count existing (q ∷ parts) p e h =
      let IH = get_state-missing_states n source fill context count existing parts p e in
      elim (Bool-cases (q.sequence_index == n)) [
        | inl b ↦
            let same : q ≡ p = ground (arith, b, h) in
            let index : q.sequence_index ≡ n = ground (arith, b) in
            let fresh : get_state q.sequence_index existing ≡ none =
              ap (λ i. get_state i existing) index ∙ e in
            ground (arith, same, b, fresh)
        | inr b ↦ elim (Option-cases (get_state q.sequence_index existing)) [
          | inl c ↦ ground (arith, b, c, IH)
          | inr (s, c) ↦ ground (arith, b, c, IH)
        ]
      ]

  validate_all-some :
      (n : ℕ) (fill : LiveCopyFill D) (parts : List (SourceFillPart D)) (count : ℕ)
      (states : List (LiveCopyFillState D)) (s : LiveCopyFillState D) (p : SourceFillPart D)
      → validate_all fill parts count states ≡ true
      → get_state n states ≡ some s
      → get_part n parts ≡ some p
      → validate_live_copy_fill_plan_state fill p count s ≡ true
  unfolding validate_all get_state
  validate_all-some n fill parts count [] s p v h k = absurd (ground arith)
  validate_all-some n fill parts count (u ∷ states) s p v h k =
      elim (Bool-cases (u.sequence_index == n)) [
        | inl b ↦
            let same : u ≡ s = ground (arith, b, h) in
            let index : u.sequence_index ≡ n = ground (arith, b) in
            let part : get_part u.sequence_index parts ≡ some p =
              ap (λ i. get_part i parts) index ∙ k in
            ground (arith, same, part)
        | inr b ↦
            validate_all-some n fill parts count states s p (ground (arith, v))
              (ground (arith, b, h)) k
      ]

  validate_claimed_at :
      (fill : LiveCopyFill D) (p : SourceFillPart D) (count : ℕ) (at : Option Moment)
      (s : LiveCopyFillState D)
      → validate_live_copy_fill_plan_state fill p count (claimed_at at s)
        ≡ validate_live_copy_fill_plan_state fill p count s
  unfolding validate_live_copy_fill_plan_state
  validate_claimed_at fill p count at s = elim (Bool-cases (is_none s.execution_claimed_at)) [
    | inl e ↦ rw e refl
    | inr e ↦ rw e refl
  ]

module _ {D : Type 0} ⦃d : Decimal D⦄ (order : IsOrdered D) where
  open order use {le_refl}

  same_numeric_refl : (m : Option D) → same_numeric m m ≡ true
  same_numeric_refl none = refl
  same_numeric_refl (some a) = ground (arith, le_refl a)

  validate-new_state :
      (source : LiveCopySourceState) (fill : LiveCopyFill D) (context : PlanContext) (count : ℕ)
      (p : SourceFillPart D)
      → validate_live_copy_fill_plan_state fill p count (new_state source fill context count p)
        ≡ true
  unfolding validate_live_copy_fill_plan_state
  validate-new_state source fill context count p = ground (
    arith,
    eq_iff fill.coin fill.coin,
    eq_iff (action_text p.action) (action_text p.action),
    le_refl fill.position,
    same_numeric_refl fill.fill_id_numeric,
  )

  -- After a plan is ensured, each of its parts has a row of the source's fill, which agrees with the
  -- fill and the plan.
  pub ensure_live_copy_fill_plan_states-IsPlanned :
      (source : LiveCopySourceState) (fill : LiveCopyFill D)
      (planned_parts parts : List (SourceFillPart D)) (context : PlanContext)
      (table after : List (LiveCopyFillState D)) (n : ℕ) (p : SourceFillPart D)
      → normalize_live_copy_fill_plan_parts planned_parts ≡ some parts
      → ensure_live_copy_fill_plan_states source fill planned_parts context table ≡ some after
      → get_part n parts ≡ some p
      → (s : LiveCopyFillState D) × (get_state n (states_of_fill source fill.source_fill_id after)
          ≡ some s)
        × (validate_live_copy_fill_plan_state fill p (length parts) s ≡ true)
  unfolding ensure_live_copy_fill_plan_states
  ensure_live_copy_fill_plan_states-IsPlanned source fill planned_parts parts context table after n
        p e h k =
      let id = fill.source_fill_id in
      let existing = states_of_fill source id table in
      let count = length parts in
      let at = context.execution_claimed_at in
      let kept = claim_existing source id at table in
      let missing = missing_states source fill context count existing parts in
      let valid : validate_all fill parts count existing ≡ true = ground (arith, e) in
      let result : kept ++ missing ≡ after = ground (arith, e) in
      let rows : states_of_fill source id after ≡ map (claimed_at at) existing ++ missing = cc (
        result,
        states_of_fill-append source id kept missing,
        states_of_fill-claim_existing source id at table,
        states_of_fill-missing_states source fill context count existing parts,
      ) in
      elim (Option-cases (get_state n existing)) [
        | inl none_yet ↦
            let none_kept = get_state-claimed_at-none n at existing none_yet in
            let found =
              get_state-append-none n (map (claimed_at at) existing) missing none_kept
              ∙ get_state-missing_states n source fill context count existing parts p none_yet k in
            (
              new_state source fill context count p,
              ap (get_state n) rows ∙ found,
              validate-new_state source fill context count p,
            )
        | inr (s, there) ↦
            let found =
              get_state-append-some n (map (claimed_at at) existing) missing _
                (get_state-claimed_at-some n at existing s there) in
            (
              claimed_at at s,
              ap (get_state n) rows ∙ found,
              validate_claimed_at fill p count at s
                  ∙ validate_all-some n fill parts count existing s p valid there k,
            )
      ]
