-- ===== src/Copy/Close/Rules.antt =====
-- What a close decision promises (backend/app/services/copy_decision.py).
use copytrading_agent.Prelude.{
  Bool, true, false, refl, ◌&&◌, Bool-cases, ◌≡◌, ◌≢◌, ◌⊎◌, none, some, arith, inl, inr,
  Option-cases,
}
use copytrading_agent.Decimal.{Decimal, IsOrdered, ◌⩽◌, ◌⋖◌, ◌⊗◌, min}
use copytrading_agent.Decimal.Order.{min-le_left, min-le_right}
use copytrading_agent.Trade.{side_eq}
use copytrading_agent.Signal.Parts.{SourceFillPart}
use copytrading_agent.Signal.Pricing.{position_epsilon}
use copytrading_agent.Copy.Entry.{CopyPosition, price_drift_too_high}
use copytrading_agent.Copy.Close.{
  CloseInputs, decide_close, copy_close_size, final_close_of, close_approved,
  aggregate_below_min_close, SourceAccountState, SourceCurrentPosition,
  source_account_state_fetch_failed, source_account_margin_summary_missing, fill_coin,
  resolve_source_current_position, source_position_is_final_close, left_side,
  source_state_available_for_reconciliation,
}

module _ {D : Type 0} ⦃d : Decimal D⦄ where
  -- A close is never refused for its price drift.
  pub decide_close-no_drift :
      (i : CloseInputs D) → (decide_close i).reason ≢ some price_drift_too_high
  unfolding decide_close
  decide_close-no_drift i = ground arith

  -- The source's account was read, and holds no position of the fill's coin on the part's side.
  abbrev pub HasLeft : CloseInputs D → Type 0
  HasLeft i =
      (state : SourceAccountState D) × (i.source_account_state ≡ some state)
      × (state.skip_reason ≢ some source_account_state_fetch_failed)
      × (state.skip_reason ≢ some source_account_margin_summary_missing)
      × ((resolve_source_current_position state.positions_by_coin (fill_coin i.fill) ≡ none)
          ⊎ ((held : SourceCurrentPosition D) × (resolve_source_current_position
                  state.positions_by_coin (fill_coin i.fill)
                ≡ some held)
              × (held.side ≢ i.part.side)))

  -- The source's account was not read, or holds a position of the fill's coin on the part's side.
  abbrev pub MayHold : CloseInputs D → Type 0
  MayHold i =
      (i.source_account_state ≡ none)
      ⊎ ((state : SourceAccountState D) × (i.source_account_state ≡ some state)
          × ((state.skip_reason ≡ some source_account_state_fetch_failed)
              ⊎ ((state.skip_reason ≡ some source_account_margin_summary_missing)
                  ⊎ ((held : SourceCurrentPosition D) × (resolve_source_current_position
                          state.positions_by_coin (fill_coin i.fill)
                        ≡ some held)
                      × (held.side ≡ i.part.side)))))

  unread :
      (state : SourceAccountState D)
      → source_state_available_for_reconciliation (some state) ≡ false
      → (state.skip_reason ≡ some source_account_state_fetch_failed)
        ⊎ (state.skip_reason ≡ some source_account_margin_summary_missing)
  unfolding source_state_available_for_reconciliation
  unread state h = ground arith

  was_read :
      (state : SourceAccountState D)
      → source_state_available_for_reconciliation (some state) ≡ true
      → (state.skip_reason ≢ some source_account_state_fetch_failed)
        × (state.skip_reason ≢ some source_account_margin_summary_missing)
  unfolding source_state_available_for_reconciliation
  was_read state h = ground arith

  final_close_of_lem :
      (i : CloseInputs D) (state : SourceAccountState D)
      → i.source_account_state ≡ some state
      → final_close_of i ≡ (
          source_state_available_for_reconciliation (some state)
          && left_side
              (resolve_source_current_position state.positions_by_coin (fill_coin i.fill))
              i.part.side)
  unfolding source_position_is_final_close source_state_available_for_reconciliation
      resolve_source_current_position
  final_close_of_lem i state e = rw e refl

  final_close_of-none :
      (i : CloseInputs D) → i.source_account_state ≡ none → final_close_of i ≡ false
  unfolding source_position_is_final_close
  final_close_of-none i e = rw e refl

  HasLeft-or_MayHold :
      (i : CloseInputs D)
      → ((final_close_of i ≡ true) × HasLeft i) ⊎ ((final_close_of i ≡ false) × MayHold i)
  HasLeft-or_MayHold i = elim (Option-cases i.source_account_state) [
    | inl e ↦ inr (final_close_of-none i e, inl e)
    | inr (state, e) ↦ elim (Bool-cases (source_state_available_for_reconciliation (some state))) [
      | inr q ↦ elim (unread state q) [
        | inl f ↦ inr (ground (arith, q, final_close_of_lem i state e), inr (state, e, inl f))
        | inr f ↦ inr (ground (arith, q, final_close_of_lem i state e), inr (state, e, inr (inl f)))
      ]
      | inl q ↦
          let positions =
            resolve_source_current_position state.positions_by_coin (fill_coin i.fill) in
          let final = final_close_of_lem i state e in
          let read = was_read state q in
          elim (Option-cases positions) [
            | inl f ↦ inl (ground (arith, q, final, f), (state, e, read.0, read.1, inl f))
            | inr (held, f) ↦ elim (Bool-cases (side_eq held.side i.part.side)) [
              | inl g ↦ inr (
                ground (arith, q, final, f, g),
                inr (state, e, inr (inr (held, f, ground (arith, g)))),
              )
              | inr g ↦ inl (
                ground (arith, q, final, f, g),
                (state, e, read.0, read.1, inr (held, f, ground (arith, g))),
              )
            ]
          ]
    ]
  ]

  -- An unrefused close of a copied position is final exactly when the source's account was read and
  -- holds no position of the coin on the part's side. A final close takes the whole of the position that
  -- is available and is never held back as too small; any other takes the part's ratio of it, and not
  -- more than all of it.
  pub decide_close-final :
      (i : CloseInputs D) (position : CopyPosition D)
      → i.position ≡ some position
      → (decide_close i).reason ≡ none
      → (HasLeft i
          × ((decide_close i).final_close ≡ true)
          × ((decide_close i).close_size ≡ min position.size i.available_size)
          × (close_approved (decide_close i) ≡ true))
        ⊎ (MayHold i
            × ((decide_close i).final_close ≡ false)
            × (ratio : D) × (i.part.close_ratio ≡ some ratio)
            × ((decide_close i).close_size
                ≡ min
                    (min position.size i.available_size)
                    (min position.size i.available_size ⊗ ratio)))
  unfolding decide_close copy_close_size
  decide_close-final i position p h = elim (HasLeft-or_MayHold i) [
    | inl (f, left) ↦ inl (left, ground (arith, f), ground (arith, f), ground (arith, f))
    | inr (f, held) ↦ elim (Option-cases i.part.close_ratio) [
      | inl missing ↦ absurd (ground (arith, f, missing))
      | inr (ratio, e) ↦ inr (held, ground (arith, f, e), ratio, e, ground (arith, f, e))
    ]
  ]

module _ {D : Type 0} ⦃d : Decimal D⦄ (order : IsOrdered D) where
  open order use {le_refl, le_trans, le_total}

  part_size-le :
      (size available x : D)
      → let whole = min size available in
        ((min whole x ⩽ size) ≡ true)
        × ((min whole x ⩽ available) ≡ true)
        × ((whole ⩽ size) ≡ true)
        × ((whole ⩽ available) ≡ true)
  part_size-le size available x =
      let whole = min size available in
      let part = min whole x in
      let left = min-le_left order size available in
      let right = min-le_right order size available in
      let below = min-le_left order whole x in
      (le_trans part whole size below left, le_trans part whole available below right, left, right)

  copy_close_size-le :
      (size available : D) (part : SourceFillPart D) (final : Bool) (closed : D)
      → copy_close_size size part final (some available) ≡ some closed
      → ((closed ⩽ size) ≡ true) × ((closed ⩽ available) ≡ true)
  unfolding copy_close_size
  copy_close_size-le size available part final closed h =
      let whole = min size available in
      elim (Option-cases part.close_ratio) [
        | inl missing ↦ ground (arith, part_size-le size available d.nought)
        | inr (ratio, e) ↦ ground (arith, part_size-le size available (whole ⊗ ratio))
      ]

  -- A close that is not refused is larger than the smallest position, and at most the copied position
  -- and the part of it that no other order closes.
  pub decide_close_bounds :
      (i : CloseInputs D) (position : CopyPosition D)
      → i.position ≡ some position
      → (decide_close i).reason ≡ none
      → ((position_epsilon ⋖ (decide_close i).close_size) ≡ true)
        × (((decide_close i).close_size ⩽ position.size) ≡ true)
        × (((decide_close i).close_size ⩽ i.available_size) ≡ true)
  unfolding decide_close
  decide_close_bounds i position p h = ground (
    arith,
    copy_close_size-le position.size i.available_size i.part (final_close_of i)
        (decide_close i).close_size,
  )

  -- What is sent after aggregation is a final close or at least the exchange minimum.
  pub aggregate_below_min_close-sent :
      (i : CloseInputs D) (previous : D)
      → let decision =
          aggregate_below_min_close
            (decide_close i)
            previous
            i.available_size
            i.min_order_notional_usd in
        close_approved decision ≡ true
        → (decision.final_close ≡ true)
          ⊎ ((i.min_order_notional_usd ⩽ decision.notional_usd) ≡ true)
  unfolding decide_close aggregate_below_min_close
  aggregate_below_min_close-sent i previous h = ground arith
