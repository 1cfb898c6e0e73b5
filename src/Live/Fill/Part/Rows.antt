-- ===== src/Live/Fill/Part/Rows.antt =====
-- The rows of parts by their keys: backend/app/services/live_copy_state_service.py.
use text.Mathlib.TextEquality.{eq_iff}
use copytrading_agent.Prelude.{
  ℕ, String, ◌≡◌, refl, true, false, ◌&&◌, some, List, [], ◌∷◌, arith, ◌==◌, Bool-cases, inl, inr,
}
use copytrading_agent.Live.Fill.{LiveCopyFillState}
use copytrading_agent.Live.Fill.Plan.{LiveCopySourceState, states_of_fill, get_state, is_of_fill}
use copytrading_agent.Live.Fill.Part.{replace_state, same_row}

module _ {D : Type 0} where
  pub get_state-found :
      (source : LiveCopySourceState) (id : String) (n : ℕ) (table : List (LiveCopyFillState D))
      (s : LiveCopyFillState D)
      → get_state n (states_of_fill source id table) ≡ some s
      → (is_of_fill source id s ≡ true) × (s.sequence_index ≡ n)
  unfolding get_state states_of_fill
  get_state-found source id n [] s h = absurd (ground arith)
  get_state-found source id n (u ∷ rest) s h = elim (Bool-cases (is_of_fill source id u)) [
    | inr q ↦ get_state-found source id n rest s (ground (arith, q, h))
    | inl q ↦ elim (Bool-cases (u.sequence_index == n)) [
      | inr r ↦ get_state-found source id n rest s (ground (arith, q, r, h))
      | inl r ↦ let same : u ≡ s = ground (arith, q, r, h) in ground (arith, same, q, r)
    ]
  ]

  -- Two rows of a fill with one sequence index have the same key.
  same_row_lem :
      (source : LiveCopySourceState) (id : String) (u new : LiveCopyFillState D)
      → is_of_fill source id u ≡ true
      → is_of_fill source id new ≡ true
      → u.sequence_index ≡ new.sequence_index
      → same_row u new ≡ true
  same_row_lem source id u new p q e = ground (
    arith,
    eq_iff u.account_key source.account_key,
    eq_iff u.source_wallet source.source_wallet,
    eq_iff u.source_fill_id id,
    eq_iff new.account_key source.account_key,
    eq_iff new.source_wallet source.source_wallet,
    eq_iff new.source_fill_id id,
    eq_iff u.account_key new.account_key,
    eq_iff u.source_wallet new.source_wallet,
    eq_iff u.source_fill_id new.source_fill_id,
  )

  -- A row that replaces the one of its key is found in its place.
  pub get_state-replace_state :
      (source : LiveCopySourceState) (id : String) (n : ℕ) (table : List (LiveCopyFillState D))
      (s new : LiveCopyFillState D)
      → is_of_fill source id new ≡ true
      → new.sequence_index ≡ n
      → get_state n (states_of_fill source id table) ≡ some s
      → get_state n (states_of_fill source id (replace_state new table)) ≡ some new
  unfolding get_state states_of_fill replace_state
  get_state-replace_state source id n [] s new o e h = absurd (ground arith)
  get_state-replace_state source id n (u ∷ rest) s new o e h =
      let IH = get_state-replace_state source id n rest s new o e in
      elim (Bool-cases (same_row u new)) [
        | inl q ↦
            rw (q, o) (let at : (new.sequence_index == n) ≡ true = ground (arith, e) in rw at refl)
        | inr q ↦ elim (Bool-cases (is_of_fill source id u)) [
          | inr p ↦ ground (arith, q, p, IH)
          | inl p ↦ elim (Bool-cases (u.sequence_index == n)) [
            | inl r ↦ absurd (ground (arith, q, r, same_row_lem source id u new p o))
            | inr r ↦ ground (arith, q, p, r, IH)
          ]
        ]
      ]

  -- A row that replaces one of another key leaves a key's row as it is.
  pub get_state-replace_state_other :
      (source : LiveCopySourceState) (id : String) (n : ℕ) (table : List (LiveCopyFillState D))
      (new : LiveCopyFillState D)
      → (is_of_fill source id new && new.sequence_index == n) ≡ false
      → get_state n (states_of_fill source id (replace_state new table))
        ≡ get_state n (states_of_fill source id table)
  unfolding get_state states_of_fill replace_state
  get_state-replace_state_other source id n [] new o = refl
  get_state-replace_state_other source id n (u ∷ rest) new o =
      let IH = get_state-replace_state_other source id n rest new o in
      elim (Bool-cases (same_row u new)) [
        | inr q ↦ ground (arith, q, IH)
        | inl q ↦ ground (
          arith,
          q,
          o,
          IH,
          eq_iff u.account_key new.account_key,
          eq_iff u.source_wallet new.source_wallet,
          eq_iff u.source_fill_id new.source_fill_id,
        )
      ]

  -- The rows of a fill are found by the keys of the source alone.
  pub states_of_fill-same :
      (a b : LiveCopySourceState) (id : String) (table : List (LiveCopyFillState D))
      → a.account_key ≡ b.account_key
      → a.source_wallet ≡ b.source_wallet
      → states_of_fill a id table ≡ states_of_fill b id table
  unfolding states_of_fill
  states_of_fill-same a b id [] p q = refl
  states_of_fill-same a b id (u ∷ rest) p q = rw (p, q, states_of_fill-same a b id rest p q) refl
