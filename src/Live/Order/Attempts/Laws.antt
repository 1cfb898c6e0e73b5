-- ===== src/Live/Order/Attempts/Laws.antt =====
-- How often a live order is submitted, and that preparing it twice is preparing it once:
-- backend/app/services/live_execution_state.py.
use copytrading_agent.Prelude.{
  ℕ, suc, ◌≤◌, ◌≡◌, ◌⊎◌, inl, inr, Option, none, some, List, [], ◌∷◌, arith, Option-cases, All,
}
use copytrading_agent.Live.Intent.{Texts}
use copytrading_agent.Live.Order.{
  TradingOrder, TradingOrderDispatch, load_live_order_dispatch, new_dispatch,
}
use copytrading_agent.Live.Order.Attempts.{create_next_live_order_dispatch}

-- No attempt of any order is beyond the third, or is numbered zero.
abbrev pub HasBoundedAttempts : List TradingOrderDispatch → Type 0
HasBoundedAttempts = All (λ a. (1 ≤ a.attempt_number) × (a.attempt_number ≤ 3))

-- Every attempt of the order is at most the number.
abbrev pub HasAtMost : ℕ → ℕ → List TradingOrderDispatch → Type 0
HasAtMost order_id n = All (λ a. a.order_id ≡ order_id → a.attempt_number ≤ n)

abbrev pub latest_number : Option TradingOrderDispatch → ℕ
latest_number none = 0
latest_number (some a) = a.attempt_number

load_live_order_dispatch_max :
    (order_id : ℕ) (dispatches : List TradingOrderDispatch) (n : ℕ)
    → latest_number (load_live_order_dispatch order_id dispatches) ≤ n
    → HasAtMost order_id n dispatches
unfolding load_live_order_dispatch
load_live_order_dispatch_max order_id [] n h = ground arith
load_live_order_dispatch_max order_id (a ∷ rest) n h =
    let IH = load_live_order_dispatch_max order_id rest n in ground (arith, IH)

module _ {D : Type 0} ⦃t : Texts⦄ where
  abbrev pub next_dispatch : TradingOrder D → List TradingOrderDispatch → TradingOrderDispatch
  next_dispatch order dispatches =
      new_dispatch order (suc (latest_number (load_live_order_dispatch order.id dispatches)))

  -- The next submit attempt of an order is a new one, above all its earlier attempts, and keeps
  -- every attempt between one and three; it is refused exactly when the latest is the third or later.
  pub create_next_live_order_dispatch_bounds :
      (order : TradingOrder D) (dispatches : List TradingOrderDispatch)
      → HasBoundedAttempts dispatches
      → ((create_next_live_order_dispatch order dispatches ≡ none)
          × (3 ≤ latest_number (load_live_order_dispatch order.id dispatches)))
        ⊎ ((create_next_live_order_dispatch order dispatches
              ≡ some (next_dispatch order dispatches, next_dispatch order dispatches ∷ dispatches))
            × HasAtMost order.id
                (latest_number (load_live_order_dispatch order.id dispatches))
                dispatches
            × HasBoundedAttempts (next_dispatch order dispatches ∷ dispatches))
  unfolding create_next_live_order_dispatch new_dispatch
  create_next_live_order_dispatch_bounds order dispatches h =
      let most =
        load_live_order_dispatch_max order.id dispatches
          (latest_number (load_live_order_dispatch order.id dispatches)) (ground arith) in
      elim (Option-cases (load_live_order_dispatch order.id dispatches)) [
        | inl e ↦ ground (arith, e, most)
        | inr (a, e) ↦ ground (arith, e, most)
      ]
