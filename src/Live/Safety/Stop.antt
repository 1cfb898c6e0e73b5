-- ===== src/Live/Safety/Stop.antt =====
-- What a protective stop leaves: backend/app/services/trading_safety_service.py.
use copytrading_agent.Prelude.{
  ℕ, ◌≡◌, refl, ap, ◌≤◌, String, Bool, true, false, not, ◌&&◌, Option, none, some, List, [], ◌∷◌,
  arith, All, if◌then◌else◌, ◌+◌,
}
use copytrading_agent.Signal.Pricing.{Moment}
use copytrading_agent.Live.Order.{TradingOrder, OrderStore}
use copytrading_agent.Live.Safety.{
  AccountStatus, LiveAccount, enabled, disabled, exit_only, is_selected, is_unsent, cancel_orders,
  cancel_unsent_live_entries, trip_live_account_risk, apply_live_account_status,
  parse_account_status, tripped_status,
}

abbrev pub is_enabled : AccountStatus → Bool
is_enabled enabled = true
is_enabled _ = false

-- The account that a trip leaves is the same one, not enabled, at no lower version.
tripped_status_lem :
    (account : LiveAccount) (reason : String) (now : Moment) (status : AccountStatus)
    → account.status ≡ status
    → let after = tripped_status account reason now status in
      (after.key ≡ account.key)
      × (is_enabled after.status ≡ false)
      × (account.lifecycle_version ≤ after.lifecycle_version)
unfolding apply_live_account_status parse_account_status
tripped_status_lem account reason now disabled h = ground (arith, ap is_enabled h)
tripped_status_lem account reason now enabled h = ground arith
tripped_status_lem account reason now exit_only h = ground (arith, ap is_enabled h)

module _ {D : Type 0} where
  -- Orders that only reduce a position, and orders that have been sent, are as they were.
  abbrev pub KeepsOthers : List (TradingOrder D) → List (TradingOrder D) → Type 0
  KeepsOthers [] [] = Unit
  KeepsOthers (o ∷ before) (q ∷ after) =
      ((not o.reduce_only && is_unsent o.status) ≡ false → q ≡ o) × KeepsOthers before after
  KeepsOthers _ _ = false ≡ true

  -- The number of orders that the selection takes.
  abbrev pub count_selected : Option String → Option ℕ → List (TradingOrder D) → ℕ
  count_selected key excluded [] = 0
  count_selected key excluded (o ∷ rest) =
      (if is_selected key excluded o then 1 else 0) + count_selected key excluded rest

  -- No order that the selection would take.
  abbrev pub HasNoUnsent : Option String → Option ℕ → List (TradingOrder D) → Type 0
  HasNoUnsent key excluded = All (λ o. is_selected key excluded o ≡ false)

  cancel_orders-HasNoUnsent :
      (key : Option String) (excluded : Option ℕ) (reason : String) (orders : List (TradingOrder D))
      → HasNoUnsent key excluded (cancel_orders key excluded reason orders).0
  unfolding cancel_orders
  cancel_orders-HasNoUnsent key excluded reason [] = ground arith
  cancel_orders-HasNoUnsent key excluded reason (o ∷ rest) =
      let IH = cancel_orders-HasNoUnsent key excluded reason rest in ground (arith, IH)

  cancel_orders-KeepsOthers :
      (key : Option String) (excluded : Option ℕ) (reason : String) (orders : List (TradingOrder D))
      → KeepsOthers orders (cancel_orders key excluded reason orders).0
  unfolding cancel_orders
  cancel_orders-KeepsOthers key excluded reason [] = ground arith
  cancel_orders-KeepsOthers key excluded reason (o ∷ rest) =
      let IH = cancel_orders-KeepsOthers key excluded reason rest in ground (arith, IH)

  cancel_orders_count :
      (key : Option String) (excluded : Option ℕ) (reason : String) (orders : List (TradingOrder D))
      → (cancel_orders key excluded reason orders).1 ≡ count_selected key excluded orders
  unfolding cancel_orders
  cancel_orders_count key excluded reason [] = refl
  cancel_orders_count key excluded reason (o ∷ rest) =
      let IH = cancel_orders_count key excluded reason rest in ground (arith, IH)

  -- A cancelation leaves no live entry of its selection unsent, leaves every reducing and every
  -- sent order as it was, and counts the orders it canceled.
  pub cancel_unsent_live_entries_lem :
      (key : Option String) (excluded : Option ℕ) (reason : String) (now : Moment)
      (store : OrderStore D)
      → HasNoUnsent key excluded (cancel_unsent_live_entries key excluded reason now store).0.orders
        × KeepsOthers store.orders
            (cancel_unsent_live_entries key excluded reason now store).0.orders
        × ((cancel_unsent_live_entries key excluded reason now store).1
            ≡ count_selected key excluded store.orders)
  unfolding cancel_unsent_live_entries
  cancel_unsent_live_entries_lem key excluded reason now store = (
    cancel_orders-HasNoUnsent key excluded reason store.orders,
    cancel_orders-KeepsOthers key excluded reason store.orders,
    cancel_orders_count key excluded reason store.orders,
  )

  -- After a risk rule has tripped the same account is not enabled, its lifecycle version has not
  -- gone down, and none of its live entries is unsent; reducing and sent orders are as they were.
  pub trip_live_account_risk_lem :
      (account : LiveAccount) (rule message : String) (observed limit : Option String)
      (now : Moment) (store : OrderStore D)
      → let result = trip_live_account_risk account rule message observed limit now store in
        ((result.0.key ≡ account.key)
          × (is_enabled result.0.status ≡ false)
          × (account.lifecycle_version ≤ result.0.lifecycle_version))
        × HasNoUnsent (some result.0.key) none result.1.0.orders
        × KeepsOthers store.orders result.1.0.orders
  unfolding trip_live_account_risk cancel_unsent_live_entries
  trip_live_account_risk_lem account rule message observed limit now store = (
    tripped_status_lem account _ now account.status refl,
    cancel_orders-HasNoUnsent _ none _ store.orders,
    cancel_orders-KeepsOthers _ none _ store.orders,
  )
