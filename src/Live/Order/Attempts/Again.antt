-- ===== src/Live/Order/Attempts/Again.antt =====
-- That to prepare an order twice is to prepare it once: backend/app/services/live_execution_state.py.
use text.Mathlib.Text.{◌==◌ as str_eq}
use text.Mathlib.TextPositions.{eq_refl}
use copytrading_agent.Prelude.{
  ℕ, suc, ◌≡◌, inl, inr, refl, sym, String, Bool, true, false, Option, none, some, List, [], ◌∷◌,
  arith, Option-cases, ◌||◌,
}
use copytrading_agent.Decimal.{Decimal}
use copytrading_agent.Signal.Pricing.{Moment}
use copytrading_agent.Live.Intent.{Printed, Texts, TradeIntent}
use copytrading_agent.Live.Order.{
  TradingOrder, TradingOrderDispatch, OrderStore, load_live_order_dispatch, order_by_client_id,
  replace_dispatch, replace_order, new_dispatch, trading_order_from_intent, is_planned,
}
use copytrading_agent.Live.Order.Attempts.{
  Prepared, prepare_live_order_dispatch, found_order, found_dispatch, commit_prepared,
}

module _ {D : Type 0} where
  order_by_client_id-eq :
      (key : String) (orders : List (TradingOrder D)) (o : TradingOrder D)
      → order_by_client_id key orders ≡ some o
      → str_eq o.client_order_id key ≡ true
  order_by_client_id-eq key [] o h = ground arith
  order_by_client_id-eq key (a ∷ rest) o h =
      let IH = order_by_client_id-eq key rest o in ground (arith, IH)

  order_by_client_id-replace_order :
      (key : String) (orders : List (TradingOrder D)) (o new : TradingOrder D)
      → order_by_client_id key orders ≡ some o
      → o.id ≡ new.id
      → str_eq new.client_order_id key ≡ true
      → order_by_client_id key (replace_order new orders) ≡ some new
  order_by_client_id-replace_order key [] o new h e k = ground arith
  order_by_client_id-replace_order key (a ∷ rest) o new h e k =
      let IH = order_by_client_id-replace_order key rest o new in ground (arith, IH)

load_live_order_dispatch-eq :
    (id : ℕ) (dispatches : List TradingOrderDispatch) (a : TradingOrderDispatch)
    → load_live_order_dispatch id dispatches ≡ some a
    → a.order_id ≡ id
unfolding load_live_order_dispatch
load_live_order_dispatch-eq id [] a h = ground arith
load_live_order_dispatch-eq id (b ∷ rest) a h =
    let IH = load_live_order_dispatch-eq id rest a in ground (arith, IH)

-- A replacement keeps the number of the latest attempt.
abbrev pub number_of : Option TradingOrderDispatch → ℕ
number_of none = 0
number_of (some a) = suc a.attempt_number

load_live_order_dispatch-number :
    (id : ℕ) (dispatches : List TradingOrderDispatch) (new : TradingOrderDispatch)
    → number_of (load_live_order_dispatch id (replace_dispatch new dispatches))
      ≡ number_of (load_live_order_dispatch id dispatches)
unfolding load_live_order_dispatch
load_live_order_dispatch-number id [] new = refl
load_live_order_dispatch-number id (b ∷ rest) new =
    let IH = load_live_order_dispatch-number id rest new in ground (arith, IH)

load_live_order_dispatch-replace_dispatch :
    (id : ℕ) (dispatches : List TradingOrderDispatch) (a new : TradingOrderDispatch)
    → load_live_order_dispatch id dispatches ≡ some a
    → id ≡ new.order_id
    → a.attempt_number ≡ new.attempt_number
    → load_live_order_dispatch id (replace_dispatch new dispatches) ≡ some new
unfolding load_live_order_dispatch
load_live_order_dispatch-replace_dispatch id [] a new h e n = ground arith
load_live_order_dispatch-replace_dispatch id (b ∷ rest) a new h e n =
    let IH = load_live_order_dispatch-replace_dispatch id rest a new in
    let number = load_live_order_dispatch-number id rest new in
    elim (Option-cases (load_live_order_dispatch id rest)) [
      | inl f ↦ ground (arith, IH, number, f)
      | inr (c, f) ↦ ground (arith, IH, number, f)
    ]

module _ {D : Type 0} ⦃d : Decimal D⦄ ⦃p : Printed D⦄ ⦃t : Texts⦄ where
  found_order-eq :
      (id : ℕ) (now : Moment) (i : TradeIntent D) (orders : List (TradingOrder D))
      → let o = found_order id now i orders (order_by_client_id i.client_order_id orders) in
        order_by_client_id i.client_order_id o.1.0 ≡ some o.0
  unfolding trading_order_from_intent
  found_order-eq id now i orders =
      elim (Option-cases (order_by_client_id i.client_order_id orders)) [
        | inl f ↦ ground (arith, f, eq_refl i.client_order_id)
        | inr (c, f) ↦ ground (arith, f)
      ]

  found_dispatch-eq :
      (order : TradingOrder D) (dispatches : List TradingOrderDispatch)
      → let a = found_dispatch order dispatches (load_live_order_dispatch order.id dispatches) in
        load_live_order_dispatch order.id a.1 ≡ some a.0
  unfolding new_dispatch load_live_order_dispatch
  found_dispatch-eq order dispatches =
      elim (Option-cases (load_live_order_dispatch order.id dispatches)) [
        | inl f ↦ ground (arith, f)
        | inr (c, f) ↦ ground (arith, f)
      ]

  -- A second preparation where the order and its dispatch are found and the order is not planned.
  prepare_live_order_dispatch-found :
      (id : ℕ) (now : Moment) (i : TradeIntent D) (store : OrderStore D) (o : TradingOrder D)
      (a : TradingOrderDispatch)
      → order_by_client_id i.client_order_id store.orders ≡ some o
      → load_live_order_dispatch o.id store.dispatches ≡ some a
      → is_planned o.status ≡ false
      → prepare_live_order_dispatch id now i store
        ≡ record { store = store; order = o; dispatch = a; created = false }
  unfolding prepare_live_order_dispatch
  prepare_live_order_dispatch-found id now i store o a f g s = ground (arith, f, g, s)

  -- The order and the dispatch are those that a lookup finds, and the order is not planned.
  IsSettled : TradeIntent D → Prepared D → Type 0
  IsSettled i r =
      (order_by_client_id i.client_order_id r.store.orders ≡ some r.order)
      × (load_live_order_dispatch r.order.id r.store.dispatches ≡ some r.dispatch)
      × (is_planned r.order.status ≡ false)

  commit_prepared-IsSettled :
      (now : Moment) (i : TradeIntent D) (o : TradingOrder D) (orders : List (TradingOrder D))
      (created : Bool) (a : TradingOrderDispatch) (dispatches : List TradingOrderDispatch)
      (b : Bool)
      → order_by_client_id i.client_order_id orders ≡ some o
      → load_live_order_dispatch o.id dispatches ≡ some a
      → (created || is_planned o.status) ≡ b
      → IsSettled i (commit_prepared now i (o, (orders, created)) (a, dispatches) b)
  unfolding IsSettled
  commit_prepared-IsSettled now i o orders created a dispatches true f g h = (
    order_by_client_id-replace_order _ orders o _ f refl
        (order_by_client_id-eq i.client_order_id orders o f),
    load_live_order_dispatch-replace_dispatch o.id dispatches a _ g
        (sym (load_live_order_dispatch-eq o.id dispatches a g)) refl,
    refl,
  )
  commit_prepared-IsSettled now i o orders created a dispatches false f g h =
      (f, g, ground (arith, h))

  prepare_live_order_dispatch-IsSettled :
      (id : ℕ) (now : Moment) (i : TradeIntent D) (store : OrderStore D)
      → IsSettled i (prepare_live_order_dispatch id now i store)
  unfolding prepare_live_order_dispatch
  prepare_live_order_dispatch-IsSettled id now i store =
      let o =
        found_order id now i store.orders (order_by_client_id i.client_order_id store.orders) in
      let a =
        found_dispatch o.0 store.dispatches (load_live_order_dispatch o.0.id store.dispatches) in
      commit_prepared-IsSettled now i o.0 o.1.0 o.1.1 a.0 a.1 (o.1.1 || is_planned o.0.status)
        (found_order-eq id now i store.orders) (found_dispatch-eq o.0 store.dispatches) refl

  -- To prepare an intent's order again, at any later time, changes nothing: the order, the dispatch
  -- and the two tables are those of the first preparation, and no order is created.
  pub prepare_live_order_dispatch_idempotent :
      (id later_id : ℕ) (now later : Moment) (i : TradeIntent D) (store : OrderStore D)
      → let first = prepare_live_order_dispatch id now i store in
        prepare_live_order_dispatch later_id later i first.store ≡ record {
          store = first.store;
          order = first.order;
          dispatch = first.dispatch;
          created = false;
        }
  unfolding IsSettled
  prepare_live_order_dispatch_idempotent id later_id now later i store =
      let (f, g, s) = prepare_live_order_dispatch-IsSettled id now i store in
      prepare_live_order_dispatch-found later_id later i _ _ _ f g s
