-- ===== src/Live/Safety.antt =====
-- How a live account stops its entries: backend/app/services/trading_safety_service.py.
pub mod Stop
use text.Mathlib.Text.{◌==◌ as str_eq}
use Prim.Native.String.{◌++◌}
use copytrading_agent.Prelude.{
  ℕ, suc, ◌+◌, String, Bool, true, false, not, ◌&&◌, Option, none, some, List, [], ◌∷◌, ◌==◌, leb,
  if◌then◌else◌, get_or,
}
use copytrading_agent.Signal.Pricing.{Moment}
use copytrading_agent.Live.Order.{
  OrderStatus, TradingOrder, TradingOrderDispatch, OrderStore, planned, ready, canceled, withdrawn,
  load_live_order_dispatch, replace_dispatch,
}

pub data AccountStatus : Type 0 where
  disabled enabled exit_only : AccountStatus

-- The fields of `TradingAccount` that the safety service writes.
pub record LiveAccount : Type 0 where
  pub key : String
  pub status : AccountStatus
  pub lifecycle_version : ℕ
  pub status_changed_at : Option Moment
  pub status_reason : Option String

-- What a trip records, in the risk event and in the audit log.
pub record RiskTrip : Type 0 where
  pub account_key : String
  pub rule : String
  pub message : String
  pub observed : Option String
  pub limit : Option String
  pub canceled_orders : ℕ
  pub lifecycle_version : ℕ

unfoldable pub parse_account_status : String → Option AccountStatus
parse_account_status value =
    if str_eq value "disabled"
    then some disabled
    else if str_eq value "enabled"
    then some enabled
    else if str_eq value "exit_only"
    then some exit_only
    else none

abbrev pub set_status : LiveAccount → String → Moment → Option AccountStatus → Option LiveAccount
set_status account reason now none = none
set_status account reason now (some status) = some (record account {
  status = status;
  lifecycle_version = suc account.lifecycle_version;
  status_changed_at = some now;
  status_reason = some reason;
})

-- `none` is the `ValueError`.
unfoldable pub apply_live_account_status :
    LiveAccount → String → String → Moment → Option LiveAccount
unfolding parse_account_status
apply_live_account_status account status reason now =
    set_status account reason now (parse_account_status status)

-- `UNSENT_ENTRY_STATUSES`
abbrev pub is_unsent : OrderStatus → Bool
is_unsent planned = true
is_unsent ready = true
is_unsent _ = false

abbrev pub matches_key : Option String → String → Bool
matches_key none key = true
matches_key (some wanted) key = str_eq key wanted

abbrev pub is_excluded : Option ℕ → ℕ → Bool
is_excluded none id = false
is_excluded (some excluded) id = id == excluded

-- The latest dispatch of the order is withdrawn with it.
abbrev pub withdraw_latest :
    Moment
    → String
    → Option TradingOrderDispatch
    → List TradingOrderDispatch
    → List TradingOrderDispatch
withdraw_latest now reason none dispatches = dispatches
withdraw_latest now reason (some a) dispatches =
    replace_dispatch
      (record a { status = withdrawn; completed_at = some now; last_error = some reason })
      dispatches

module _ {D : Type 0} where
  -- The `where` of the selection.
  abbrev pub is_selected : Option String → Option ℕ → TradingOrder D → Bool
  is_selected account_key exclude_order_id o =
      o.is_live
      && (not o.reduce_only
          && (is_unsent o.status
              && (matches_key account_key o.account_key
                  && not (is_excluded exclude_order_id o.id))))

  abbrev pub canceled_order : String → TradingOrder D → TradingOrder D
  canceled_order reason o = record o { status = canceled; error = some reason }

  unfoldable pub cancel_orders :
      Option String → Option ℕ → String → List (TradingOrder D) → List (TradingOrder D) × ℕ
  cancel_orders account_key exclude_order_id reason [] = ([], 0)
  cancel_orders account_key exclude_order_id reason (o ∷ rest) =
      let later = cancel_orders account_key exclude_order_id reason rest in
      if is_selected account_key exclude_order_id o
      then (canceled_order reason o ∷ later.0, suc later.1)
      else (o ∷ later.0, later.1)

  unfoldable pub cancel_dispatches :
      Option String
      → Option ℕ
      → String
      → Moment
      → List (TradingOrder D)
      → List TradingOrderDispatch
      → List TradingOrderDispatch
  cancel_dispatches account_key exclude_order_id reason now [] dispatches = dispatches
  cancel_dispatches account_key exclude_order_id reason now (o ∷ rest) dispatches =
      let later = cancel_dispatches account_key exclude_order_id reason now rest dispatches in
      if is_selected account_key exclude_order_id o
      then withdraw_latest now reason (load_live_order_dispatch o.id dispatches) later
      else later

  -- The store, and how many orders were canceled.
  unfoldable pub cancel_unsent_live_entries :
      Option String → Option ℕ → String → Moment → OrderStore D → OrderStore D × ℕ
  cancel_unsent_live_entries account_key exclude_order_id reason now store =
      let canceled = cancel_orders account_key exclude_order_id reason store.orders in
      (
        record {
          orders = canceled.0;
          dispatches =
              cancel_dispatches account_key exclude_order_id reason now store.orders
                store.dispatches;
        },
        canceled.1,
      )

abbrev pub tripped_status : LiveAccount → String → Moment → AccountStatus → LiveAccount
tripped_status account reason now enabled =
    get_or (apply_live_account_status account "exit_only" reason now) account
tripped_status account reason now _ = account

-- The account, the store and what is recorded after a risk rule has tripped.
unfoldable pub trip_live_account_risk :
    {D : Type 0}
    → LiveAccount
    → String
    → String
    → Option String
    → Option String
    → Moment
    → OrderStore D
    → LiveAccount × (OrderStore D × RiskTrip)
unfolding apply_live_account_status parse_account_status cancel_unsent_live_entries
trip_live_account_risk account rule message observed limit now store =
    let tripped = tripped_status account ("risk_trip:" ++ rule) now account.status in
    let canceled =
      cancel_unsent_live_entries (some tripped.key) none
        ("Entry canceled after risk trip: " ++ rule ++ ".") now store in
    (
      tripped,
      (
        canceled.0,
        record {
          account_key = tripped.key;
          rule = rule;
          message = message;
          observed = observed;
          limit = limit;
          canceled_orders = canceled.1;
          lifecycle_version = tripped.lifecycle_version;
        },
      ),
    )
