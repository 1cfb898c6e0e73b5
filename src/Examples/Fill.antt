-- ===== src/Examples/Fill.antt =====
-- The parts of live source fills (backend/app/services/live_copy_state_service.py) and the order of
-- fills (backend/app/services/source_fill_ordering.py) at concrete rows.
use Prim.Native.Nat.{Ordering}
use Prim.Native.String.{compare}
use copytrading_agent.Prelude.{
  ℕ, ◌≡◌, ◌≢◌, ◌⊎◌, refl, String, true, false, none, some, List, [], ◌∷◌, arith, is_some,
}
use copytrading_agent.Prelude.Int.{ℤ, pos}
use copytrading_agent.Decimal.Units.{units_decimal, units-IsOrdered, units-IsExact, parse_units}
use copytrading_agent.Trade.{long, short, flip_close, flip_open}
use copytrading_agent.Signal.Parts.{SourceFill, SourceFillPart}
use copytrading_agent.Source.Order.{Digits, source_fill_order_key, key_before}
use copytrading_agent.Source.Order.Fills.{
  IsSequenced, close_long, open_short, source_fill_order_key-IsSequenced,
  source_fill_order_key-connected,
}
use copytrading_agent.Live.Work.{TextOrder}
use copytrading_agent.Live.Fill.{LiveCopyFillState, pending, order}
use copytrading_agent.Live.Fill.Plan.{
  LiveCopySourceState, LiveCopyFill, PlanContext, new_state, states_of_fill, get_state,
  ensure_live_copy_fill_plan_states, validate_live_copy_fill_plan_state,
  mark_live_copy_fill_complete_if_durable, complete_states, normalize_live_copy_fill_plan_parts,
}
use copytrading_agent.Live.Fill.Plan.Durable.{ensure_live_copy_fill_plan_states-IsPlanned}
use copytrading_agent.Live.Fill.Plan.Complete.{
  IsConsistent, IsAnswer, mark_live_copy_fill_complete_if_durable_lem,
}
use copytrading_agent.Live.Fill.Claim.{Ledger}
use copytrading_agent.Live.Fill.Part.{claimed, claim_live_copy_fill_part, replace_state, processing}
use copytrading_agent.Live.Fill.Part.Turn.{
  IsInTurn, IsClaim, claim_live_copy_fill_part-IsClaim, claim_live_copy_fill_part-refused,
}
use copytrading_agent.Live.Fill.Part.Leases.{
  TableWrite, claim_part, set_row, add_rows, run_writes,
  claim_live_copy_fill_part-claim_live_copy_fill_part,
}
use copytrading_agent.Live.Fill.Part.Progress.{IsPlanned, claim_live_copy_fill_part-claimed}

instance abbrev texts : TextOrder
texts = record { text_lt = λ a b. elim (compare a b) [ Ordering.lt ↦ true | _ ↦ false ] }

abbrev source : LiveCopySourceState
source = record {
  account_key = "live";
  source_wallet = "w";
  is_active = true;
  activated_at = 5_000_000;
}

-- A sale of 6, of which 4 close a long position and 2 open a short one.
abbrev turn : LiveCopyFill ℤ
turn = record {
  source_fill_id = "7";
  coin = "BTC";
  timestamp_ms = 6000;
  direction_rank = 0;
  position = pos 4;
  fill_id_numeric = some (pos 7);
  observed_at = none;
}

abbrev closes : SourceFillPart ℤ
closes = record {
  action = flip_close;
  side = long;
  source_size = pos 4;
  source_notional_usd = pos 40;
  sequence_index = 0;
  close_ratio = some (pos 1);
  start_position = some (pos 4);
}

abbrev opens : SourceFillPart ℤ
opens = record {
  action = flip_open;
  side = short;
  source_size = pos 2;
  source_notional_usd = pos 20;
  sequence_index = 1;
  close_ratio = none;
  start_position = some (pos 0);
}

abbrev context : PlanContext
context = record {
  origin = "realtime";
  now = 6_100_000;
  observed_at = none;
  first_observed_at = some 6_050_000;
  execution_claimed_at = none;
}

abbrev parts : List (SourceFillPart ℤ)
parts = opens ∷ closes ∷ []

abbrev ordered_parts : List (SourceFillPart ℤ)
ordered_parts = closes ∷ opens ∷ []

abbrev row_of : SourceFillPart ℤ → LiveCopyFillState ℤ
row_of part = new_state source turn context 2 part

abbrev table : List (LiveCopyFillState ℤ)
table = row_of closes ∷ row_of opens ∷ []

abbrev ledger : Ledger ℤ
ledger = record { orders = []; fills = []; positions = [] }

parts_ordered : normalize_live_copy_fill_plan_parts parts ≡ some ordered_parts
unfolding copytrading_agent.Live.Fill.Plan.normalize_live_copy_fill_plan_parts
    copytrading_agent.Live.Fill.Plan.parts_from
parts_ordered = refl

plan_ensured : ensure_live_copy_fill_plan_states source turn parts context [] ≡ some table
unfolding ensure_live_copy_fill_plan_states copytrading_agent.Live.Fill.Plan.validate_all
    copytrading_agent.Live.Fill.Plan.claim_existing copytrading_agent.Live.Fill.Plan.missing_states
    states_of_fill get_state copytrading_agent.Live.Fill.Plan.normalize_live_copy_fill_plan_parts
    copytrading_agent.Live.Fill.Plan.parts_from
plan_ensured = refl

ensure_live_copy_fill_plan_states-IsPlanned_example :
    (s : LiveCopyFillState ℤ) × (get_state 1 (states_of_fill source "7" table) ≡ some s)
    × (validate_live_copy_fill_plan_state turn opens 2 s ≡ true)
unfolding copytrading_agent.Live.Fill.Plan.normalize_live_copy_fill_plan_parts
    copytrading_agent.Live.Fill.Plan.parts_from ensure_live_copy_fill_plan_states
    copytrading_agent.Live.Fill.Plan.validate_all states_of_fill
    copytrading_agent.Live.Fill.Plan.claim_existing copytrading_agent.Live.Fill.Plan.missing_states
    get_state
ensure_live_copy_fill_plan_states-IsPlanned_example =
    ensure_live_copy_fill_plan_states-IsPlanned units-IsOrdered source turn parts ordered_parts
      context [] table 1 opens parts_ordered plan_ensured refl

closes-IsPlanned : IsPlanned source turn closes table (row_of closes)
unfolding states_of_fill get_state validate_live_copy_fill_plan_state
closes-IsPlanned = (refl, refl, refl, refl, refl)

closes-IsInTurn : IsInTurn source turn closes ledger table
unfolding states_of_fill get_state validate_live_copy_fill_plan_state
    copytrading_agent.Live.Fill.Claim.is_live_copy_fill_post_baseline
    copytrading_agent.Live.Fill.Claim.live_copy_entry_follows_owned_position_lifecycle
    copytrading_agent.Live.Fill.Claim.is_same_side_owned_continuation_part
    copytrading_agent.Live.Fill.Claim.has_unresolved_order
    copytrading_agent.Live.Fill.Part.is_prior_blocker
    copytrading_agent.Live.Fill.Part.earlier_source_order
closes-IsInTurn = ((refl, (refl, tt)), (refl, (refl, tt)))

claim_live_copy_fill_part-claimed_example :
    (claim_live_copy_fill_part (some source) turn closes 7_000_000 60 false ledger table).0.reason
    ≡ claimed
claim_live_copy_fill_part-claimed_example =
    claim_live_copy_fill_part-claimed source turn closes 7_000_000 60 false ledger table
      (row_of closes) refl refl closes-IsPlanned refl refl refl closes-IsInTurn

-- The first claim of the closing part.
abbrev FirstClaim : Type 0
FirstClaim =
    (claim_live_copy_fill_part (some source) turn closes 7_000_000 60 false ledger table).0.reason
    ≡ claimed

first_claimed : FirstClaim
unfolding states_of_fill get_state validate_live_copy_fill_plan_state
    copytrading_agent.Live.Fill.Claim.is_live_copy_fill_post_baseline
    copytrading_agent.Live.Fill.Claim.live_copy_entry_follows_owned_position_lifecycle
    copytrading_agent.Live.Fill.Claim.is_same_side_owned_continuation_part
    copytrading_agent.Live.Fill.Claim.has_unresolved_order
    copytrading_agent.Live.Fill.Part.is_prior_blocker
    copytrading_agent.Live.Fill.Part.earlier_source_order claim_live_copy_fill_part
    copytrading_agent.Live.Fill.Part.claim_planned copytrading_agent.Live.Fill.Part.unresolved_lower
    copytrading_agent.Live.Fill.Part.lower_sequence_blocker
    copytrading_agent.Live.Fill.Part.prior_blocker_in
    copytrading_agent.Live.Fill.Part.get_prior_live_copy_fill_blocker
first_claimed = refl

claim_live_copy_fill_part-IsClaim_example :
    (source.is_active ≡ true)
    × (s : LiveCopyFillState ℤ) × IsClaim source turn closes 7_000_000 60 false ledger table
        (claim_live_copy_fill_part (some source) turn closes 7_000_000 60 false ledger table)
        s
claim_live_copy_fill_part-IsClaim_example =
    claim_live_copy_fill_part-IsClaim source turn closes 7_000_000 60 false ledger table refl
      first_claimed

-- The other part is tried and its row is put off, before the closing part is tried again under a
-- source that was activated anew.
abbrev writes : List (TableWrite ℤ)
writes =
    claim_part (some source) turn opens 7_500_000 60 false ledger
    ∷ set_row (record (row_of opens) { next_attempt_at = some 9_000_000 })
    ∷ add_rows []
    ∷ []

abbrev activated_again : LiveCopySourceState
activated_again = record source { activated_at = 5_500_000 }

claim_live_copy_fill_part-claim_live_copy_fill_part_example :
    (claim_live_copy_fill_part (some activated_again) turn closes 8_000_000 60 false ledger (
      run_writes writes
        (claim_live_copy_fill_part
          (some source)
          turn
          closes
          7_000_000
          60
          false
          ledger
          table).1)).0.reason
    ≢ claimed
claim_live_copy_fill_part-claim_live_copy_fill_part_example =
    claim_live_copy_fill_part-claim_live_copy_fill_part source activated_again turn turn closes
      closes 7_000_000 8_000_000 60 60 false false ledger ledger writes table refl refl refl refl
      first_claimed (omega arith, (λ own. absurd (ground (arith, own)), (tt, tt))) (omega arith)

-- The opening part waits for the closing one.
opens_waits :
    (claim_live_copy_fill_part (some source) turn opens 7_000_000 60 false ledger table).0.reason
    ≢ claimed
unfolding states_of_fill get_state validate_live_copy_fill_plan_state
    copytrading_agent.Live.Fill.Claim.is_live_copy_fill_post_baseline
    copytrading_agent.Live.Fill.Claim.live_copy_entry_follows_owned_position_lifecycle
    copytrading_agent.Live.Fill.Claim.is_same_side_owned_continuation_part
    copytrading_agent.Live.Fill.Claim.has_unresolved_order
    copytrading_agent.Live.Fill.Part.is_prior_blocker
    copytrading_agent.Live.Fill.Part.earlier_source_order claim_live_copy_fill_part
    copytrading_agent.Live.Fill.Part.claim_planned copytrading_agent.Live.Fill.Part.unresolved_lower
    copytrading_agent.Live.Fill.Part.lower_sequence_blocker
    copytrading_agent.Live.Fill.Part.prior_blocker_in
    copytrading_agent.Live.Fill.Part.get_prior_live_copy_fill_blocker
opens_waits = ground arith

claim_live_copy_fill_part-refused_example :
    (claim_live_copy_fill_part (some source) turn opens 7_000_000 60 false ledger table).1 ≡ table
claim_live_copy_fill_part-refused_example =
    claim_live_copy_fill_part-refused (some source) turn opens 7_000_000 60 false ledger table
      opens_waits

-- The plan once both parts have their orders.
abbrev decided : List (LiveCopyFillState ℤ)
decided =
    record (row_of closes) { outcome = order } ∷ record (row_of opens) { outcome = order } ∷ []

decided_marked :
    mark_live_copy_fill_complete_if_durable source "7" parts decided
    ≡ some (complete_states source "7" decided, true)
unfolding mark_live_copy_fill_complete_if_durable states_of_fill get_state
    copytrading_agent.Live.Fill.Plan.normalize_live_copy_fill_plan_parts
    copytrading_agent.Live.Fill.Plan.parts_from
decided_marked = refl

mark_live_copy_fill_complete_if_durable_lem_example :
    IsAnswer source "7" ordered_parts decided (complete_states source "7" decided, true)
    × IsConsistent (complete_states source "7" decided)
mark_live_copy_fill_complete_if_durable_lem_example =
    mark_live_copy_fill_complete_if_durable_lem source "7" parts ordered_parts decided
      (complete_states source "7" decided, true) parts_ordered decided_marked (refl, (refl, tt))

-- Of ASCII texts.
instance abbrev digits : Digits
digits = record { is_digit = λ s. is_some (parse_units s) }

-- Two fills at one time: one closes a long position of 4, the other opens a short one.
abbrev sale : SourceFill
sale = record {
  external_fill_id = some "9";
  coin = some "BTC";
  price = some "10";
  size = some "4";
  notional_usd = some "40";
  timestamp_ms = 6000;
  raw_json = some (record { dir = some "Close Long"; start_position = some "4" });
}

abbrev short_sale : SourceFill
short_sale = record sale {
  external_fill_id = some "8";
  raw_json = some (record { dir = some "Open Short"; start_position = some "0" });
}

source_fill_order_key-IsSequenced_example :
    IsSequenced true false
      (pos 4)
      (pos 0)
      (key_before (source_fill_order_key {D = ℤ} sale) (source_fill_order_key short_sale))
      (key_before (source_fill_order_key {D = ℤ} short_sale) (source_fill_order_key sale))
source_fill_order_key-IsSequenced_example =
    source_fill_order_key-IsSequenced units-IsOrdered units-IsExact sale short_sale close_long
      open_short (pos 4) (pos 0) refl refl refl refl refl refl

source_fill_order_key-connected_example :
    let before =
      key_before (source_fill_order_key {D = ℤ} sale) (source_fill_order_key short_sale) in
    let after =
      key_before (source_fill_order_key {D = ℤ} short_sale) (source_fill_order_key sale) in
    ((before ≡ true) × (after ≡ false))
    ⊎ (((before ≡ false) × (after ≡ true))
        ⊎ ((◌≡◌ {A = String} "9" "8") × (◌≡◌ {A = ℕ} 6000 6000) × (◌≡◌ {A = String} "BTC" "BTC")))
source_fill_order_key-connected_example =
    source_fill_order_key-connected units-IsOrdered sale short_sale
