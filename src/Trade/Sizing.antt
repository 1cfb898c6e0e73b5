-- ===== src/Trade/Sizing.antt =====
-- Entry sizing: `plan_entry_sizing` and its neighbours in backend/app/services/trading_core.py.
pub mod Bounds
use copytrading_agent.Prelude.{
  ℕ, Bool, true, false, not, ◌&&◌, ◌||◌, Option, none, some, if◌then◌else◌,
}
use copytrading_agent.Decimal.{Decimal, ◌⩽◌, ◌⋖◌, ◌⊕◌, ◌⊖◌, ◌⊗◌, ◌⊘◌, min, max}
use copytrading_agent.Settings.{Settings}

pub data SkipReason : Type 0 where
  sizing_inputs_unavailable source_exposure_cap_reached total_exposure_cap_reached : SkipReason
  target_position_reached below_min_order_notional : SkipReason

pub record EntrySizingLimits (D : Type 0) : Type 0 where
  pub min_order_notional_usd : D
  pub min_order_round_up_ratio : D
  pub max_source_exposure_multiple : D
  pub max_total_exposure_multiple : D

pub record EntrySizingDecision (D : Type 0) : Type 0 where
  pub notional_usd : D
  pub skip_reason : Option SkipReason
  pub target_notional_usd : D
  pub fill_target_notional_usd : D
  pub desired_notional_usd : D
  pub rounded_up : Bool
  pub capped : Bool

-- The keyword arguments of `plan_entry_sizing`, but for the limits.
pub record EntrySizingInputs (D : Type 0) : Type 0 where
  pub opening : Bool
  pub allocation_usd : D
  pub account_equity_usd : D
  pub source_equity_usd : D
  pub source_fill_size : D
  pub source_position_after : D
  pub current_position_size : D
  pub price : D
  pub source_exposure_usd : D
  pub account_exposure_usd : D

module _ {D : Type 0} ⦃d : Decimal D⦄ where
  unfoldable pub entry_sizing_limits : Settings D → Option D → EntrySizingLimits D
  entry_sizing_limits settings min_order_notional_usd = record {
    min_order_notional_usd = elim min_order_notional_usd [
      | none ↦ settings.trading_copy_min_order_notional_usd
      | some given ↦ given
    ];
    min_order_round_up_ratio = settings.trading_copy_min_order_round_up_ratio;
    max_source_exposure_multiple = settings.trading_copy_max_source_exposure_multiple;
    max_total_exposure_multiple = settings.trading_copy_max_total_exposure_multiple;
  }

  unfoldable pub copy_allocation_pct : Settings D → D
  copy_allocation_pct settings =
      settings.trading_copy_max_total_allocation_pct
      ⊘ d.of_int settings.trading_copy_top_wallet_count

  -- The local values of `plan_entry_sizing`, in the order of the source.
  abbrev pub copy_ratio : EntrySizingInputs D → D
  copy_ratio i = i.allocation_usd ⊘ i.source_equity_usd

  abbrev pub fill_target : EntrySizingInputs D → D
  fill_target i = copy_ratio i ⊗ max i.source_fill_size d.nought ⊗ i.price

  abbrev pub target : EntrySizingInputs D → D
  target i = copy_ratio i ⊗ max i.source_position_after d.nought ⊗ i.price

  abbrev pub current : EntrySizingInputs D → D
  current i = max i.current_position_size d.nought ⊗ i.price

  abbrev pub source_room : EntrySizingInputs D → EntrySizingLimits D → D
  source_room i limits =
      limits.max_source_exposure_multiple ⊗ i.allocation_usd ⊖ i.source_exposure_usd

  abbrev pub total_room : EntrySizingInputs D → EntrySizingLimits D → D
  total_room i limits =
      limits.max_total_exposure_multiple ⊗ i.account_equity_usd ⊖ i.account_exposure_usd

  abbrev pub room : EntrySizingInputs D → EntrySizingLimits D → D
  room i limits = min (source_room i limits) (total_room i limits)

  abbrev pub cap_reason : EntrySizingInputs D → EntrySizingLimits D → SkipReason
  cap_reason i limits =
      if source_room i limits ⩽ total_room i limits
      then source_exposure_cap_reached
      else total_exposure_cap_reached

  -- The local function `decision`: a skipped entry has notional 0.
  abbrev decision :
      EntrySizingInputs D → D → D → Option SkipReason → Bool → Bool → EntrySizingDecision D
  decision i notional desired skip_reason rounded_up capped = record {
    notional_usd = elim skip_reason [ none ↦ notional | some _ ↦ d.nought ];
    skip_reason = skip_reason;
    target_notional_usd = target i;
    fill_target_notional_usd = fill_target i;
    desired_notional_usd = desired;
    rounded_up = rounded_up;
    capped = capped;
  }

  -- `if opening:`
  unfoldable pub open_sizing : EntrySizingInputs D → EntrySizingLimits D → EntrySizingDecision D
  open_sizing i limits =
      let min_order = limits.min_order_notional_usd in
      let desired = max (target i ⊖ current i) d.nought in
      if desired ⋖ min_order
      then (if min_order ⩽ room i limits
          then decision i min_order desired none true false
          else decision i d.nought desired (some (cap_reason i limits)) false true)
      else (if desired ⩽ room i limits
          then decision i desired desired none false false
          else (if min_order ⩽ room i limits
              then decision i (room i limits) desired none false true
              else decision i d.nought desired (some (cap_reason i limits)) false true))

  -- The add that the source's fill asks for, at most one minimum order more than the fill.
  abbrev pub add_desired : EntrySizingInputs D → EntrySizingLimits D → D
  add_desired i limits = min (target i ⊖ current i) (fill_target i ⊕ limits.min_order_notional_usd)

  abbrev pub add_allowed : EntrySizingInputs D → EntrySizingLimits D → D
  add_allowed i limits = min (add_desired i limits) (max (room i limits) d.nought)

  -- The rest of the body, for an add.
  unfoldable pub add_sizing : EntrySizingInputs D → EntrySizingLimits D → EntrySizingDecision D
  add_sizing i limits =
      let min_order = limits.min_order_notional_usd in
      let desired = add_desired i limits in
      let allowed = add_allowed i limits in
      let capped = allowed ⋖ desired in
      if target i ⊖ current i ⩽ d.nought
      then decision i d.nought d.nought (some target_position_reached) false false
      else if min_order ⩽ allowed && d.nought ⋖ allowed
      then decision i allowed desired none false capped
      else if d.nought ⋖ allowed
          && limits.min_order_round_up_ratio ⊗ min_order ⩽ allowed
          && min_order ⩽ room i limits
      then decision i min_order desired none true capped
      else decision i d.nought desired
          (some (if capped then cap_reason i limits else below_min_order_notional)) false capped

  unfoldable pub plan_entry_sizing :
      EntrySizingInputs D → EntrySizingLimits D → EntrySizingDecision D
  unfolding open_sizing add_sizing
  plan_entry_sizing i limits =
      if i.allocation_usd ⩽ d.nought || i.source_equity_usd ⩽ d.nought || i.price ⩽ d.nought
      then record {
        notional_usd = d.nought;
        skip_reason = some sizing_inputs_unavailable;
        target_notional_usd = d.nought;
        fill_target_notional_usd = d.nought;
        desired_notional_usd = d.nought;
        rounded_up = false;
        capped = false;
      }
      else if i.opening
      then open_sizing i limits
      else add_sizing i limits

  unfoldable pub source_position_after_fill : Option D → D → D
  source_position_after_fill start_position fill_size =
      let start : D = elim start_position [ none ↦ d.nought | some p ↦ d.copy_abs p ] in
      start ⊕ max fill_size d.nought
