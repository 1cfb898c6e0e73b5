-- ===== src/Paper/Loss.antt =====
-- The loss limits that paper and live share: backend/app/services/copy_risk_rules.py.
use copytrading_agent.Prelude.{
  ℕ, ◌≤◌, ◌⊎◌, true, ◌&&◌, ◌≡◌, Option, none, some, List, [], ◌∷◌, arith, if◌then◌else◌,
}
use copytrading_agent.Decimal.{Decimal, IsOrdered, IsRounded, ◌⩽◌, ◌⋖◌, ◌⊖◌, ◌⊗◌, ◌⊘◌, max}
use copytrading_agent.Decimal.Order.{le-max_right, le_of_lt}
use copytrading_agent.Settings.{Settings}

pub record AccountLossState (D : Type 0) : Type 0 where
  pub daily_loss_pct : D
  pub weekly_loss_pct : D
  pub drawdown_pct : D

-- The rule, which decides the label.
pub data LossRule : Type 0 where
  max_daily_loss max_weekly_loss max_drawdown : LossRule

-- The place of a rule among the three.
abbrev pub place : LossRule → ℕ
place max_daily_loss = 0
place max_weekly_loss = 1
place max_drawdown = 2

pub record AccountLossBreach (D : Type 0) : Type 0 where
  pub rule : LossRule
  pub observed : D
  pub limit : D

module _ {D : Type 0} ⦃d : Decimal D⦄ where
  unfoldable pub source_loss_limit_usd : D → Settings D → Option D
  source_loss_limit_usd equity_usd settings =
      if settings.live_trading_max_source_loss_pct ⩽ d.nought
      then none
      else some (settings.live_trading_max_source_loss_pct ⊗ equity_usd)

  -- The loop over the three rules.
  first_breach : List (LossRule × D × D) → Option (AccountLossBreach D)
  first_breach [] = none
  first_breach ((rule, observed, limit) ∷ rest) =
      let later = first_breach rest in
      if d.nought ⋖ limit && limit ⩽ observed
      then some (record { rule = rule; observed = observed; limit = limit })
      else later

  unfoldable pub account_loss_breach :
      Option (AccountLossState D) → Settings D → Option (AccountLossBreach D)
  unfolding first_breach
  account_loss_breach none settings = none
  account_loss_breach (some state) settings = first_breach (
      (max_daily_loss, state.daily_loss_pct, settings.live_trading_max_daily_loss_pct)
      ∷ (max_weekly_loss, state.weekly_loss_pct, settings.live_trading_max_weekly_loss_pct)
      ∷ (max_drawdown, state.drawdown_pct, settings.live_trading_max_drawdown_pct)
      ∷ [])

  unfoldable pub performance_loss_pct : D → D → D
  performance_loss_pct current_index reference_index =
      if reference_index ⩽ d.nought
      then d.nought
      else max (d.one ⊖ current_index ⊘ reference_index) d.nought

  -- The loss that a rule is about, and its limit.
  abbrev pub loss_of : LossRule → AccountLossState D → D
  loss_of max_daily_loss state = state.daily_loss_pct
  loss_of max_weekly_loss state = state.weekly_loss_pct
  loss_of max_drawdown state = state.drawdown_pct

  abbrev pub limit_of : LossRule → Settings D → D
  limit_of max_daily_loss settings = settings.live_trading_max_daily_loss_pct
  limit_of max_weekly_loss settings = settings.live_trading_max_weekly_loss_pct
  limit_of max_drawdown settings = settings.live_trading_max_drawdown_pct

  -- The loss of the rule is at its limit or beyond, and the limit is on.
  abbrev pub IsReached : LossRule → AccountLossState D → Settings D → Type 0
  IsReached rule state settings =
      ((d.nought ⋖ limit_of rule settings) ≡ true)
      × ((limit_of rule settings ⩽ loss_of rule state) ≡ true)

  -- The limit of the rule is off, or its loss is below it.
  abbrev pub IsKept : LossRule → AccountLossState D → Settings D → Type 0
  IsKept rule state settings =
      ((limit_of rule settings ⩽ d.nought) ≡ true)
      ⊎ ((loss_of rule state ⋖ limit_of rule settings) ≡ true)

  -- What an answer says of any rule: none is reached where no breach is reported; a reported breach
  -- has its own rule's loss and limit and is reached, and each earlier rule is kept.
  abbrev pub IsFirstBreach :
      LossRule → AccountLossState D → Settings D → Option (AccountLossBreach D) → Type 0
  IsFirstBreach rule state settings none = IsKept rule state settings
  IsFirstBreach rule state settings (some b) =
      (b.observed ≡ loss_of b.rule state)
      × (b.limit ≡ limit_of b.rule settings)
      × IsReached b.rule state settings
      × ((place b.rule ≤ place rule) ⊎ IsKept rule state settings)

  -- The second answer is a breach where the first is, of the same or an earlier rule.
  abbrev pub IsNoLater : Option (AccountLossBreach D) → Option (AccountLossBreach D) → Type 0
  IsNoLater none other = Unit
  IsNoLater (some b) none = ⊥
  IsNoLater (some b) (some c) = place c.rule ≤ place b.rule

module _ {D : Type 0} ⦃d : Decimal D⦄ (order : IsOrdered D) where
  open order use {le_trans}

  account_loss_breach-IsFirstBreach :
      (rule : LossRule) (state : AccountLossState D) (settings : Settings D)
      → IsFirstBreach rule state settings (account_loss_breach (some state) settings)
  unfolding account_loss_breach
  account_loss_breach-IsFirstBreach max_daily_loss state settings = ground arith
  account_loss_breach-IsFirstBreach max_weekly_loss state settings = ground arith
  account_loss_breach-IsFirstBreach max_drawdown state settings = ground arith

  -- The losses of the second state are at least those of the first.
  pub record IsWorse (state worse : AccountLossState D) : Type 0 where
    pub daily : (state.daily_loss_pct ⩽ worse.daily_loss_pct) ≡ true
    pub weekly : (state.weekly_loss_pct ⩽ worse.weekly_loss_pct) ≡ true
    pub drawdown : (state.drawdown_pct ⩽ worse.drawdown_pct) ≡ true

  -- Whatever rule is asked about, of the rules daily, weekly and drawdown in this order: where no
  -- breach is reported the rule's limit is off or not reached; a reported breach carries the loss and
  -- the limit of its own rule, which is reached, and an earlier rule is off or not reached. A state
  -- whose losses are at least as large has a breach too, of the same or an earlier rule.
  pub account_loss_breach_lem :
      (rule : LossRule) (state worse : AccountLossState D) (settings : Settings D)
      → IsWorse state worse
      → let breach = account_loss_breach (some state) settings in
        let other = account_loss_breach (some worse) settings in
        IsFirstBreach rule state settings breach × IsNoLater breach other
  unfolding account_loss_breach
  account_loss_breach_lem rule state worse settings w =
      let daily = settings.live_trading_max_daily_loss_pct in
      let weekly = settings.live_trading_max_weekly_loss_pct in
      let drawdown = settings.live_trading_max_drawdown_pct in
      (
        account_loss_breach-IsFirstBreach rule state settings,
        ground (
          arith,
          le_trans daily state.daily_loss_pct worse.daily_loss_pct,
          le_trans weekly state.weekly_loss_pct worse.weekly_loss_pct,
          le_trans drawdown state.drawdown_pct worse.drawdown_pct,
        ),
      )

module _ {D : Type 0} ⦃d : Decimal D⦄ (order : IsOrdered D) (rounded : IsRounded D) where
  open order use {le_refl, le_trans}
  open rounded use {div_mono, sub_mono}

  -- A loss is never negative, and grows as the index falls.
  pub performance_loss_pct_mono :
      (current lower reference : D)
      → (lower ⩽ current) ≡ true
      → ((d.nought ⩽ performance_loss_pct current reference) ≡ true)
        × ((performance_loss_pct current reference ⩽ performance_loss_pct lower reference) ≡ true)
  unfolding performance_loss_pct
  performance_loss_pct_mono current lower reference h =
      let now = current ⊘ reference in
      let then' = lower ⊘ reference in
      ground (
        arith,
        le_refl d.nought,
        le_of_lt order d.nought reference,
        le-max_right order (d.one ⊖ now) d.nought,
        div_mono lower current reference,
        sub_mono then' now d.one,
        le_trans d.nought (d.one ⊖ now) (d.one ⊖ then'),
      )
