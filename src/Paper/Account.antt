-- ===== src/Paper/Account.antt =====
-- The paper account's ledger, its marked equity and its loss limits:
-- backend/app/services/paper_risk_service.py.
pub mod Ledger
pub mod Risk
use copytrading_agent.Prelude.{
  ℕ, ◌+◌, ◌*◌, ◌-◌, String, Bool, true, false, not, ◌&&◌, Option, none, some, List, [], ◌∷◌, ◌++◌,
  ltb, leb, get_or, is_some, if◌then◌else◌,
}
use text.Mathlib.Text.{◌==◌ as str_eq}
use copytrading_agent.Decimal.{Decimal, ◌⩽◌, ◌⋖◌, ◌⊕◌, ◌⊖◌, ◌⊗◌, max}
use copytrading_agent.Settings.{Settings}
use copytrading_agent.Trade.{TradeSide}
use copytrading_agent.Signal.Pricing.{Moment}
use copytrading_agent.Paper.Margin.{position_pnl, price_of}
use copytrading_agent.Paper.Loss.{
  AccountLossState, AccountLossBreach, LossRule, account_loss_breach, performance_loss_pct,
  source_loss_limit_usd,
}

-- The fields of `PaperTradingAccount` that the risk service reads or writes.
pub record PaperAccount (D : Type 0) : Type 0 where
  pub key : String
  pub cash_balance_usd : D
  pub equity_usd : D
  pub realized_pnl_usd : D
  pub fee_usd : D
  pub funding_usd : D
  pub peak_equity_usd : Option D
  pub exit_only_at : Option Moment
  pub exit_only_reason : Option LossRule

pub record PaperPosition (D : Type 0) : Type 0 where
  pub account_key : String
  pub source_wallet : String
  pub coin : String
  pub side : TradeSide
  pub size : D
  pub entry_price : D

-- `PaperAccountEquitySnapshot` of one account.
pub record EquitySnapshot (D : Type 0) : Type 0 where
  pub equity_usd : D
  pub recorded_at : Moment

-- A `PaperCopyFill` of the account and source at hand.
pub record CopyFill (D : Type 0) : Type 0 where
  pub is_skip : Bool
  pub realized_pnl_usd : D
  pub fee_usd : D
  pub filled_at : Moment

-- The audit log entry that a trip writes.
pub record ExitOnlyAudit (D : Type 0) : Type 0 where
  pub account_key : String
  pub rule : LossRule
  pub observed : D
  pub limit : D

-- What blocks an entry.
pub data RiskReason : Type 0 where
  paper_account_exit_only source_loss_limit : RiskReason
  paper_rule : LossRule → RiskReason

abbrev pub day : Moment
day = 86_400_000_000

-- `now - timedelta(...)`; moments start at the epoch.
abbrev pub before : Moment → ℕ → Moment
before now span = now - span

module _ {D : Type 0} ⦃d : Decimal D⦄ where
  unfoldable pub apply_account_fee : PaperAccount D → D → PaperAccount D
  apply_account_fee account fee =
      let cash = account.cash_balance_usd ⊖ fee in
      record account { cash_balance_usd = cash; equity_usd = cash; fee_usd = account.fee_usd ⊕ fee }

  unfoldable pub apply_account_realized_result : PaperAccount D → D → D → PaperAccount D
  apply_account_realized_result account pnl_usd fee_usd =
      let cash = account.cash_balance_usd ⊕ (pnl_usd ⊖ fee_usd) in
      record account {
        cash_balance_usd = cash;
        equity_usd = cash;
        realized_pnl_usd = account.realized_pnl_usd ⊕ pnl_usd;
        fee_usd = account.fee_usd ⊕ fee_usd;
      }

  unfoldable pub apply_account_funding : PaperAccount D → D → PaperAccount D
  apply_account_funding account amount_usd =
      let cash = account.cash_balance_usd ⊕ amount_usd in
      record account {
        cash_balance_usd = cash;
        equity_usd = cash;
        funding_usd = account.funding_usd ⊕ amount_usd;
      }

  unfoldable pub clear_paper_account_exit_only : PaperAccount D → PaperAccount D
  clear_paper_account_exit_only account = record account {
    exit_only_at = none;
    exit_only_reason = none;
  }

  unfoldable pub trip_paper_account_exit_only :
      PaperAccount D → LossRule → D → D → Moment → PaperAccount D × ExitOnlyAudit D
  trip_paper_account_exit_only account rule observed limit now = (
    record account { exit_only_at = some now; exit_only_reason = some rule },
    record { account_key = account.key; rule = rule; observed = observed; limit = limit },
  )

  -- The latest snapshot at or before the moment, of two at one time the first.
  latest_at : Moment → List (EquitySnapshot D) → Option (EquitySnapshot D)
  latest_at moment [] = none
  latest_at moment (s ∷ rest) = elim (latest_at moment rest) [
    | none ↦ if leb s.recorded_at moment then some s else none
    | some t ↦
        if leb s.recorded_at moment && leb t.recorded_at s.recorded_at then some s else some t
  ]

  -- The snapshot that was recorded last, and the one that was recorded first.
  latest : List (EquitySnapshot D) → Option (EquitySnapshot D)
  latest [] = none
  latest (s ∷ rest) = elim (latest rest) [
    | none ↦ some s
    | some t ↦ if leb t.recorded_at s.recorded_at then some s else some t
  ]

  earliest : List (EquitySnapshot D) → Option (EquitySnapshot D)
  earliest [] = none
  earliest (s ∷ rest) = elim (earliest rest) [
    | none ↦ some s
    | some t ↦ if leb s.recorded_at t.recorded_at then some s else some t
  ]

  -- `max(equity_usd)`
  peak_of : D → List (EquitySnapshot D) → D
  peak_of peak [] = peak
  peak_of peak (s ∷ rest) = peak_of (max peak s.equity_usd) rest

  abbrev equity_or : Option (EquitySnapshot D) → D → D
  equity_or none fallback = fallback
  equity_or (some s) fallback = s.equity_usd

  unfoldable pub paper_account_loss_state :
      List (EquitySnapshot D) → Moment → Option D → Option (AccountLossState D)
  unfolding latest_at latest earliest peak_of performance_loss_pct
  paper_account_loss_state [] now peak_equity_usd = none
  paper_account_loss_state (s ∷ rest) now peak_equity_usd =
      let snapshots : List (EquitySnapshot D) = s ∷ rest in
      let current = equity_or (latest snapshots) d.nought in
      let baseline = equity_or (earliest snapshots) d.nought in
      let equity_at = λ (moment : Moment). equity_or (latest_at moment snapshots) baseline in
      let peak = max (peak_of s.equity_usd rest) (get_or peak_equity_usd d.nought) in
      some (record {
        daily_loss_pct = performance_loss_pct current (equity_at (before now day));
        weekly_loss_pct = performance_loss_pct current (equity_at (before now (7 * day)));
        drawdown_pct = performance_loss_pct current peak;
      })

  -- `sum(realized_pnl_usd - fee_usd)` of the fills that are no skips, from the moment on.
  realized_since : Moment → D → List (CopyFill D) → D
  realized_since moment total [] = total
  realized_since moment total (fill ∷ rest) =
      realized_since moment
        (if not fill.is_skip && leb moment fill.filled_at
          then total ⊕ (fill.realized_pnl_usd ⊖ fill.fee_usd)
          else total)
        rest

  abbrev pub pnl_of : PaperPosition D → D → D
  pnl_of position price = position_pnl position.side position.entry_price price position.size

  -- The profit of the positions that have a price.
  unrealized_of : List (String × D) → D → List (PaperPosition D) → D
  unrealized_of mark_prices total [] = total
  unrealized_of mark_prices total (position ∷ rest) = elim (price_of mark_prices position.coin) [
    | none ↦ unrealized_of mark_prices total rest
    | some price ↦ unrealized_of mark_prices (total ⊕ pnl_of position price) rest
  ]

  -- For the fills and positions of one account and source.
  unfoldable pub paper_source_net_loss_usd :
      List (CopyFill D) → List (PaperPosition D) → Moment → List (String × D) → D
  unfolding realized_since unrealized_of
  paper_source_net_loss_usd fills positions now mark_prices =
      let realized = realized_since (before now (7 * day)) d.nought fills in
      let unrealized = unrealized_of mark_prices d.nought positions in
      max (d.negate (realized ⊕ unrealized)) d.nought

  -- The reason that blocks the entry, and the account with what a trip wrote to the audit log.
  unfoldable pub paper_entry_risk_reason :
      PaperAccount D
      → List (EquitySnapshot D)
      → List (CopyFill D)
      → List (PaperPosition D)
      → List (String × D)
      → Settings D
      → Moment
      → Option RiskReason × PaperAccount D × List (ExitOnlyAudit D)
  unfolding trip_paper_account_exit_only
  paper_entry_risk_reason account snapshots fills positions mark_prices settings now =
      if not settings.paper_copy_loss_limits_enabled
      then (none, account, [])
      else if is_some account.exit_only_at
      then (some paper_account_exit_only, account, [])
      else elim (account_loss_breach
          (paper_account_loss_state snapshots now account.peak_equity_usd) settings) [
            | some breach ↦
                let (tripped, audit) =
                  trip_paper_account_exit_only account breach.rule breach.observed breach.limit
                    now in
                (some (paper_rule breach.rule), tripped, audit ∷ [])
            | none ↦ elim (source_loss_limit_usd (max account.equity_usd d.nought) settings) [
              | none ↦ (none, account, [])
              | some limit ↦
                  if limit ⩽ paper_source_net_loss_usd fills positions now mark_prices
                  then (some source_loss_limit, account, [])
                  else (none, account, [])
            ]
          ]

  -- The loop of `paper_marked_equity`.
  marked_from : List (String × D) → D → List (PaperPosition D) → Option D
  marked_from mark_prices total [] = some total
  marked_from mark_prices total (position ∷ rest) = elim (price_of mark_prices position.coin) [
    | none ↦ none
    | some price ↦ marked_from mark_prices (total ⊕ pnl_of position price) rest
  ]

  unfoldable pub paper_marked_equity :
      PaperAccount D → List (PaperPosition D) → List (String × D) → Option D
  unfolding marked_from
  paper_marked_equity account positions mark_prices =
      elim (marked_from mark_prices d.nought positions) [
        | none ↦ none
        | some unrealized ↦ some (account.cash_balance_usd ⊕ unrealized)
      ]

  -- The positions of one account.
  unfoldable pub positions_of : String → List (PaperPosition D) → List (PaperPosition D)
  positions_of key [] = []
  positions_of key (position ∷ rest) =
      let others = positions_of key rest in
      if str_eq position.account_key key then position ∷ others else others

  -- The body of the loop of `record_paper_equity_snapshots`: the account with its peak, and the equity
  -- that is recorded.
  pub record_snapshot :
      List (PaperPosition D) → List (String × D) → PaperAccount D → PaperAccount D × Option D
  unfolding positions_of
  record_snapshot positions mark_prices account =
      elim (paper_marked_equity account (positions_of account.key positions) mark_prices) [
        | none ↦ (account, none)
        | some marked ↦
            let equity = max marked d.nought in
            let risen : Bool = elim account.peak_equity_usd [
              | none ↦ true
              | some peak ↦ peak ⋖ equity
            ] in
            (
              (if risen then record account { peak_equity_usd = some equity } else account),
              some equity,
            )
      ]

  -- The loop over the accounts: the accounts, the rows that are added, and their number.
  record_all :
      List (PaperPosition D)
      → List (String × D)
      → Moment
      → List (PaperAccount D)
      → List (PaperAccount D) × List (String × EquitySnapshot D) × ℕ
  unfolding record_snapshot
  record_all positions mark_prices now [] = ([], [], 0)
  record_all positions mark_prices now (account ∷ rest) =
      let (accounts, added, recorded) = record_all positions mark_prices now rest in
      let (account', equity) = record_snapshot positions mark_prices account in
      elim equity [
        | none ↦ (account' ∷ accounts, added, recorded)
        | some usd ↦ (
          account' ∷ accounts,
          (account.key, record { equity_usd = usd; recorded_at = now }) ∷ added,
          recorded + 1,
        )
      ]

  -- `delete ... where recorded_at < moment`
  prune : Moment → List (String × EquitySnapshot D) → List (String × EquitySnapshot D)
  prune moment [] = []
  prune moment ((key, s) ∷ rest) =
      let kept = prune moment rest in if ltb s.recorded_at moment then kept else (key, s) ∷ kept

  -- The accounts, the table of snapshots and the number of rows added; the retention is 35 days.
  unfoldable pub record_paper_equity_snapshots :
      List (PaperAccount D)
      → List (PaperPosition D)
      → List (String × EquitySnapshot D)
      → List (String × D)
      → Moment
      → List (PaperAccount D) × List (String × EquitySnapshot D) × ℕ
  unfolding record_all prune
  record_paper_equity_snapshots accounts positions table mark_prices now =
      let (accounts', added, recorded) = record_all positions mark_prices now accounts in
      (accounts', prune (before now (35 * day)) (table ++ added), recorded)
