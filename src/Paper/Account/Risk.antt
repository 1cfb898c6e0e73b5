-- ===== src/Paper/Account/Risk.antt =====
-- Loss limits, marked equity and peaks of paper accounts (backend/app/services/paper_risk_service.py).
use copytrading_agent.Prelude.{
  String, true, ◌≡◌, ◌↔◌, some, List, [], ◌∷◌, arith, refl, get_or, is_some, All, inl, inr,
  Option-cases,
}
use copytrading_agent.Decimal.{Decimal, IsOrdered, ◌⩽◌, ◌⊕◌, max}
use copytrading_agent.Decimal.Order.{le-max_left, le-max_right}
use copytrading_agent.Settings.{Settings}
use copytrading_agent.Paper.Margin.{price_of}
use copytrading_agent.Paper.Account.{
  PaperAccount, PaperPosition, paper_marked_equity, marked_from, record_snapshot, positions_of,
  pnl_of,
}

module _ {D : Type 0} ⦃d : Decimal D⦄ where
  marked_from-priced :
      (prices : List (String × D)) (total : D) (positions : List (PaperPosition D))
      → (is_some (marked_from prices total positions) ≡ true)
        ↔ All (λ position. is_some (price_of prices position.coin) ≡ true) positions
  unfolding marked_from
  marked_from-priced prices total [] = ((λ _. tt), λ _. refl)
  marked_from-priced prices total (position ∷ rest) =
      elim (Option-cases (price_of prices position.coin)) [
        | inl e ↦ ground arith
        | inr (price, e) ↦
            let (to, from) = marked_from-priced prices (total ⊕ pnl_of position price) rest in
            ((λ h. (ground arith, to (ground arith))), (λ h. ground (arith, from h.1)))
      ]

  -- An account has a marked equity exactly when each of its positions has a price that is not 0.
  pub paper_marked_equity-priced :
      (account : PaperAccount D) (positions : List (PaperPosition D)) (prices : List (String × D))
      → (is_some (paper_marked_equity account positions prices) ≡ true)
        ↔ All (λ position. is_some (price_of prices position.coin) ≡ true) positions
  unfolding paper_marked_equity
  paper_marked_equity-priced account positions prices =
      let marked = marked_from-priced prices d.nought positions in
      ((λ h. marked.0 (ground arith)), (λ h. ground (arith, marked.1 h)))

module _ {D : Type 0} ⦃d : Decimal D⦄ (order : IsOrdered D) where
  open order use {le_refl, le_trans, le_total}

  record_snapshot-nonneg :
      (account : PaperAccount D) (positions : List (PaperPosition D)) (prices : List (String × D))
      {equity : D}
      → (record_snapshot positions prices account).1 ≡ some equity
      → (d.nought ⩽ equity) ≡ true
  unfolding record_snapshot
  record_snapshot-nonneg account positions prices h =
      let found = paper_marked_equity account (positions_of account.key positions) prices in
      elim (Option-cases found) [
        | inl e ↦ absurd (ground arith)
        | inr (marked, e) ↦ ground (arith, le-max_right order marked d.nought)
      ]

  -- A snapshot records an equity that is not negative; the peak of the account is then at least it,
  -- and at least the peak that it was, and is one of the two.
  pub record_snapshot-peak :
      (account : PaperAccount D) (positions : List (PaperPosition D)) (prices : List (String × D))
      {equity : D}
      → (record_snapshot positions prices account).1 ≡ some equity
      → ((d.nought ⩽ equity) ≡ true)
        × ((peak : D) × ((record_snapshot positions prices account).0.peak_equity_usd ≡ some peak)
            × ((equity ⩽ peak) ≡ true)
            × ((get_or account.peak_equity_usd peak ⩽ peak) ≡ true))
  unfolding record_snapshot
  record_snapshot-peak account positions prices {equity} h =
      elim (Option-cases account.peak_equity_usd) [
        | inl none_yet ↦ (
          record_snapshot-nonneg account positions prices h,
          (equity, ground arith, le_refl equity, ground (arith, le_refl equity)),
        )
        | inr (old, e) ↦ (
          record_snapshot-nonneg account positions prices h,
          (
            max old equity,
            ground arith,
            le-max_right order old equity,
            ground (arith, le-max_left order old equity),
          ),
        )
      ]
