-- ===== src/Paper/Account/Ledger.antt =====
-- The books of a paper account (backend/app/services/paper_risk_service.py).
use copytrading_agent.Prelude.{◌≡◌, List, [], ◌∷◌, refl}
use copytrading_agent.Decimal.{Decimal, ◌⊕◌, ◌⊖◌}
use copytrading_agent.Paper.Account.{
  PaperAccount, apply_account_fee, apply_account_realized_result, apply_account_funding,
}

-- What is booked on a paper account.
pub data Booking (D : Type 0) : Type 0 where
  fee : D → Booking D
  realized : D → D → Booking D
  funding : D → Booking D

module _ {D : Type 0} ⦃d : Decimal D⦄ where
  abbrev pub book : PaperAccount D → Booking D → PaperAccount D
  book account (fee usd) = apply_account_fee account usd
  book account (realized pnl_usd fee_usd) = apply_account_realized_result account pnl_usd fee_usd
  book account (funding usd) = apply_account_funding account usd

  abbrev pub book_all : PaperAccount D → List (Booking D) → PaperAccount D
  book_all account [] = account
  book_all account (b ∷ bs) = book_all (book account b) bs

  -- The cash that a list of bookings moves, and the three totals.
  abbrev pub cash_after : D → List (Booking D) → D
  cash_after cash [] = cash
  cash_after cash (fee usd ∷ bs) = cash_after (cash ⊖ usd) bs
  cash_after cash (realized pnl_usd fee_usd ∷ bs) = cash_after (cash ⊕ (pnl_usd ⊖ fee_usd)) bs
  cash_after cash (funding usd ∷ bs) = cash_after (cash ⊕ usd) bs

  abbrev pub fees_after : D → List (Booking D) → D
  fees_after total [] = total
  fees_after total (fee usd ∷ bs) = fees_after (total ⊕ usd) bs
  fees_after total (realized pnl_usd fee_usd ∷ bs) = fees_after (total ⊕ fee_usd) bs
  fees_after total (funding usd ∷ bs) = fees_after total bs

  -- After any bookings the equity of the account is its cash, if it was before.
  pub book_all-equity :
      (account : PaperAccount D) (bookings : List (Booking D))
      → account.equity_usd ≡ account.cash_balance_usd
      → (book_all account bookings).equity_usd ≡ (book_all account bookings).cash_balance_usd
  unfolding apply_account_fee apply_account_realized_result apply_account_funding
  book_all-equity account [] h = h
  book_all-equity account (fee usd ∷ bs) h = book_all-equity (book account (fee usd)) bs refl
  book_all-equity account (realized p f ∷ bs) h =
      book_all-equity (book account (realized p f)) bs refl
  book_all-equity account (funding usd ∷ bs) h =
      book_all-equity (book account (funding usd)) bs refl

  -- The equity after any bookings, or the given one where nothing is booked, is the cash that the
  -- bookings move; the fees are summed in order, and the peak and the exit-only mark stay.
  pub book_all_lem :
      (account : PaperAccount D) (bookings : List (Booking D))
      → account.equity_usd ≡ account.cash_balance_usd
      → let after = book_all account bookings in
        (after.cash_balance_usd ≡ cash_after account.cash_balance_usd bookings)
        × (after.equity_usd ≡ after.cash_balance_usd)
        × (after.fee_usd ≡ fees_after account.fee_usd bookings)
        × (after.peak_equity_usd ≡ account.peak_equity_usd)
        × (after.exit_only_at ≡ account.exit_only_at)
  unfolding apply_account_fee apply_account_realized_result apply_account_funding
  book_all_lem account [] h = (refl, h, refl, refl, refl)
  book_all_lem account (fee usd ∷ bs) h = book_all_lem (book account (fee usd)) bs refl
  book_all_lem account (realized p f ∷ bs) h = book_all_lem (book account (realized p f)) bs refl
  book_all_lem account (funding usd ∷ bs) h = book_all_lem (book account (funding usd)) bs refl
