-- ===== src/Source/Trade/Sizes.antt =====
-- The sizes of an open source trade:
-- backend/app/services/source_trade_reconstruction_service.py.
use copytrading_agent.Prelude.{ℕ, ◌≤◌, ◌≡◌, ◌∙◌, ap, Bool, true, arith}
use copytrading_agent.Decimal.{Decimal, IsOrdered, IsRounded, IsExact, ◌⩽◌, ◌⋖◌, ◌⊕◌, min}
use copytrading_agent.Decimal.Order.{le_of_lt, min-le_right}
use copytrading_agent.Source.Trade.{OpenSourceTrade, add_entry, add_close}

module _ {D : Type 0} ⦃d : Decimal D⦄ where
  -- What was entered is what was closed and what remains; what was closed is not negative, something
  -- remains, and the trade has an entry.
  pub record IsOpen (trade : OpenSourceTrade D) : Type 0 where
    pub balanced : trade.entry_size ≡ trade.closed_size ⊕ trade.remaining_size
    pub closed : (d.nought ⩽ trade.closed_size) ≡ true
    pub remaining : (d.nought ⩽ trade.remaining_size) ≡ true
    pub entered : 1 ≤ trade.entry_fill_count

module _ {D : Type 0} ⦃d : Decimal D⦄ (order : IsOrdered D) (rounded : IsRounded D)
    (exact : IsExact D) where
  open order use {le_refl, le_trans, le_total}
  open rounded use {add_nonneg, sub_nonneg}
  open exact use {add-add_sub, add_assoc}

  pub add_entry-IsOpen :
      (trade : OpenSourceTrade D) (size notional fee : D) (ms : ℕ)
      → (d.nought ⋖ size) ≡ true
      → trade.entry_size ≡ trade.closed_size ⊕ trade.remaining_size
      → (d.nought ⩽ trade.closed_size) ≡ true
      → (d.nought ⩽ trade.remaining_size) ≡ true
      → IsOpen (add_entry trade size notional fee ms)
  unfolding add_entry
  add_entry-IsOpen trade size notional fee ms p e c r = record {
    balanced = ap (λ x. x ⊕ size) e ∙ add_assoc trade.closed_size trade.remaining_size size;
    closed = c;
    remaining = add_nonneg trade.remaining_size size r (le_of_lt order d.nought size p);
    entered = omega arith;
  }

  pub add_close-IsOpen :
      (trade : OpenSourceTrade D) (size notional pnl fee : D) (is_liquidation : Bool)
      → IsOpen trade
      → IsOpen (add_close trade size notional pnl fee is_liquidation).0
  unfolding add_close
  add_close-IsOpen trade size notional pnl fee is_liquidation t =
      let part = min size trade.remaining_size in
      let right = min-le_right order size trade.remaining_size in
      record {
        balanced =
            ground (arith, add-add_sub trade.closed_size part trade.remaining_size, t.balanced);
        closed = ground (
          arith,
          add_nonneg trade.closed_size part,
          t.closed,
          le_total size d.nought,
          le_total trade.remaining_size d.nought,
        );
        remaining = ground (arith, sub_nonneg trade.remaining_size part, right);
        entered = ground arith;
      }
