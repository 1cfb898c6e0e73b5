-- ===== src/Examples/Work.antt =====
-- The queue of live copies (backend/app/services/live_copy_work_service.py) at concrete rows.
use Prim.Native.Nat.{Ordering}
use Prim.Native.String.{compare}
use copytrading_agent.Prelude.{◌≡◌, true, false, none, some, List, [], ◌∷◌, arith, All}
use copytrading_agent.Prelude.Int.{ℤ, pos}
use copytrading_agent.Decimal.Units.{units_decimal}
use copytrading_agent.Live.Work.{LiveCopyWork, TextOrder, pending, is_held}

instance abbrev texts : TextOrder
texts = record { text_lt = λ a b. elim (compare a b) [ Ordering.lt ↦ true | _ ↦ false ] }

abbrev opening : LiveCopyWork ℤ
opening = record {
  id = 1;
  wallet_address = "w";
  source_fill_id = "7";
  source_timestamp_ms = 1000;
  coin = "BTC";
  source_order_direction_rank = 1;
  source_order_position = pos 0;
  source_order_fill_id_numeric = some (pos 7);
  status = pending;
  attempt_count = 0;
  available_at = 0;
  claimed_at = none;
  claimed_by = none;
  processing_started_at = none;
  last_error = none;
}

-- The same wallet's next fill of the coin stands in the queue before it.
abbrev works : List (LiveCopyWork ℤ)
works = record opening { id = 2; source_fill_id = "8"; source_timestamp_ms = 2000 } ∷ opening ∷ []

works_unheld : All (λ w. is_held 1 "b" w ≡ false) works
works_unheld = ground arith
