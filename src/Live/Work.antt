-- ===== src/Live/Work.antt =====
-- The queue of live copies: backend/app/services/live_copy_work_service.py. A function is one
-- transaction; the rows that a concurrent transaction holds are passed over as `locked`.
pub mod Claims
use text.Mathlib.Text.{◌==◌ as str_eq}
use copytrading_agent.Prelude.{
  ℕ, suc, ◌+◌, ◌-◌, ◌*◌, ◌^◌, String, Bool, true, false, not, ◌&&◌, ◌||◌, Option, none, some, List,
  [], ◌∷◌, ltb, leb, ◌==◌, is_none, if◌then◌else◌,
}
use copytrading_agent.Decimal.{Decimal, ◌⋖◌, ◌⩽◌}
use copytrading_agent.Signal.Pricing.{Moment}

pub data WorkStatus : Type 0 where
  pending processing completed : WorkStatus

-- The columns of `LiveCopyWork` that the queue reads or writes.
pub record LiveCopyWork (D : Type 0) : Type 0 where
  pub id : ℕ
  pub wallet_address : String
  pub source_fill_id : String
  pub source_timestamp_ms : ℕ
  pub coin : String
  pub source_order_direction_rank : ℕ
  pub source_order_position : D
  pub source_order_fill_id_numeric : Option D
  pub status : WorkStatus
  pub attempt_count : ℕ
  pub available_at : Moment
  pub claimed_at : Option Moment
  pub claimed_by : Option String
  pub processing_started_at : Option Moment
  pub last_error : Option String

-- The database's order on texts.
pub record TextOrder : Type 0 where
  pub text_lt : String → String → Bool

unfoldable pub live_copy_work_retry_delay_seconds : ℕ → ℕ → ℕ
live_copy_work_retry_delay_seconds attempt_count base_seconds =
    let exponent = if leb (attempt_count - 1) 6 then attempt_count - 1 else 6 in
    let base = if leb base_seconds 1 then 1 else base_seconds in
    let delay = base * 2 ^ exponent in if leb delay 300 then delay else 300

abbrev pub is_unfinished : WorkStatus → Bool
is_unfinished completed = false
is_unfinished _ = true

abbrev pub is_processing : WorkStatus → Bool
is_processing processing = true
is_processing _ = false

abbrev pub is_stale : Option Moment → Moment → Bool
is_stale none stale_before = true
is_stale (some claimed_at) stale_before = leb claimed_at stale_before

abbrev pub is_owned : Option String → String → Bool
is_owned none owner = false
is_owned (some o) owner = str_eq o owner

module _ {D : Type 0} ⦃d : Decimal D⦄ where
  abbrev equal : D → D → Bool
  equal a b = a ⩽ b && b ⩽ a

  unfoldable pub is_claimable : Moment → Moment → LiveCopyWork D → Bool
  is_claimable now stale_before w = elim w.status [
    | pending ↦ leb w.available_at now
    | processing ↦ is_stale w.claimed_at stale_before
    | completed ↦ false
  ]

  module _ ⦃t : TextOrder⦄ where
    -- The last two columns of the order: numeric ids first, by number and then by text.
    abbrev pub fill_id_before : LiveCopyWork D → LiveCopyWork D → Option D → Option D → Bool
    fill_id_before a b (some m) (some n) =
        m ⋖ n || equal m n && t.text_lt a.source_fill_id b.source_fill_id
    fill_id_before a b (some m) none = true
    fill_id_before a b none (some n) = false
    fill_id_before a b none none = t.text_lt a.source_fill_id b.source_fill_id

    abbrev pub market_order_before : LiveCopyWork D → LiveCopyWork D → Bool
    market_order_before a b =
        ltb a.source_order_direction_rank b.source_order_direction_rank
        || a.source_order_direction_rank == b.source_order_direction_rank
          && (a.source_order_position ⋖ b.source_order_position
              || equal a.source_order_position b.source_order_position
                && fill_id_before a b a.source_order_fill_id_numeric b.source_order_fill_id_numeric)

    -- `earlier_order`
    unfoldable pub earlier_order : LiveCopyWork D → LiveCopyWork D → Bool
    earlier_order a b =
        ltb a.source_timestamp_ms b.source_timestamp_ms
        || a.source_timestamp_ms == b.source_timestamp_ms
          && (t.text_lt a.coin b.coin || str_eq a.coin b.coin && market_order_before a b)

    -- `order_by`, which has the wallet before the coin.
    unfoldable pub selected_before : LiveCopyWork D → LiveCopyWork D → Bool
    selected_before a b =
        ltb a.source_timestamp_ms b.source_timestamp_ms
        || a.source_timestamp_ms == b.source_timestamp_ms
          && (t.text_lt a.wallet_address b.wallet_address
              || str_eq a.wallet_address b.wallet_address
                && (t.text_lt a.coin b.coin || str_eq a.coin b.coin && market_order_before a b))

    abbrev pub blocks : LiveCopyWork D → LiveCopyWork D → Bool
    blocks w earlier =
        str_eq earlier.wallet_address w.wallet_address
        && (str_eq earlier.coin w.coin && (is_unfinished earlier.status && earlier_order earlier w))

    -- `exists(select(earlier.id).where(...))`
    unfoldable pub has_earlier_unfinished : LiveCopyWork D → List (LiveCopyWork D) → Bool
    has_earlier_unfinished w [] = false
    has_earlier_unfinished w (e ∷ rest) = blocks w e || has_earlier_unfinished w rest

    abbrev pub first_of : LiveCopyWork D → Option (LiveCopyWork D) → Option (LiveCopyWork D)
    first_of w none = some w
    first_of w (some v) = if selected_before v w then some v else some w

    -- The query over the rows, of which all are looked at for what is earlier.
    unfoldable pub live_copy_work_claim_query :
        Moment
        → Moment
        → (ℕ → Bool)
        → List (LiveCopyWork D)
        → List (LiveCopyWork D)
        → Option (LiveCopyWork D)
    unfolding is_claimable has_earlier_unfinished
    live_copy_work_claim_query now stale_before locked all [] = none
    live_copy_work_claim_query now stale_before locked all (w ∷ rest) =
        let later = live_copy_work_claim_query now stale_before locked all rest in
        if is_claimable now stale_before w
          && (not (has_earlier_unfinished w all) && not (locked w.id))
        then first_of w later
        else later

module _ {D : Type 0} where
  -- `work.attempt_count = max(int(work.attempt_count or 0), 0) + 1` and the other assignments.
  abbrev pub claimed : String → Moment → LiveCopyWork D → LiveCopyWork D
  claimed owner now w = record w {
    status = processing;
    attempt_count = suc w.attempt_count;
    claimed_at = some now;
    claimed_by = some owner;
    processing_started_at = some now;
    last_error = none;
  }

  abbrev pub replace_work : LiveCopyWork D → List (LiveCopyWork D) → List (LiveCopyWork D)
  replace_work new [] = []
  replace_work new (w ∷ rest) = (if w.id == new.id then new else w) ∷ replace_work new rest

  abbrev pub commit_claim :
      String
      → Moment
      → List (LiveCopyWork D)
      → Option (LiveCopyWork D)
      → Option (LiveCopyWork D) × List (LiveCopyWork D)
  commit_claim owner now works none = (none, works)
  commit_claim owner now works (some w) =
      (some (claimed owner now w), replace_work (claimed owner now w) works)

module _ {D : Type 0} ⦃d : Decimal D⦄ where
  -- `stale_before` is `max(claim_timeout_seconds, 1)` seconds ago.
  unfoldable pub claim_next_live_copy_work :
      ⦃t : TextOrder⦄
      → String
      → ℕ
      → Moment
      → (ℕ → Bool)
      → List (LiveCopyWork D)
      → Option (LiveCopyWork D) × List (LiveCopyWork D)
  claim_next_live_copy_work owner claim_timeout_seconds now locked works =
      let timeout = if leb claim_timeout_seconds 1 then 1 else claim_timeout_seconds in
      commit_claim owner now works
        (live_copy_work_claim_query now (now - timeout * 1_000_000) locked works works)

module _ {D : Type 0} where
  -- The `where` of completion and retry.
  abbrev pub is_held : ℕ → String → LiveCopyWork D → Bool
  is_held work_id owner w =
      w.id == work_id && (is_processing w.status && is_owned w.claimed_by owner)

  unfoldable pub complete_live_copy_work :
      ℕ → String → List (LiveCopyWork D) → List (LiveCopyWork D) × Bool
  complete_live_copy_work work_id owner [] = ([], false)
  complete_live_copy_work work_id owner (w ∷ rest) =
      let later = complete_live_copy_work work_id owner rest in
      if is_held work_id owner w then (later.0, true) else (w ∷ later.0, later.1)

  unfoldable pub retry_live_copy_work :
      ℕ
      → String
      → ℕ
      → String
      → ℕ
      → Bool
      → Moment
      → List (LiveCopyWork D)
      → List (LiveCopyWork D) × Bool
  retry_live_copy_work work_id owner attempt_count error retry_base_seconds immediate now [] =
      ([], false)
  retry_live_copy_work work_id owner attempt_count error retry_base_seconds immediate now
        (w ∷ rest) =
      let later =
        retry_live_copy_work work_id owner attempt_count error retry_base_seconds immediate now
          rest in
      let delay_seconds =
        if immediate
        then 0
        else live_copy_work_retry_delay_seconds attempt_count retry_base_seconds in
      if is_held work_id owner w
      then (
        record w {
          status = pending;
          available_at = now + delay_seconds * 1_000_000;
          claimed_at = none;
          claimed_by = none;
          last_error = some error;
        }
            ∷ later.0,
        true,
      )
      else (w ∷ later.0, later.1)
