-- ===== src/Live/Work/Claims.antt =====
-- What the queue of live copies promises: backend/app/services/live_copy_work_service.py.
use native.Mathlib.Nat.{one-le-pow, pow-le-pow_right, mul-le-mul_left}
use copytrading_agent.Prelude.{
  ℕ, ◌-◌, ◌*◌, ◌^◌, ◌≤◌, ◌≡◌, refl, String, Bool, true, false, Option, none, some, List, [], ◌∷◌,
  arith, All, leb, if◌then◌else◌,
}
use copytrading_agent.Decimal.{Decimal}
use copytrading_agent.Signal.Pricing.{Moment}
use copytrading_agent.Live.Work.{
  LiveCopyWork, TextOrder, live_copy_work_retry_delay_seconds, complete_live_copy_work,
  retry_live_copy_work, blocks, is_held, is_processing,
}

-- A retry waits at least a second and at most five minutes, and never less after more attempts.
pub live_copy_work_retry_delay_seconds_bounds :
    (attempts more base : ℕ)
    → attempts ≤ more
    → (1 ≤ live_copy_work_retry_delay_seconds attempts base)
      × (live_copy_work_retry_delay_seconds attempts base ≤ 300)
      × (live_copy_work_retry_delay_seconds attempts base
          ≤ live_copy_work_retry_delay_seconds more base)
unfolding live_copy_work_retry_delay_seconds
live_copy_work_retry_delay_seconds_bounds attempts more base h =
    let fewer = if leb (attempts - 1) 6 then attempts - 1 else 6 in
    let greater = if leb (more - 1) 6 then more - 1 else 6 in
    let b = if leb base 1 then 1 else base in
    let le : fewer ≤ greater = ground arith in
    let base_le : b * 1 ≤ b * 2 ^ fewer = mul-le-mul_left b (one-le-pow fewer 2 (ground arith)) in
    let grows : b * 2 ^ fewer ≤ b * 2 ^ greater =
      mul-le-mul_left b (pow-le-pow_right (ground arith) le) in
    ground (arith, base_le, grows)

module _ {D : Type 0} ⦃d : Decimal D⦄ ⦃t : TextOrder⦄ where
  -- What is claimed, if anything is.
  abbrev pub IsClaimed :
      String → Moment → (ℕ → Bool) → List (LiveCopyWork D) → Option (LiveCopyWork D) → Type 0
  IsClaimed owner now locked works none = Unit
  IsClaimed owner now locked works (some w) =
      All (λ e. blocks w e ≡ false) works
      × (locked w.id ≡ false)
      × (is_processing w.status ≡ true)
      × (w.claimed_by ≡ some owner)
      × (w.claimed_at ≡ some now)
      × (1 ≤ w.attempt_count)

module _ {D : Type 0} where
  -- Work is completed or put back only by the process that holds it: anyone else's completion or
  -- retry changes nothing and says so.
  pub complete_live_copy_work-held :
      (work_id : ℕ) (owner : String) (attempts : ℕ) (error : String) (base : ℕ) (immediate : Bool)
      (now : Moment) (works : List (LiveCopyWork D))
      → All (λ w. is_held work_id owner w ≡ false) works
      → (complete_live_copy_work work_id owner works ≡ (works, false))
        × (retry_live_copy_work work_id owner attempts error base immediate now works
            ≡ (works, false))
  unfolding complete_live_copy_work retry_live_copy_work
  complete_live_copy_work-held work_id owner attempts error base immediate now [] h = (refl, refl)
  complete_live_copy_work-held work_id owner attempts error base immediate now (w ∷ works) h =
      let IH = complete_live_copy_work-held work_id owner attempts error base immediate now works in
      ground (arith, IH)
