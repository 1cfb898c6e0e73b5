-- ===== src/Examples/Lease.antt =====
-- Locks (backend/app/services/job_lock_service.py) at a concrete table.
use copytrading_agent.Prelude.{◌≡◌, true, false, some, List, [], ◌∷◌, ◌*◌, refl, arith}
use copytrading_agent.Lease.{
  JobLock, second, lock_of, try_acquire_job_lock, job_lock_renewal_interval_seconds,
}
use copytrading_agent.Lease.Exclusion.{
  LockEvent, acquired, renewed, released, run_events, run_events-lock_of, try_acquire_job_lock-held,
  IsForeign, AllForeign,
}

-- Worker `a` took the lock of `sync` for a minute, at the hundredth second.
abbrev lock : JobLock
lock = record { key = "sync"; owner = "a"; locked_until = 160 * second; updated_at = 100 * second }

-- Worker `b` tries to take, to extend and to drop it within that minute.
abbrev events : List LockEvent
events =
    acquired "sync" "b" 60 (110 * second)
    ∷ renewed "sync" "b" 60 (120 * second)
    ∷ released "sync" "b" (130 * second)
    ∷ acquired "scan" "b" 60 (140 * second)
    ∷ []

events-AllForeign : AllForeign lock events
events-AllForeign = ground arith

lock_found : lock_of "sync" (lock ∷ []) ≡ some lock
unfolding lock_of
lock_found = refl

run_events-lock_of_example : lock_of "sync" (run_events events (lock ∷ [])) ≡ some lock
run_events-lock_of_example =
    run_events-lock_of "sync" events (lock ∷ []) lock events-AllForeign lock_found

second-IsForeign : IsForeign lock (acquired "sync" "b" 60 (110 * second))
second-IsForeign = ground arith

try_acquire_job_lock-held_example :
    try_acquire_job_lock "sync" "b" 60 (110 * second) (lock ∷ []) ≡ (lock ∷ [], false)
try_acquire_job_lock-held_example =
    try_acquire_job_lock-held "sync" "b" 60 (110 * second) (lock ∷ []) lock lock_found
      second-IsForeign

expired_is_acquired : (try_acquire_job_lock "sync" "b" 60 (161 * second) (lock ∷ [])).1 ≡ true
unfolding try_acquire_job_lock copytrading_agent.Lease.upsert_lock
expired_is_acquired = refl
