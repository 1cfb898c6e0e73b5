-- ===== src/Lease/Exclusion.antt =====
-- Who holds a lock of backend/app/services/job_lock_service.py, and for how long.
use text.Mathlib.Text.{◌==◌ as str_eq}
use text.Mathlib.TextPositions.{eq_refl}
use copytrading_agent.Prelude.{
  ℕ, ◌+◌, ◌*◌, ◌<◌, ◌≤◌, ◌≡◌, String, true, false, Option, none, some, List, [], ◌∷◌, arith,
}
use copytrading_agent.Signal.Pricing.{Moment}
use copytrading_agent.Lease.{
  JobLock, second, lock_of, upsert_lock, try_acquire_job_lock, release_job_lock, renew_job_lock,
  job_lock_renewal_interval_seconds,
}

-- A statement on the table by some process, with its moment.
pub data LockEvent : Type 0 where
  acquired renewed : String → String → ℕ → Moment → LockEvent
  released : String → String → Moment → LockEvent

unfoldable pub apply_event : LockEvent → List JobLock → List JobLock
apply_event (acquired key owner ttl now) locks = (try_acquire_job_lock key owner ttl now locks).0
apply_event (renewed key owner ttl now) locks = (renew_job_lock key owner ttl now locks).0
apply_event (released key owner now) locks = release_job_lock key owner locks

unfoldable pub run_events : List LockEvent → List JobLock → List JobLock
run_events [] locks = locks
run_events (e ∷ events) locks = run_events events (apply_event e locks)

abbrev event_owner : LockEvent → String
event_owner (acquired key owner ttl now) = owner
event_owner (renewed key owner ttl now) = owner
event_owner (released key owner now) = owner

abbrev event_moment : LockEvent → Moment
event_moment (acquired key owner ttl now) = now
event_moment (renewed key owner ttl now) = now
event_moment (released key owner now) = now

-- The event is another process's, while the lock neither has expired nor is stale.
abbrev pub IsForeign : JobLock → LockEvent → Type 0
IsForeign l e =
    (str_eq l.owner (event_owner e) ≡ false)
    × (event_moment e < l.locked_until)
    × (event_moment e < l.updated_at + 90 * second)

abbrev pub AllForeign : JobLock → List LockEvent → Type 0
AllForeign l [] = Unit
AllForeign l (e ∷ events) = IsForeign l e × AllForeign l events

lock_of-acquired :
    (k key owner : String) (ttl now : ℕ) (locks : List JobLock) (l : JobLock)
    → IsForeign l (acquired key owner ttl now)
    → lock_of k locks ≡ some l
    → lock_of k ((try_acquire_job_lock key owner ttl now locks).0) ≡ some l
unfolding lock_of upsert_lock try_acquire_job_lock
lock_of-acquired k key owner ttl now [] l f h = ground arith
lock_of-acquired k key owner ttl now (a ∷ locks) l f h =
    let IH = lock_of-acquired k key owner ttl now locks l f in ground (arith, IH)

lock_of-renewed :
    (k key owner : String) (ttl now : ℕ) (locks : List JobLock) (l : JobLock)
    → IsForeign l (renewed key owner ttl now)
    → lock_of k locks ≡ some l
    → lock_of k ((renew_job_lock key owner ttl now locks).0) ≡ some l
unfolding lock_of renew_job_lock
lock_of-renewed k key owner ttl now [] l f h = ground arith
lock_of-renewed k key owner ttl now (a ∷ locks) l f h =
    let IH = lock_of-renewed k key owner ttl now locks l f in ground (arith, IH)

lock_of-released :
    (k key owner : String) (now : ℕ) (locks : List JobLock) (l : JobLock)
    → IsForeign l (released key owner now)
    → lock_of k locks ≡ some l
    → lock_of k (release_job_lock key owner locks) ≡ some l
unfolding lock_of release_job_lock
lock_of-released k key owner now [] l f h = ground arith
lock_of-released k key owner now (a ∷ locks) l f h =
    let IH = lock_of-released k key owner now locks l f in ground (arith, IH)

lock_of-apply_event :
    (k : String) (e : LockEvent) (locks : List JobLock) (l : JobLock)
    → IsForeign l e
    → lock_of k locks ≡ some l
    → lock_of k (apply_event e locks) ≡ some l
unfolding apply_event
lock_of-apply_event k (acquired key owner ttl now) locks l f h =
    lock_of-acquired k key owner ttl now locks l f h
lock_of-apply_event k (renewed key owner ttl now) locks l f h =
    lock_of-renewed k key owner ttl now locks l f h
lock_of-apply_event k (released key owner now) locks l f h =
    lock_of-released k key owner now locks l f h

-- A lock that has neither expired nor gone stale stays exactly as it is, through any sequence of
-- acquisitions, renewals and releases, of any keys, by other processes.
pub run_events-lock_of :
    (k : String) (events : List LockEvent) (locks : List JobLock) (l : JobLock)
    → AllForeign l events
    → lock_of k locks ≡ some l
    → lock_of k (run_events events locks) ≡ some l
unfolding run_events
run_events-lock_of k [] locks l f h = h
run_events-lock_of k (e ∷ events) locks l (f, fs) h =
    run_events-lock_of k events (apply_event e locks) l fs (lock_of-apply_event k e locks l f h)

-- While a process holds a lock that has neither expired nor gone stale, another's attempt to
-- acquire it fails and leaves the table as it is.
pub try_acquire_job_lock-held :
    (key owner : String) (ttl now : ℕ) (locks : List JobLock) (l : JobLock)
    → lock_of key locks ≡ some l
    → IsForeign l (acquired key owner ttl now)
    → try_acquire_job_lock key owner ttl now locks ≡ (locks, false)
unfolding lock_of upsert_lock try_acquire_job_lock
try_acquire_job_lock-held key owner ttl now [] l h f = ground arith
try_acquire_job_lock-held key owner ttl now (a ∷ locks) l h f =
    let IH = try_acquire_job_lock-held key owner ttl now locks l in ground (arith, IH)

-- The row is the process's, for its time to live from the moment on.
abbrev pub IsHeld : String → ℕ → Moment → Option JobLock → Type 0
IsHeld owner ttl now none = false ≡ true
IsHeld owner ttl now (some m) =
    (m.owner ≡ owner) × (m.locked_until ≡ now + ttl * second) × (m.updated_at ≡ now)

-- A successful acquisition leaves the key's lock with the process, for its time to live from the
-- moment on.
pub try_acquire_job_lock-acquired :
    (key owner : String) (ttl now : ℕ) (locks : List JobLock)
    → (try_acquire_job_lock key owner ttl now locks).1 ≡ true
    → IsHeld owner ttl now (lock_of key (try_acquire_job_lock key owner ttl now locks).0)
unfolding lock_of upsert_lock try_acquire_job_lock
try_acquire_job_lock-acquired key owner ttl now [] h = ground (arith, eq_refl key)
try_acquire_job_lock-acquired key owner ttl now (a ∷ locks) h =
    let IH = try_acquire_job_lock-acquired key owner ttl now locks in
    ground (arith, IH, eq_refl key)

-- The renewal interval is at least five seconds and less than the time after which a lock is
-- stale; of a lock that lives more than five seconds it is less than the lock's time to live.
pub job_lock_renewal_interval_seconds_bounds :
    (ttl : ℕ)
    → (5 ≤ job_lock_renewal_interval_seconds ttl)
      × (job_lock_renewal_interval_seconds ttl < 90)
      × (5 < ttl → job_lock_renewal_interval_seconds ttl < ttl)
unfolding job_lock_renewal_interval_seconds
job_lock_renewal_interval_seconds_bounds ttl = ground arith
