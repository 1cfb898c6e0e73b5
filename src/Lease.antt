-- ===== src/Lease.antt =====
-- The rows of `job_locks`, by which one process at a time runs a job or a worker capability:
-- backend/app/services/job_lock_service.py and backend/app/services/worker_lease_service.py. Each
-- statement is one transaction, so a run is a sequence of them at the database's clock.
pub mod Exclusion
use text.Mathlib.Text.{◌==◌ as str_eq}
use copytrading_agent.Prelude.{
  ℕ, suc, ◌+◌, ◌*◌, ◌-◌, ◌/◌, String, Bool, true, false, not, ◌&&◌, ◌||◌, Option, none, some, List,
  [], ◌∷◌, ltb, leb, if◌then◌else◌, length,
}
use copytrading_agent.Signal.Pricing.{Moment}

pub record JobLock : Type 0 where
  pub key : String
  pub owner : String
  pub locked_until : Moment
  pub updated_at : Moment

-- `interval '1 second'`
abbrev pub second : Moment
second = 1_000_000

abbrev pub job_lock_stale_after_seconds : ℕ
job_lock_stale_after_seconds = 90

abbrev pub job_lock_renewal_max_interval_seconds : ℕ
job_lock_renewal_max_interval_seconds = 30

-- The row of the key, which the table holds once.
unfoldable pub lock_of : String → List JobLock → Option JobLock
lock_of key [] = none
lock_of key (l ∷ rest) = let found = lock_of key rest in if str_eq l.key key then some l else found

-- The `where` of the conflict clause: who may take over a row.
abbrev pub job_lock_is_free : String → Moment → JobLock → Bool
job_lock_is_free owner now l =
    leb l.locked_until now
    || (str_eq l.owner owner || leb (l.updated_at + job_lock_stale_after_seconds * second) now)

abbrev pub worker_lease_is_free : String → Moment → JobLock → Bool
worker_lease_is_free owner now l = leb l.locked_until now || str_eq l.owner owner

-- `insert ... on conflict (key) do update ... where`, and whether it returned a row.
unfoldable pub upsert_lock : (JobLock → Bool) → JobLock → List JobLock → List JobLock × Bool
upsert_lock is_free new [] = (new ∷ [], true)
upsert_lock is_free new (l ∷ rest) =
    let later = upsert_lock is_free new rest in
    if str_eq l.key new.key
    then if is_free l
      then (
        record l { owner = new.owner; locked_until = new.locked_until; updated_at = new.updated_at }
            ∷ rest,
        true,
      )
      else (l ∷ rest, false)
    else (l ∷ later.0, later.1)

abbrev pub lock_until : String → String → ℕ → Moment → JobLock
lock_until key owner ttl_seconds now = record {
  key = key;
  owner = owner;
  locked_until = now + ttl_seconds * second;
  updated_at = now;
}

unfoldable pub try_acquire_job_lock :
    String → String → ℕ → Moment → List JobLock → List JobLock × Bool
try_acquire_job_lock key owner ttl_seconds now locks =
    upsert_lock (job_lock_is_free owner now) (lock_until key owner ttl_seconds now) locks

unfoldable pub acquire_worker_lease :
    String → String → ℕ → Moment → List JobLock → List JobLock × Bool
acquire_worker_lease key owner ttl_seconds now locks =
    upsert_lock (worker_lease_is_free owner now) (lock_until key owner ttl_seconds now) locks

unfoldable pub job_lock_is_active : String → Moment → List JobLock → Bool
job_lock_is_active key now [] = false
job_lock_is_active key now (l ∷ rest) =
    let later = job_lock_is_active key now rest in
    (str_eq l.key key
      && (ltb now l.locked_until && ltb now (l.updated_at + job_lock_stale_after_seconds * second)))
    || later

-- `delete from job_locks where key = :key and owner = :owner`
unfoldable pub release_job_lock : String → String → List JobLock → List JobLock
release_job_lock key owner [] = []
release_job_lock key owner (l ∷ rest) =
    let later = release_job_lock key owner rest in
    if str_eq l.key key && str_eq l.owner owner then later else l ∷ later

abbrev extended : ℕ → Moment → JobLock → JobLock
extended ttl_seconds now l = record l {
  locked_until = now + ttl_seconds * second;
  updated_at = now;
}

-- `update job_locks ... where key = :key and owner = :owner`, and whether it returned a row.
unfoldable pub renew_job_lock : String → String → ℕ → Moment → List JobLock → List JobLock × Bool
renew_job_lock key owner ttl_seconds now [] = ([], false)
renew_job_lock key owner ttl_seconds now (l ∷ rest) =
    let later = renew_job_lock key owner ttl_seconds now rest in
    if str_eq l.key key && str_eq l.owner owner
    then (extended ttl_seconds now l ∷ later.0, true)
    else (l ∷ later.0, later.1)

abbrev pub is_one_of : String → List String → Bool
is_one_of key [] = false
is_one_of key (k ∷ keys) = str_eq key k || is_one_of key keys

-- The same for several keys, and how many rows it returned.
unfoldable pub renew_worker_leases :
    List String → String → ℕ → Moment → List JobLock → List JobLock × ℕ
renew_worker_leases keys owner ttl_seconds now [] = ([], 0)
renew_worker_leases keys owner ttl_seconds now (l ∷ rest) =
    let later = renew_worker_leases keys owner ttl_seconds now rest in
    if is_one_of l.key keys && str_eq l.owner owner
    then (extended ttl_seconds now l ∷ later.0, suc (later.1))
    else (l ∷ later.0, later.1)

-- What the renewal loop does after a renewal: it goes on, or it cancels the owner.
abbrev pub renewal_is_lost : List String → ℕ → Bool
renewal_is_lost keys renewed = not (leb renewed (length keys) && leb (length keys) renewed)

-- `for key in reversed(acquired)`, the latest first.
unfoldable pub release_all : List String → String → List JobLock → List JobLock
release_all [] owner locks = locks
release_all (key ∷ acquired) owner locks =
    release_all acquired owner (release_job_lock key owner locks)

-- The entry of `worker_capability_leases`: the keys in turn, each at its moment; a refused key
-- releases what was acquired and raises (`false`). `acquired` is kept latest first.
unfoldable pub worker_capability_leases :
    List (String × Moment) → List String → String → ℕ → List JobLock → List JobLock × Bool
worker_capability_leases [] acquired owner ttl_seconds locks = (locks, true)
worker_capability_leases ((key, now) ∷ keys) acquired owner ttl_seconds locks =
    let step = acquire_worker_lease key owner ttl_seconds now locks in
    let later = worker_capability_leases keys (key ∷ acquired) owner ttl_seconds step.0 in
    if step.1 then later else (release_all acquired owner step.0, false)

-- The interval in whole seconds.
unfoldable pub job_lock_renewal_interval_seconds : ℕ → ℕ
job_lock_renewal_interval_seconds ttl_seconds =
    let third = ttl_seconds / 3 in
    let capped =
      if leb third job_lock_renewal_max_interval_seconds
      then third
      else job_lock_renewal_max_interval_seconds in
    if leb capped 5 then 5 else capped
