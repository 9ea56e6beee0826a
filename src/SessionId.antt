-- ===== src/SessionId.antt =====
-- src/qmt_execution_core/miniqmt/session_id.py: session ids out of a bounded pool, each guarded by a
-- lock of the operating system. A lock that is taken is an id in the list of leases; the seed of a
-- key (eight bytes of its SHA-256) and what the file of a lock does are parameters.
pub mod Candidates
pub mod Leases
pub mod Examples
use qmt_execution_core.Common.{
  ℕ, zero, suc, ◌+◌, ◌-◌, ◌%◌, Bool, true, false, not, String, List, [], ◌∷◌, ℤ, pos, negsuc, ltb,
  leb, ◌==◌, is_empty, has, if◌then◌else◌,
}
use qmt_execution_core.Errors.{
  Error, Result, ok, err, ◌>>=◌, ◌>>◌, raise_if, value_error, session_id_unavailable,
  concurrent_execution_error, os_error,
}
use qmt_execution_core.Domain.Validation.{positive}

pub record BoundedSessionIdAllocator : Type 0 where
  pub pool_start : ℕ
  pub pool_size : ℕ
  pub attempts : ℕ

abbrev pub min : ℕ → ℕ → ℕ
min a b = if leb a b then a else b

-- `__init__`
unfoldable pub new_allocator :
    (pool_start pool_size attempts : ℤ) → Result BoundedSessionIdAllocator
new_allocator pool_start pool_size attempts = do
  start ← positive pool_start
  size ← positive pool_size
  tries ← positive attempts
  raise_if (ltb 2147483647 (start + size - 1)) value_error
  ok (record { pool_start = start; pool_size = size; attempts = min tries size })

-- the ids from one index on
unfoldable pub ids_from : (pool_start pool_size offset index count : ℕ) → List ℕ
ids_from pool_start pool_size offset index zero = []
ids_from pool_start pool_size offset index (suc count) =
    (pool_start + (offset + index) % pool_size)
    ∷ ids_from pool_start pool_size offset (suc index) count

unfoldable pub candidate_ids : (String → ℕ) → BoundedSessionIdAllocator → String → Result (List ℕ)
candidate_ids seed a preferred_key =
    if is_empty preferred_key
    then err value_error
    else ok (ids_from a.pool_start a.pool_size (seed preferred_key % a.pool_size) 0 a.attempts)

-- What the operating system does with the file of a lock: it works; making the folder or opening
-- the file raises OSError; taking the lock does, though no one holds it; or what is written under
-- the lock does, and then closing the file gives the lock up.
pub data LockFile : Type 0 where
  works not_opened not_locked not_written : LockFile

abbrev pub lock_file : LockFile → ℕ → List ℕ → Result (Unit {0}) × List ℕ
lock_file not_opened id leases = (err os_error, leases)
lock_file not_locked id leases = (err concurrent_execution_error, leases)
lock_file not_written id leases =
    (if has id leases then err concurrent_execution_error else err os_error, leases)
lock_file works id leases =
    if has id leases then (err concurrent_execution_error, leases) else (ok tt, id ∷ leases)

-- `ExecutionMutex.acquire` on the file of an id, which tries once
unfoldable pub lock : (ℕ → LockFile) → ℕ → List ℕ → Result (Unit {0}) × List ℕ
lock files id leases = lock_file (files id) id leases

abbrev pub leased : ℕ → Result (Unit {0}) × List ℕ → Result ℕ × List ℕ
leased id (ok u, leases) = (ok id, leases)
leased id (err concurrent_execution_error, leases) = (err session_id_unavailable, leases)
leased id (err e, leases) = (err e, leases)

unfoldable pub acquire_exact : (ℕ → LockFile) → ℕ → List ℕ → Result ℕ × List ℕ
acquire_exact files id leases =
    if id == 0 then (err value_error, leases) else leased id (lock files id leases)

abbrev pub next_or : Result ℕ × List ℕ → (List ℕ → Result ℕ × List ℕ) → Result ℕ × List ℕ
next_or (ok id, leases) again = (ok id, leases)
next_or (err session_id_unavailable, leases) again = again leases
next_or (err e, leases) again = (err e, leases)

-- `for session_id in candidate_ids`
unfoldable pub acquire_first : (ℕ → LockFile) → List ℕ → List ℕ → Result ℕ × List ℕ
acquire_first files [] leases = (err session_id_unavailable, leases)
acquire_first files (id ∷ ids) leases =
    next_or (acquire_exact files id leases) (acquire_first files ids)

abbrev pub acquire_among : (ℕ → LockFile) → Result (List ℕ) → List ℕ → Result ℕ × List ℕ
acquire_among files (err e) leases = (err e, leases)
acquire_among files (ok ids) leases = acquire_first files ids leases

unfoldable pub acquire :
    (ℕ → LockFile) → (String → ℕ) → BoundedSessionIdAllocator → String → List ℕ → Result ℕ × List ℕ
acquire files seed a preferred_key leases =
    acquire_among files (candidate_ids seed a preferred_key) leases

-- `SessionIdLease.release`, of a lease that is not released yet
unfoldable pub release : ℕ → List ℕ → List ℕ
release id [] = []
release id (l ∷ leases) = let rest = release id leases in if l == id then rest else l ∷ rest
