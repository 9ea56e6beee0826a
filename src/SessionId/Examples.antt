-- ===== src/SessionId/Examples.antt =====
-- A pool of four ids, src/qmt_execution_core/miniqmt/session_id.py.
use qmt_execution_core.Common.{
  ℕ, ◌+◌, ◌≤◌, ◌<◌, ◌≡◌, refl, String, List, [], ◌∷◌, pos, length, AreDistinct, arith,
}
use qmt_execution_core.Errors.{ok}
use qmt_execution_core.Domain.Validation.{positive}
use qmt_execution_core.SessionId.{
  LockFile, works, BoundedSessionIdAllocator, new_allocator, ids_from, candidate_ids, acquire,
}
use qmt_execution_core.SessionId.Candidates.{AreWithin, candidates-AreDistinct}
use qmt_execution_core.SessionId.Leases.{Fate, lease_is_exclusive}

abbrev pool : BoundedSessionIdAllocator
pool = record { pool_start = 100; pool_size = 4; attempts = 3 }

abbrev seed : String → ℕ
seed key = 7

abbrev candidates : List ℕ
candidates = 103 ∷ 100 ∷ 101 ∷ []

pool_made : new_allocator (pos 100) (pos 4) (pos 3) ≡ ok pool
unfolding new_allocator positive
pool_made = refl

candidates_given : candidate_ids seed pool "s" ≡ ok candidates
unfolding candidate_ids ids_from
candidates_given = refl

candidates-AreDistinct_example :
    (length candidates ≡ 3)
    × AreDistinct candidates
    × AreWithin 100 104 candidates
    × (0 < 100)
    × (100 + 4 ≤ 2147483648)
candidates-AreDistinct_example =
    candidates-AreDistinct seed (pos 100) (pos 4) (pos 3) pool "s" candidates pool_made
      candidates_given

-- the first candidate is taken
abbrev files : ℕ → LockFile
files id = works

lease_is_exclusive_example :
    Fate files candidates (103 ∷ []) (acquire files seed pool "s" (103 ∷ []))
lease_is_exclusive_example =
    lease_is_exclusive files seed pool "s" candidates (103 ∷ []) candidates_given
      (omega arith, (omega arith, (omega arith, tt)))
