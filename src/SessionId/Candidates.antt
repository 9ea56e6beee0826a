-- ===== src/SessionId/Candidates.antt =====
-- The candidates of src/qmt_execution_core/miniqmt/session_id.py.
use native.Mathlib.Nat.{mod-lt, mod-eq_of_lt, mod-eq-sub-mod}
use qmt_execution_core.Common.{
  ℕ, zero, suc, ◌+◌, ◌-◌, ◌%◌, ◌≤◌, ◌<◌, ◌≡◌, ◌≢◌, refl, subst, then_taken, else_taken, ◌∙◌, ◌⊎◌,
  inl, inr, false, String, List, [], ◌∷◌, ℤ, length, has, AreDistinct, arith, is_empty, Bool-cases,
  ltb,
}
use qmt_execution_core.Errors.{ok, ok_inj}
use qmt_execution_core.Domain.Validation.{positive}
use qmt_execution_core.SessionId.{BoundedSessionIdAllocator, new_allocator, ids_from, candidate_ids}

abbrev pub AreWithin : ℕ → ℕ → List ℕ → Type 0
AreWithin low high [] = Unit {0}
AreWithin low high (n ∷ ns) = (low ≤ n) × (n < high) × AreWithin low high ns

module _ (start size offset : ℕ) (inside : offset < size) where
  -- the index in the pool, without the remainder
  place :
      (i : ℕ)
      → i < size
      → ((offset + i) % size ≡ offset + i)
        ⊎ (((offset + i) % size ≡ offset + i - size) × (size ≤ offset + i))
  place i small = elim (Bool-cases (ltb (offset + i) size)) [
    | inl below ↦ inl (mod-eq_of_lt (ground (arith, below)))
    | inr above ↦
        let over : size ≤ offset + i = ground (arith, above) in
        let rest : offset + i - size < size = omega arith in
        inr (mod-eq-sub-mod over ∙ mod-eq_of_lt rest, over)
  ]

  apart : (i j : ℕ) → i < j → j < size → start + (offset + i) % size ≢ start + (offset + j) % size
  apart i j less small h = elim (place i (omega arith)) [
    | inl a ↦ elim (place j small) [
      | inl b ↦ omega (arith, a, b, h)
      | inr (b, c) ↦ omega (arith, a, b, c, h)
    ]
    | inr (a, d) ↦ elim (place j small) [
      | inl b ↦ omega (arith, a, b, d, h)
      | inr (b, c) ↦ omega (arith, a, b, c, d, h)
    ]
  ]

  later_ids :
      (i j count : ℕ)
      → i < j
      → j + count ≤ size
      → has (start + (offset + i) % size) (ids_from start size offset j count) ≡ false
  unfolding ids_from
  later_ids i j zero less fits = refl
  later_ids i j (suc count) less fits =
      let differ = apart i j less (omega arith) in
      ground (arith, differ, later_ids i (suc j) count (omega arith) (omega arith))

  ids_from-AreDistinct :
      (i count : ℕ) → i + count ≤ size → AreDistinct (ids_from start size offset i count)
  unfolding ids_from
  ids_from-AreDistinct i zero fits = tt
  ids_from-AreDistinct i (suc count) fits = (
    later_ids i (suc i) count (omega arith) (omega arith),
    ids_from-AreDistinct (suc i) count (omega arith),
  )

  ids_from-AreWithin :
      (i count : ℕ) → AreWithin start (start + size) (ids_from start size offset i count)
  unfolding ids_from
  ids_from-AreWithin i zero = tt
  ids_from-AreWithin i (suc count) =
      let positive_size : zero < size = omega arith in
      let below = mod-lt (offset + i) positive_size in
      (omega arith, omega (arith, below), ids_from-AreWithin (suc i) count)

length-ids_from :
    (start size offset i count : ℕ) → length (ids_from start size offset i count) ≡ count
unfolding ids_from
length-ids_from start size offset i zero = refl
length-ids_from start size offset i (suc count) =
    omega (arith, length-ids_from start size offset (suc i) count)

-- An allocator that is accepted has a pool of positive ids below 2^31 and no more attempts than ids.
pub record IsBounded (a : BoundedSessionIdAllocator) : Type 0 where
  pub starts : 0 < a.pool_start
  pub sized : 0 < a.pool_size
  pub ends : a.pool_start + a.pool_size ≤ 2147483648
  pub tried : (0 < a.attempts) × (a.attempts ≤ a.pool_size)

new_allocator-IsBounded :
    (pool_start pool_size attempts : ℤ) (a : BoundedSessionIdAllocator)
    → new_allocator pool_start pool_size attempts ≡ ok a
    → IsBounded a
unfolding new_allocator positive
new_allocator-IsBounded pool_start pool_size attempts a h = record {
  starts = ground arith;
  sized = ground arith;
  ends = ground arith;
  tried = ground arith;
}

-- The candidates for a key are as many as the allocator's attempts, all different, and positive
-- signed 32-bit numbers of the pool.
pub candidates-AreDistinct :
    (seed : String → ℕ) (pool_start pool_size attempts : ℤ) (a : BoundedSessionIdAllocator)
    (key : String) (ids : List ℕ)
    → new_allocator pool_start pool_size attempts ≡ ok a
    → candidate_ids seed a key ≡ ok ids
    → (length ids ≡ a.attempts)
      × AreDistinct ids
      × AreWithin a.pool_start (a.pool_start + a.pool_size) ids
      × (0 < a.pool_start)
      × (a.pool_start + a.pool_size ≤ 2147483648)
unfolding candidate_ids
candidates-AreDistinct seed pool_start pool_size attempts a key ids made h =
    let b = new_allocator-IsBounded pool_start pool_size attempts a made in
    let offset = seed key % a.pool_size in
    let inside : offset < a.pool_size = mod-lt (seed key) b.sized in
    let few : 0 + a.attempts ≤ a.pool_size = omega (arith, b.tried.1) in
    elim (Bool-cases (is_empty key)) [
      | inl empty ↦ absurd (cc (then_taken (is_empty key) _ empty h))
      | inr given ↦
          let same : ids_from a.pool_start a.pool_size offset 0 a.attempts ≡ ids =
            ok_inj (else_taken (is_empty key) _ given h) in
          subst
            (λ l.
              (length l ≡ a.attempts)
              × AreDistinct l
              × AreWithin a.pool_start (a.pool_start + a.pool_size) l
              × (0 < a.pool_start)
              × (a.pool_start + a.pool_size ≤ 2147483648))
            same
            (
              length-ids_from a.pool_start a.pool_size offset 0 a.attempts,
              ids_from-AreDistinct a.pool_start a.pool_size offset inside 0 a.attempts few,
              ids_from-AreWithin a.pool_start a.pool_size offset inside 0 a.attempts,
              b.starts,
              b.ends,
            )
    ]
