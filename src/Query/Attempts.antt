-- ===== src/Query/Attempts.antt =====
-- How often a query of src/qmt_execution_core/miniqmt is repeated, and what comes of it.
use qmt_execution_core.Common.{
  ℕ, zero, suc, ◌<◌, ◌≡◌, refl, ◌∙◌, ◌⊎◌, inl, inr, Option, none, some, arith,
}
use qmt_execution_core.Errors.{Error, ok, err}
use qmt_execution_core.Query.{Reply, raised, nothing, value, retry, query_loop, strict_query}

module _ {W A : Type 0} (fn : W → Reply A × W) where
  -- the world after `calls` calls
  abbrev pub after_calls : ℕ → W → W
  after_calls zero world = world
  after_calls (suc calls) world = after_calls calls (fn world).1

  abbrev pub HasFailed : Reply A → Type 0
  HasFailed (value a) = ⊥
  HasFailed _ = Unit {0}

  -- the first calls all failed
  abbrev pub AllFail : ℕ → W → Type 0
  AllFail zero world = Unit {0}
  AllFail (suc calls) world = HasFailed (fn world).0 × AllFail calls (fn world).1

  -- The answer is that of the first call that succeeds, which is one of `attempts` calls.
  abbrev pub FirstSuccess : ℕ → W → A → W → Type 0
  FirstSuccess attempts world a after =
      (calls : ℕ) × (calls < attempts)
      × AllFail calls world
      × (fn (after_calls calls world) ≡ (value a, after))

  failing :
      (r : Reply A × W) (again : W → Option A × W) → HasFailed r.0 → retry fn r again ≡ again r.1
  failing (raised, w) again h = refl
  failing (nothing, w) again h = refl
  failing (value a, w) again h = absurd h

  reply_cases : (r : Reply A × W) → HasFailed r.0 ⊎ ((a : A) × (r ≡ (value a, r.1)))
  reply_cases (raised, w) = inl tt
  reply_cases (nothing, w) = inl tt
  reply_cases (value a, w) = inr (a, refl)

  loop_lem :
      (attempts : ℕ) (world : W)
      → (AllFail attempts world
          × (query_loop fn attempts world ≡ (none, after_calls attempts world)))
        ⊎ ((a : A) × (after : W) × (query_loop fn attempts world ≡ (some a, after))
            × FirstSuccess attempts world a after)
  unfolding query_loop
  loop_lem zero world = inl (tt, refl)
  loop_lem (suc attempts) world = elim (reply_cases (fn world)) [
    | inr (a, h) ↦ inr (a, (fn world).1, rw h refl, (0, omega arith, tt, h))
    | inl failed ↦ elim (loop_lem attempts (fn world).1) [
      | inl (all, q) ↦ inl ((failed, all), failing (fn world) _ failed ∙ q)
      | inr (a, after, q, (calls, few, all, h)) ↦ inr (
        a,
        after,
        failing (fn world) _ failed ∙ q,
        (suc calls, omega (arith, few), (failed, all), h),
      )
    ]
  ]

  -- A bounded query ends after at most `attempts` calls: it returns what the first call returned
  -- that neither raised nor gave `None`, and makes no call after that one; if all `attempts` calls
  -- failed, it has made all of them and raises the ambiguity.
  pub first_answer_wins :
      (ambiguous : Error) (attempts : ℕ) (world : W)
      → (AllFail attempts world
          × (strict_query fn ambiguous attempts world
              ≡ (err ambiguous, after_calls attempts world)))
        ⊎ ((a : A) × (after : W) × (strict_query fn ambiguous attempts world ≡ (ok a, after))
            × FirstSuccess attempts world a after)
  unfolding strict_query
  first_answer_wins ambiguous attempts world = elim (loop_lem attempts world) [
    | inl (all, q) ↦ inl (all, rw q refl)
    | inr (a, after, q, first) ↦ inr (a, after, rw q refl, first)
  ]
