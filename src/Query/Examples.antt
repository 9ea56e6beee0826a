-- ===== src/Query/Examples.antt =====
-- A query that answers at its second call.
use qmt_execution_core.Common.{ℕ, suc, ◌≡◌, ◌⊎◌, refl, ◌==◌, if◌then◌else◌}
use qmt_execution_core.Errors.{ok, err, broker_query_ambiguous}
use qmt_execution_core.Query.{Reply, raised, nothing, value, query_loop, strict_query}
use qmt_execution_core.Query.Attempts.{AllFail, FirstSuccess, after_calls, first_answer_wins}

-- the world counts the calls
slow : ℕ → Reply ℕ × ℕ
slow calls = (if calls == 0 then nothing else if calls == 1 then value 42 else raised, suc calls)

slow_answers : strict_query slow broker_query_ambiguous 3 0 ≡ (ok 42, 2)
unfolding strict_query query_loop slow
slow_answers = refl

slow_gives_up : strict_query slow broker_query_ambiguous 1 0 ≡ (err broker_query_ambiguous, 1)
unfolding strict_query query_loop slow
slow_gives_up = refl

first_answer_wins_example :
    (AllFail slow 3 0
      × (strict_query slow broker_query_ambiguous 3 0
          ≡ (err broker_query_ambiguous, after_calls slow 3 0)))
    ⊎ ((a : ℕ) × (after : ℕ) × (strict_query slow broker_query_ambiguous 3 0 ≡ (ok a, after))
        × FirstSuccess slow 3 0 a after)
first_answer_wins_example = first_answer_wins slow broker_query_ambiguous 3 0
