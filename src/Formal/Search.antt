-- ===== src/Formal/Search.antt =====
-- `_verify_scenario` of src/qmt_execution_core/formal.py comes to an end.
use qmt_execution_core.Common.{
  ℕ, zero, suc, ◌≡◌, refl, ap, some, List, [], ◌∷◌, ◌++◌, arith, length,
}
use qmt_execution_core.Errors.{Result, ok}
use qmt_execution_core.Formal.Shared.{Three, Process, FormalScenario}
use qmt_execution_core.Formal.Moves.{Successor, global_successors}
use qmt_execution_core.Formal.Explore.{
  Search, new_search, record_successor, record_all, count_deadlock, witnessed, visit, explore_queue,
  explore, verify_scenario, reported,
}
use qmt_execution_core.Formal.Global.{IsSound}
use qmt_execution_core.Formal.Steps.{AllSound, global_sound}
use qmt_execution_core.Formal.Assertions.{sound_passes}
use qmt_execution_core.Formal.Deadlock.{no_deadlock}
use qmt_execution_core.Formal.Verified.{InRange, global_returns, initial-IsSound}
use qmt_execution_core.Formal.Terminates.{state_count, Fueled, record-Fueled, reachable_bound}

abbrev pub QueueSound : FormalScenario → List (Three Process) → Type 0
QueueSound scenario [] = Unit {0}
QueueSound scenario (s ∷ queue) = IsSound scenario s × QueueSound scenario queue

queued_sound :
    (scenario : FormalScenario) (queue : List (Three Process)) (s : Three Process)
    → QueueSound scenario queue
    → IsSound scenario s
    → QueueSound scenario (queue ++ (s ∷ []))
queued_sound scenario [] s q h = (h, tt)
queued_sound scenario (t ∷ queue) s q h = (q.0, queued_sound scenario queue s q.1 h)

module _ (scenario : FormalScenario) (fuel : ℕ) where
  record_sound :
      (s : Three Process) (found : Search)
      → QueueSound scenario found.queue
      → IsSound scenario s
      → QueueSound scenario (record_successor s found).queue
  unfolding record_successor
  record_sound s found q h = ground (arith, q, queued_sound scenario found.queue s q h)

  -- the search goes on from `found`
  abbrev GoesOn : Result Search → Type 0
  GoesOn r = (after : Search) × (r ≡ ok after) × Fueled fuel after × QueueSound scenario after.queue

  record_all-GoesOn :
      (all : List Successor) (found : Search)
      → AllSound scenario all
      → Fueled fuel found
      → QueueSound scenario found.queue
      → GoesOn (record_all scenario all found)
  unfolding record_all
  record_all-GoesOn [] found a f q = (found, refl, f, q)
  record_all-GoesOn ((i, label, s) ∷ rest) found a f q = rw (sound_passes scenario s a.0) (
      record_all-GoesOn rest (record_successor s found) a.1 (record-Fueled fuel s found f)
        (record_sound s found q a.0))

  count-GoesOn :
      (current : Three Process) (all : List Successor) (found : Search)
      → IsSound scenario current
      → global_successors current scenario ≡ ok all
      → Fueled fuel found
      → QueueSound scenario found.queue
      → GoesOn (count_deadlock current all found)
  unfolding count_deadlock
  count-GoesOn current (s ∷ rest) found sound h f q = (found, refl, f, q)
  count-GoesOn current [] found sound h f q =
      let (a, b, c) = no_deadlock scenario current sound h in
      rw (a, b, c)
        (
          record found { legitimate_terminal_deadlocks = suc found.legitimate_terminal_deadlocks },
          refl,
          record { distinct = f.distinct; enough = f.enough },
          q,
        )

  visit-GoesOn :
      (current : Three Process) (found : Search)
      → InRange scenario
      → IsSound scenario current
      → Fueled fuel found
      → QueueSound scenario found.queue
      → GoesOn (visit scenario current found)
  unfolding visit
  visit-GoesOn current found range sound f q =
      let (all, h) = global_returns scenario range current in
      let (counted, k, f₁, q₁) =
        count-GoesOn current all (witnessed scenario current found) sound h
          (record { distinct = f.distinct; enough = f.enough }) q in
      rw (sound_passes scenario current sound, h, k)
        (record_all-GoesOn all counted (global_sound scenario current all sound h) f₁ q₁)

queue_ends :
    (fuel : ℕ) (scenario : FormalScenario) (found : Search) (queue : List (Three Process))
    → InRange scenario
    → Fueled (suc fuel) found
    → QueueSound scenario queue
    → found.queue ≡ queue
    → ((after : Search)
        → Fueled fuel after
        → QueueSound scenario after.queue
        → (last : Search) × (explore fuel scenario after ≡ ok (some last)))
    → (last : Search) × (explore_queue scenario found queue (explore fuel scenario)
        ≡ ok (some last))
unfolding explore_queue
queue_ends fuel scenario found [] range f q h again = (found, refl)
queue_ends fuel scenario found (current ∷ queue) range f q h again =
    let size : length found.queue ≡ suc (length queue) = ap length h in
    let (after, k, f₁, q₁) =
      visit-GoesOn scenario fuel current (record found { queue = queue }) range q.0
        (record { distinct = f.distinct; enough = omega (arith, f.enough, size) }) q.1 in
    rw k (again after f₁ q₁)

explore_ends :
    (fuel : ℕ) (scenario : FormalScenario) (found : Search)
    → InRange scenario
    → Fueled fuel found
    → QueueSound scenario found.queue
    → (last : Search) × (explore fuel scenario found ≡ ok (some last))
unfolding explore
explore_ends zero scenario found range f q =
    absurd (omega (arith, f.enough, reachable_bound found.reachable f.distinct))
explore_ends (suc fuel) scenario found range f q =
    queue_ends fuel scenario found found.queue range f q refl
      (λ after f₁ q₁. explore_ends fuel scenario after range f₁ q₁)

new_search-Fueled : Fueled (suc state_count) new_search
new_search-Fueled = record { distinct = (refl, tt); enough = omega arith }

-- The search ends, and the verification of the scenario is the report on what it found.
pub verification_ends :
    (scenario : FormalScenario)
    → InRange scenario
    → (last : Search) × (explore (suc state_count) scenario new_search ≡ ok (some last))
      × (verify_scenario (suc state_count) scenario ≡ reported scenario (some last))
unfolding verify_scenario
verification_ends scenario range =
    let (last, h) =
      explore_ends (suc state_count) scenario new_search range new_search-Fueled
        (initial-IsSound scenario, tt) in
    (last, h, rw h refl)
