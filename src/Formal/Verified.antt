-- ===== src/Formal/Verified.antt =====
-- `_verify_scenario` of src/qmt_execution_core/formal.py on an arbitrary scenario.
use qmt_execution_core.Common.{
  ℕ, ◌≡◌, refl, subst, ◌⊎◌, inl, inr, Bool, some, List, [], ◌∷◌, ◌++◌, arith, get_elem?,
}
use qmt_execution_core.Errors.{ok, Result-cases}
use qmt_execution_core.Machine.{is_submitted}
use qmt_execution_core.Finality.{is_failed, execution_finality}
use qmt_execution_core.Formal.Shared.{
  Three, Index, p0, p1, p2, nth, Process, FormalScenario, can_prepare,
}
use qmt_execution_core.Formal.Moves.{
  Successor, before_coordination, successors_of, global_successors,
}
use qmt_execution_core.Formal.Checks.{assert_global_invariants}
use qmt_execution_core.Formal.Explore.{initial_state}
use qmt_execution_core.Formal.Global.{IsSound}
use qmt_execution_core.Formal.Steps.{AllSound, global_sound}
use qmt_execution_core.Formal.Assertions.{sound_passes}
use qmt_execution_core.Formal.Deadlock.{AllEnded, no_deadlock}

-- Each process names an account of the scenario.
abbrev pub InRange : FormalScenario → Type 0
InRange scenario =
    (i : Index)
    → (c : ℕ) × (get_elem? scenario.cash_by_account (nth scenario.processes i).account ≡ some c)

module _ (scenario : FormalScenario) (range : InRange scenario) (state : Three Process) where
  can_prepare_returns : (i : Index) → (able : Bool) × (can_prepare state scenario i ≡ ok able)
  unfolding can_prepare
  can_prepare_returns i =
      let (c, q) = range i in
      elim (Result-cases (can_prepare state scenario i)) [
        | inl found ↦ found
        | inr (x, h) ↦ absurd (ground (arith, q, h))
      ]

  successors_return :
      (i : Index) → (all : List Successor) × (successors_of state scenario i ≡ ok all)
  unfolding successors_of before_coordination
  successors_return i =
      let (able, q) = can_prepare_returns i in
      elim (Result-cases (successors_of state scenario i)) [
        | inl found ↦ found
        | inr (x, h) ↦ absurd (ground (arith, q, h))
      ]

  pub global_returns : (all : List Successor) × (global_successors state scenario ≡ ok all)
  unfolding global_successors
  global_returns =
      let (a, x) = successors_return p0 in
      let (b, y) = successors_return p1 in
      let (c, z) = successors_return p2 in (a ++ (b ++ c), rw (x, y, z) refl)

pub initial-IsSound : (scenario : FormalScenario) → IsSound scenario initial_state
unfolding execution_finality is_submitted is_failed
initial-IsSound scenario = record {
  fine_0 = record { coherent = refl; released = refl; claimed = refl };
  fine_1 = record { coherent = refl; released = refl; claimed = refl };
  fine_2 = record { coherent = refl; released = refl; claimed = refl };
  apart_01 = refl;
  apart_02 = refl;
  apart_12 = refl;
  cash = λ a c q. omega arith;
}

-- The global states that interleavings reach.
abbrev pub IsAmong : Three Process → List Successor → Type 0
IsAmong state [] = ⊥
IsAmong state ((i, label, s) ∷ rest) = (s ≡ state) ⊎ IsAmong state rest

pub data Reached (scenario : FormalScenario) : Three Process → Type 0 where
  begin : Reached scenario initial_state
  next :
      {s t : Three Process} (all : List Successor)
      → Reached scenario s
      → global_successors s scenario ≡ ok all
      → IsAmong t all
      → Reached scenario t

among-IsSound :
    (scenario : FormalScenario) (t : Three Process) (all : List Successor)
    → AllSound scenario all
    → IsAmong t all
    → IsSound scenario t
among-IsSound scenario t [] h m = absurd m
among-IsSound scenario t ((i, label, s) ∷ rest) h (inl q) = subst (IsSound scenario) q h.0
among-IsSound scenario t ((i, label, s) ∷ rest) h (inr m) = among-IsSound scenario t rest h.1 m

Reached-IsSound :
    (scenario : FormalScenario) {s : Three Process} → Reached scenario s → IsSound scenario s
Reached-IsSound scenario begin = initial-IsSound scenario
Reached-IsSound scenario (next {s} {t} all r h m) =
    among-IsSound scenario t all (global_sound scenario s all (Reached-IsSound scenario r) h) m

-- In every scenario, each global state that an interleaving of the three processes reaches passes
-- all the global invariants: no claim is held twice, no resolved process keeps resources, no
-- unresolved one loses its claim, and the BUYs at the broker fit in each account's cash. If such a
-- state has no successor, all three processes have ended.
pub interleavings_are_safe :
    (scenario : FormalScenario) (state : Three Process)
    → Reached scenario state
    → (assert_global_invariants state scenario ≡ ok tt)
      × (global_successors state scenario ≡ ok [] → AllEnded state)
interleavings_are_safe scenario state r =
    let sound = Reached-IsSound scenario r in
    (sound_passes scenario state sound, no_deadlock scenario state sound)
