-- ===== src/Formal/Terminates.antt =====
-- The search of src/qmt_execution_core/formal.py visits each global state at most once, and there
-- are finitely many.
use qmt_execution_core.Common.{
  ℕ, ◌+◌, ◌≤◌, ◌<◌, ◌≡◌, refl, sym, ◌∙◌, inl, inr, Bool, true, false, List, [], ◌∷◌, arith,
  Bool-cases, length, length-append, has, AreDistinct, AreBelow, distinct_below,
}
use qmt_execution_core.Domain.{TradeState}
use qmt_execution_core.Machine.Equality.{rank}
use qmt_execution_core.Formal.Shared.{Three, Process}
use qmt_execution_core.Formal.Explore.{
  bit, process_code, state_code, seen, Search, record_successor,
}

-- how many global states there are at most
abbrev pub state_count : ℕ
state_count = 2251799813685248

bit_bound : (b : Bool) → bit b ≤ 1
bit_bound true = omega arith
bit_bound false = omega arith

rank_bound : (s : TradeState) → rank s ≤ 15
rank_bound s = ground arith

pub process_code_bound : (p : Process) → process_code p < 131072
unfolding process_code
process_code_bound p =
    let f = p.snapshot.facts in
    omega (
      arith,
      bit_bound p.held,
      rank_bound p.snapshot.state,
      bit_bound f.environment_verified,
      bit_bound f.account_verified,
      bit_bound f.broker_snapshot_verified,
      bit_bound f.position_verified,
      bit_bound f.cash_verified,
      bit_bound f.quote_verified,
      bit_bound f.intent_persisted,
      bit_bound f.reservation_persisted,
      bit_bound f.unresolved_order,
      bit_bound f.terminal_order_confirmed,
      bit_bound f.submitted_once,
      bit_bound f.cancel_intent_persisted,
    )

state_code_bound : (s : Three Process) → state_code s < state_count
state_code_bound s =
    omega (arith, process_code_bound s.at_0, process_code_bound s.at_1, process_code_bound s.at_2)

abbrev pub codes : List (Three Process) → List ℕ
codes [] = []
codes (s ∷ rest) = state_code s ∷ codes rest

seen-codes :
    (s : Three Process) (all : List (Three Process)) → seen s all ≡ has (state_code s) (codes all)
seen-codes s [] = refl
seen-codes s (t ∷ all) = rw (seen-codes s all) refl

length-codes : (all : List (Three Process)) → length (codes all) ≡ length all
length-codes [] = refl
length-codes (s ∷ all) = omega (arith, length-codes all)

codes-AreBelow : (all : List (Three Process)) → AreBelow state_count (codes all)
codes-AreBelow [] = tt
codes-AreBelow (s ∷ all) = (state_code_bound s, codes-AreBelow all)

pub reachable_bound :
    (all : List (Three Process)) → AreDistinct (codes all) → length all ≤ state_count
reachable_bound all d =
    omega (arith, distinct_below state_count (codes all) d (codes-AreBelow all), length-codes all)

-- The states still to come fit in the fuel.
pub record Fueled (fuel : ℕ) (found : Search) : Type 0 where
  pub distinct : AreDistinct (codes found.reachable)
  pub enough : state_count + length found.queue < fuel + length found.reachable

pub record-Fueled :
    (fuel : ℕ) (s : Three Process) (found : Search)
    → Fueled fuel found
    → Fueled fuel (record_successor s found)
unfolding record_successor
record-Fueled fuel s found h = elim (Bool-cases (seen s found.reachable)) [
  | inl old ↦ rw old (record { distinct = h.distinct; enough = h.enough })
  | inr fresh ↦ rw fresh (record {
    distinct = (sym (seen-codes s found.reachable) ∙ fresh, h.distinct);
    enough = omega (arith, h.enough, length-append found.queue (s ∷ []));
  })
]
