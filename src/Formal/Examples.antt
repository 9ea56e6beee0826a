-- ===== src/Formal/Examples.antt =====
-- Searches of concrete deployments, src/qmt_execution_core/formal.py.
use qmt_execution_core.Common.{suc, ◌≡◌, ◌↔◌, refl, inl, inr, true, false, some, []}
use qmt_execution_core.Errors.{ok}
use qmt_execution_core.Domain.{TradeState}
use qmt_execution_core.Table.{transitions}
use qmt_execution_core.Machine.{
  initial_snapshot, is_submitted, declared, guarded, next_facts, assert_invariants, advance,
}
use qmt_execution_core.Machine.Examples.{submitted, accepted}
use qmt_execution_core.Finality.{execution_finality, is_failed}
use qmt_execution_core.Formal.{declared_events}
use qmt_execution_core.Formal.Shared.{
  Three, p1, Process, process, claim_free, can_prepare, active_reserved_cash, sync_phase,
}
use qmt_execution_core.Formal.Moves.{elsewhere, successors_of, global_successors}
use qmt_execution_core.Formal.Checks.{assert_global_invariants, is_all_working}
use qmt_execution_core.Formal.Explore.{
  Search, initial_state, new_search, seen, explore, verify_scenario, reported,
}
use qmt_execution_core.Formal.Terminates.{state_count}
use qmt_execution_core.Formal.Deadlock.{AllEnded}
use qmt_execution_core.Formal.Scenarios.{
  same_account_same_symbol_exclusion, same_account_cash_contention,
  cross_account_same_symbol_independence,
}
use qmt_execution_core.Formal.Verified.{Reached, begin, next, interleavings_are_safe}
use qmt_execution_core.Formal.Passes.{contention-InRange}
use qmt_execution_core.Formal.Complete.{IsReachedWith, is_crossing, search_is_exact}

-- Two processes wait for the coordinator with one symbol; the first holds it.
abbrev one_holds : Three Process
one_holds = record {
  at_0 = process accepted true;
  at_1 = process submitted false;
  at_2 = process initial_snapshot false;
}

second_refused : can_prepare one_holds same_account_same_symbol_exclusion p1 ≡ ok false
unfolding can_prepare claim_free
second_refused = refl

-- The cash of the first BUY leaves too little for the second.
cash_refused : can_prepare one_holds same_account_cash_contention p1 ≡ ok false
unfolding can_prepare claim_free active_reserved_cash
cash_refused = refl

other_account_allowed : can_prepare one_holds cross_account_same_symbol_independence p1 ≡ ok true
unfolding can_prepare claim_free active_reserved_cash
other_account_allowed = refl

abbrev failed_first : Three Process
failed_first = record initial_state {
  at_0 = process (record initial_snapshot { state = TradeState.failed }) false;
}

failed_first-Reached : Reached same_account_same_symbol_exclusion failed_first
unfolding global_successors successors_of elsewhere is_submitted declared_events advance declared
    transitions guarded next_facts assert_invariants sync_phase execution_finality is_failed
failed_first-Reached = next _ begin refl (inr (inl refl))

interleavings_are_safe_example :
    (assert_global_invariants failed_first same_account_same_symbol_exclusion ≡ ok tt)
    × (global_successors failed_first same_account_same_symbol_exclusion ≡ ok []
        → AllEnded failed_first)
interleavings_are_safe_example =
    interleavings_are_safe same_account_same_symbol_exclusion failed_first failed_first-Reached

search_is_exact_example :
    (last : Search) × (explore (suc state_count) same_account_cash_contention new_search
      ≡ ok (some last))
    × (verify_scenario (suc state_count) same_account_cash_contention
        ≡ reported same_account_cash_contention (some last))
    × ((s : Three Process)
        → (seen s last.reachable ≡ true) ↔ Reached same_account_cash_contention s)
    × ((last.all_working_reached ≡ true)
        ↔ IsReachedWith same_account_cash_contention is_all_working)
    × ((last.cross_account_same_symbol_working_reached ≡ true)
        ↔ IsReachedWith same_account_cash_contention (is_crossing same_account_cash_contention))
search_is_exact_example = search_is_exact same_account_cash_contention contention-InRange
