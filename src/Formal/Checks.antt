-- ===== src/Formal/Checks.antt =====
-- src/qmt_execution_core/formal.py, `_assert_global_invariants` and the two witnesses of progress.
use qmt_execution_core.Common.{
  ℕ, suc, ◌+◌, Bool, true, false, not, ◌&&◌, ◌||◌, List, [], ◌∷◌, ◌==◌, ltb, if◌then◌else◌,
}
use qmt_execution_core.Errors.{Result, ok, ◌>>=◌, ◌>>◌, raise_if, runtime_error}
use qmt_execution_core.Domain.{TradeState, buy, side_eq}
use qmt_execution_core.Machine.{is_submitted, is_unknown}
use qmt_execution_core.Finality.{execution_finality, is_failed}
use qmt_execution_core.Formal.Shared.{
  Three, Index, p0, p1, p2, nth, Process, FormalScenario, is_resolved,
}

abbrev pub is_cancel_rejected : TradeState → Bool
is_cancel_rejected TradeState.cancel_rejected = true
is_cancel_rejected _ = false

abbrev pub is_working : TradeState → Bool
is_working TradeState.working = true
is_working _ = false

-- The tests of one process. A finality that is `OPEN` or `QUARANTINED` is one that is not
-- `RESOLVED`.
unfoldable pub check_process : Process → Result (Unit {0})
check_process p = do
  raise_if (p.held && is_resolved (execution_finality p.snapshot)) runtime_error
  raise_if (p.held && not p.snapshot.facts.intent_persisted) runtime_error
  raise_if
      (not p.held
        && (not (is_resolved (execution_finality p.snapshot))
            && not (is_submitted p.snapshot.state)))
      runtime_error
  raise_if ((is_unknown p.snapshot.state || is_cancel_rejected p.snapshot.state) && not p.held)
      runtime_error
  raise_if (is_failed p.snapshot.state && (p.snapshot.facts.unresolved_order && not p.held))
      runtime_error

-- Two processes hold one claim.
unfoldable pub check_pair : Three Process → FormalScenario → Index → Index → Result (Unit {0})
check_pair state scenario left right =
    raise_if
      (((nth state left).held && (nth state right).held)
        && ((nth scenario.processes left).account == (nth scenario.processes right).account
            && (nth scenario.processes left).symbol == (nth scenario.processes right).symbol))
      runtime_error

-- What one process adds to `active_submitted`.
abbrev pub sent_by : Three Process → FormalScenario → ℕ → Index → ℕ
sent_by state scenario account index =
    if (nth state index).held
      && ((nth scenario.processes index).account == account
          && (side_eq (nth scenario.processes index).side buy
              && (nth state index).snapshot.facts.submitted_once))
    then (nth scenario.processes index).required_cash
    else 0

abbrev pub active_submitted : Three Process → FormalScenario → ℕ → ℕ
active_submitted state scenario account =
    sent_by state scenario account p0
    + sent_by state scenario account p1
    + sent_by state scenario account p2

-- `for account, capacity in enumerate(cash_by_account)`
unfoldable pub check_cash : Three Process → FormalScenario → ℕ → List ℕ → Result (Unit {0})
check_cash state scenario account [] = ok tt
check_cash state scenario account (capacity ∷ rest) =
    let later = check_cash state scenario (suc account) rest in
    raise_if (ltb capacity (active_submitted state scenario account)) runtime_error >>= λ _. later

unfoldable pub assert_global_invariants : Three Process → FormalScenario → Result (Unit {0})
assert_global_invariants state scenario = do
  check_process state.at_0
  check_pair state scenario p0 p1
  check_pair state scenario p0 p2
  check_process state.at_1
  check_pair state scenario p1 p2
  check_process state.at_2
  check_cash state scenario 0 scenario.cash_by_account

abbrev pub works : Process → Bool
works p = p.held && is_working p.snapshot.state

unfoldable pub is_all_working : Three Process → Bool
is_all_working state = works state.at_0 && (works state.at_1 && works state.at_2)

-- The two work on one symbol for different accounts.
abbrev pub crosses : Three Process → FormalScenario → Index → Index → Bool
crosses state scenario left right =
    (works (nth state left) && works (nth state right))
    && (not ((nth scenario.processes left).account == (nth scenario.processes right).account)
        && (nth scenario.processes left).symbol == (nth scenario.processes right).symbol)

unfoldable pub has_cross_account_same_symbol_working : Three Process → FormalScenario → Bool
has_cross_account_same_symbol_working state scenario =
    crosses state scenario p0 p1 || (crosses state scenario p0 p2 || crosses state scenario p1 p2)
