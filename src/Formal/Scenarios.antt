-- ===== src/Formal/Scenarios.antt =====
-- The deployments that `verify_three_process_coordination` of src/qmt_execution_core/formal.py
-- explores.
use qmt_execution_core.Common.{ℕ, true, false, [], ◌∷◌}
use qmt_execution_core.Domain.{Side, buy, sell}
use qmt_execution_core.Formal.Shared.{FormalProcessSpec, FormalScenario}

abbrev spec : ℕ → ℕ → Side → ℕ → FormalProcessSpec
spec account symbol side cash = record {
  account = account;
  symbol = symbol;
  side = side;
  required_cash = cash;
}

abbrev pub same_account_three_distinct_symbols : FormalScenario
same_account_three_distinct_symbols = record {
  processes = record { at_0 = spec 0 0 buy 30; at_1 = spec 0 1 buy 30; at_2 = spec 0 2 buy 30 };
  cash_by_account = 100 ∷ [];
  require_all_working = true;
  require_cross_account_same_symbol_working = false;
}

abbrev pub same_account_same_symbol_exclusion : FormalScenario
same_account_same_symbol_exclusion = record {
  processes = record { at_0 = spec 0 0 buy 30; at_1 = spec 0 0 buy 30; at_2 = spec 0 0 sell 0 };
  cash_by_account = 100 ∷ [];
  require_all_working = false;
  require_cross_account_same_symbol_working = false;
}

abbrev pub same_account_cash_contention : FormalScenario
same_account_cash_contention = record {
  processes = record { at_0 = spec 0 0 buy 60; at_1 = spec 0 1 buy 50; at_2 = spec 0 2 buy 40 };
  cash_by_account = 100 ∷ [];
  require_all_working = false;
  require_cross_account_same_symbol_working = false;
}

abbrev pub cross_account_same_symbol_independence : FormalScenario
cross_account_same_symbol_independence = record {
  processes = record { at_0 = spec 0 0 buy 30; at_1 = spec 1 0 buy 30; at_2 = spec 0 1 buy 30 };
  cash_by_account = 100 ∷ 100 ∷ [];
  require_all_working = true;
  require_cross_account_same_symbol_working = true;
}
