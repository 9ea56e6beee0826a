-- ===== src/Guards/Examples.antt =====
-- A guard with concrete limits, src/qmt_execution_core/guards.py.
use qmt_execution_core.Common.{◌*◌, ◌≤◌, ◌≡◌, refl, true, false, [], ◌∷◌}
use qmt_execution_core.Errors.{ok}
use qmt_execution_core.Domain.{buy, ExecutionRequest, PrecheckEvidence}
use qmt_execution_core.Guards.{LimitGuard, is_listed, guard_verify, allowed_within_limits}

abbrev small : ExecutionRequest
small = record {
  client_order_id = "a1";
  symbol = "600000.SH";
  side = buy;
  qty = 100;
  limit_price = 7;
  strategy_id = "grid";
  order_remark = "a1";
}

abbrev verified : PrecheckEvidence
verified = record {
  allowed = true;
  environment_verified = true;
  account_verified = true;
  broker_snapshot_verified = true;
  position_verified = true;
  cash_verified = true;
  quote_verified = true;
  reason = "";
}

abbrev limited : LimitGuard (Unit {0})
limited = record {
  inner = λ r w. (ok verified, w);
  limits = record {
    allowlist = "000001.SZ" ∷ "600000.SH" ∷ [];
    max_order_qty = 100;
    max_order_notional = 700;
  };
  kill_switch = false;
}

small_passes : guard_verify limited small tt ≡ (ok verified, tt)
unfolding guard_verify is_listed
small_passes = refl

allowed_within_limits_example :
    (limited.inner small tt ≡ (ok verified, tt))
    × (limited.kill_switch ≡ false)
    × (is_listed limited.limits.allowlist small.symbol ≡ true)
    × (small.qty ≤ limited.limits.max_order_qty)
    × (small.qty * small.limit_price ≤ limited.limits.max_order_notional)
allowed_within_limits_example = allowed_within_limits limited small tt tt verified small_passes refl
