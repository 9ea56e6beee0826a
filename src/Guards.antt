-- ===== src/Guards.antt =====
-- src/qmt_execution_core/guards.py: hard limits in front of a project's guard.
pub mod Examples
use qmt_execution_core.Common.{
  ℕ, ◌*◌, ◌≤◌, ◌≡◌, refl, Bool, true, false, not, ◌||◌, String, str_eq, List, [], ◌∷◌, ltb, ◌==◌,
  if◌then◌else◌, arith,
}
use qmt_execution_core.Errors.{Result, ok, err, ◌>>=◌, ◌>>◌, raise_if, value_error}
use qmt_execution_core.Domain.{ExecutionRequest, PrecheckEvidence}

-- Notionals are whole numbers of the unit of prices. That the allowlist is a frozenset of strings
-- and the limits are finite numbers holds by the types.
pub record ExecutionLimits : Type 0 where
  pub allowlist : List String
  pub max_order_qty : ℕ
  pub max_order_notional : ℕ

unfoldable pub is_listed : List String → String → Bool
is_listed [] a = false
is_listed (x ∷ xs) a = str_eq x a || is_listed xs a

is_empty : List String → Bool
is_empty [] = true
is_empty (x ∷ xs) = false

-- `ExecutionLimits.__post_init__`
unfoldable pub validate_limits : ExecutionLimits → Result (Unit {0})
unfolding is_empty
validate_limits l = do
  raise_if (is_empty l.allowlist || is_listed l.allowlist "") value_error
  raise_if (l.max_order_qty == 0) value_error
  raise_if (l.max_order_notional == 0) value_error

-- `_rejected`
abbrev pub limit_rejected : String → PrecheckEvidence
limit_rejected reason = record {
  allowed = false;
  environment_verified = false;
  account_verified = false;
  broker_snapshot_verified = false;
  position_verified = false;
  cash_verified = false;
  quote_verified = false;
  reason = reason;
}

-- `LimitExecutionGuard`; the project's guard is asked only within the limits
pub record LimitGuard (W : Type 0) : Type 0 where
  pub inner : ExecutionRequest → W → Result PrecheckEvidence × W
  pub limits : ExecutionLimits
  pub kill_switch : Bool

abbrev pub engage_kill_switch : {W : Type 0} → LimitGuard W → LimitGuard W
engage_kill_switch g = record g { kill_switch = true }

unfoldable pub guard_verify :
    {W : Type 0} → LimitGuard W → ExecutionRequest → W → Result PrecheckEvidence × W
guard_verify g r w =
    if g.kill_switch
    then (ok (limit_rejected "kill switch engaged"), w)
    else (if not (is_listed g.limits.allowlist r.symbol)
        then (ok (limit_rejected "symbol is not on the execution allowlist"), w)
        else (if ltb g.limits.max_order_qty r.qty
            then (ok (limit_rejected "order quantity exceeds hard execution limit"), w)
            else (if ltb g.limits.max_order_notional (r.qty * r.limit_price)
                then (ok (limit_rejected "order notional exceeds hard execution limit"), w)
                else g.inner r w)))

-- The guard allows an order only if the project's guard allowed it in the same state, the kill
-- switch is off, the symbol is on the allowlist, and quantity and notional are within the limits.
pub allowed_within_limits :
    {W : Type 0} (g : LimitGuard W) (r : ExecutionRequest) (w u : W) (e : PrecheckEvidence)
    → guard_verify g r w ≡ (ok e, u)
    → e.allowed ≡ true
    → (g.inner r w ≡ (ok e, u))
      × (g.kill_switch ≡ false)
      × (is_listed g.limits.allowlist r.symbol ≡ true)
      × (r.qty ≤ g.limits.max_order_qty)
      × (r.qty * r.limit_price ≤ g.limits.max_order_notional)
unfolding guard_verify
allowed_within_limits g r w u e h a = ground arith
