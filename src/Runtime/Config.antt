-- ===== src/Runtime/Config.antt =====
-- src/qmt_execution_core/miniqmt/runtime.py: the tests of `MiniQmtRuntimeConfig`, and those of
-- src/qmt_execution_core/miniqmt/runtime_gate.py on the gate's part of it. Type tests hold by the
-- types. The digest is given by its characters.
use qmt_execution_core.Common.{
  ℕ, ◌≡◌, ◌+◌, ◌-◌, ◌==◌, Bool, true, false, not, ◌&&◌, ◌||◌, ltb, String, str_eq, Option, none,
  some, List, [], ◌∷◌, ℤ, pos, negsuc, arith, is_empty,
}
use qmt_execution_core.Errors.{
  Result, ok, ◌>>=◌, ◌>>◌, raise_if, bind_ok, runtime_configuration_error,
}
use qmt_execution_core.Domain.Validation.{positive}
use qmt_execution_core.Binding.Digest.{strip_left, strip_right, lower, is_digest}
use qmt_execution_core.SessionId.{BoundedSessionIdAllocator, new_allocator, min}

-- Seconds: whole units of 10⁻⁹, minus infinity, or an infinity or a NaN, which is below no number.
pub data Delay : Type 0 where
  units : ℤ → Delay
  minus_infinity not_below : Delay

pub record MiniQmtRuntimeConfig : Type 0 where
  pub environment : String
  pub strategy_name : String
  pub live_trading_enabled : Bool
  pub confirmation_token : List ℕ
  pub session_id : Option ℤ
  pub query_attempts : ℤ
  pub query_delay_seconds : Delay
  pub event_queue_size : ℤ
  pub runtime_lock_mode : String
  pub session_id_pool_start : ℤ
  pub session_id_pool_size : ℤ
  pub session_id_attempts : ℤ

abbrev pub is_allowed_environment : String → Bool
is_allowed_environment name = str_eq name "simulation" || str_eq name "live"

abbrev pub is_nil : List ℕ → Bool
is_nil [] = true
is_nil (c ∷ s) = false

-- `RuntimeGateConfig.__post_init__`: the digest that is stored
unfoldable pub gate_digest : String → (enabled : Bool) → List ℕ → Result (List ℕ)
gate_digest environment enabled value = do
  let digest = lower (strip_right (strip_left value))
  raise_if (not (is_allowed_environment environment)) runtime_configuration_error
  raise_if (not (is_nil digest) && not (is_digest digest)) runtime_configuration_error
  raise_if (str_eq environment "simulation" && enabled) runtime_configuration_error
  raise_if (str_eq environment "live" && enabled && is_nil digest) runtime_configuration_error
  ok digest

abbrev pub is_positive : ℤ → Bool
is_positive (pos n) = not (n == 0)
is_positive (negsuc n) = false

abbrev pub is_given_and_not_positive : Option ℤ → Bool
is_given_and_not_positive none = false
is_given_and_not_positive (some id) = not (is_positive id)

abbrev pub is_negative : Delay → Bool
is_negative (units (pos n)) = false
is_negative (units (negsuc n)) = true
is_negative minus_infinity = true
is_negative not_below = false

-- `start + size - 1 > 2_147_483_647` of positive numbers
abbrev pub exceeds_32_bits : ℤ → ℤ → Bool
exceeds_32_bits (pos start) (pos size) = ltb 2147483647 (start + size - 1)
exceeds_32_bits _ _ = false

-- the tests of the pool of session ids
unfoldable pub check_pool : (start size attempts : ℤ) → Result (Unit {0})
check_pool start size attempts = do
  raise_if (not (is_positive start)) runtime_configuration_error
  raise_if (not (is_positive size)) runtime_configuration_error
  raise_if (not (is_positive attempts)) runtime_configuration_error
  raise_if (exceeds_32_bits start size) runtime_configuration_error

-- the tests before those of the pool
unfoldable pub check_settings : MiniQmtRuntimeConfig → Result (Unit {0})
check_settings c = do
  raise_if (not (is_allowed_environment c.environment)) runtime_configuration_error
  raise_if (is_empty c.strategy_name) runtime_configuration_error
  raise_if (is_given_and_not_positive c.session_id) runtime_configuration_error
  raise_if (not (is_positive c.query_attempts)) runtime_configuration_error
  raise_if (is_negative c.query_delay_seconds) runtime_configuration_error
  raise_if (not (is_positive c.event_queue_size)) runtime_configuration_error
  raise_if (not (str_eq c.runtime_lock_mode "exclusive" || str_eq c.runtime_lock_mode "shared"))
      runtime_configuration_error

-- `__post_init__`
unfoldable pub runtime_config : MiniQmtRuntimeConfig → Result MiniQmtRuntimeConfig
runtime_config c = do
  check_settings c
  check_pool c.session_id_pool_start c.session_id_pool_size c.session_id_attempts
  digest ← gate_digest c.environment c.live_trading_enabled c.confirmation_token
  ok c

pool_allocates :
    (start size attempts : ℤ)
    → check_pool start size attempts ≡ ok tt
    → (a : BoundedSessionIdAllocator) × (new_allocator start size attempts ≡ ok a)
unfolding check_pool new_allocator positive
pool_allocates (pos start) (pos size) (pos attempts) h =
    (record { pool_start = start; pool_size = size; attempts = min attempts size }, ground arith)
pool_allocates (pos start) (pos size) (negsuc attempts) h = absurd (ground arith)
pool_allocates (pos start) (negsuc size) attempts h = absurd (ground arith)
pool_allocates (negsuc start) size attempts h = absurd (ground arith)

-- A configuration that is accepted is accepted by the allocator of session ids too.
accepted_config_allocates :
    (c d : MiniQmtRuntimeConfig)
    → runtime_config c ≡ ok d
    → (a : BoundedSessionIdAllocator) × (new_allocator c.session_id_pool_start
          c.session_id_pool_size c.session_id_attempts
        ≡ ok a)
unfolding runtime_config
accepted_config_allocates c d h =
    let (u, p, k) = bind_ok (check_settings c) _ h in
    let (v, q, l) =
      bind_ok (check_pool c.session_id_pool_start c.session_id_pool_size c.session_id_attempts) _
        k in
    pool_allocates _ _ _ q
