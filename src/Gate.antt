-- ===== src/Gate.antt =====
-- src/qmt_execution_core/miniqmt/runtime_gate.py: the gate in front of real-money execution. The
-- hash is a parameter.
pub mod Examples
use qmt_execution_core.Common.{
  ◌≡◌, refl, Bool, true, false, not, ◌&&◌, String, str_eq, eq_iff, List, [], ◌∷◌, if◌then◌else◌,
  arith, Bool-cases, inl, inr,
}
use qmt_execution_core.Errors.{
  Result, Result-cases, ok, err, ◌>>=◌, ◌>>◌, raise_if, runtime_confirmation_error,
}

-- The digest is the one that `__post_init__` stores.
pub record RuntimeGateConfig : Type 0 where
  pub environment : String
  pub live_trading_enabled : Bool
  pub confirmation_token_sha256 : String

pub record RuntimeExecutionGate : Type 0 where
  pub config : RuntimeGateConfig
  pub confirmed : Bool

abbrev pub new_gate : RuntimeGateConfig → RuntimeExecutionGate
new_gate config = record { config = config; confirmed = str_eq config.environment "simulation" }

unfoldable pub execution_allowed : RuntimeExecutionGate → Bool
execution_allowed g =
    if str_eq g.config.environment "simulation"
    then true
    else (g.config.live_trading_enabled && g.confirmed)

unfoldable pub revoke : RuntimeExecutionGate → RuntimeExecutionGate
revoke g = if str_eq g.config.environment "live" then record g { confirmed = false } else g

module _ (sha256 : String → String) where
  unfoldable pub token_sha256 : String → Result String
  token_sha256 token = do raise_if (str_eq token "") runtime_confirmation_error; ok (sha256 token)

  unfoldable pub confirm : String → RuntimeExecutionGate → Result RuntimeExecutionGate
  confirm token g = do
    raise_if (not (str_eq g.config.environment "live")) runtime_confirmation_error
    raise_if (not g.config.live_trading_enabled) runtime_confirmation_error
    digest ← token_sha256 token
    raise_if (not (str_eq digest g.config.confirmation_token_sha256)) runtime_confirmation_error
    ok (record g { confirmed = true })

pub data GateCall : Type 0 where
  confirm_call : String → GateCall
  revoke_call : GateCall

abbrev pub or_same : Result RuntimeExecutionGate → RuntimeExecutionGate → RuntimeExecutionGate
or_same (ok next) g = next
or_same (err e) g = g

-- the gate after calls, the newest first; one that raises changes nothing
unfoldable pub after_gate_calls :
    (String → String) → List GateCall → RuntimeGateConfig → RuntimeExecutionGate
after_gate_calls sha256 [] config = new_gate config
after_gate_calls sha256 (confirm_call token ∷ cs) config =
    let g = after_gate_calls sha256 cs config in or_same (confirm sha256 token g) g
after_gate_calls sha256 (revoke_call ∷ cs) config = revoke (after_gate_calls sha256 cs config)

-- A token with the configured digest was confirmed, and nothing was revoked since.
pub data Confirmed (sha256 : String → String) (config : RuntimeGateConfig)
    : List GateCall → Type 0 where
  now :
      {token : String} {cs : List GateCall}
      → sha256 token ≡ config.confirmation_token_sha256
      → Confirmed sha256 config (confirm_call token ∷ cs)
  still :
      {token : String} {cs : List GateCall}
      → Confirmed sha256 config cs
      → Confirmed sha256 config (confirm_call token ∷ cs)

config_stays :
    (sha256 : String → String) (cs : List GateCall) (config : RuntimeGateConfig)
    → (after_gate_calls sha256 cs config).config ≡ config
unfolding after_gate_calls confirm token_sha256 revoke
config_stays sha256 [] config = refl
config_stays sha256 (confirm_call token ∷ cs) config = ground (arith, config_stays sha256 cs config)
config_stays sha256 (revoke_call ∷ cs) config = ground (arith, config_stays sha256 cs config)

not_simulation :
    (environment : String) → environment ≡ "live" → str_eq environment "simulation" ≡ false
not_simulation environment live = rw live refl

revoked : (g : RuntimeExecutionGate) → g.config.environment ≡ "live" → (revoke g).confirmed ≡ false
unfolding revoke
revoked g live = rw live refl

digest_matches :
    (sha256 : String → String) (token : String) (g : RuntimeExecutionGate)
    (config : RuntimeGateConfig) (next : RuntimeExecutionGate)
    → g.config ≡ config
    → confirm sha256 token g ≡ ok next
    → sha256 token ≡ config.confirmation_token_sha256
unfolding confirm token_sha256
digest_matches sha256 token g config next same h =
    ground (arith, eq_iff (sha256 token) g.config.confirmation_token_sha256)

confirmed_by :
    (sha256 : String → String) (cs : List GateCall) (config : RuntimeGateConfig)
    → config.environment ≡ "live"
    → (after_gate_calls sha256 cs config).confirmed ≡ true
    → Confirmed sha256 config cs
unfolding after_gate_calls
confirmed_by sha256 [] config live h = cc (not_simulation config.environment live)
confirmed_by sha256 (revoke_call ∷ cs) config live h =
    let g = after_gate_calls sha256 cs config in
    cc (revoked g (rw (config_stays sha256 cs config) live))
confirmed_by sha256 (confirm_call token ∷ cs) config live h =
    elim (Result-cases (confirm sha256 token (after_gate_calls sha256 cs config))) [
      | inr (e, p) ↦ still (confirmed_by sha256 cs config live (rw p at h))
      | inl (next, p) ↦ now (
          digest_matches sha256 token (after_gate_calls sha256 cs config) config next
            (config_stays sha256 cs config) p)
    ]

allowed_parts :
    (g : RuntimeExecutionGate)
    → str_eq g.config.environment "simulation" ≡ false
    → execution_allowed g ≡ true
    → (g.config.live_trading_enabled ≡ true) × (g.confirmed ≡ true)
unfolding execution_allowed
allowed_parts g n h = ground arith

-- In the live environment execution is allowed, after any calls, only if the configuration enables
-- live trading and a token with the configured digest was confirmed and not revoked since.
pub live_needs_confirmation :
    (sha256 : String → String) (cs : List GateCall) (config : RuntimeGateConfig)
    → config.environment ≡ "live"
    → execution_allowed (after_gate_calls sha256 cs config) ≡ true
    → (config.live_trading_enabled ≡ true) × Confirmed sha256 config cs
live_needs_confirmation sha256 cs config live h =
    let g = after_gate_calls sha256 cs config in
    let (enabled, confirmed) =
      allowed_parts g (rw (config_stays sha256 cs config) (not_simulation config.environment live))
        h in
    (rw (config_stays sha256 cs config) at enabled, confirmed_by sha256 cs config live confirmed)
