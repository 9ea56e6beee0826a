-- ===== src/Gate/Examples.antt =====
-- The gate with a concrete token, src/qmt_execution_core/miniqmt/runtime_gate.py.
use qmt_execution_core.Common.{if◌then◌else◌, ◌≡◌, refl, true, String, str_eq, List, [], ◌∷◌}
use qmt_execution_core.Gate.{
  RuntimeGateConfig, GateCall, confirm_call, revoke_call, after_gate_calls, confirm, token_sha256,
  revoke, execution_allowed, Confirmed, live_needs_confirmation,
}

-- a stand-in for the hash
abbrev digest : String → String
digest token = if str_eq token "secret" then "d1" else "d0"

abbrev live_config : RuntimeGateConfig
live_config = record {
  environment = "live";
  live_trading_enabled = true;
  confirmation_token_sha256 = "d1";
}

-- the newest call first
abbrev calls : List GateCall
calls = confirm_call "wrong" ∷ confirm_call "secret" ∷ revoke_call ∷ confirm_call "secret" ∷ []

allowed_again : execution_allowed (after_gate_calls digest calls live_config) ≡ true
unfolding execution_allowed after_gate_calls confirm token_sha256 revoke
allowed_again = refl

live_needs_confirmation_example :
    (live_config.live_trading_enabled ≡ true) × Confirmed digest live_config calls
live_needs_confirmation_example =
    live_needs_confirmation digest calls live_config refl allowed_again
