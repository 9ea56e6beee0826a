-- ===== src/Runtime/Examples.antt =====
-- A live runtime that lost its connection, src/qmt_execution_core/miniqmt/runtime.py.
use qmt_execution_core.Common.{
  List, [], ◌∷◌, ◌==◌, if◌then◌else◌, ℕ, ◌≡◌, refl, true, false, none, some, pos, suc,
}
use qmt_execution_core.Errors.{
  session_id_unavailable, account_binding_error, ok, err, recovery_ambiguous, event_queue_unhealthy,
}
use qmt_execution_core.Domain.{TradeState}
use qmt_execution_core.Gate.{revoke, confirm, token_sha256}
use qmt_execution_core.Exec.{Exec, modify, pure, ◌>>=◌, ◌>>◌}
use qmt_execution_core.Exec.Triple.{Outcome}
use qmt_execution_core.Adapter.{
  RawInt, int, mark_recovery_required, mark_transport_connected, mark_recovery_complete,
}
use qmt_execution_core.Session.Report.{ExecutionSnapshot, no_reason}
use qmt_execution_core.Callbacks.{on_account_status}
use qmt_execution_core.Runtime.{
  Parts, Runtime, require_not_closed, revoke_gate, on_broker, set_signals, require_exact_zero,
  confirm_gate, handle_callback, note, on_world,
}
use qmt_execution_core.Runtime.Recovery.{
  recover_after_disconnect, take_back, restore_all, reconnect, reverify, confirm_if_live,
  confirm_given,
}
use qmt_execution_core.SessionId.{works, acquire_exact, lock, release}
use qmt_execution_core.Runtime.Connect.{TraderCalls, try_candidates, try_candidate, start_up}
use qmt_execution_core.Runtime.Acquire.{
  Calls, LockMode, shared_mode, nothing_held, connect_all, acquire_all, take_mutex, run_queue,
  start_trader, bind_and_build, give_all_back,
}
use qmt_execution_core.Runtime.Blocked.{Recovered, CannotSend, recovery_restores_or_blocks}

abbrev resting : ExecutionSnapshot
resting = record {
  state = TradeState.wait_trigger;
  client_order_id = none;
  broker_order_id = none;
  ordered_qty = 0;
  filled_qty = 0;
  average_fill_price = none;
  reason = no_reason;
}

-- the world counts the calls of the trader
abbrev called : Exec ℕ RawInt
called = do modify suc; pure (int (pos 0))

abbrev parts : Parts ℕ
parts = record {
  open_session = pure resting;
  submit_order = λ request. pure resting;
  poll_order = pure resting;
  cancel_order = pure resting;
  start_cycle = pure resting;
  reconcile = pure resting;
  close_session = pure tt;
  verify_session =
      pure (record {
        ready = true;
        environment_verified = true;
        account_verified = true;
        reason = "";
      });
  verify_bound_account_healthy = pure tt;
  connect = called;
  subscribe = called;
  unsubscribe = pure tt;
  queue_healthy = λ calls. true;
  stop_queue_and_trader = λ calls. calls;
  observation_handler = λ event. pure tt;
  sha256 = λ text. text;
}

abbrev lost : Runtime ℕ
lost = record {
  strategy_name = "core";
  bound_account_id = "a1";
  security_account_type = pos 2;
  account_status_ok = pos 0;
  broker = record {
    config = record { buy_order_type = pos 23; sell_order_type = pos 24; price_type = pos 11 };
    strategy_name = "core";
    query_attempts = 3;
    transport_connected = false;
    recovery_ready = false;
    world = 0;
  };
  transport_connected = false;
  account_healthy = false;
  gate = record {
    config = record {
      environment = "live";
      live_trading_enabled = true;
      confirmation_token_sha256 = "key";
    };
    confirmed = true;
  };
  closed = false;
}

recovery_restores_or_blocks_example :
    Outcome
      (Recovered parts (some "key"))
      CannotSend
      (recover_after_disconnect parts (some "key") lost)
recovery_restores_or_blocks_example = recovery_restores_or_blocks parts (some "key") lost refl

-- the same in terms of what the code returns
token_needed : (recover_after_disconnect parts none lost).0 ≡ err recovery_ambiguous
unfolding recover_after_disconnect require_not_closed take_back revoke_gate revoke on_broker
    mark_recovery_required mark_transport_connected mark_recovery_complete set_signals restore_all
    reconnect on_world require_exact_zero reverify confirm_if_live confirm_given confirm_gate
    confirm token_sha256 ◌>>=◌
token_needed = refl

token_suffices : (recover_after_disconnect parts (some "key") lost).0 ≡ ok resting
unfolding recover_after_disconnect require_not_closed take_back revoke_gate revoke on_broker
    mark_recovery_required mark_transport_connected mark_recovery_complete set_signals restore_all
    reconnect on_world require_exact_zero reverify confirm_if_live confirm_given confirm_gate
    confirm token_sha256 ◌>>=◌
token_suffices = refl

-- an account status that does not convert raises
malformed_raises :
    (handle_callback parts
      (on_account_status (record { account_id = some "a1"; account_type = none; status = none }))
      lost).0
    ≡ err event_queue_unhealthy
unfolding on_account_status handle_callback note ◌>>=◌
malformed_raises = refl

-- candidate 5 is held and 6 does not connect; the world lists the traders that were stopped
abbrev traders : TraderCalls (List ℕ)
traders = record {
  lock_files = λ id. works;
  trader_factory = λ id stopped. (ok tt, stopped);
  register_callback = λ id stopped. (ok tt, stopped);
  start = λ id stopped. (ok tt, stopped);
  connect = λ id stopped. (ok (int (if id == 6 then pos 1 else pos 0)), stopped);
  stop = λ id stopped. id ∷ stopped;
}

third_connects :
    try_candidates traders false (5 ∷ 6 ∷ 7 ∷ []) (record { world = []; leases = 5 ∷ [] })
    ≡ (ok 7, record { world = 6 ∷ []; leases = 7 ∷ 5 ∷ [] })
unfolding try_candidates try_candidate acquire_exact lock start_up release
third_connects = refl

given_id_is_final :
    (try_candidates traders true (5 ∷ []) (record { world = []; leases = 5 ∷ [] })).0
    ≡ err session_id_unavailable
unfolding try_candidates try_candidate acquire_exact lock start_up release
given_id_is_final = refl

-- the account of session 7 is not the bound one
abbrev desk : Calls (List ℕ)
desk = record {
  traders = traders;
  acquire_mutex = λ stopped. (ok tt, stopped);
  start_queue = λ stopped. (ok tt, stopped);
  select_account = λ id stopped. (if id == 7 then err account_binding_error else ok tt, stopped);
  subscribe = λ id stopped. (ok (int (pos 0)), stopped);
  build_session = λ stopped. (ok tt, stopped);
  open_after = λ stopped. (ok tt, stopped);
  close_session = λ stopped. stopped;
}

abbrev some_ids : LockMode
some_ids = shared_mode false (5 ∷ 6 ∷ 7 ∷ [])

other_account_gives_up :
    connect_all desk some_ids true (nothing_held [] (5 ∷ []))
    ≡ (err account_binding_error, nothing_held (7 ∷ 6 ∷ []) (5 ∷ []))
unfolding connect_all acquire_all take_mutex run_queue start_trader bind_and_build give_all_back
    try_candidates try_candidate acquire_exact lock start_up release ◌>>=◌
other_account_gives_up = refl
