-- ===== src/Verifier/Hashes.antt =====
-- src/qmt_execution_core/verifier.py: what is hashed of the transition table and of the sources.
-- SHA-256, the file system and the resolution of paths are parameters; a path is its text.
use Prim.Native.String.{compare}
use Prim.Native.Nat.{Ordering}
use Prim.Native.String.{◌++◌ as ◌+++◌}
use qmt_execution_core.Common.{
  Bool, true, false, String, Option, none, some, List, [], ◌∷◌, if◌then◌else◌,
}
use qmt_execution_core.Domain.{TradeState, TradeEvent}
use qmt_execution_core.Table.{transitions}
use qmt_execution_core.Formal.{declared_events}
use qmt_execution_core.Verifier.Report.{all_states}

-- `TradeState.value`
abbrev pub state_value : TradeState → String
state_value TradeState.idle = "idle"
state_value TradeState.wait_trigger = "wait_trigger"
state_value TradeState.trigger = "trigger"
state_value TradeState.pre_check = "pre_check"
state_value TradeState.submitted = "submitted"
state_value TradeState.accepted = "accepted"
state_value TradeState.working = "working"
state_value TradeState.unknown = "unknown"
state_value TradeState.partially_filled = "partially_filled"
state_value TradeState.pending_cancel = "pending_cancel"
state_value TradeState.cancelling = "cancelling"
state_value TradeState.filled = "filled"
state_value TradeState.cancelled = "cancelled"
state_value TradeState.rejected = "rejected"
state_value TradeState.cancel_rejected = "cancel_rejected"
state_value TradeState.failed = "failed"

-- `TradeEvent.value`
abbrev pub event_value : TradeEvent → String
event_value TradeEvent.session_ready = "session_ready"
event_value TradeEvent.triggered = "triggered"
event_value TradeEvent.begin_precheck = "begin_precheck"
event_value TradeEvent.precheck_verified = "precheck_verified"
event_value TradeEvent.precheck_rejected = "precheck_rejected"
event_value TradeEvent.intent_persisted = "intent_persisted"
event_value TradeEvent.pre_broker_rejected = "pre_broker_rejected"
event_value TradeEvent.pre_broker_aborted = "pre_broker_aborted"
event_value TradeEvent.submit_accepted = "submit_accepted"
event_value TradeEvent.submit_rejected = "submit_rejected"
event_value TradeEvent.submit_ambiguous = "submit_ambiguous"
event_value TradeEvent.order_working = "order_working"
event_value TradeEvent.order_partial = "order_partial"
event_value TradeEvent.order_filled = "order_filled"
event_value TradeEvent.order_rejected = "order_rejected"
event_value TradeEvent.cancel_requested = "cancel_requested"
event_value TradeEvent.cancel_sent = "cancel_sent"
event_value TradeEvent.cancel_request_rejected = "cancel_request_rejected"
event_value TradeEvent.cancel_still_pending = "cancel_still_pending"
event_value TradeEvent.cancel_confirmed = "cancel_confirmed"
event_value TradeEvent.query_ambiguous = "query_ambiguous"
event_value TradeEvent.recovery_accepted = "recovery_accepted"
event_value TradeEvent.recovery_working = "recovery_working"
event_value TradeEvent.recovery_partial = "recovery_partial"
event_value TradeEvent.recovery_cancelling = "recovery_cancelling"
event_value TradeEvent.recovery_filled = "recovery_filled"
event_value TradeEvent.recovery_cancelled = "recovery_cancelled"
event_value TradeEvent.recovery_rejected = "recovery_rejected"
event_value TradeEvent.recovery_failed = "recovery_failed"
event_value TradeEvent.restart_recovery = "restart_recovery"
event_value TradeEvent.next_cycle = "next_cycle"
event_value TradeEvent.fatal = "fatal"

abbrev pub comes_before : String → String → Bool
comes_before s t = elim (compare s t) [ Ordering.gt ↦ false | _ ↦ true ]

-- `sorted(..., key=...)`
module _ {A : Type 0} (key : A → String) where
  unfoldable pub insert : A → List A → List A
  insert a [] = a ∷ []
  insert a (b ∷ all) =
      let rest = insert a all in if comes_before (key a) (key b) then a ∷ b ∷ all else b ∷ rest

  unfoldable pub sorted : List A → List A
  sorted [] = []
  sorted (a ∷ all) = insert a (sorted all)

abbrev pub target_value : Option TradeState → String
target_value none = ""
target_value (some t) = state_value t

abbrev pub row : TradeState → TradeEvent → String
row s e =
    state_value s
    +++ ("|" +++ (event_value e +++ ("|" +++ (target_value (transitions s e) +++ "\n"))))

unfoldable pub rows_of : TradeState → List TradeEvent → String
rows_of s [] = ""
rows_of s (e ∷ events) = row s e +++ rows_of s events

unfoldable pub rows : List TradeState → String
rows [] = ""
rows (s ∷ states) = rows_of s (sorted event_value (declared_events s)) +++ rows states

-- `"".join(rows)` of `transition_spec_sha256`
unfoldable pub transition_spec : String
transition_spec = rows (sorted state_value all_states)
