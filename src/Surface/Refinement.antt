-- ===== src/Surface/Refinement.antt =====
-- src/qmt_execution_core/formal.py, `verify_runtime_transition_refinement`. A set is a list whose
-- repetitions do not count.
use qmt_execution_core.Common.{
  ℕ, suc, ◌+◌, ◌==◌, Bool, true, false, not, ◌&&◌, ◌||◌, String, str_eq, Option, none, some, List,
  [], ◌∷◌, ◌++◌, length, if◌then◌else◌,
}
use qmt_execution_core.Errors.{
  Result, ok, err, ◌>>=◌, ◌>>◌, raise_if, runtime_error, recovery_ambiguous,
}
use qmt_execution_core.Domain.{TradeState, TradeEvent, BrokerOrderStatus}
use qmt_execution_core.Table.{transitions}
use qmt_execution_core.Recovery.{event_for_observation}
use qmt_execution_core.Formal.{declared_events}
use qmt_execution_core.Verifier.Report.{all_states}
use qmt_execution_core.Surface.{Ast}
use qmt_execution_core.Surface.Extract.{
  RuntimeTransitionCall, RuntimeStateWrite, SourceSurface, extract_source_surface, named,
}

-- `TradeEvent.name`
abbrev pub event_name : TradeEvent → String
event_name TradeEvent.session_ready = "SESSION_READY"
event_name TradeEvent.triggered = "TRIGGERED"
event_name TradeEvent.begin_precheck = "BEGIN_PRECHECK"
event_name TradeEvent.precheck_verified = "PRECHECK_VERIFIED"
event_name TradeEvent.precheck_rejected = "PRECHECK_REJECTED"
event_name TradeEvent.intent_persisted = "INTENT_PERSISTED"
event_name TradeEvent.pre_broker_rejected = "PRE_BROKER_REJECTED"
event_name TradeEvent.pre_broker_aborted = "PRE_BROKER_ABORTED"
event_name TradeEvent.submit_accepted = "SUBMIT_ACCEPTED"
event_name TradeEvent.submit_rejected = "SUBMIT_REJECTED"
event_name TradeEvent.submit_ambiguous = "SUBMIT_AMBIGUOUS"
event_name TradeEvent.order_working = "ORDER_WORKING"
event_name TradeEvent.order_partial = "ORDER_PARTIAL"
event_name TradeEvent.order_filled = "ORDER_FILLED"
event_name TradeEvent.order_rejected = "ORDER_REJECTED"
event_name TradeEvent.cancel_requested = "CANCEL_REQUESTED"
event_name TradeEvent.cancel_sent = "CANCEL_SENT"
event_name TradeEvent.cancel_request_rejected = "CANCEL_REQUEST_REJECTED"
event_name TradeEvent.cancel_still_pending = "CANCEL_STILL_PENDING"
event_name TradeEvent.cancel_confirmed = "CANCEL_CONFIRMED"
event_name TradeEvent.query_ambiguous = "QUERY_AMBIGUOUS"
event_name TradeEvent.recovery_accepted = "RECOVERY_ACCEPTED"
event_name TradeEvent.recovery_working = "RECOVERY_WORKING"
event_name TradeEvent.recovery_partial = "RECOVERY_PARTIAL"
event_name TradeEvent.recovery_cancelling = "RECOVERY_CANCELLING"
event_name TradeEvent.recovery_filled = "RECOVERY_FILLED"
event_name TradeEvent.recovery_cancelled = "RECOVERY_CANCELLED"
event_name TradeEvent.recovery_rejected = "RECOVERY_REJECTED"
event_name TradeEvent.recovery_failed = "RECOVERY_FAILED"
event_name TradeEvent.restart_recovery = "RESTART_RECOVERY"
event_name TradeEvent.next_cycle = "NEXT_CYCLE"
event_name TradeEvent.fatal = "FATAL"

abbrev pub names_of : List TradeEvent → List String
names_of [] = []
names_of (e ∷ events) = event_name e ∷ names_of events

-- `declared_events`
unfoldable pub declared_names : List TradeState → List String
declared_names [] = []
declared_names (s ∷ states) = names_of (declared_events s) ++ declared_names states

abbrev pub has_text : String → List String → Bool
has_text t [] = false
has_text t (s ∷ all) = str_eq s t || has_text t all

-- the size of a set of texts
unfoldable pub size : List String → ℕ
size [] = 0
size (s ∷ all) = let n = size all in if has_text s all then n else suc n

-- `not (left - right)`
abbrev pub all_among : (left right : List String) → Bool
all_among [] right = true
all_among (s ∷ left) right = has_text s right && all_among left right

unfoldable pub literal_events : List RuntimeTransitionCall → List String
literal_events [] = []
literal_events (c ∷ calls) = named c.event ++ literal_events calls

abbrev pub is_dynamic : RuntimeTransitionCall → Bool
is_dynamic c = elim c.event [ none ↦ true | some e ↦ false ]

unfoldable pub dynamic_calls : List RuntimeTransitionCall → List RuntimeTransitionCall
dynamic_calls [] = []
dynamic_calls (c ∷ calls) =
    let rest = dynamic_calls calls in if is_dynamic c then c ∷ rest else rest

abbrev pub is_apply_observation : RuntimeTransitionCall → Bool
is_apply_observation c = str_eq c.source "session.py" && str_eq c.function "_apply_observation"

abbrev pub all_apply_observation : List RuntimeTransitionCall → Bool
all_apply_observation [] = true
all_apply_observation (c ∷ calls) = is_apply_observation c && all_apply_observation calls

-- the set of the call sites is the one that is expected
abbrev pub is_expected_dynamic : List RuntimeTransitionCall → Bool
is_expected_dynamic [] = false
is_expected_dynamic (c ∷ calls) = all_apply_observation (c ∷ calls)

abbrev pub is_write : (source function producer : String) → RuntimeStateWrite → Bool
is_write source function producer w =
    str_eq w.source source && (str_eq w.function function && str_eq w.producer producer)

abbrev pub is_expected_write : RuntimeStateWrite → Bool
is_expected_write w =
    is_write "session.py" "__init__" "MachineSnapshot" w
    || (is_write "session.py" "open" "self.journal.open" w
        || is_write "session.py" "_transition" "advance" w)

abbrev pub all_expected : List RuntimeStateWrite → Bool
all_expected [] = true
all_expected (w ∷ writes) = is_expected_write w && all_expected writes

abbrev pub any_write : (RuntimeStateWrite → Bool) → List RuntimeStateWrite → Bool
any_write test [] = false
any_write test (w ∷ writes) = test w || any_write test writes

-- `actual_writes == expected_writes`
unfoldable pub writes_as_expected : List RuntimeStateWrite → Bool
writes_as_expected writes =
    all_expected writes
    && (any_write (is_write "session.py" "__init__" "MachineSnapshot") writes
        && (any_write (is_write "session.py" "open" "self.journal.open") writes
            && any_write (is_write "session.py" "_transition" "advance") writes))

-- `_OBSERVATION_ENTRY_STATES`, sorted by value
abbrev pub observation_entry_states : List TradeState
observation_entry_states =
    TradeState.accepted ∷ TradeState.cancel_rejected ∷ TradeState.cancelling
    ∷ TradeState.partially_filled ∷ TradeState.pending_cancel ∷ TradeState.unknown
    ∷ TradeState.working ∷ []

abbrev pub all_statuses : List BrokerOrderStatus
all_statuses =
    BrokerOrderStatus.accepted ∷ BrokerOrderStatus.working ∷ BrokerOrderStatus.partially_filled
    ∷ BrokerOrderStatus.cancel_pending ∷ BrokerOrderStatus.partial_cancelled
    ∷ BrokerOrderStatus.cancelled ∷ BrokerOrderStatus.filled ∷ BrokerOrderStatus.rejected
    ∷ BrokerOrderStatus.unknown ∷ []

pub record ObservationCounts : Type 0 where
  pub legal : ℕ
  pub ambiguous : ℕ
  pub no_op : ℕ
  pub illegal : ℕ

abbrev pub is_undeclared : TradeState → TradeEvent → ℕ
is_undeclared s e = elim (transitions s e) [ none ↦ 1 | some t ↦ 0 ]

-- the body of the two loops, after the call
unfoldable pub count_observation :
    TradeState → Result (Option TradeEvent) → ObservationCounts → Result ObservationCounts
count_observation s (err recovery_ambiguous) n = ok (record n { ambiguous = suc n.ambiguous })
count_observation s (err e) n = err e
count_observation s (ok none) n = ok (record n { no_op = suc n.no_op })
count_observation s (ok (some e)) n =
    ok (record n { legal = suc n.legal; illegal = n.illegal + is_undeclared s e })

unfoldable pub count_statuses :
    TradeState → List BrokerOrderStatus → ObservationCounts → Result ObservationCounts
count_statuses s [] n = ok n
count_statuses s (status ∷ rest) n =
    count_observation s (event_for_observation s status) n >>= count_statuses s rest

unfoldable pub count_states : List TradeState → ObservationCounts → Result ObservationCounts
count_states [] n = ok n
count_states (s ∷ states) n = count_statuses s all_statuses n >>= count_states states

abbrev pub is_transition_write : RuntimeStateWrite → Bool
is_transition_write w = str_eq w.source "session.py" && str_eq w.function "_transition"

unfoldable pub transition_writes : List RuntimeStateWrite → List RuntimeStateWrite
transition_writes [] = []
transition_writes (w ∷ writes) =
    let rest = transition_writes writes in if is_transition_write w then w ∷ rest else rest

abbrev pub is_one_advance : List RuntimeStateWrite → Bool
is_one_advance (w ∷ []) = str_eq w.producer "advance"
is_one_advance _ = false

pub record RefinementReport : Type 0 where
  pub direct_transition_call_sites : ℕ
  pub literal_runtime_events : ℕ
  pub recovery_runtime_events : ℕ
  pub dynamic_transition_call_sites : ℕ
  pub runtime_state_write_sites : ℕ
  pub observation_entry_states_ : ℕ
  pub broker_order_statuses : ℕ
  pub observations : ObservationCounts

abbrev pub no_counts : ObservationCounts
no_counts = record { legal = 0; ambiguous = 0; no_op = 0; illegal = 0 }

unfoldable pub verify_surface : SourceSurface → Result RefinementReport
verify_surface surface = do
  let declared = declared_names all_states
  let runtime = literal_events surface.calls ++ surface.event_refs
  raise_if (not (all_among runtime declared)) runtime_error
  raise_if (not (all_among declared runtime)) runtime_error
  raise_if (not (is_expected_dynamic (dynamic_calls surface.calls))) runtime_error
  raise_if (not (writes_as_expected surface.writes)) runtime_error
  counts ← count_states observation_entry_states no_counts
  raise_if (not (counts.illegal == 0)) runtime_error
  raise_if (not (is_one_advance (transition_writes surface.writes))) runtime_error
  ok (record {
    direct_transition_call_sites = length surface.calls;
    literal_runtime_events = size (literal_events surface.calls);
    recovery_runtime_events = size surface.event_refs;
    dynamic_transition_call_sites = length (dynamic_calls surface.calls);
    runtime_state_write_sites = length surface.writes;
    observation_entry_states_ = length observation_entry_states;
    broker_order_statuses = length all_statuses;
    observations = counts;
  })

unfoldable pub verify_runtime_transition_refinement :
    (parse : String → Result Ast) → Result RefinementReport
verify_runtime_transition_refinement parse = extract_source_surface parse >>= verify_surface
