-- ===== src/Journal.antt =====
-- src/qmt_execution_core/journal.py: the payload of the journal file and the changes made to it.
-- Time stamps and the free-form `details` of an entry are left out.
pub mod Identity
pub mod Examples
use qmt_execution_core.Common.{
  ℕ, ◌+◌, ◌-◌, ◌*◌, Bool, true, false, not, ◌||◌, ◌&&◌, String, str_eq, Option, none, some, List,
  [], ◌∷◌, ◌++◌, ◌==◌, length, drop,
}
use qmt_execution_core.Errors.{Result, ok, ◌>>◌, raise_if, journal_integrity_error, value_error}
use qmt_execution_core.Domain.{Side, BrokerOrderStatus, ExecutionRequest, TradeEvent, TradeState}
use qmt_execution_core.Machine.{MachineSnapshot, initial_snapshot, assert_invariants}

abbrev pub max_history : ℕ
max_history = 1000

abbrev pub max_used : ℕ
max_used = 10000

-- `xs[-n:]`
unfoldable pub take_last : {A : Type 0} → ℕ → List A → List A
take_last n xs = drop (length xs - n) xs

-- `data["intent"]`
pub record Intent : Type 0 where
  pub client_order_id : String
  pub symbol : String
  pub side : Side
  pub qty : ℕ
  pub limit_price : ℕ
  pub strategy_id : String
  pub order_remark : String

pub record Reservation : Type 0 where
  pub qty : ℕ
  pub notional : ℕ

pub record Observation : Type 0 where
  pub status : BrokerOrderStatus
  pub filled_qty : ℕ
  pub average_fill_price : Option ℕ

-- `payload["data"]`; a key that is missing is `none`, and a missing list is empty
pub record Data : Type 0 where
  pub intent : Option Intent
  pub reservation : Option Reservation
  pub broker_order_id : Option ℕ
  pub cancel_intent : Bool
  pub last_observation : Option Observation
  pub used_client_order_ids : List String
  pub used_order_remarks : List String
  pub formal_verification : Option (String × String)

pub record Entry : Type 0 where
  pub sequence : ℕ
  pub event : TradeEvent
  pub state : TradeState

pub record Payload : Type 0 where
  pub schema_version : ℕ
  pub execution_id : String
  pub event_count : ℕ
  pub machine : MachineSnapshot
  pub history : List Entry
  pub fields : Data

-- What stands in the file.
pub data Stored : Type 0 where
  missing unreadable : Stored
  stored : Payload → Stored

abbrev pub no_data : Data
no_data = record {
  intent = none;
  reservation = none;
  broker_order_id = none;
  cancel_intent = false;
  last_observation = none;
  used_client_order_ids = [];
  used_order_remarks = [];
  formal_verification = none;
}

abbrev pub journal_schema_version : ℕ
journal_schema_version = 1

abbrev pub new_payload : String → Payload
new_payload execution_id = record {
  schema_version = journal_schema_version;
  execution_id = execution_id;
  event_count = 0;
  machine = initial_snapshot;
  history = [];
  fields = no_data;
}

-- `_validate_payload`; that the root, `history` and `data` have their types holds by the record
unfoldable pub validate_payload : String → Payload → Result (Unit {0})
validate_payload execution_id p = do
  raise_if (not (p.schema_version == journal_schema_version)) journal_integrity_error
  raise_if (not (str_eq p.execution_id execution_id)) journal_integrity_error

unfoldable pub machine_snapshot : Payload → Result MachineSnapshot
machine_snapshot p = do assert_invariants p.machine; ok p.machine

-- the change that `transition` makes before it writes
unfoldable pub record_transition : TradeEvent → MachineSnapshot → Payload → Payload
record_transition event snapshot p =
    let seq = p.event_count + 1 in
    let entry : Entry = record { sequence = seq; event = event; state = snapshot.state } in
    record p {
      history = take_last max_history (p.history ++ entry ∷ []);
      event_count = seq;
      machine = snapshot;
    }

unfoldable pub contains : List String → String → Bool
contains [] a = false
contains (x ∷ xs) a = str_eq x a || contains xs a

unfoldable pub assert_identity_unused : ExecutionRequest → Data → Result (Unit {0})
assert_identity_unused r d = do
  raise_if (contains d.used_client_order_ids r.client_order_id) journal_integrity_error
  raise_if (contains d.used_order_remarks r.order_remark) journal_integrity_error

abbrev pub intent_of : ExecutionRequest → Intent
intent_of r = record {
  client_order_id = r.client_order_id;
  symbol = r.symbol;
  side = r.side;
  qty = r.qty;
  limit_price = r.limit_price;
  strategy_id = r.strategy_id;
  order_remark = r.order_remark;
}

abbrev has_intent : Data → Bool
has_intent d = elim d.intent [ none ↦ false | some i ↦ true ]

-- `persist_intent`, before it writes; the source tests the two used lists a second time, on copies
-- that hold the same values
unfoldable pub with_intent : ExecutionRequest → Data → Result Data
with_intent r d = do
  assert_identity_unused r d
  raise_if (has_intent d) journal_integrity_error
  assert_identity_unused r d
  ok (record d {
    used_client_order_ids = take_last max_used (d.used_client_order_ids ++ r.client_order_id ∷ []);
    used_order_remarks = take_last max_used (d.used_order_remarks ++ r.order_remark ∷ []);
    intent = some (intent_of r);
    reservation = some (record { qty = r.qty; notional = r.qty * r.limit_price });
  })

conflicts : Option ℕ → ℕ → Bool
conflicts none id = false
conflicts (some old) id = not (old == id)

-- `persist_broker_order_id`, before it writes
unfoldable pub with_broker_order_id : ℕ → Data → Result Data
unfolding conflicts
with_broker_order_id id d = do
  raise_if (id == 0) value_error
  raise_if (conflicts d.broker_order_id id) journal_integrity_error
  ok (record d { broker_order_id = some id })

abbrev pub with_cancel_intent : Data → Data
with_cancel_intent d = record d { cancel_intent = true }

-- `update_observation` with the three fields that the session passes
abbrev pub with_observation : Observation → Data → Data
with_observation o d = record d { last_observation = some o }

-- `clear_cycle_data`, before it writes
abbrev pub cleared : Data → Data
cleared d = record no_data {
  formal_verification = d.formal_verification;
  used_client_order_ids = d.used_client_order_ids;
  used_order_remarks = d.used_order_remarks;
}

unfoldable pub verification_matches : String × String → Data → Bool
verification_matches build d = elim d.formal_verification [
  | none ↦ false
  | some bound ↦ str_eq bound.0 build.0 && str_eq bound.1 build.1
]
