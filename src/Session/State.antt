-- ===== src/Session/State.antt =====
-- The object of src/qmt_execution_core/session.py with what it holds (the journal, the mutex), and
-- what it calls: the broker, the guard, the hooks and the operating system.
use qmt_execution_core.Common.{
  ℕ, Bool, true, false, not, ◌||◌, String, Option, none, some, List, [], ◌∷◌,
}
use qmt_execution_core.Errors.{Result, ok, err, journal_error, session_closed}
use qmt_execution_core.Domain.{
  ExecutionRequest, BrokerOrder, CancelRequestResult, SessionEvidence, PrecheckEvidence, TradeEvent,
}
use qmt_execution_core.Machine.{MachineSnapshot, initial_snapshot, advance}
use qmt_execution_core.Exec.{Exec, pure, lift, gets, modify, raise_if, ◌>>=◌, ◌>>◌}
use qmt_execution_core.Journal.{Payload, Stored, Data, record_transition}

-- The world outside the package. Each call returns a value or raises, and changes the world.
-- `write_journal` is the temporary file, its `fsync` and the `os.replace` with its retries;
-- `build` is the pair of hashes that `verify_state_machine` reports.
pub record Env : Type 1 where
  pub World : Type 0
  pub build : String × String
  pub read_journal : World → Stored
  pub write_journal : Payload → World → Result (Unit {0}) × World
  pub acquire_lock : World → Result (Unit {0}) × World
  pub release_lock : World → World
  pub verify_session : World → Result SessionEvidence × World
  pub verify : ExecutionRequest → World → Result PrecheckEvidence × World
  pub execution_healthy : World → Result Bool × World
  pub before_submit_coordination : ExecutionRequest → World → Result (Unit {0}) × World
  pub before_broker_submit : ExecutionRequest → World → Result (Unit {0}) × World
  pub before_broker_cancel : ℕ → World → Result (Unit {0}) × World
  pub place_order : ExecutionRequest → World → Result ℕ × World
  pub cancel_order : ℕ → World → Result CancelRequestResult × World
  pub query_order : ℕ → World → Result BrokerOrder × World
  pub query_orders : World → Result (List BrokerOrder) × World

-- What the session has done to the world, for the theorems: the code does not read it.
pub data Effect : Type 0 where
  wrote : Payload → Bool → Effect
  coordinated : ExecutionRequest → Effect
  sidecar : ExecutionRequest → Effect
  placed : ExecutionRequest → Effect
  cancelled : ℕ → Effect

pub record State (World : Type 0) : Type 0 where
  pub snapshot : MachineSnapshot
  pub execution_id : String
  pub payload : Option Payload
  pub is_open : Bool
  pub is_closed : Bool
  pub owned : Bool
  pub world : World
  pub trace : List Effect

-- `ExecutionSession.__init__`
abbrev pub new_session : {W : Type 0} → String → W → State W
new_session execution_id world = record {
  snapshot = initial_snapshot;
  execution_id = execution_id;
  payload = none;
  is_open = false;
  is_closed = false;
  owned = false;
  world = world;
  trace = [];
}

abbrev require_payload : Option Payload → Result Payload
require_payload none = err journal_error
require_payload (some p) = ok p

module _ {W : Type 0} where
  -- a call of the world
  unfoldable pub external : {A : Type 0} → (W → Result A × W) → Exec (State W) A
  external call s = let (r, w) = call s.world in (r, record s { world = w })

  -- a call that the trace shows, before it is made
  unfoldable pub log : Effect → Exec (State W) Unit
  log e = modify (λ s. record s { trace = e ∷ s.trace })

  -- `self.mutex.release()`
  abbrev pub set_owned : Bool → Exec (State W) Unit
  set_owned b = modify (λ s. record s { owned = b })

  -- `self.journal._require_open()`
  unfoldable pub get_payload : Exec (State W) Payload
  get_payload s = (require_payload s.payload, s)

  unfoldable pub get_data : Exec (State W) Data
  get_data = do p ← get_payload; pure p.fields

  -- `_require_open`
  unfoldable pub require_open : Exec (State W) Unit
  require_open s = raise_if (not s.is_open || (s.is_closed || not s.owned)) session_closed s

abbrev pub succeeded : {A : Type 0} → Result A → Bool
succeeded (ok a) = true
succeeded (err e) = false

module _ (env : Env) where
  open env use {World, write_journal}

  -- `_write`; the trace shows the payload and whether the file took it
  unfoldable pub write : Payload → Exec (State World) Unit
  write p s =
      let (r, w) = write_journal p s.world in
      (r, record s { payload = some p; world = w; trace = wrote p (succeeded r) ∷ s.trace })

  -- `_write_data`
  unfoldable pub write_data : Data → Exec (State World) Unit
  write_data d = do p ← get_payload; write (record p { fields = d })

  abbrev set_snapshot : MachineSnapshot → Exec (State World) Unit
  set_snapshot m = modify (λ s. record s { snapshot = m })

  -- `_transition`, with the evidence that two events take
  unfoldable pub transition_with :
      Option SessionEvidence → Option PrecheckEvidence → TradeEvent → Exec (State World) Unit
  transition_with se pe e = do
    before ← gets (λ s. s.snapshot)
    next ← lift (advance se pe before e)
    set_snapshot next
    p ← get_payload
    write (record_transition e next p)

  unfoldable pub transition : TradeEvent → Exec (State World) Unit
  transition e = transition_with none none e
