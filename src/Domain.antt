-- ===== src/Domain.antt =====
-- src/qmt_execution_core/domain.py: the states, the events and the evidence of one execution.
pub mod Events
pub mod Validation
use qmt_execution_core.Common.{ℕ, Bool, true, false, not, ◌&&◌, String, Option}
use qmt_execution_core.Errors.{Result, raise_if, value_error}

pub data Side : Type 0 where
  buy sell : Side

pub data TradeState : Type 0 where
  idle wait_trigger trigger pre_check submitted accepted working unknown : TradeState
  partially_filled pending_cancel cancelling filled cancelled rejected : TradeState
  cancel_rejected failed : TradeState

pub data TradeEvent : Type 0 where
  session_ready triggered begin_precheck precheck_verified precheck_rejected : TradeEvent
  intent_persisted pre_broker_rejected pre_broker_aborted submit_accepted : TradeEvent
  submit_rejected submit_ambiguous order_working order_partial order_filled : TradeEvent
  order_rejected cancel_requested cancel_sent cancel_request_rejected : TradeEvent
  cancel_still_pending cancel_confirmed query_ambiguous recovery_accepted : TradeEvent
  recovery_working recovery_partial recovery_cancelling recovery_filled : TradeEvent
  recovery_cancelled recovery_rejected recovery_failed restart_recovery : TradeEvent
  next_cycle fatal : TradeEvent

pub data BrokerOrderStatus : Type 0 where
  accepted working partially_filled cancel_pending partial_cancelled : BrokerOrderStatus
  cancelled filled rejected unknown : BrokerOrderStatus

pub data CancelRequestResult : Type 0 where
  accepted rejected : CancelRequestResult

pub record SafetyFacts : Type 0 where
  pub environment_verified : Bool
  pub account_verified : Bool
  pub broker_snapshot_verified : Bool
  pub position_verified : Bool
  pub cash_verified : Bool
  pub quote_verified : Bool
  pub intent_persisted : Bool
  pub reservation_persisted : Bool
  pub unresolved_order : Bool
  pub terminal_order_confirmed : Bool
  pub submitted_once : Bool
  pub cancel_intent_persisted : Bool

abbrev pub no_facts : SafetyFacts
no_facts = record {
  environment_verified = false;
  account_verified = false;
  broker_snapshot_verified = false;
  position_verified = false;
  cash_verified = false;
  quote_verified = false;
  intent_persisted = false;
  reservation_persisted = false;
  unresolved_order = false;
  terminal_order_confirmed = false;
  submitted_once = false;
  cancel_intent_persisted = false;
}

pub record SessionEvidence : Type 0 where
  pub ready : Bool
  pub environment_verified : Bool
  pub account_verified : Bool
  pub reason : String

pub record PrecheckEvidence : Type 0 where
  pub allowed : Bool
  pub environment_verified : Bool
  pub account_verified : Bool
  pub broker_snapshot_verified : Bool
  pub position_verified : Bool
  pub cash_verified : Bool
  pub quote_verified : Bool
  pub reason : String

-- The type tests of `validate` hold by the types of the fields.
abbrev pub validate_session : SessionEvidence → Result (Unit {0})
validate_session e =
    raise_if (e.ready && not (e.environment_verified && e.account_verified)) value_error

abbrev pub complete : PrecheckEvidence → Bool
complete e =
    e.environment_verified
    && (e.account_verified
        && (e.broker_snapshot_verified
            && (e.position_verified && (e.cash_verified && e.quote_verified))))

abbrev pub validate_precheck : PrecheckEvidence → Result (Unit {0})
validate_precheck e = raise_if (e.allowed && not (complete e)) value_error

-- An order to be executed, in the form that `__post_init__` lets through. Prices are whole numbers
-- of a unit of 10⁻⁹.
pub record ExecutionRequest : Type 0 where
  pub client_order_id : String
  pub symbol : String
  pub side : Side
  pub qty : ℕ
  pub limit_price : ℕ
  pub strategy_id : String
  pub order_remark : String

-- An order as the broker reports it.
pub record BrokerOrder : Type 0 where
  pub order_id : ℕ
  pub symbol : String
  pub side : Side
  pub qty : ℕ
  pub filled_qty : ℕ
  pub status : BrokerOrderStatus
  pub order_remark : String
  pub client_order_id : String
  pub strategy_name : String
  pub average_fill_price : Option ℕ

abbrev pub side_eq : Side → Side → Bool
side_eq buy buy = true
side_eq sell sell = true
side_eq _ _ = false
