-- ===== src/Domain/Events.antt =====
-- The equality of src/qmt_execution_core/domain.py's `TradeEvent`, by the position of a member.
use qmt_execution_core.Common.{ℕ, ◌≡◌, refl, ap, sym, ◌∙◌, Bool, true, arith, ◌==◌, if◌then◌else◌}
use qmt_execution_core.Domain.{TradeEvent}

abbrev pub position : TradeEvent → ℕ
position TradeEvent.session_ready = 0
position TradeEvent.triggered = 1
position TradeEvent.begin_precheck = 2
position TradeEvent.precheck_verified = 3
position TradeEvent.precheck_rejected = 4
position TradeEvent.intent_persisted = 5
position TradeEvent.pre_broker_rejected = 6
position TradeEvent.pre_broker_aborted = 7
position TradeEvent.submit_accepted = 8
position TradeEvent.submit_rejected = 9
position TradeEvent.submit_ambiguous = 10
position TradeEvent.order_working = 11
position TradeEvent.order_partial = 12
position TradeEvent.order_filled = 13
position TradeEvent.order_rejected = 14
position TradeEvent.cancel_requested = 15
position TradeEvent.cancel_sent = 16
position TradeEvent.cancel_request_rejected = 17
position TradeEvent.cancel_still_pending = 18
position TradeEvent.cancel_confirmed = 19
position TradeEvent.query_ambiguous = 20
position TradeEvent.recovery_accepted = 21
position TradeEvent.recovery_working = 22
position TradeEvent.recovery_partial = 23
position TradeEvent.recovery_cancelling = 24
position TradeEvent.recovery_filled = 25
position TradeEvent.recovery_cancelled = 26
position TradeEvent.recovery_rejected = 27
position TradeEvent.recovery_failed = 28
position TradeEvent.restart_recovery = 29
position TradeEvent.next_cycle = 30
position TradeEvent.fatal = 31

-- the member at a position
member : ℕ → TradeEvent
member n =
    if n == 0
    then TradeEvent.session_ready
    else if n == 1
    then TradeEvent.triggered
    else if n == 2
    then TradeEvent.begin_precheck
    else if n == 3
    then TradeEvent.precheck_verified
    else if n == 4
    then TradeEvent.precheck_rejected
    else if n == 5
    then TradeEvent.intent_persisted
    else if n == 6
    then TradeEvent.pre_broker_rejected
    else if n == 7
    then TradeEvent.pre_broker_aborted
    else if n == 8
    then TradeEvent.submit_accepted
    else if n == 9
    then TradeEvent.submit_rejected
    else if n == 10
    then TradeEvent.submit_ambiguous
    else if n == 11
    then TradeEvent.order_working
    else if n == 12
    then TradeEvent.order_partial
    else if n == 13
    then TradeEvent.order_filled
    else if n == 14
    then TradeEvent.order_rejected
    else if n == 15
    then TradeEvent.cancel_requested
    else if n == 16
    then TradeEvent.cancel_sent
    else if n == 17
    then TradeEvent.cancel_request_rejected
    else if n == 18
    then TradeEvent.cancel_still_pending
    else if n == 19
    then TradeEvent.cancel_confirmed
    else if n == 20
    then TradeEvent.query_ambiguous
    else if n == 21
    then TradeEvent.recovery_accepted
    else if n == 22
    then TradeEvent.recovery_working
    else if n == 23
    then TradeEvent.recovery_partial
    else if n == 24
    then TradeEvent.recovery_cancelling
    else if n == 25
    then TradeEvent.recovery_filled
    else if n == 26
    then TradeEvent.recovery_cancelled
    else if n == 27
    then TradeEvent.recovery_rejected
    else if n == 28
    then TradeEvent.recovery_failed
    else if n == 29
    then TradeEvent.restart_recovery
    else if n == 30
    then TradeEvent.next_cycle
    else TradeEvent.fatal

abbrev pub event_eq : TradeEvent → TradeEvent → Bool
event_eq a b = position a == position b

member-position : (e : TradeEvent) → member (position e) ≡ e
unfolding member
member-position TradeEvent.session_ready = refl
member-position TradeEvent.triggered = refl
member-position TradeEvent.begin_precheck = refl
member-position TradeEvent.precheck_verified = refl
member-position TradeEvent.precheck_rejected = refl
member-position TradeEvent.intent_persisted = refl
member-position TradeEvent.pre_broker_rejected = refl
member-position TradeEvent.pre_broker_aborted = refl
member-position TradeEvent.submit_accepted = refl
member-position TradeEvent.submit_rejected = refl
member-position TradeEvent.submit_ambiguous = refl
member-position TradeEvent.order_working = refl
member-position TradeEvent.order_partial = refl
member-position TradeEvent.order_filled = refl
member-position TradeEvent.order_rejected = refl
member-position TradeEvent.cancel_requested = refl
member-position TradeEvent.cancel_sent = refl
member-position TradeEvent.cancel_request_rejected = refl
member-position TradeEvent.cancel_still_pending = refl
member-position TradeEvent.cancel_confirmed = refl
member-position TradeEvent.query_ambiguous = refl
member-position TradeEvent.recovery_accepted = refl
member-position TradeEvent.recovery_working = refl
member-position TradeEvent.recovery_partial = refl
member-position TradeEvent.recovery_cancelling = refl
member-position TradeEvent.recovery_filled = refl
member-position TradeEvent.recovery_cancelled = refl
member-position TradeEvent.recovery_rejected = refl
member-position TradeEvent.recovery_failed = refl
member-position TradeEvent.restart_recovery = refl
member-position TradeEvent.next_cycle = refl
member-position TradeEvent.fatal = refl

pub event_eq_sound : (a b : TradeEvent) → event_eq a b ≡ true → a ≡ b
event_eq_sound a b h =
    let same : position a ≡ position b = ground arith in
    sym (member-position a) ∙ ap member same ∙ member-position b
