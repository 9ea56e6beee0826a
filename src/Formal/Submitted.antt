-- ===== src/Formal/Submitted.antt =====
-- The process of src/qmt_execution_core/formal.py whose intent is durable: what the coordinator, the
-- broker or a crash leaves of it.
use qmt_execution_core.Common.{◌≡◌, refl, Bool, true, false, some, arith}
use qmt_execution_core.Errors.{ok}
use qmt_execution_core.Domain.{TradeEvent}
use qmt_execution_core.Table.{transitions}
use qmt_execution_core.Machine.{MachineSnapshot, next_facts, is_submitted}
use qmt_execution_core.Machine.Reach.{Coherent, advance-Coherent}
use qmt_execution_core.Finality.{execution_finality, is_failed}
use qmt_execution_core.Formal.{step_, by_event, session_kwarg, precheck_kwarg}
use qmt_execution_core.Formal.Shared.{process}
use qmt_execution_core.Formal.Facts.{IsFine, charged, by_event-step, stepping}

step-Coherent :
    (s t : MachineSnapshot) (e : TradeEvent)
    → Coherent s.state s.facts
    → step_ s e ≡ ok t
    → Coherent t.state t.facts
step-Coherent s t e c h = advance-Coherent (session_kwarg e) (precheck_kwarg e) e s t c h

pub claim_taken :
    (s : MachineSnapshot)
    → Coherent s.state s.facts
    → is_submitted s.state ≡ true
    → IsFine (process s true)
unfolding execution_finality is_submitted is_failed
claim_taken s c h = record { coherent = c; released = ground arith; claimed = refl }

-- an event after which nothing is held
abbrev pub gives_up : TradeEvent → Bool
gives_up TradeEvent.pre_broker_rejected = true
gives_up TradeEvent.pre_broker_aborted = true
gives_up TradeEvent.submit_rejected = true
gives_up _ = false

pub given_up :
    (s t : MachineSnapshot) (e : TradeEvent)
    → Coherent s.state s.facts
    → is_submitted s.state ≡ true
    → gives_up e ≡ true
    → by_event s e ≡ some t
    → IsFine (process t false)
unfolding execution_finality is_submitted is_failed transitions next_facts
given_up s t e c w g q =
    let h = by_event-step s e t q in
    let (p, n, _) = stepping s t e h in
    record { coherent = step-Coherent s t e c h; released = refl; claimed = ground arith }

-- an answer of the broker, or none, after which the resources are kept
abbrev pub keeps_on : TradeEvent → Bool
keeps_on TradeEvent.submit_accepted = true
keeps_on TradeEvent.submit_ambiguous = true
keeps_on TradeEvent.restart_recovery = true
keeps_on _ = false

pub kept_on :
    (s t : MachineSnapshot) (e : TradeEvent)
    → Coherent s.state s.facts
    → is_submitted s.state ≡ true
    → keeps_on e ≡ true
    → by_event s e ≡ some t
    → IsFine (process t true)
unfolding execution_finality is_submitted is_failed transitions next_facts
kept_on s t e c w g q =
    let h = by_event-step s e t q in
    let (p, n, _) = stepping s t e h in
    record { coherent = step-Coherent s t e c h; released = ground arith; claimed = refl }

-- A crash before the coordination: the claim is held, but no cash can be at the broker.
pub quarantined_unsent :
    (s r t : MachineSnapshot)
    → Coherent s.state s.facts
    → is_submitted s.state ≡ true
    → by_event s TradeEvent.restart_recovery ≡ some r
    → by_event r TradeEvent.recovery_failed ≡ some t
    → IsFine (process t true) × (charged (process t true) ≡ false)
unfolding execution_finality is_submitted is_failed transitions next_facts
quarantined_unsent s r t c w q k =
    let h = by_event-step s TradeEvent.restart_recovery r q in
    let (p, n, _) = stepping s r TradeEvent.restart_recovery h in
    let g = by_event-step r TradeEvent.recovery_failed t k in
    let (u, m, _) = stepping r t TradeEvent.recovery_failed g in
    let d =
      step-Coherent r t TradeEvent.recovery_failed
        (step-Coherent s r TradeEvent.restart_recovery c h) g in
    (record { coherent = d; released = ground arith; claimed = refl }, ground arith)
