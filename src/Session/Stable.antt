-- ===== src/Session/Stable.antt =====
-- Invariants of the session of src/qmt_execution_core/session.py. An invariant that the four
-- elementary actions keep is kept by every method but the one that places an order.
use qmt_execution_core.Common.{
  ℕ, zero, suc, ◌≡◌, refl, Bool, true, false, not, ◌||◌, Option, none, some,
}
use qmt_execution_core.Errors.{Result, ok, err, session_closed}
use qmt_execution_core.Domain.{BrokerOrder, SessionEvidence, PrecheckEvidence, TradeEvent}
use qmt_execution_core.Exec.{Exec}
use qmt_execution_core.Exec.Keeps.{
  Keeps, keeps_rules, Keeps-raise_if, Keeps-if, Keeps-bind, Keeps-attempt,
}
use qmt_execution_core.Journal.{Payload, Data, Intent}
use qmt_execution_core.Session.State.{
  Env, Effect, placed, cancelled, State, external, log, get_payload, get_data, require_open, write,
  write_data, transition_with, transition,
}
use qmt_execution_core.Session.Report.{ExecutionSnapshot, Reason}
use qmt_execution_core.Session.Submit.{reconcile, cancel_known, cancel, after_place}
use qmt_execution_core.Session.Observe.{
  get_state, report, persist_broker_order_id, to_unknown, follow, apply_observation, search_order,
  locate, recovered, recover_unknown, polled, poll_order, poll,
}

abbrev pub is_placed : Effect → Bool
is_placed (placed r) = true
is_placed _ = false

pub record Stable (env : Env) (P : State env.World → Type 0) : Type 1 where
  pub external_Keeps :
      {A : Type 0} (call : env.World → Result A × env.World) → Keeps P (external call)
  pub write_Keeps : (p : Payload) → Keeps P (write env p)
  pub transition_Keeps :
      (se : Option SessionEvidence) (pe : Option PrecheckEvidence) (e : TradeEvent)
      → Keeps P (transition_with env se pe e)
  pub log_Keeps : (e : Effect) → is_placed e ≡ false → Keeps P (log e)

module _ {env : Env} {P : State env.World → Type 0} (st : Stable env P) where
  open st use {external_Keeps, write_Keeps, transition_Keeps, log_Keeps}

  pub get_payload-Keeps : Keeps P (get_payload {W = env.World})
  unfolding get_payload
  get_payload-Keeps = record { at = λ s h. h }

  pub get_data-Keeps : Keeps P (get_data {W = env.World})
  unfolding get_data
  get_data-Keeps = search (keeps_rules, get_payload-Keeps)

  pub require_open-Keeps : Keeps P (require_open {W = env.World})
  unfolding require_open
  require_open-Keeps = record {
    at = λ s h.
        (Keeps-raise_if {P = P} (not s.is_open || (s.is_closed || not s.owned)) session_closed).at s
          h;
  }

  pub write_data-Keeps : (d : Data) → Keeps P (write_data env d)
  unfolding write_data
  write_data-Keeps d = search (keeps_rules, get_payload-Keeps, write_Keeps)

  pub transition-Keeps : (e : TradeEvent) → Keeps P (transition env e)
  unfolding transition
  transition-Keeps e = transition_Keeps none none e

  pub get_state-Keeps : Keeps P (get_state env)
  unfolding get_state
  get_state-Keeps = search keeps_rules

  pub report-Keeps : (r : Reason) → Keeps P (report env r)
  unfolding report
  report-Keeps r = record { at = λ s h. h }

  pub persist_broker_order_id-Keeps : (id : ℕ) → Keeps P (persist_broker_order_id env id)
  unfolding persist_broker_order_id
  persist_broker_order_id-Keeps id = search (keeps_rules, get_data-Keeps, write_data-Keeps)

  to_unknown-Keeps : Keeps P (to_unknown env)
  unfolding to_unknown
  to_unknown-Keeps = search (keeps_rules, get_state-Keeps, transition-Keeps)

  follow-Keeps : (r : Result (Option TradeEvent)) → Keeps P (follow env r)
  unfolding follow
  follow-Keeps (err e) = search (keeps_rules, to_unknown-Keeps, report-Keeps)
  follow-Keeps (ok none) = search (keeps_rules, report-Keeps)
  follow-Keeps (ok (some e)) = search (keeps_rules, transition-Keeps, report-Keeps)

  apply_observation-Keeps : (o : BrokerOrder) → Keeps P (apply_observation env o)
  unfolding apply_observation
  apply_observation-Keeps o =
      search
        (
          keeps_rules, get_data-Keeps, write_data-Keeps, get_state-Keeps, transition-Keeps,
          report-Keeps, follow-Keeps,
        )
        depth 9

  search_order-Keeps : (i : Option Intent) → Keeps P (search_order env i)
  unfolding search_order
  search_order-Keeps none = search keeps_rules
  search_order-Keeps (some i) = search (keeps_rules, external_Keeps, persist_broker_order_id-Keeps)

  locate-Keeps : (id : Option ℕ) (i : Option Intent) → Keeps P (locate env id i)
  unfolding locate
  locate-Keeps none i = search_order-Keeps i
  locate-Keeps (some zero) i = search_order-Keeps i
  locate-Keeps (some (suc n)) i = external_Keeps _

  recovered-Keeps : (r : Result BrokerOrder) → Keeps P (recovered env r)
  unfolding recovered
  recovered-Keeps (ok o) = apply_observation-Keeps o
  recovered-Keeps (err e) = search (keeps_rules, transition-Keeps, report-Keeps)

  pub recover_unknown-Keeps : Keeps P (recover_unknown env)
  unfolding recover_unknown
  recover_unknown-Keeps = search (keeps_rules, get_data-Keeps, locate-Keeps, recovered-Keeps)

  polled-Keeps : (r : Result BrokerOrder) → Keeps P (polled env r)
  unfolding polled
  polled-Keeps (ok o) = apply_observation-Keeps o
  polled-Keeps (err e) = search (keeps_rules, to_unknown-Keeps, report-Keeps)

  poll_order-Keeps : (id : Option ℕ) → Keeps P (poll_order env id)
  unfolding poll_order
  poll_order-Keeps none = search (keeps_rules, get_state-Keeps, recover_unknown-Keeps)
  poll_order-Keeps (some zero) = search keeps_rules
  poll_order-Keeps (some (suc n)) = search (keeps_rules, external_Keeps, polled-Keeps)

  -- Polling keeps every stable invariant.
  pub poll-Keeps : Keeps P (poll env)
  unfolding poll
  poll-Keeps = search (keeps_rules, require_open-Keeps, get_data-Keeps, poll_order-Keeps)

  module _ (self_poll : Exec (State env.World) ExecutionSnapshot) (polls : Keeps P self_poll) where
    pub reconcile-Keeps : Keeps P (reconcile env self_poll)
    unfolding reconcile
    reconcile-Keeps = Keeps-bind _ _ require_open-Keeps λ _.
        Keeps-bind _ _ get_state-Keeps
          λ state. Keeps-if _ _ _ recover_unknown-Keeps (Keeps-if _ _ _ polls (report-Keeps _))

    cancel_known-Keeps : (d : Data) (id : Option ℕ) → Keeps P (cancel_known env self_poll d id)
    unfolding cancel_known
    cancel_known-Keeps d none = search keeps_rules
    cancel_known-Keeps d (some zero) = search keeps_rules
    cancel_known-Keeps d (some (suc n)) = Keeps-bind _ _ (write_data-Keeps _) λ _.
        Keeps-bind _ _ (transition-Keeps _) λ _. Keeps-bind _ _ (external_Keeps _) λ _.
          Keeps-bind _ _ (log_Keeps (cancelled (suc n)) refl) λ _.
            Keeps-bind _ _ (Keeps-attempt _ _ (external_Keeps _))
              λ a. Keeps-bind _ _ (transition-Keeps _) λ _. polls

    pub cancel-Keeps : Keeps P (cancel env self_poll)
    unfolding cancel
    cancel-Keeps =
        search
          (keeps_rules, require_open-Keeps, get_state-Keeps, get_data-Keeps, cancel_known-Keeps)
          depth 8

    pub after_place-Keeps : (r : Result ℕ) → Keeps P (after_place env self_poll r)
    unfolding after_place
    after_place-Keeps (ok id) =
        Keeps-bind _ _ (persist_broker_order_id-Keeps id)
          λ _. Keeps-bind _ _ (transition-Keeps _) λ _. polls
    after_place-Keeps (err e) = search (keeps_rules, transition-Keeps, report-Keeps)
