-- ===== src/Runtime/Blocked.antt =====
-- src/qmt_execution_core/miniqmt/runtime.py: whether the runtime may send a new order, during and
-- after a recovery.
use qmt_execution_core.Common.{
  ◌≡◌, refl, Bool, true, false, ◌&&◌, String, str_eq, eq_iff, Option, none, some, arith, inl, inr,
  Bool-cases,
}
use qmt_execution_core.Errors.{Error, Result, ok, err, Result-cases, recovery_ambiguous}
use qmt_execution_core.Exec.{Exec, gets, pure, ◌>>=◌}
use qmt_execution_core.Exec.Keeps.{Keeps, keeps_rules}
use qmt_execution_core.Exec.Returns.{returned, lift_returned, raise_if_returned}
use qmt_execution_core.Exec.Triple.{Triple, Outcome, bind}
use qmt_execution_core.Adapter.{
  RawInt, int, other, mark_transport_connected, mark_recovery_required, mark_recovery_complete,
}
use qmt_execution_core.Gate.{RuntimeExecutionGate, execution_allowed, revoke, confirm, token_sha256}
use qmt_execution_core.Session.Report.{ExecutionSnapshot}
use qmt_execution_core.Runtime.{
  Parts, Runtime, on_broker, on_world, revoke_gate, set_signals, require_not_closed,
  require_exact_zero, confirm_gate,
}
use qmt_execution_core.Runtime.Recovery.{
  is_unsettled, reconnect, reverify, confirm_given, confirm_if_live, restore_all, take_back,
  recover_after_disconnect,
}

live_not_simulation : (name : String) → str_eq name "live" ≡ true → str_eq name "simulation" ≡ false
live_not_simulation name h = rw ((eq_iff name "live").0 h) refl

revoke_shuts :
    (g : RuntimeExecutionGate)
    → str_eq (revoke g).config.environment "live" ≡ true
    → (revoke g).confirmed ≡ false
unfolding revoke
revoke_shuts g live = ground arith

module _ {W : Type 0} where
  abbrev pub is_live : Runtime W → Bool
  is_live r = str_eq r.gate.config.environment "live"

  -- the broker's flags and the gate, without the probes of the world
  abbrev pub may_send : Runtime W → Bool
  may_send r = r.broker.transport_connected && r.broker.recovery_ready && execution_allowed r.gate

  -- A gate for real money stays shut.
  pub Revoked : Runtime W → Type 0
  Revoked r = is_live r ≡ true → r.gate.confirmed ≡ false

  pub Blocked : Runtime W → Type 0
  Blocked r = (r.broker.recovery_ready ≡ false) × Revoked r

  Keeps-on_world : {A : Type 0} (m : Exec W A) → Keeps Blocked (on_world m)
  unfolding on_world Blocked Revoked
  Keeps-on_world m = record { at = λ r h. h }

  Keeps-set_signals : (t a : Bool) → Keeps Blocked (set_signals t a)
  unfolding set_signals Blocked Revoked
  Keeps-set_signals t a = record { at = λ r h. h }

  Keeps-connected : Keeps Blocked (on_broker mark_transport_connected)
  unfolding on_broker mark_transport_connected Blocked Revoked
  Keeps-connected = record { at = λ r h. (refl, h.1) }

  Keeps-exact_zero : (code : RawInt) → Keeps Blocked (require_exact_zero code)
  unfolding require_exact_zero
  Keeps-exact_zero other = search (keeps_rules)
  Keeps-exact_zero (int n) = search (keeps_rules)

  -- Orders can go out, in the live environment because of a token given now.
  pub Restored : (String → String) → Option String → Runtime W → Type 0
  Restored sha256 token r =
      (r.broker.transport_connected ≡ true)
      × (r.broker.recovery_ready ≡ true)
      × (is_live r ≡ true
          → (given : String) × (token ≡ some given)
            × (sha256 given ≡ r.gate.config.confirmation_token_sha256)
            × (execution_allowed r.gate ≡ true))

  abbrev pub CannotSend : Error → Runtime W → Type 0
  CannotSend e r = may_send r ≡ false

  Blocked-CannotSend : (e : Error) (r : Runtime W) → Blocked r → CannotSend e r
  unfolding Blocked
  Blocked-CannotSend e r h = ground (arith, h.0)

  after_Keeps :
      {A : Type 0} (x : Result A × Runtime W)
      → Blocked x.1
      → Outcome (λ a r. Blocked r) CannotSend x
  after_Keeps (ok a, r) h = h
  after_Keeps (err e, r) h = Blocked-CannotSend e r h

  Keeps-Triple :
      {A : Type 0} (m : Exec (Runtime W) A)
      → Keeps Blocked m
      → Triple Blocked m (λ a r. Blocked r) CannotSend
  Keeps-Triple m k = record { at = λ r h. after_Keeps (m r) (k.at r h) }

  abbrev Ready : Runtime W → Type 0
  Ready r = (r.broker.transport_connected ≡ true) × (r.broker.recovery_ready ≡ true) × Revoked r

  completed : Triple Blocked (on_broker mark_recovery_complete) (λ a r. Ready r) CannotSend
  unfolding on_broker mark_recovery_complete Blocked Revoked ◌>>=◌
  completed = record {
    at = λ r h. elim (Bool-cases r.broker.transport_connected) [
      | inl p ↦ rw p (refl, refl, h.1)
      | inr p ↦ rw p refl
    ];
  }

  same_out :
      {o out : ExecutionSnapshot} {x y : Runtime W}
      → Path (Result ExecutionSnapshot × Runtime W) (ok o, x) (ok out, y)
      → is_unsettled o.state ≡ false
      → is_unsettled out.state ≡ false
  same_out h settled = cc

  -- A gate for real money that is revoked allows nothing.
  shut : (e : Error) (r : Runtime W) → is_live r ≡ true → r.gate.confirmed ≡ false → CannotSend e r
  unfolding execution_allowed
  shut e r live h = ground (arith, live_not_simulation r.gate.config.environment live)

  after_with_fact :
      {A : Type 0} (Fact : A → Type 0) (x : Result A × Runtime W)
      → Blocked x.1
      → ((a : A) (s : Runtime W) → x ≡ (ok a, s) → Fact a)
      → Outcome (λ a r. Fact a × Blocked r) CannotSend x
  after_with_fact Fact (ok a, r) h f = (f a r refl, h)
  after_with_fact Fact (err e, r) h f = Blocked-CannotSend e r h

  -- What a returning method shows of its answer is carried beside the state's property.
  with_fact :
      {A : Type 0} (Fact : A → Type 0) (m : Exec (Runtime W) A)
      → Keeps Blocked m
      → ((r : Runtime W) (a : A) (s : Runtime W) → m r ≡ (ok a, s) → Fact a)
      → Triple Blocked m (λ a r. Fact a × Blocked r) CannotSend
  with_fact Fact m k f = record { at = λ r h. after_with_fact Fact (m r) (k.at r h) (f r) }

  given_fact :
      {A : Type 0} (Fact : Type 0) {P : Runtime W → Type 0} (m : Exec (Runtime W) A)
      {Q : A → Runtime W → Type 0}
      → (Fact → Triple P m Q CannotSend)
      → Triple (λ r. Fact × P r) m Q CannotSend
  given_fact Fact m t = record { at = λ r h. (t h.0).at r h.1 }

  module _ (parts : Parts W) where
    Keeps-reconnect : Keeps Blocked (reconnect parts)
    unfolding reconnect
    Keeps-reconnect =
        search (keeps_rules, Keeps-on_world, Keeps-set_signals, Keeps-connected, Keeps-exact_zero)
          depth 20

    Keeps-reverify : Keeps Blocked (reverify parts)
    unfolding reverify
    Keeps-reverify = search (keeps_rules, Keeps-on_world) depth 20

    reverify_settled :
        (r : Runtime W) (out : ExecutionSnapshot) (s : Runtime W)
        → reverify parts r ≡ (ok out, s)
        → is_unsettled out.state ≡ false
    unfolding reverify
    reverify_settled r out s h =
        let (o, e0, h0) = returned _ _ r h in
        let (t1, h1) = raise_if_returned _ _ _ _ h0 in
        let (v, e2, h2) = returned _ _ _ h1 in
        let (u, e3, h3) = lift_returned _ _ _ h2 in
        let (t4, h4) = raise_if_returned _ _ _ _ h3 in same_out h4 t1

    confirmed_by_token :
        (token : String) (gate next : RuntimeExecutionGate)
        → str_eq gate.config.environment "live" ≡ true
        → confirm parts.sha256 token gate ≡ ok next
        → (parts.sha256 token ≡ next.config.confirmation_token_sha256)
          × (execution_allowed next ≡ true)
    unfolding confirm token_sha256 execution_allowed
    confirmed_by_token token gate next live h = ground (
      arith,
      live_not_simulation gate.config.environment live,
      eq_iff (parts.sha256 token) gate.config.confirmation_token_sha256,
    )

    Opened : Option String → Unit {0} → Runtime W → Type 0
    Opened token a r = Restored parts.sha256 token r

    given_token :
        (token : String)
        → Triple
            (λ r. (is_live r ≡ true) × Ready r)
            (confirm_gate parts token)
            (Opened (some token))
            CannotSend
    unfolding confirm_gate Opened Restored Revoked
    given_token token = record {
      at = λ r h. elim (Result-cases (confirm parts.sha256 token r.gate)) [
        | inl (next, p) ↦ rw p (
            let k = confirmed_by_token token r.gate next h.0 p in
            (h.1.0, h.1.1, λ live. (token, refl, k.0, k.1)))
        | inr (e, p) ↦ rw p (shut e r h.0 (h.1.2 h.0))
      ];
    }

    confirmation :
        (live : Bool) (token : Option String)
        → Triple
            (λ r. (is_live r ≡ live) × Ready r)
            (confirm_if_live parts live token)
            (Opened token)
            CannotSend
    unfolding confirm_if_live confirm_given Opened Restored Revoked
    confirmation false token = record {
      at = λ r h. (h.1.0, h.1.1, λ live. absurd (cc (h.0, live)));
    }
    confirmation true none = record { at = λ r h. shut recovery_ambiguous r h.0 (h.1.2 h.0) }
    confirmation true (some token) = given_token token

    -- The execution is settled, and orders can go out.
    pub Recovered : Option String → ExecutionSnapshot → Runtime W → Type 0
    Recovered token out r = (is_unsettled out.state ≡ false) × Restored parts.sha256 token r

    live_read : Triple Ready (gets is_live) (λ live r. (is_live r ≡ live) × Ready r) CannotSend
    unfolding Revoked
    live_read = record { at = λ r h. (refl, h) }

    finished :
        (token : Option String) (out : ExecutionSnapshot)
        → is_unsettled out.state ≡ false
        → Triple (Opened token tt) (pure out) (Recovered token) CannotSend
    unfolding Recovered Opened
    finished token out settled = record { at = λ r h. (settled, h) }

    restore_all_lem :
        (token : Option String)
        → Triple Blocked (restore_all parts token) (Recovered token) CannotSend
    unfolding restore_all
    restore_all_lem token = bind _ _ (Keeps-Triple _ Keeps-reconnect) λ u.
        bind _ _
          (with_fact (λ out. is_unsettled out.state ≡ false) _ Keeps-reverify reverify_settled)
          λ out. given_fact _ _ λ settled. bind _ _ completed λ v.
            bind _ _ live_read
              λ live. bind _ _ (confirmation live token) λ w. finished token out settled

    open_still :
        Triple (λ r. r.closed ≡ false) require_not_closed (λ a r. r.closed ≡ false) CannotSend
    unfolding require_not_closed
    open_still = record { at = λ r h. rw h refl }

    taken_back : Triple (λ r. r.closed ≡ false) (take_back parts) (λ a r. Blocked r) CannotSend
    unfolding take_back revoke_gate on_broker mark_recovery_required set_signals Blocked Revoked
        ◌>>=◌
    taken_back = record { at = λ r h. (refl, λ live. revoke_shuts r.gate live) }

    -- After a recovery of a runtime that is not closed, during which no callback comes, either it returned a settled execution, the
    -- broker is connected and ready, and in the live environment a token with the configured digest
    -- was given and the gate is open; or it raised, and the flags and the gate let no order out.
    pub recovery_restores_or_blocks :
        (token : Option String) (r : Runtime W)
        → r.closed ≡ false
        → Outcome (Recovered token) CannotSend (recover_after_disconnect parts token r)
    unfolding recover_after_disconnect
    recovery_restores_or_blocks token r opened =
        (bind _ _ open_still λ u. bind _ _ taken_back λ v. restore_all_lem token).at r opened
