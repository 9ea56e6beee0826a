-- ===== src/Formal/Steps.antt =====
-- Each successor of `_global_successors` of src/qmt_execution_core/formal.py keeps the invariant.
use qmt_execution_core.Common.{
  ◌≡◌, refl, sym, subst, inl, inr, Bool, true, false, not, Option, none, some, List, [], ◌∷◌, ◌++◌,
  arith, Bool-cases, if◌then◌else◌, then_taken, else_taken,
}
use qmt_execution_core.Errors.{ok, ok_inj, bind_ok}
use qmt_execution_core.Domain.{TradeEvent}
use qmt_execution_core.Domain.Events.{event_eq}
use qmt_execution_core.Machine.{MachineSnapshot, is_submitted}
use qmt_execution_core.Finality.{is_failed}
use qmt_execution_core.Formal.{Edge, edges, by_event}
use qmt_execution_core.Formal.Shared.{
  Three, Index, p0, p1, p2, nth, Process, process, FormalScenario, replace_process, claim_free,
  can_prepare,
}
use qmt_execution_core.Formal.Moves.{
  Label, coordination_rejected, coordination_abort, restart_precoord_quarantine, sidecar_abort,
  Successor, along, coordination, quarantine, before_coordination, after_coordination, with_label,
  elsewhere, successors_of, global_successors,
}
use qmt_execution_core.Formal.Facts.{IsFine, Follows, AreSteps, edges-AreSteps, sync-Follows}
use qmt_execution_core.Formal.Submitted.{
  claim_taken, gives_up, given_up, keeps_on, kept_on, quarantined_unsent,
}
use qmt_execution_core.Formal.Global.{
  IsSound, IsFine-at, replaced, followed, lowered, prepared, prepared_free,
}

abbrev pub AllSound : FormalScenario → List Successor → Type 0
AllSound scenario [] = Unit {0}
AllSound scenario ((i, label, state) ∷ rest) = IsSound scenario state × AllSound scenario rest

both :
    (scenario : FormalScenario) (xs ys : List Successor)
    → AllSound scenario xs
    → AllSound scenario ys
    → AllSound scenario (xs ++ ys)
both scenario [] ys a b = b
both scenario (x ∷ xs) ys a b = (a.0, both scenario xs ys a.1 b)

module _ (scenario : FormalScenario) (state : Three Process) (sound : IsSound scenario state)
    (i : Index) where
  along_sound :
      (label : Label) (held : Bool) (o : Option MachineSnapshot)
      → ((t : MachineSnapshot)
          → o ≡ some t
          → IsSound scenario (replace_process state i (process t held)))
      → AllSound scenario (along state i label held o)
  along_sound label held none h = tt
  along_sound label held (some t) h = (h t refl, tt)

  module _ (s : MachineSnapshot) (held : Bool) (here : nth state i ≡ process s held) where
    IsFine-here : IsFine (process s held)
    IsFine-here = subst IsFine here (IsFine-at scenario state sound i)

    Follows-here :
        (p : Process) → Follows (process s held) p → IsSound scenario (replace_process state i p)
    Follows-here p f = followed scenario state sound i p (subst (λ q. Follows q p) (sym here) f)

    module _ (wait : is_submitted s.state ≡ true) where
      -- nothing is held afterwards
      gives_up_sound :
          (label : Label) (e : TradeEvent)
          → gives_up e ≡ true
          → AllSound scenario (along state i label false (by_event s e))
      gives_up_sound label e g = along_sound label false (by_event s e) λ t q.
          Follows-here (process t false) (record {
            fine = given_up s t e IsFine-here.coherent wait g q;
            no_claim = λ x. cc;
            no_cash = λ x. cc;
          })

      keeps_on_sound :
          (label : Label) (e : TradeEvent)
          → held ≡ true
          → keeps_on e ≡ true
          → AllSound scenario (along state i label true (by_event s e))
      unfolding is_failed is_submitted
      keeps_on_sound label e h g = along_sound label true (by_event s e) λ t q.
          Follows-here (process t true) (record {
            fine = kept_on s t e IsFine-here.coherent wait g q;
            no_claim = λ x. h;
            no_cash = λ x. ground (arith, h, wait);
          })

      after_sound : held ≡ true → AllSound scenario (after_coordination state i s)
      unfolding after_coordination
      after_sound h =
          both scenario _ _ (gives_up_sound sidecar_abort TradeEvent.pre_broker_aborted refl) (
            both scenario _ _ (keeps_on_sound _ TradeEvent.submit_accepted h refl) (
              both scenario _ _ (keeps_on_sound _ TradeEvent.submit_ambiguous h refl) (
                both scenario _ _ (gives_up_sound _ TradeEvent.submit_rejected refl)
                  (keeps_on_sound _ TradeEvent.restart_recovery h refl))))

      coordination_sound :
          (able : Bool)
          → can_prepare state scenario i ≡ ok able
          → AllSound scenario (coordination state i s able)
      coordination_sound true h = (
        replaced scenario state sound i (process s true) (claim_taken s IsFine-here.coherent wait)
            (λ _. inr (prepared_free scenario state sound i h))
            (prepared scenario state sound i (process s true) h),
        tt,
      )
      coordination_sound false h =
          gives_up_sound coordination_rejected TradeEvent.pre_broker_rejected refl

      crash_sound :
          (r : MachineSnapshot)
          → by_event s TradeEvent.restart_recovery ≡ some r
          → claim_free state scenario i ≡ true
          → AllSound scenario (
              along state i restart_precoord_quarantine true
                (by_event r TradeEvent.recovery_failed))
      crash_sound r q free =
          along_sound restart_precoord_quarantine true (by_event r TradeEvent.recovery_failed)
            λ t k.
              let (fine, unsent) = quarantined_unsent s r t IsFine-here.coherent wait q k in
              replaced scenario state sound i (process t true) fine (λ _. inr free)
                (lowered scenario state sound i (process t true) (λ x. cc))

      quarantine_sound :
          (o : Option MachineSnapshot)
          → by_event s TradeEvent.restart_recovery ≡ o
          → AllSound scenario (quarantine state scenario i o)
      quarantine_sound none q = tt
      quarantine_sound (some r) q = elim (Bool-cases (claim_free state scenario i)) [
        | inl free ↦ rw free (crash_sound r q free)
        | inr taken ↦ rw taken tt
      ]

      before_sound :
          (all : List Successor)
          → before_coordination state scenario i s ≡ ok all
          → AllSound scenario all
      unfolding before_coordination
      before_sound all h =
          let (able, k, rest) = bind_ok (can_prepare state scenario i) _ h in
          subst (AllSound scenario) (ok_inj rest) (
            both scenario _ _ (coordination_sound able k) (
              both scenario _ _
                (gives_up_sound coordination_abort TradeEvent.pre_broker_aborted refl)
                (quarantine_sound _ refl)))

    with_label_sound :
        (e : TradeEvent) (o : Option (Three Process)) (p : Process) (rest : List Successor)
        → o ≡ some (replace_process state i p)
        → Follows (process s held) p
        → AllSound scenario rest
        → AllSound scenario (with_label i e o rest)
    with_label_sound e o p rest q f r = rw q (Follows-here p f, r)

    elsewhere_sound :
        (all : List Edge)
        → is_submitted s.state ≡ false
        → AreSteps s all
        → AllSound scenario (elsewhere state scenario i held all)
    unfolding elsewhere
    elsewhere_sound [] away h = tt
    elsewhere_sound ((e, t) ∷ rest) away h = elim (Bool-cases (event_eq e TradeEvent.next_cycle)) [
      | inl cycle ↦ rw cycle (elsewhere_sound rest away h.1)
      | inr differ ↦
          let (p, q, f) = sync-Follows state scenario i s t e held IsFine-here away h.0 differ in
          rw differ (with_label_sound e _ p _ q f (elsewhere_sound rest away h.1))
    ]

    of_process :
        (all : List Successor)
        → (if is_submitted s.state
            then (if not held
                then before_coordination state scenario i s
                else ok (after_coordination state i s))
            else ok (elsewhere state scenario i held (edges s)))
          ≡ ok all
        → AllSound scenario all
    of_process all h = elim (Bool-cases (is_submitted s.state)) [
      | inr away ↦
          subst (AllSound scenario) (ok_inj (else_taken (is_submitted s.state) _ away h))
            (elsewhere_sound (edges s) away (edges-AreSteps s))
      | inl wait ↦
          let inner = then_taken (is_submitted s.state) _ wait h in
          elim (Bool-cases (not held)) [
            | inr taken ↦
                subst (AllSound scenario) (ok_inj (else_taken (not held) _ taken inner))
                  (after_sound wait (ground arith))
            | inl free ↦ before_sound wait all (then_taken (not held) _ free inner)
          ]
    ]

  successors_sound :
      (all : List Successor) → successors_of state scenario i ≡ ok all → AllSound scenario all
  unfolding successors_of
  successors_sound all h = of_process (nth state i).snapshot (nth state i).held refl all h

pub global_sound :
    (scenario : FormalScenario) (state : Three Process) (all : List Successor)
    → IsSound scenario state
    → global_successors state scenario ≡ ok all
    → AllSound scenario all
unfolding global_successors
global_sound scenario state all sound h =
    let (a, x, h₁) = bind_ok (successors_of state scenario p0) _ h in
    let (b, y, h₂) = bind_ok (successors_of state scenario p1) _ h₁ in
    let (c, z, h₃) = bind_ok (successors_of state scenario p2) _ h₂ in
    subst (AllSound scenario) (ok_inj h₃) (
      both scenario a _ (successors_sound scenario state sound p0 a x) (
        both scenario b c (successors_sound scenario state sound p1 b y)
          (successors_sound scenario state sound p2 c z)))
