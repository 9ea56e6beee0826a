-- ===== src/EventQueue/Health.antt =====
-- The queue of src/qmt_execution_core/event_queue.py does not recover.
use mathlib.Core.List.{Perm, perm_middle, append-nil, append_assoc}
use mathlib.Core.List.Perm
use qmt_execution_core.Common.{
  ◌≡◌, refl, sym, ap, subst, ◌∙◌, inl, inr, Bool, true, false, Bool-cases, List, [], ◌∷◌, ◌++◌,
  arith,
}
use qmt_execution_core.EventQueue.{
  EventQueueState, stopped, failed, SerialEventQueue, Consumer, holding, event, stop, not_started,
  waiting, handled_one, exited, start, has_room, put_event, begin_stop, put_stop, take, serve,
  serve_from, look, look_from,
}
use qmt_execution_core.EventQueue.Threads.{
  System, Step, starts, checks, puts, asks_stop, puts_stop, takes, serves, looks, Later, now, then_,
}

abbrev pub is_over : EventQueueState → Bool
is_over stopped = true
is_over failed = true
is_over _ = false

module _ {E : Type 0} where
  -- The queue is over. The events accepted since, those dropped since and those that threads still
  -- hold are together the ones that threads held between the two sections of `try_emit`.
  pub record Settled (s t : System E) : Type 0 where
    pub over : is_over t.queue.state ≡ true
    pub late : List E
    pub dropped : List E
    pub grown : t.queue.accepted ≡ s.queue.accepted ++ late
    pub held : Perm (late ++ (dropped ++ t.emitting)) s.emitting

  -- a step that neither accepts an event nor takes one from a thread
  keeps :
      {s m t : System E}
      → Settled s m
      → is_over t.queue.state ≡ true
      → t.queue.accepted ≡ m.queue.accepted
      → t.emitting ≡ m.emitting
      → Settled s t
  keeps {s} {m} {t} h o accepted emitting = record {
    over = o;
    late = h.late;
    dropped = h.dropped;
    grown = accepted ∙ h.grown;
    held = subst (λ l. Perm (h.late ++ (h.dropped ++ l)) s.emitting) (sym emitting) h.held;
  }

  -- the event of one thread stands before those of the others
  out_first :
      (late dropped before : List E) (e : E) (after : List E)
      → Perm
          (late ++ (e ∷ (dropped ++ (before ++ after))))
          (late ++ (dropped ++ (before ++ (e ∷ after))))
  out_first late dropped before e after = Perm.append_left late (
      rw (sym (append_assoc dropped before after), sym (append_assoc dropped before (e ∷ after)))
        (Perm.symm (perm_middle (dropped ++ before) after)))

  put-Settled :
      (before : List E) (e : E) (after : List E) (s m : System E)
      → m.emitting ≡ before ++ (e ∷ after)
      → Settled s m
      → Settled s (record m { queue = (put_event e m.queue).1; emitting = before ++ after })
  unfolding put_event
  put-Settled before e after s m h i =
      let all = subst (λ l. Perm (i.late ++ (i.dropped ++ l)) s.emitting) h i.held in
      let first = Perm.trans (out_first i.late i.dropped before e after) all in
      elim (Bool-cases (has_room m.queue)) [
        | inl room ↦ record {
          over = rw room i.over;
          late = i.late ++ (e ∷ []);
          dropped = i.dropped;
          grown = rw room (ap (λ l. l ++ (e ∷ [])) i.grown ∙ append_assoc _ i.late (e ∷ []));
          held = rw (append_assoc i.late (e ∷ []) (i.dropped ++ (before ++ after))) first;
        }
        | inr full ↦ record {
          over = rw full refl;
          late = i.late;
          dropped = e ∷ i.dropped;
          grown = rw full i.grown;
          held = first;
        }
      ]

  serve_settles :
      (c : Consumer E) (raises : Bool) (q : SerialEventQueue E)
      → is_over q.state ≡ true
      → (is_over (serve_from c raises q).state ≡ true)
        × ((serve_from c raises q).accepted ≡ q.accepted)
  serve_settles (holding stop) raises q o = (o, refl)
  serve_settles (holding (event e)) true q o = (refl, refl)
  serve_settles (holding (event e)) false q o = (o, refl)
  serve_settles not_started raises q o = (o, refl)
  serve_settles waiting raises q o = (o, refl)
  serve_settles handled_one raises q o = (o, refl)
  serve_settles exited raises q o = (o, refl)

  look_settles :
      (c : Consumer E) (q : SerialEventQueue E)
      → ((look_from c q).state ≡ q.state) × ((look_from c q).accepted ≡ q.accepted)
  look_settles handled_one q = (refl, refl)
  look_settles not_started q = (refl, refl)
  look_settles waiting q = (refl, refl)
  look_settles (holding i) q = (refl, refl)
  look_settles exited q = (refl, refl)

  Step-Settled : {s m t : System E} → Settled s m → Step m t → Settled s t
  unfolding start begin_stop put_stop take serve look
  Step-Settled {m = m} i (starts h) = absurd (ground (arith, i.over))
  Step-Settled {m = m} i (checks e h) = absurd (ground (arith, i.over))
  Step-Settled {s} {m} i (puts before e after h) = put-Settled before e after s m h i
  Step-Settled i asks_stop = keeps i (ground (arith, i.over)) (ground arith) refl
  Step-Settled i (puts_stop n h) = keeps i (ground (arith, i.over)) (ground arith) refl
  Step-Settled i (takes item rest w h) = keeps i i.over refl refl
  Step-Settled {m = m} i (serves raises) =
      let (a, b) = serve_settles m.queue.consumer raises m.queue i.over in keeps i a b refl
  Step-Settled {m = m} i looks =
      let (a, b) = look_settles m.queue.consumer m.queue in keeps i (ap is_over a ∙ i.over) b refl

  -- Once the queue is STOPPED or FAILED it never accepts new work: whatever threads do later, it is
  -- never RUNNING again, and the events that are accepted from then on, those that are dropped
  -- and those that threads still hold are together, each as often, the events of the threads that
  -- were between the first test of `try_emit` and the put.
  pub never_healthy_again :
      (s t : System E) → is_over s.queue.state ≡ true → Later s t → Settled s t
  never_healthy_again s t o now = record {
    over = o;
    late = [];
    dropped = [];
    grown = sym (append-nil s.queue.accepted);
    held = Perm.rfl;
  }
  never_healthy_again s t o (then_ {t = m} run step) =
      Step-Settled (never_healthy_again s m o run) step
