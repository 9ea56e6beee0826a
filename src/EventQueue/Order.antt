-- ===== src/EventQueue/Order.antt =====
-- What the queue of src/qmt_execution_core/event_queue.py does with the events that it took.
use qmt_execution_core.Common.{
  ℕ, ◌≤◌, ◌≡◌, refl, sym, ap, ◌∙◌, inl, inr, Bool, true, false, ◌&&◌, List, [], ◌∷◌, ◌++◌, length,
  length-append, arith, Bool-cases,
}
use qmt_execution_core.Errors.{ok}
use qmt_execution_core.EventQueue.{
  EventQueueState, new, running, stopped, failed, SerialEventQueue, Item, event, stop, Consumer,
  not_started, waiting, holding, handled_one, exited, new_queue, start, put_event, has_room,
  begin_stop, put_stop, take, serve, look, stop_from, serve_from, look_from, is_stopped, no_items,
}
use qmt_execution_core.EventQueue.Threads.{
  System, Step, starts, checks, puts, asks_stop, puts_stop, takes, serves, looks, Later, now, then_,
  idle,
}

module _ {E : Type 0} where
  abbrev pub events_of : List (Item E) → List E
  events_of [] = []
  events_of (event e ∷ rest) = e ∷ events_of rest
  events_of (stop ∷ rest) = events_of rest

  abbrev pub in_hand : Consumer E → List E
  in_hand (holding (event e)) = e ∷ []
  in_hand _ = []

  -- Every event that was accepted was handled, is in the consumer's hand or waits, in this order;
  -- and the queue is no longer than its bound.
  pub record IsOrderly (q : SerialEventQueue E) : Type 0 where
    pub in_order : q.accepted ≡ q.handled ++ (in_hand q.consumer ++ events_of q.items)
    pub bounded : length q.items ≤ q.maxsize
    pub new_is_idle : q.state ≡ new → q.consumer ≡ not_started

  append_assoc : (xs ys zs : List E) → (xs ++ ys) ++ zs ≡ xs ++ (ys ++ zs)
  append_assoc [] ys zs = refl
  append_assoc (x ∷ xs) ys zs = ap (λ l. x ∷ l) (append_assoc xs ys zs)

  events-append : (xs ys : List (Item E)) → events_of (xs ++ ys) ≡ events_of xs ++ events_of ys
  events-append [] ys = refl
  events-append (event e ∷ xs) ys = ap (λ l. e ∷ l) (events-append xs ys)
  events-append (stop ∷ xs) ys = events-append xs ys

  append_nil : (xs : List E) → xs ++ [] ≡ xs
  append_nil [] = refl
  append_nil (x ∷ xs) = ap (λ l. x ∷ l) (append_nil xs)

  abbrev pending : SerialEventQueue E → List E
  pending q = in_hand q.consumer ++ events_of q.items

  start-IsOrderly : (q r : SerialEventQueue E) → start q ≡ ok r → IsOrderly q → IsOrderly r
  unfolding start
  start-IsOrderly q r h o =
      let a = o.in_order in
      let b = o.bounded in
      let c = o.new_is_idle in
      record { in_order = ground arith; bounded = ground arith; new_is_idle = ground arith }

  put_event-IsOrderly : (e : E) (q : SerialEventQueue E) → IsOrderly q → IsOrderly (put_event e q).1
  unfolding put_event
  put_event-IsOrderly e q o = elim (Bool-cases (has_room q)) [
    | inr full ↦
        rw full
          (record { in_order = o.in_order; bounded = o.bounded; new_is_idle = λ h. absurd (cc h) })
    | inl room ↦ rw room (record {
      in_order =
          ap (λ l. l ++ (e ∷ [])) o.in_order
          ∙ append_assoc q.handled (pending q) (e ∷ [])
          ∙ ap (λ l. q.handled ++ l)
              (append_assoc (in_hand q.consumer) (events_of q.items) (e ∷ [])
                ∙ ap (λ l. in_hand q.consumer ++ l) (sym (events-append q.items (event e ∷ []))));
      bounded = ground (arith, length-append q.items (event e ∷ []));
      new_is_idle = o.new_is_idle;
    })
  ]

  begin_stop-IsOrderly : (q : SerialEventQueue E) → IsOrderly q → IsOrderly (begin_stop q).1
  unfolding begin_stop
  begin_stop-IsOrderly q o = of_state q.state refl
    where
      of_state : (s : EventQueueState) → q.state ≡ s → IsOrderly (stop_from s q).1
      of_state new h = record {
        in_order = o.in_order;
        bounded = o.bounded;
        new_is_idle = λ k. absurd (cc k);
      }
      of_state running h = record {
        in_order = o.in_order;
        bounded = o.bounded;
        new_is_idle = λ k. absurd (cc k);
      }
      of_state stopped h = o
      of_state failed h = o

  put_stop-IsOrderly : (q : SerialEventQueue E) → IsOrderly q → IsOrderly (put_stop q)
  unfolding put_stop
  put_stop-IsOrderly q o = elim (Bool-cases (has_room q)) [
    | inr full ↦ rw full o
    | inl room ↦
        let same : events_of (q.items ++ (stop ∷ [])) ≡ events_of q.items =
          events-append q.items (stop ∷ []) ∙ append_nil (events_of q.items) in
        rw room (record {
          in_order = o.in_order ∙ ap (λ l. q.handled ++ (in_hand q.consumer ++ l)) (sym same);
          bounded = ground (arith, length-append q.items (stop ∷ []));
          new_is_idle = o.new_is_idle;
        })
  ]

  taken :
      (i : Item E) (rest : List (Item E)) (q : SerialEventQueue E)
      → q.consumer ≡ waiting
      → q.items ≡ i ∷ rest
      → pending q ≡ in_hand (holding i) ++ events_of rest
  taken (event e) rest q w h = rw (w, h) refl
  taken stop rest q w h = rw (w, h) refl

  take-IsOrderly :
      (item : Item E) (rest : List (Item E)) (q : SerialEventQueue E)
      → q.consumer ≡ waiting
      → q.items ≡ item ∷ rest
      → IsOrderly q
      → IsOrderly (take item rest q)
  unfolding take
  take-IsOrderly item rest q w h o = record {
    in_order = o.in_order ∙ ap (λ l. q.handled ++ l) (taken item rest q w h);
    bounded = let b = o.bounded in ground (arith, h);
    new_is_idle = λ n. absurd (cc (w, o.new_is_idle n));
  }

  -- the handler was given an event
  handed :
      (e : E) (q : SerialEventQueue E)
      → q.consumer ≡ holding (event e)
      → IsOrderly q
      → q.accepted ≡ (q.handled ++ (e ∷ [])) ++ events_of q.items
  handed e q h o =
      o.in_order
      ∙ ap (λ c. q.handled ++ (in_hand c ++ events_of q.items)) h
      ∙ sym (append_assoc q.handled (e ∷ []) (events_of q.items))

  -- the consumer has nothing in its hand
  empty_handed :
      (c : Consumer E) (q : SerialEventQueue E)
      → in_hand q.consumer ≡ []
      → in_hand c ≡ []
      → IsOrderly q
      → q.accepted ≡ q.handled ++ (in_hand c ++ events_of q.items)
  empty_handed c q h k o = o.in_order ∙ ap (λ l. q.handled ++ (l ++ events_of q.items)) (h ∙ sym k)

  serve_from-IsOrderly :
      (c : Consumer E) (raises : Bool) (q : SerialEventQueue E)
      → q.consumer ≡ c
      → IsOrderly q
      → IsOrderly (serve_from c raises q)
  serve_from-IsOrderly (holding stop) raises q h o = record {
    in_order = empty_handed exited q (ap in_hand h) refl o;
    bounded = o.bounded;
    new_is_idle = λ n. absurd (cc (h, o.new_is_idle n));
  }
  serve_from-IsOrderly (holding (event e)) true q h o = record {
    in_order = handed e q h o;
    bounded = o.bounded;
    new_is_idle = λ n. absurd (cc n);
  }
  serve_from-IsOrderly (holding (event e)) false q h o = record {
    in_order = handed e q h o;
    bounded = o.bounded;
    new_is_idle = λ n. absurd (cc (h, o.new_is_idle n));
  }
  serve_from-IsOrderly not_started raises q h o = o
  serve_from-IsOrderly waiting raises q h o = o
  serve_from-IsOrderly handled_one raises q h o = o
  serve_from-IsOrderly exited raises q h o = o

  look_from-IsOrderly :
      (c : Consumer E) (q : SerialEventQueue E)
      → q.consumer ≡ c
      → IsOrderly q
      → IsOrderly (look_from c q)
  look_from-IsOrderly handled_one q h o =
      elim (Bool-cases (is_stopped q.state && no_items q.items)) [
        | inl over ↦ rw over (record {
          in_order = empty_handed exited q (ap in_hand h) refl o;
          bounded = o.bounded;
          new_is_idle = λ n. absurd (cc (h, o.new_is_idle n));
        })
        | inr more ↦ rw more (record {
          in_order = empty_handed waiting q (ap in_hand h) refl o;
          bounded = o.bounded;
          new_is_idle = λ n. absurd (cc (h, o.new_is_idle n));
        })
      ]
  look_from-IsOrderly not_started q h o = o
  look_from-IsOrderly waiting q h o = o
  look_from-IsOrderly (holding i) q h o = o
  look_from-IsOrderly exited q h o = o

  Step-IsOrderly : {s t : System E} → Step s t → IsOrderly s.queue → IsOrderly t.queue
  unfolding serve look
  Step-IsOrderly {s} (starts h) o = start-IsOrderly s.queue _ h o
  Step-IsOrderly (checks e h) o = o
  Step-IsOrderly {s} (puts before e after h) o = put_event-IsOrderly e s.queue o
  Step-IsOrderly {s} asks_stop o = begin_stop-IsOrderly s.queue o
  Step-IsOrderly {s} (puts_stop n h) o = put_stop-IsOrderly s.queue o
  Step-IsOrderly {s} (takes item rest w h) o = take-IsOrderly item rest s.queue w h o
  Step-IsOrderly {s} (serves raises) o = serve_from-IsOrderly s.queue.consumer raises s.queue refl o
  Step-IsOrderly {s} looks o = look_from-IsOrderly s.queue.consumer s.queue refl o

  Later-IsOrderly : {s t : System E} → IsOrderly s.queue → Later s t → IsOrderly t.queue
  Later-IsOrderly o now = o
  Later-IsOrderly o (then_ run step) = Step-IsOrderly step (Later-IsOrderly o run)

  new-IsOrderly : (maxsize : ℕ) (q : SerialEventQueue E) → new_queue maxsize ≡ ok q → IsOrderly q
  unfolding new_queue
  new-IsOrderly maxsize q h = record {
    in_order = ground arith;
    bounded = ground arith;
    new_is_idle = ground arith;
  }

  -- However many threads emit into and stop a new queue, in whatever order they run: the events that
  -- were accepted are exactly those that the handler was given, followed by the one in the
  -- consumer's hand and those that wait, in the order of their acceptance; and the queue never
  -- holds more than `maxsize` items.
  pub events_stay_in_order :
      (maxsize : ℕ) (q : SerialEventQueue E) (s : System E)
      → new_queue maxsize ≡ ok q
      → Later (idle q) s
      → IsOrderly s.queue
  events_stay_in_order maxsize q s h run = Later-IsOrderly (new-IsOrderly maxsize q h) run
