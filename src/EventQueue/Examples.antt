-- ===== src/EventQueue/Examples.antt =====
-- A queue for one event, src/qmt_execution_core/event_queue.py: an emitter that passed its test
-- before the stop puts its event after the consumer has gone.
use qmt_execution_core.Common.{ℕ, ◌≡◌, refl, true, [], ◌∷◌}
use qmt_execution_core.Errors.{ok}
use qmt_execution_core.EventQueue.{
  SerialEventQueue, new, stopped, event, stop, not_started, exited, new_queue, start, put_event,
  begin_stop, put_stop, take, serve,
}
use qmt_execution_core.EventQueue.Threads.{
  System, starts, checks, puts, asks_stop, puts_stop, takes, serves, Later, now, then_, idle,
}
use qmt_execution_core.EventQueue.Order.{IsOrderly, events_stay_in_order}
use qmt_execution_core.EventQueue.Health.{Settled, never_healthy_again}

abbrev small : SerialEventQueue ℕ
small = record {
  maxsize = 1;
  state = new;
  items = [];
  consumer = not_started;
  accepted = [];
  handled = [];
}

-- the consumer has taken the mark, and the thread with event 7 is still to put it
abbrev gone : System ℕ
gone = record {
  queue = record small { state = stopped; consumer = exited };
  emitting = 7 ∷ [];
  stopping = 0;
}

abbrev lost : System ℕ
lost = record {
  queue = record small {
    state = stopped;
    consumer = exited;
    items = event 7 ∷ [];
    accepted = 7 ∷ [];
  };
  emitting = [];
  stopping = 0;
}

small_made : new_queue 1 ≡ ok small
unfolding new_queue
small_made = refl

gone_then_lost : Later gone lost
unfolding put_event
gone_then_lost = then_ now (puts [] 7 [] refl)

small_then_gone : Later (idle small) gone
unfolding start begin_stop put_stop take serve
small_then_gone =
    then_
      (then_
        (then_ (then_ (then_ (then_ now (starts refl)) (checks 7 refl)) asks_stop)
          (puts_stop 0 refl))
        (takes stop [] refl refl))
      (serves true)

events_stay_in_order_example : IsOrderly gone.queue
events_stay_in_order_example = events_stay_in_order 1 small gone small_made small_then_gone

never_healthy_again_example : Settled gone lost
never_healthy_again_example = never_healthy_again gone lost refl gone_then_lost
