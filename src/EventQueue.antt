-- ===== src/EventQueue.antt =====
-- src/qmt_execution_core/event_queue.py: the bounded queue between the callback threads and one
-- consumer. A function here is one section of the code that runs under the lock, or one operation of
-- `queue.Queue`, which locks itself; Threads interleaves them.
pub mod Threads
pub mod Order
pub mod Health
pub mod Examples
use qmt_execution_core.Common.{
  ℕ, Bool, true, false, not, ◌&&◌, List, [], ◌∷◌, ◌++◌, length, ltb, ◌==◌, if◌then◌else◌,
}
use qmt_execution_core.Errors.{Result, ok, err, event_queue_unhealthy, value_error}

pub data EventQueueState : Type 0 where
  new running stopped failed : EventQueueState

-- An item of the queue: an event, or the `_STOP` object.
pub data Item (E : Type 0) : Type 0 where
  event : E → Item E
  stop : Item E

-- Where the consumer thread is in `_run`.
pub data Consumer (E : Type 0) : Type 0 where
  not_started waiting : Consumer E
  holding : Item E → Consumer E
  handled_one exited : Consumer E

abbrev pub is_running : EventQueueState → Bool
is_running running = true
is_running _ = false

abbrev pub is_stopped : EventQueueState → Bool
is_stopped stopped = true
is_stopped _ = false

-- The object. `accepted` and `handled` are what `try_emit` answered True for and what the handler was
-- given, oldest first: the code does not keep them.
pub record SerialEventQueue (E : Type 0) : Type 0 where
  pub maxsize : ℕ
  pub state : EventQueueState
  pub items : List (Item E)
  pub consumer : Consumer E
  pub accepted : List E
  pub handled : List E

module _ {E : Type 0} where
  -- `__init__`
  unfoldable pub new_queue : (maxsize : ℕ) → Result (SerialEventQueue E)
  new_queue maxsize =
      if maxsize == 0
      then err value_error
      else ok (record {
        maxsize = maxsize;
        state = new;
        items = [];
        consumer = not_started;
        accepted = [];
        handled = [];
      })

  abbrev pub start_from : EventQueueState → SerialEventQueue E → Result (SerialEventQueue E)
  start_from running q = ok q
  start_from new q = ok (record q { state = running; consumer = waiting })
  start_from _ q = err event_queue_unhealthy

  unfoldable pub start : SerialEventQueue E → Result (SerialEventQueue E)
  start q = start_from q.state q

  -- the first section of `try_emit`
  abbrev pub may_emit : SerialEventQueue E → Bool
  may_emit q = is_running q.state

  -- `_fail`
  abbrev pub fail : SerialEventQueue E → SerialEventQueue E
  fail q = record q { state = failed }

  abbrev pub has_room : SerialEventQueue E → Bool
  has_room q = ltb (length q.items) q.maxsize

  -- the rest of `try_emit`: `put_nowait`, or the failure where the queue is full
  unfoldable pub put_event : E → SerialEventQueue E → Bool × SerialEventQueue E
  put_event e q =
      if has_room q
      then (true, record q { items = q.items ++ (event e ∷ []); accepted = q.accepted ++ (e ∷ []) })
      else (false, fail q)

  abbrev pub stop_from : EventQueueState → SerialEventQueue E → Bool × SerialEventQueue E
  stop_from new q = (false, record q { state = stopped })
  stop_from running q = (true, record q { state = stopped })
  stop_from _ q = (false, q)

  -- the first section of `stop`, and whether it goes on
  unfoldable pub begin_stop : SerialEventQueue E → Bool × SerialEventQueue E
  begin_stop q = stop_from q.state q

  -- the rest of `stop`: a full queue takes no mark
  unfoldable pub put_stop : SerialEventQueue E → SerialEventQueue E
  put_stop q = if has_room q then record q { items = q.items ++ (stop ∷ []) } else q

  -- `self._queue.get()`
  unfoldable pub take : Item E → List (Item E) → SerialEventQueue E → SerialEventQueue E
  take item rest q = record q { items = rest; consumer = holding item }

  abbrev pub serve_from : Consumer E → (raises : Bool) → SerialEventQueue E → SerialEventQueue E
  serve_from (holding stop) raises q = record q { consumer = exited }
  serve_from (holding (event e)) true q = record q {
    state = failed;
    consumer = exited;
    handled = q.handled ++ (e ∷ []);
  }
  serve_from (holding (event e)) false q = record q {
    consumer = handled_one;
    handled = q.handled ++ (e ∷ []);
  }
  serve_from _ raises q = q

  -- the `try` of `_run`: the handler returns or raises
  unfoldable pub serve : (raises : Bool) → SerialEventQueue E → SerialEventQueue E
  serve raises q = serve_from q.consumer raises q

  abbrev pub no_items : List (Item E) → Bool
  no_items [] = true
  no_items (x ∷ rest) = false

  abbrev pub look_from : Consumer E → SerialEventQueue E → SerialEventQueue E
  look_from handled_one q = record q {
    consumer = if is_stopped q.state && no_items q.items then exited else waiting;
  }
  look_from _ q = q

  -- the last section of `_run`
  unfoldable pub look : SerialEventQueue E → SerialEventQueue E
  look q = look_from q.consumer q
