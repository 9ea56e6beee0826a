-- ===== src/EventQueue/Threads.antt =====
-- Threads over one queue of src/qmt_execution_core/event_queue.py, interleaved in any order.
use qmt_execution_core.Common.{ℕ, suc, ◌≡◌, Bool, true, List, [], ◌∷◌, ◌++◌, if◌then◌else◌}
use qmt_execution_core.Errors.{ok}
use qmt_execution_core.EventQueue.{
  SerialEventQueue, Item, waiting, start, may_emit, put_event, begin_stop, put_stop, take, serve,
  look,
}

-- The queue, the events of the threads that are between the two sections of `try_emit`, and how many
-- threads are between those of `stop`.
pub record System (E : Type 0) : Type 0 where
  pub queue : SerialEventQueue E
  pub emitting : List E
  pub stopping : ℕ

pub data Step {E : Type 0} (s : System E) : System E → Type 0 where
  starts : {q : SerialEventQueue E} → start s.queue ≡ ok q → Step s (record s { queue = q })
  checks : (e : E) → may_emit s.queue ≡ true → Step s (record s { emitting = e ∷ s.emitting })
  puts :
      (before : List E) (e : E) (after : List E)
      → s.emitting ≡ before ++ (e ∷ after)
      → Step s (record s { queue = (put_event e s.queue).1; emitting = before ++ after })
  asks_stop : Step s (record s {
    queue = (begin_stop s.queue).1;
    stopping = if (begin_stop s.queue).0 then suc s.stopping else s.stopping;
  })
  puts_stop :
      (n : ℕ) → s.stopping ≡ suc n → Step s (record s { queue = put_stop s.queue; stopping = n })
  takes :
      (item : Item E) (rest : List (Item E))
      → s.queue.consumer ≡ waiting
      → s.queue.items ≡ item ∷ rest
      → Step s (record s { queue = take item rest s.queue })
  serves : (raises : Bool) → Step s (record s { queue = serve raises s.queue })
  looks : Step s (record s { queue = look s.queue })

pub data Later {E : Type 0} (s : System E) : System E → Type 0 where
  now : Later s s
  then_ : {t u : System E} → Later s t → Step t u → Later s u

abbrev pub idle : {E : Type 0} → SerialEventQueue E → System E
idle q = record { queue = q; emitting = []; stopping = 0 }
