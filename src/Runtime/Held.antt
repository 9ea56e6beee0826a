-- ===== src/Runtime/Held.antt =====
-- What `connect` of src/qmt_execution_core/miniqmt/runtime.py holds when it returns or raises.
use qmt_execution_core.Common.{ℕ, ◌≡◌, Bool, true, false, Option, none, some, List, ◌∷◌, pos, has}
use qmt_execution_core.Errors.{Error, Result, ok, err}
use qmt_execution_core.Exec.{Exec, ◌>>=◌}
use qmt_execution_core.Exec.Triple.{Outcome, Triple, bind}
use qmt_execution_core.Adapter.{int}
use qmt_execution_core.Runtime.Connect.{HasConnected}
use qmt_execution_core.Runtime.Acquire.{
  Resources, LockMode, exclusive_mode, shared_mode, Calls, world_call,
}

abbrev pub holds_mutex : LockMode → Bool
holds_mutex (exclusive_mode id) = true
holds_mutex (shared_mode fixed ids) = false

-- The lease that is held is the only one that was added.
abbrev pub IsLeased : List ℕ → Option ℕ → List ℕ → Type 0
IsLeased before none leases = leases ≡ before
IsLeased before (some id) leases = (leases ≡ id ∷ before) × (has id before ≡ false)

abbrev lease_of : LockMode → ℕ → Option ℕ
lease_of (exclusive_mode session_id) id = none
lease_of (shared_mode fixed ids) id = some id

-- nothing is held, and the leases of all processes are what they were
abbrev pub Released : {W : Type 0} → List ℕ → Error → Resources W → Type 0
Released before e r =
    (r.runtime_mutex ≡ false)
    × (r.queue_runs ≡ false)
    × (r.trader ≡ none)
    × (r.session ≡ false)
    × (r.leases ≡ before)

module _ {W : Type 0} (calls : Calls W) (before : List ℕ) where
  -- what an exception finds
  abbrev Tracked : Error → Resources W → Type 0
  Tracked e r = IsLeased before r.session_id_lease r.leases

  abbrev Locked : LockMode → Bool → Resources W → Type 0
  Locked mode queue r =
      (r.session_id_lease ≡ none)
      × (r.leases ≡ before)
      × (r.runtime_mutex ≡ holds_mutex mode)
      × (r.queue_runs ≡ queue)

  -- `subscribe` of the id's trader has answered 0
  abbrev pub HasSubscribed : ℕ → Type 0
  HasSubscribed id = (w : W) × (t : W) × (calls.subscribe id w ≡ (ok (int (pos 0)), t))

  -- the trader has connected
  abbrev Trading : LockMode → ℕ → Resources W → Type 0
  Trading mode id r =
      (r.trader ≡ some id)
      × (r.runtime_mutex ≡ holds_mutex mode)
      × (r.queue_runs ≡ true)
      × (r.session_id_lease ≡ lease_of mode id)
      × IsLeased before r.session_id_lease r.leases
      × HasConnected calls.traders id

  abbrev Subscribed : LockMode → ℕ → Resources W → Type 0
  Subscribed mode id r = HasSubscribed id × Trading mode id r

  -- everything is there, and in use by one session
  abbrev pub Connected : LockMode → ℕ → Resources W → Type 0
  Connected mode id r = (r.session ≡ true) × Subscribed mode id r

  -- a predicate that says nothing of the world, and from which an exception is `Tracked`
  record Settled (P : Resources W → Type 0) : Type 0 where
    moves : (r : Resources W) (w : W) → P r → P (record r { world = w })
    tracks : (r : Resources W) → P r → IsLeased before r.session_id_lease r.leases

  answered :
      {A : Type 0} (P : Resources W → Type 0) (x : Result A × W) (r : Resources W)
      → Settled P
      → P r
      → Outcome (λ a. P) Tracked (x.0, record r { world = x.1 })
  answered P (ok a, w) r s h = s.moves r w h
  answered P (err e, w) r s h = s.tracks r h

  world_call_lem :
      {A : Type 0} (P : Resources W → Type 0) (f : W → Result A × W)
      → Settled P
      → Triple P (world_call f) (λ a. P) Tracked
  world_call_lem P f s = record { at = λ r h. answered P (f r.world) r s h }

  after_call :
      {A B : Type 0} (P : Resources W → Type 0) (R : B → Resources W → Type 0)
      (f : W → Result A × W) (rest : A → Exec (Resources W) B)
      → Settled P
      → ((a : A) → Triple P (rest a) R Tracked)
      → Triple P (world_call f >>= rest) R Tracked
  after_call P R f rest s t = bind _ _ (world_call_lem P f s) t

  -- some call of the function has answered that
  abbrev Answers : {A : Type 0} → (W → Result A × W) → A → Type 0
  Answers f a = (w : W) × (t : W) × (f w ≡ (ok a, t))
