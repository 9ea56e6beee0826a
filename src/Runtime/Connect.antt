-- ===== src/Runtime/Connect.antt =====
-- src/qmt_execution_core/miniqmt/runtime.py, `connect` in shared mode: the loop over the candidate
-- session ids. What the trader of a candidate does is a parameter; the leases are those of all
-- processes, of which none comes or goes meanwhile.
use qmt_execution_core.Common.{
  ℕ, ◌≡◌, refl, ap, subst, Bool, true, false, List, [], ◌∷◌, has, pos, int_eq, int_eq_sound, arith,
  Bool-cases, inl, inr, if◌then◌else◌,
}
use qmt_execution_core.Errors.{Result, ok, err, runtime_configuration_error, session_id_unavailable}
use qmt_execution_core.Adapter.{RawInt, int, other}
use qmt_execution_core.SessionId.{LockFile, acquire_exact, release}
use qmt_execution_core.SessionId.Leases.{exact_taken}

-- The world of the traders, and the leases.
pub record Pool (W : Type 0) : Type 0 where
  pub world : W
  pub leases : List ℕ

-- Calls of the SDK: `trader_factory`, `register_callback` (`none` would be a trader that has none,
-- which raises here too), `start`, `connect` and `stop` of a candidate's trader; and what the file of
-- the candidate's lock does.
pub record TraderCalls (W : Type 0) : Type 0 where
  pub lock_files : ℕ → LockFile
  pub trader_factory : ℕ → W → Result (Unit {0}) × W
  pub register_callback : ℕ → W → Result (Unit {0}) × W
  pub start : ℕ → W → Result (Unit {0}) × W
  pub connect : ℕ → W → Result RawInt × W
  pub stop : ℕ → W → W

-- `_require_exact_zero`
abbrev pub exact_zero : RawInt → Result (Unit {0})
exact_zero other = err runtime_configuration_error
exact_zero (int n) = if int_eq n (pos 0) then ok tt else err runtime_configuration_error

module _ {W : Type 0} where
  abbrev pub then_call : {A B : Type 0} → Result A × W → (A → W → Result B × W) → Result B × W
  then_call (err e, w) rest = (err e, w)
  then_call (ok a, w) rest = rest a w

  module _ (calls : TraderCalls W) where
    open calls use {lock_files, trader_factory, register_callback, start, connect, stop}

    -- the calls of a trader that was made
    unfoldable pub start_up : ℕ → W → Result (Unit {0}) × W
    start_up id w = then_call (register_callback id w) λ u v.
        then_call (start id v)
          λ u' v'. then_call (connect id v') λ code after. (exact_zero code, after)

    -- the handler: the trader is stopped, the lease is given back
    abbrev pub after_start_up : ℕ → Result (Unit {0}) × W → List ℕ → Result ℕ × Pool W
    after_start_up id (ok u, w) leases = (ok id, record { world = w; leases = leases })
    after_start_up id (err e, w) leases =
        (err e, record { world = stop id w; leases = release id leases })

    abbrev pub after_factory : ℕ → Result (Unit {0}) × W → List ℕ → Result ℕ × Pool W
    after_factory id (ok u, w) leases = after_start_up id (start_up id w) leases
    after_factory id (err e, w) leases = (err e, record { world = w; leases = release id leases })

    abbrev pub after_lease : ℕ → Result ℕ × List ℕ → W → Result ℕ × Pool W
    after_lease id (err e, leases) w = (err e, record { world = w; leases = leases })
    after_lease id (ok leased, leases) w = after_factory id (trader_factory id w) leases

    unfoldable pub try_candidate : ℕ → Pool W → Result ℕ × Pool W
    try_candidate id p = after_lease id (acquire_exact lock_files id p.leases) p.world

    -- `raise` for an id that the configuration gives, `continue` for others
    abbrev pub or_next :
        (fixed : Bool) → Result ℕ × Pool W → (Pool W → Result ℕ × Pool W) → Result ℕ × Pool W
    or_next fixed (ok id, p) again = (ok id, p)
    or_next false (err e, p) again = again p
    or_next true (err e, p) again = (err e, p)

    unfoldable pub try_candidates : (fixed : Bool) → List ℕ → Pool W → Result ℕ × Pool W
    try_candidates fixed [] p = (err session_id_unavailable, p)
    try_candidates fixed (id ∷ ids) p =
        or_next fixed (try_candidate id p) (try_candidates fixed ids)

-- The trader of the id has got the callback, has started, and has answered 0 to `connect`.
abbrev pub HasConnected : {W : Type 0} → TraderCalls W → ℕ → Type 0
HasConnected {W} calls id =
    (w : W) × (w₁ : W) × (w₂ : W) × (w₃ : W) × (calls.register_callback id w ≡ (ok tt, w₁))
    × (calls.start id w₁ ≡ (ok tt, w₂))
    × (calls.connect id w₂ ≡ (ok (int (pos 0)), w₃))

then_call_ok :
    {W A B : Type 0} (x : Result A × W) (rest : A → W → Result B × W) (b : B) (t : W)
    → then_call x rest ≡ (ok b, t)
    → (a : A) × (w : W) × (x ≡ (ok a, w)) × (rest a w ≡ (ok b, t))
then_call_ok (err e, w) rest b t h = absurd (cc h)
then_call_ok (ok a, w) rest b t h = (a, w, refl, h)

pub exact_zero_ok : (code : RawInt) (u : Unit {0}) → exact_zero code ≡ ok u → code ≡ int (pos 0)
exact_zero_ok other u h = absurd (cc h)
exact_zero_ok (int n) u h = elim (Bool-cases (int_eq n (pos 0))) [
  | inl same ↦ ap int (int_eq_sound n (pos 0) same)
  | inr differs ↦ absurd (cc (rw differs at h))
]

pub start_up-HasConnected :
    {W : Type 0} (calls : TraderCalls W) (id : ℕ) (w t : W) (u : Unit {0})
    → start_up calls id w ≡ (ok u, t)
    → HasConnected calls id
unfolding start_up
start_up-HasConnected calls id w t u h =
    let (_, w₁, p, h₁) = then_call_ok (calls.register_callback id w) _ u t h in
    let (_, w₂, q, h₂) = then_call_ok (calls.start id w₁) _ u t h₁ in
    let (code, w₃, r, h₃) = then_call_ok (calls.connect id w₂) _ u t h₂ in
    let zero : code ≡ int (pos 0) = exact_zero_ok code u (ap (λ x. x.0) h₃) in
    (w, w₁, w₂, w₃, p, q, subst (λ c. calls.connect id w₂ ≡ (ok c, w₃)) zero r)

-- What is leased afterwards: the id that is returned, whose trader has connected, beside what was;
-- or just that.
abbrev pub LeasedJust : {W : Type 0} → TraderCalls W → List ℕ → Result ℕ × Pool W → Type 0
LeasedJust calls before (ok id, p) =
    (p.leases ≡ id ∷ before) × (has id before ≡ false) × HasConnected calls id
LeasedJust calls before (err e, p) = p.leases ≡ before

release_other : (id : ℕ) (leases : List ℕ) → has id leases ≡ false → release id leases ≡ leases
unfolding release
release_other id [] h = refl
release_other id (l ∷ leases) h = ground (arith, release_other id leases)

pub release_new :
    (id : ℕ) (leases : List ℕ) → has id leases ≡ false → release id (id ∷ leases) ≡ leases
unfolding release
release_new id leases h = ground (arith, release_other id leases h)

module _ {W : Type 0} (calls : TraderCalls W) where
  started :
      (id : ℕ) (w : W) (x : Result (Unit {0}) × W) (before : List ℕ)
      → start_up calls id w ≡ x
      → has id before ≡ false
      → LeasedJust calls before (after_start_up calls id x (id ∷ before))
  started id w (ok u, t) before h free = (refl, free, start_up-HasConnected calls id w t u h)
  started id w (err e, t) before h free = release_new id before free

  made :
      (id : ℕ) (x : Result (Unit {0}) × W) (before : List ℕ)
      → has id before ≡ false
      → LeasedJust calls before (after_factory calls id x (id ∷ before))
  made id (ok u, w) before free = started id w (start_up calls id w) before refl free
  made id (err e, w) before free = release_new id before free

  tried : (id : ℕ) (p : Pool W) → LeasedJust calls p.leases (try_candidate calls id p)
  unfolding try_candidate
  tried id p = elim (exact_taken calls.lock_files id p.leases) [
    | inl (out, free) ↦ rw out (made id (calls.trader_factory id p.world) p.leases free)
    | inr (e, out) ↦ rw out refl
  ]

  next_tried :
      (fixed : Bool) (x : Result ℕ × Pool W) (again : Pool W → Result ℕ × Pool W) (before : List ℕ)
      → LeasedJust calls before x
      → ((p : Pool W) → LeasedJust calls p.leases (again p))
      → LeasedJust calls before (or_next calls fixed x again)
  next_tried fixed (ok id, p) again before h k = h
  next_tried false (err e, p) again before h k = subst (λ l. LeasedJust calls l (again p)) h (k p)
  next_tried true (err e, p) again before h k = h

  -- The loop over the candidates leases just the id that it returns, which no one held and whose
  -- trader has connected; if it
  -- raises, whatever the traders do, the leases are what they were.
  pub loop_leases_just :
      (fixed : Bool) (ids : List ℕ) (p : Pool W)
      → LeasedJust calls p.leases (try_candidates calls fixed ids p)
  unfolding try_candidates
  loop_leases_just fixed [] p = refl
  loop_leases_just fixed (id ∷ ids) p =
      next_tried fixed (try_candidate calls id p) (try_candidates calls fixed ids) p.leases
        (tried id p) (loop_leases_just fixed ids)
