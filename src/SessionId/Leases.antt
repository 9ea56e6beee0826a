-- ===== src/SessionId/Leases.antt =====
-- Who holds which id of src/qmt_execution_core/miniqmt/session_id.py.
use qmt_execution_core.Common.{
  ℕ, ◌<◌, ◌≡◌, ◌∙◌, refl, ◌⊎◌, inl, inr, true, false, String, List, [], ◌∷◌, ◌==◌, has, arith,
  Bool-cases,
}
use qmt_execution_core.Errors.{
  Error, Result, ok, err, session_id_unavailable, os_error, value_error,
}
use qmt_execution_core.SessionId.{
  LockFile, works, not_opened, not_locked, not_written, BoundedSessionIdAllocator, candidate_ids,
  lock, lock_file, leased, acquire_exact, acquire_first, acquire,
}

-- The lock is held, or the operating system refuses it.
abbrev pub IsRefused : (ℕ → LockFile) → ℕ → List ℕ → Type 0
IsRefused files id leases = (has id leases ≡ true) ⊎ (files id ≡ not_locked)

abbrev pub AllRefused : (ℕ → LockFile) → List ℕ → List ℕ → Type 0
AllRefused files [] leases = Unit {0}
AllRefused files (id ∷ ids) leases = IsRefused files id leases × AllRefused files ids leases

-- The file of the lock can not be opened or not be written.
abbrev pub IsBroken : (ℕ → LockFile) → ℕ → Type 0
IsBroken files id = (files id ≡ not_opened) ⊎ (files id ≡ not_written)

abbrev pub NoZero : List ℕ → Type 0
NoZero [] = Unit {0}
NoZero (id ∷ ids) = (0 < id) × NoZero ids

-- What an acquisition among ids comes to.
abbrev pub Fate : (ℕ → LockFile) → List ℕ → List ℕ → Result ℕ × List ℕ → Type 0
Fate files ids leases out =
    ((id : ℕ) × (out ≡ (ok id, id ∷ leases)) × (has id ids ≡ true) × (has id leases ≡ false))
    ⊎ (((out ≡ (err session_id_unavailable, leases)) × AllRefused files ids leases)
        ⊎ ((id : ℕ) × (out ≡ (err os_error, leases)) × (has id ids ≡ true) × IsBroken files id))

-- one id
abbrev Trial : LockFile → ℕ → List ℕ → Result ℕ × List ℕ → Type 0
Trial file id leases out =
    ((out ≡ (ok id, id ∷ leases)) × (has id leases ≡ false))
    ⊎ (((out ≡ (err session_id_unavailable, leases))
          × ((has id leases ≡ true) ⊎ (file ≡ not_locked)))
        ⊎ ((out ≡ (err os_error, leases)) × ((file ≡ not_opened) ⊎ (file ≡ not_written))))

file-Trial :
    (file : LockFile) (id : ℕ) (leases : List ℕ)
    → Trial file id leases (leased id (lock_file file id leases))
file-Trial not_opened id leases = inr (inr (refl, inl refl))
file-Trial not_locked id leases = inr (inl (refl, inr refl))
file-Trial not_written id leases = elim (Bool-cases (has id leases)) [
  | inl taken ↦ rw taken (inr (inl (refl, inl refl)))
  | inr free ↦ rw free (inr (inr (refl, inr refl)))
]
file-Trial works id leases = elim (Bool-cases (has id leases)) [
  | inl taken ↦ rw taken (inr (inl (refl, inl refl)))
  | inr free ↦ rw free (inl (refl, refl))
]

exact-Trial :
    (files : ℕ → LockFile) (id : ℕ) (leases : List ℕ)
    → 0 < id
    → Trial (files id) id leases (acquire_exact files id leases)
unfolding acquire_exact lock
exact-Trial files id leases z =
    let positive : (id == 0) ≡ false = ground arith in rw positive (file-Trial (files id) id leases)

first-Fate :
    (files : ℕ → LockFile) (ids leases : List ℕ)
    → NoZero ids
    → Fate files ids leases (acquire_first files ids leases)
unfolding acquire_first
first-Fate files [] leases z = inr (inl (refl, tt))
first-Fate files (id ∷ ids) leases z = elim (exact-Trial files id leases z.0) [
  | inl (out, free) ↦ inl (id, rw out refl, ground arith, free)
  | inr (inr (out, broken)) ↦ inr (inr (id, rw out refl, ground arith, broken))
  | inr (inl (out, refused)) ↦
      let skips : acquire_first files (id ∷ ids) leases ≡ acquire_first files ids leases =
        rw out refl in
      elim (first-Fate files ids leases z.1) [
        | inl (other, found, among, free) ↦ inl (other, skips ∙ found, ground (arith, among), free)
        | inr (inl (found, all)) ↦ inr (inl (skips ∙ found, (refused, all)))
        | inr (inr (other, found, among, broken)) ↦
            inr (inr (other, skips ∙ found, ground (arith, among), broken))
      ]
]

-- Among positive candidates, `acquire` leases an id that no one held and adds just that lease;
-- else it changes no lease and raises SessionIdUnavailable, only if the lock of every candidate is
-- held or refused by the operating system, or OSError, only if the file of a candidate's lock can
-- not be opened or written.
pub lease_is_exclusive :
    (files : ℕ → LockFile) (seed : String → ℕ) (a : BoundedSessionIdAllocator) (key : String)
    (ids leases : List ℕ)
    → candidate_ids seed a key ≡ ok ids
    → NoZero ids
    → Fate files ids leases (acquire files seed a key leases)
unfolding acquire
lease_is_exclusive files seed a key ids leases h z = rw h (first-Fate files ids leases z)

-- one id that may be zero, without what refused it
pub exact_taken :
    (files : ℕ → LockFile) (id : ℕ) (leases : List ℕ)
    → ((acquire_exact files id leases ≡ (ok id, id ∷ leases)) × (has id leases ≡ false))
      ⊎ ((e : Error) × (acquire_exact files id leases ≡ (err e, leases)))
unfolding acquire_exact
exact_taken files id leases = elim (Bool-cases (id == 0)) [
  | inl nil ↦ inr (value_error, rw nil refl)
  | inr positive ↦ elim (exact-Trial files id leases (ground (arith, positive))) [
    | inl taken ↦ inl taken
    | inr (inl (out, refused)) ↦ inr (session_id_unavailable, out)
    | inr (inr (out, broken)) ↦ inr (os_error, out)
  ]
]
