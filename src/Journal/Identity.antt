-- ===== src/Journal/Identity.antt =====
-- The names of orders that src/qmt_execution_core/journal.py keeps from being used again.
use qmt_execution_core.Common.{
  ℕ, zero, suc, ◌-◌, ◌≤◌, ◌≡◌, ◌⊎◌, true, String, eq_refl, List, [], ◌∷◌, ◌++◌, arith, length, drop,
  length-append,
}
use qmt_execution_core.Errors.{ok, err, journal_integrity_error}
use qmt_execution_core.Domain.{ExecutionRequest}
use qmt_execution_core.Journal.{
  Data, take_last, contains, assert_identity_unused, with_intent, cleared,
}

contains-append : (xs : List String) (a : String) → contains (xs ++ a ∷ []) a ≡ true
unfolding contains
contains-append [] a = ground (arith, eq_refl a)
contains-append (x ∷ xs) a = ground (arith, contains-append xs a)

contains-drop :
    (k : ℕ) (xs : List String) (a : String)
    → k ≤ length xs
    → contains (drop k (xs ++ a ∷ [])) a ≡ true
contains-drop zero xs a h = contains-append xs a
contains-drop (suc k) [] a h = ground arith
contains-drop (suc k) (x ∷ xs) a h = contains-drop k xs a (omega arith)

-- cutting the list to a positive length keeps its newest name
contains-take_last :
    (n : ℕ) (xs : List String) (a : String) → contains (take_last (suc n) (xs ++ a ∷ [])) a ≡ true
unfolding take_last
contains-take_last n xs a =
    contains-drop (length (xs ++ a ∷ []) - suc n) xs a (ground (arith, length-append xs (a ∷ [])))

-- In the data that `persist_intent` leaves, and in what the next cycle keeps of it, an order with
-- the same client id or the same remark is refused.
pub identity_not_reused :
    (r q : ExecutionRequest) (d n : Data)
    → with_intent r d ≡ ok n
    → (q.client_order_id ≡ r.client_order_id) ⊎ (q.order_remark ≡ r.order_remark)
    → (assert_identity_unused q n ≡ err journal_integrity_error)
      × (assert_identity_unused q (cleared n) ≡ err journal_integrity_error)
unfolding with_intent assert_identity_unused
identity_not_reused r q d n h same = ground (
  arith,
  contains-take_last 9999 d.used_client_order_ids r.client_order_id,
  contains-take_last 9999 d.used_order_remarks r.order_remark,
)
