-- ===== src/Coordination/Transactions/Refusal.antt =====
-- The exceptions that `prepare` of coordination.py raises.
use qmt_execution_core.Common.{
  ℕ, ◌≡◌, ◌⊎◌, inl, inr, refl, Bool, true, false, not, Option, none, some, List, arith,
}
use qmt_execution_core.Errors.{
  Result, ok, err, ◌>>=◌, ◌>>◌, raise_if, is_coordination_error, coordination_error,
}
use qmt_execution_core.Domain.{Side, buy, sell}
use qmt_execution_core.Coordination.Tables.{
  SymbolClaim, CashReservation, Db, Amount, Sqlite, connect_database, opened, Caller, insert_claim,
  finite_non_negative,
}
use qmt_execution_core.Coordination.Transactions.{
  prepare, validate_identity, take_claim, take_cash, reserve, checked_for,
}

module _ (sql : Sqlite) where
  -- returned, or raised `CoordinationError` or a subclass, or what the connection raised
  abbrev pub Refusal : {A : Type 0} → Result A → Type 0
  Refusal (ok a) = Unit {0}
  Refusal (err e) = (is_coordination_error e ≡ true) ⊎ (connect_database sql.connection ≡ err e)

  then_Refusal :
      {A B : Type 0} (m : Result A) (f : A → Result B)
      → Refusal m
      → ((a : A) → Refusal (f a))
      → Refusal (m >>= f)
  then_Refusal (ok a) f h k = k a
  then_Refusal (err e) f h k = h

  test_Refusal : (b : Bool) → Refusal (raise_if b coordination_error)
  unfolding is_coordination_error
  test_Refusal true = inl refl
  test_Refusal false = tt

  connection_Refusal : (r : Result (Unit {0})) → connect_database sql.connection ≡ r → Refusal r
  connection_Refusal (ok u) h = tt
  connection_Refusal (err e) h = inr h

  opened-Refusal : Refusal (opened sql)
  opened-Refusal =
      then_Refusal _ _ (connection_Refusal (connect_database sql.connection) refl)
        λ u. test_Refusal (not sql.begins)

  amount_Refusal : (side : Side) (a : Amount) → Refusal (checked_for side a)
  unfolding checked_for finite_non_negative is_coordination_error
  amount_Refusal buy a = ground arith
  amount_Refusal sell a = tt

  claim_Refusal :
      (k : Caller) (c : Option SymbolClaim) (rows : List SymbolClaim)
      → Refusal (take_claim k c rows)
  unfolding take_claim insert_claim is_coordination_error
  claim_Refusal k none rows = ground arith
  claim_Refusal k (some c) rows = ground arith

  cash_Refusal :
      (k : Caller) (n m : ℕ) (r : Option CashReservation) (rows : List CashReservation)
      → Refusal (take_cash k n m r rows)
  unfolding take_cash is_coordination_error
  cash_Refusal k n m none rows = ground arith
  cash_Refusal k n m (some r) rows = ground arith

  reserve-Refusal : (side : Side) (k : Caller) (n m : ℕ) (db : Db) → Refusal (reserve side k n m db)
  unfolding reserve
  reserve-Refusal buy k n m db = cash_Refusal k n m _ db.reservations
  reserve-Refusal sell k n m db = tt

  identity_Refusal : (k : Caller) → Refusal (validate_identity k)
  unfolding validate_identity is_coordination_error
  identity_Refusal k = ground arith

  commit_Refusal : {A : Type 0} (b : Bool) (a : A) → Refusal (raise_if b coordination_error >> ok a)
  unfolding is_coordination_error
  commit_Refusal true a = inl refl
  commit_Refusal false a = tt

  pub prepare-Refusal : (k : Caller) (b r : Amount) (db : Db) → Refusal (prepare sql k b r db)
  unfolding prepare
  prepare-Refusal k b r db = then_Refusal _ _ (identity_Refusal k) λ u.
      then_Refusal _ _ (amount_Refusal k.side b) λ n.
        then_Refusal _ _ (amount_Refusal k.side r) λ m. then_Refusal _ _ opened-Refusal λ u.
          then_Refusal _ _ (claim_Refusal k _ db.claims) λ claims.
            then_Refusal _ _ (reserve-Refusal k.side k n m db) λ reservations.
              commit_Refusal (not sql.commits)
                (record { claims = claims; reservations = reservations })
