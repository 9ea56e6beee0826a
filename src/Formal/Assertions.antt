-- ===== src/Formal/Assertions.antt =====
-- `_assert_global_invariants` of src/qmt_execution_core/formal.py returns on every sound state.
use qmt_execution_core.Common.{
  ℕ, suc, ◌+◌, ◌≤◌, ◌≡◌, refl, subst, false, some, List, [], ◌∷◌, arith, ltb, get_elem?,
}
use qmt_execution_core.Errors.{ok}
use qmt_execution_core.Formal.Shared.{Three, Index, p0, p1, p2, nth, Process, FormalScenario}
use qmt_execution_core.Formal.Facts.{fine_check}
use qmt_execution_core.Formal.Checks.{
  check_pair, check_cash, active_submitted, sent_by, assert_global_invariants,
}
use qmt_execution_core.Formal.Global.{IsSound, charge, total_charge, CashFits}
use qmt_execution_core.Finality.{is_failed}

module _ (scenario : FormalScenario) (state : Three Process) where
  -- cash at the broker is charged cash
  sent_charged :
      (a : ℕ) (i : Index) → sent_by state scenario a i ≤ charge scenario a i (nth state i)
  unfolding is_failed
  sent_charged a i = ground arith

  sent_below : (a : ℕ) → active_submitted state scenario a ≤ total_charge state scenario a
  sent_below a = omega (arith, sent_charged a p0, sent_charged a p1, sent_charged a p2)

  later :
      (account : ℕ) (cash : List ℕ) (capacity : ℕ)
      → ((n c : ℕ)
          → get_elem? (capacity ∷ cash) n ≡ some c
          → total_charge state scenario (account + n) ≤ c)
      → (n c : ℕ) → get_elem? cash n ≡ some c
      → total_charge state scenario (suc account + n) ≤ c
  later account cash capacity h n c q =
      let next : account + suc n ≡ suc account + n = omega arith in
      subst (λ a. total_charge state scenario a ≤ c) next (h (suc n) c q)

  -- the accounts from `account` on
  cash_passes :
      (account : ℕ) (cash : List ℕ)
      → ((n capacity : ℕ)
          → get_elem? cash n ≡ some capacity
          → total_charge state scenario (account + n) ≤ capacity)
      → check_cash state scenario account cash ≡ ok tt
  unfolding check_cash
  cash_passes account [] h = refl
  cash_passes account (capacity ∷ rest) h =
      let here : account + 0 ≡ account = omega arith in
      let below : total_charge state scenario account ≤ capacity =
        subst (λ a. total_charge state scenario a ≤ capacity) here (h 0 capacity refl) in
      let within : ltb capacity (active_submitted state scenario account) ≡ false =
        ground (arith, sent_below account) in
      rw within (cash_passes (suc account) rest (later account rest capacity h))

  from_first :
      CashFits state scenario
      → (n c : ℕ) → get_elem? scenario.cash_by_account n ≡ some c
      → total_charge state scenario (0 + n) ≤ c
  from_first fits n c q =
      let same : n ≡ 0 + n = omega arith in
      subst (λ a. total_charge state scenario a ≤ c) same (fits n c q)

  pub sound_passes : IsSound scenario state → assert_global_invariants state scenario ≡ ok tt
  unfolding assert_global_invariants check_pair
  sound_passes sound =
      rw
        (
          fine_check state.at_0.snapshot.state state.at_0.snapshot.facts state.at_0.held
              sound.fine_0,
          fine_check state.at_1.snapshot.state state.at_1.snapshot.facts state.at_1.held
              sound.fine_1,
          fine_check state.at_2.snapshot.state state.at_2.snapshot.facts state.at_2.held
              sound.fine_2,
          sound.apart_01,
          sound.apart_02,
          sound.apart_12,
          cash_passes 0 scenario.cash_by_account (from_first sound.cash),
        )
        refl
