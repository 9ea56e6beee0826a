-- ===== src/Formal/Global.antt =====
-- The invariant of the three processes of src/qmt_execution_core/formal.py.
use qmt_execution_core.Common.{
  ℕ, ◌+◌, ◌≤◌, ◌≡◌, refl, Bool-cases, ◌⊎◌, inl, inr, Bool, true, false, ◌&&◌, ◌==◌, some, arith,
  if◌then◌else◌, get_elem?,
}
use qmt_execution_core.Errors.{ok}
use qmt_execution_core.Domain.{buy, side_eq}
use qmt_execution_core.Formal.Shared.{
  Three, Index, p0, p1, p2, nth, Process, FormalScenario, replace_process, claim_free,
  active_reserved_cash, can_prepare, index_eq, reserved_by,
}
use qmt_execution_core.Formal.Facts.{IsFine, Follows, charged}

abbrev pub clash : Three Process → FormalScenario → Index → Index → Bool
clash state scenario left right =
    ((nth state left).held && (nth state right).held)
    && ((nth scenario.processes left).account == (nth scenario.processes right).account
        && (nth scenario.processes left).symbol == (nth scenario.processes right).symbol)

abbrev pub charge : FormalScenario → ℕ → Index → Process → ℕ
charge scenario account index p =
    if charged p
      && ((nth scenario.processes index).account == account
          && side_eq (nth scenario.processes index).side buy)
    then (nth scenario.processes index).required_cash
    else 0

abbrev pub total_charge : Three Process → FormalScenario → ℕ → ℕ
total_charge state scenario account =
    charge scenario account p0 state.at_0
    + charge scenario account p1 state.at_1
    + charge scenario account p2 state.at_2

abbrev pub CashFits : Three Process → FormalScenario → Type 0
CashFits state scenario =
    (account capacity : ℕ)
    → get_elem? scenario.cash_by_account account ≡ some capacity
    → total_charge state scenario account ≤ capacity

pub record IsSound (scenario : FormalScenario) (state : Three Process) : Type 0 where
  pub fine_0 : IsFine state.at_0
  pub fine_1 : IsFine state.at_1
  pub fine_2 : IsFine state.at_2
  pub apart_01 : clash state scenario p0 p1 ≡ false
  pub apart_02 : clash state scenario p0 p2 ≡ false
  pub apart_12 : clash state scenario p1 p2 ≡ false
  pub cash : CashFits state scenario

module _ (scenario : FormalScenario) (state : Three Process) (sound : IsSound scenario state) where
  pub IsFine-at : (i : Index) → IsFine (nth state i)
  IsFine-at p0 = sound.fine_0
  IsFine-at p1 = sound.fine_1
  IsFine-at p2 = sound.fine_2

  -- One process changes: it takes a claim only where that is free, and charges cash that fits.
  pub replaced :
      (i : Index) (p : Process)
      → IsFine p
      → (p.held ≡ true → ((nth state i).held ≡ true) ⊎ (claim_free state scenario i ≡ true))
      → CashFits (replace_process state i p) scenario
      → IsSound scenario (replace_process state i p)
  unfolding claim_free
  replaced p0 p fine claim fits = record {
    fine_0 = fine;
    fine_1 = sound.fine_1;
    fine_2 = sound.fine_2;
    apart_01 = let q = sound.apart_01 in ground arith;
    apart_02 = let q = sound.apart_02 in ground arith;
    apart_12 = sound.apart_12;
    cash = fits;
  }
  replaced p1 p fine claim fits = record {
    fine_0 = sound.fine_0;
    fine_1 = fine;
    fine_2 = sound.fine_2;
    apart_01 = let q = sound.apart_01 in ground arith;
    apart_02 = sound.apart_02;
    apart_12 = let q = sound.apart_12 in ground arith;
    cash = fits;
  }
  replaced p2 p fine claim fits = record {
    fine_0 = sound.fine_0;
    fine_1 = sound.fine_1;
    fine_2 = fine;
    apart_01 = sound.apart_01;
    apart_02 = let q = sound.apart_02 in ground arith;
    apart_12 = let q = sound.apart_12 in ground arith;
    cash = fits;
  }

  lower_charge :
      (a : ℕ) (i : Index) (p : Process)
      → (charged p ≡ true → charged (nth state i) ≡ true)
      → charge scenario a i p ≤ charge scenario a i (nth state i)
  lower_charge a i p h = ground arith

  lower_total :
      (a : ℕ) (i : Index) (p : Process)
      → (charged p ≡ true → charged (nth state i) ≡ true)
      → total_charge (replace_process state i p) scenario a ≤ total_charge state scenario a
  lower_total a p0 p h = omega (arith, lower_charge a p0 p h)
  lower_total a p1 p h = omega (arith, lower_charge a p1 p h)
  lower_total a p2 p h = omega (arith, lower_charge a p2 p h)

  pub lowered :
      (i : Index) (p : Process)
      → (charged p ≡ true → charged (nth state i) ≡ true)
      → CashFits (replace_process state i p) scenario
  lowered i p h a c q = omega (arith, lower_total a i p h, sound.cash a c q)

  pub followed :
      (i : Index) (p : Process)
      → Follows (nth state i) p
      → IsSound scenario (replace_process state i p)
  followed i p f = replaced i p f.fine (λ h. inl (f.no_claim h)) (lowered i p f.no_cash)

  -- what the coordinator sums covers what the others charge
  covered :
      (a : ℕ) (i other : Index)
      → index_eq other i ≡ false
      → charge scenario a other (nth state other) ≤ reserved_by state scenario a i other
  covered a i other h = ground arith

  others_covered :
      (a : ℕ) (i : Index) (p : Process)
      → total_charge (replace_process state i p) scenario a
        ≤ charge scenario a i p + active_reserved_cash state scenario a i
  unfolding active_reserved_cash
  others_covered a p0 p = omega (arith, covered a p0 p1 refl, covered a p0 p2 refl)
  others_covered a p1 p = omega (arith, covered a p1 p0 refl, covered a p1 p2 refl)
  others_covered a p2 p = omega (arith, covered a p2 p0 refl, covered a p2 p1 refl)

  uncharged :
      (a : ℕ) (i : Index) (p : Process)
      → charge scenario a i p ≡ 0
      → total_charge (replace_process state i p) scenario a ≤ total_charge state scenario a
  uncharged a p0 p h = omega (arith, h)
  uncharged a p1 p h = omega (arith, h)
  uncharged a p2 p h = omega (arith, h)

  pub prepared :
      (i : Index) (p : Process)
      → can_prepare state scenario i ≡ ok true
      → CashFits (replace_process state i p) scenario
  unfolding can_prepare
  prepared i p h a c q =
      elim (Bool-cases
        ((nth scenario.processes i).account == a && side_eq (nth scenario.processes i).side buy)) [
          | inr other ↦
              let none_added : charge scenario a i p ≡ 0 = ground arith in
              omega (arith, uncharged a i p none_added, sound.cash a c q)
          | inl mine ↦
              let here : (nth scenario.processes i).account ≡ a = ground arith in
              let within : (nth scenario.processes i).required_cash
                    + active_reserved_cash state scenario a i
                  ≤ c =
                ground (arith, here) in
              let own : charge scenario a i p ≤ (nth scenario.processes i).required_cash =
                ground arith in
              omega (arith, others_covered a i p, within, own)
        ]

  pub prepared_free :
      (i : Index) → can_prepare state scenario i ≡ ok true → claim_free state scenario i ≡ true
  unfolding can_prepare
  prepared_free i h = ground arith
