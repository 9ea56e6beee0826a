-- ===== src/Formal/Codes.antt =====
-- The numbers of the global states of src/qmt_execution_core/formal.py are those of one state each.
use qmt_execution_core.Common.{ℕ, ◌≡◌, refl, Bool, true, false, arith}
use qmt_execution_core.Domain.{TradeState, SafetyFacts}
use qmt_execution_core.Machine.Equality.{rank}
use qmt_execution_core.Formal.Shared.{Three, Process}
use qmt_execution_core.Formal.Explore.{digit, facts_code, process_code, state_code}
use qmt_execution_core.Formal.Terminates.{process_code_bound}

digit_inj : (b c : Bool) (n m : ℕ) → digit b n ≡ digit c m → (b ≡ c) × (n ≡ m)
digit_inj true true n m h = (refl, omega (arith, h))
digit_inj false false n m h = (refl, omega (arith, h))
digit_inj true false n m h = absurd (omega (arith, h))
digit_inj false true n m h = absurd (omega (arith, h))

rank_inj : (s t : TradeState) → rank s ≡ rank t → s ≡ t
rank_inj s t h = ground arith

facts_code_inj : (f g : SafetyFacts) (n m : ℕ) → facts_code f n ≡ facts_code g m → (f ≡ g) × (n ≡ m)
facts_code_inj f g n m h =
    let (a, h₁) = digit_inj f.environment_verified g.environment_verified _ _ h in
    let (b, h₂) = digit_inj f.account_verified g.account_verified _ _ h₁ in
    let (c, h₃) = digit_inj f.broker_snapshot_verified g.broker_snapshot_verified _ _ h₂ in
    let (d, h₄) = digit_inj f.position_verified g.position_verified _ _ h₃ in
    let (e, h₅) = digit_inj f.cash_verified g.cash_verified _ _ h₄ in
    let (i, h₆) = digit_inj f.quote_verified g.quote_verified _ _ h₅ in
    let (j, h₇) = digit_inj f.intent_persisted g.intent_persisted _ _ h₆ in
    let (k, h₈) = digit_inj f.reservation_persisted g.reservation_persisted _ _ h₇ in
    let (l, h₉) = digit_inj f.unresolved_order g.unresolved_order _ _ h₈ in
    let (p, i₁) = digit_inj f.terminal_order_confirmed g.terminal_order_confirmed _ _ h₉ in
    let (q, i₂) = digit_inj f.submitted_once g.submitted_once _ _ i₁ in
    let (r, i₃) = digit_inj f.cancel_intent_persisted g.cancel_intent_persisted n m i₂ in
    (cc (a, b, c, d, e, i, j, k, l, p, q, r), i₃)

process_code_inj : (p q : Process) → process_code p ≡ process_code q → p ≡ q
unfolding process_code
process_code_inj p q h =
    let (a, h₁) = digit_inj p.held q.held _ _ h in
    let (b, h₂) = facts_code_inj p.snapshot.facts q.snapshot.facts _ _ h₁ in
    cc (a, b, rank_inj p.snapshot.state q.snapshot.state h₂)

-- Equal numbers are those of equal states.
pub state_code_inj : (s t : Three Process) → state_code s ≡ state_code t → s ≡ t
state_code_inj s t h =
    let a : process_code s.at_0 ≡ process_code t.at_0 =
      omega (arith, h, process_code_bound s.at_0, process_code_bound t.at_0) in
    let b : process_code s.at_1 ≡ process_code t.at_1 =
      omega (arith, h, a, process_code_bound s.at_1, process_code_bound t.at_1) in
    let c : process_code s.at_2 ≡ process_code t.at_2 = omega (arith, h, a, b) in
    cc (
      process_code_inj s.at_0 t.at_0 a,
      process_code_inj s.at_1 t.at_1 b,
      process_code_inj s.at_2 t.at_2 c,
    )
