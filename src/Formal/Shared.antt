-- ===== src/Formal/Shared.antt =====
-- src/qmt_execution_core/formal.py: the claims and the cash that three executions share.
use qmt_execution_core.Common.{
  ℕ, ◌+◌, Bool, true, false, not, ◌&&◌, Option, none, some, List, ◌==◌, leb, if◌then◌else◌,
  get_elem?,
}
use qmt_execution_core.Errors.{Result, ◌>>=◌, err, ok, key_error}
use qmt_execution_core.Domain.{Side, buy, side_eq}
use qmt_execution_core.Machine.{MachineSnapshot}
use qmt_execution_core.Finality.{ExecutionFinality, resolved, execution_finality}

pub record FormalProcessSpec : Type 0 where
  pub account : ℕ
  pub symbol : ℕ
  pub side : Side
  pub required_cash : ℕ

-- One value for each of the three processes.
pub record Three {ℓ} (A : Type ℓ) : Type ℓ where
  pub at_0 : A
  pub at_1 : A
  pub at_2 : A

-- `range(3)`
pub data Index : Type 0 where
  p0 p1 p2 : Index

abbrev pub nth {ℓ} : {A : Type ℓ} → Three A → Index → A
nth t p0 = t.at_0
nth t p1 = t.at_1
nth t p2 = t.at_2

abbrev pub index_eq : Index → Index → Bool
index_eq p0 p0 = true
index_eq p1 p1 = true
index_eq p2 p2 = true
index_eq _ _ = false

pub record FormalScenario : Type 0 where
  pub processes : Three FormalProcessSpec
  pub cash_by_account : List ℕ
  pub require_all_working : Bool
  pub require_cross_account_same_symbol_working : Bool

-- What a code of `_encode_process` stands for: a snapshot and whether it holds shared resources.
pub record Process : Type 0 where
  pub snapshot : MachineSnapshot
  pub held : Bool

abbrev pub process : MachineSnapshot → Bool → Process
process s h = record { snapshot = s; held = h }

abbrev pub replace_process : Three Process → Index → Process → Three Process
replace_process state p0 code = record state { at_0 = code }
replace_process state p1 code = record state { at_1 = code }
replace_process state p2 code = record state { at_2 = code }

-- The other process stands in the way.
abbrev pub blocks : Three Process → FormalScenario → Index → Index → Bool
blocks state scenario index other =
    not (index_eq other index)
    && ((nth state other).held
        && ((nth scenario.processes other).account == (nth scenario.processes index).account
            && (nth scenario.processes other).symbol == (nth scenario.processes index).symbol))

unfoldable pub claim_free : Three Process → FormalScenario → Index → Bool
claim_free state scenario index =
    if blocks state scenario index p0
    then false
    else if blocks state scenario index p1
    then false
    else not (blocks state scenario index p2)

-- What one process adds to `total`.
abbrev pub reserved_by : Three Process → FormalScenario → ℕ → Index → Index → ℕ
reserved_by state scenario account exclude index =
    if not (index_eq index exclude)
      && ((nth state index).held
          && ((nth scenario.processes index).account == account
              && side_eq (nth scenario.processes index).side buy))
    then (nth scenario.processes index).required_cash
    else 0

unfoldable pub active_reserved_cash : Three Process → FormalScenario → ℕ → Index → ℕ
active_reserved_cash state scenario account exclude =
    reserved_by state scenario account exclude p0
    + reserved_by state scenario account exclude p1
    + reserved_by state scenario account exclude p2

-- `scenario.cash_by_account[account]`
abbrev pub capacity_of : List ℕ → ℕ → Result ℕ
capacity_of cash account = elim (get_elem? cash account) [ none ↦ err key_error | some c ↦ ok c ]

-- `required <= capacity - reserved` is over the integers: written without the subtraction.
unfoldable pub can_prepare : Three Process → FormalScenario → Index → Result Bool
can_prepare state scenario index =
    if not (claim_free state scenario index)
    then ok false
    else if not (side_eq (nth scenario.processes index).side buy)
    then ok true
    else do
      capacity ← capacity_of scenario.cash_by_account (nth scenario.processes index).account
      ok (
          leb
            ((nth scenario.processes index).required_cash
              + active_reserved_cash state scenario (nth scenario.processes index).account index)
            capacity)

abbrev pub can_restore : Three Process → FormalScenario → Index → Bool
can_restore = claim_free

abbrev pub is_resolved : ExecutionFinality → Bool
is_resolved resolved = true
is_resolved _ = false

unfoldable pub sync_phase :
    Three Process
    → FormalScenario
    → Index
    → (target : MachineSnapshot) → (current_held entered_submitted : Bool) → Option (Three Process)
sync_phase state scenario index target current_held entered_submitted =
    if entered_submitted
    then some (replace_process state index (process target false))
    else if is_resolved (execution_finality target)
    then some (replace_process state index (process target false))
    else if current_held
    then some (replace_process state index (process target true))
    else if not (can_restore state scenario index)
    then none
    else some (replace_process state index (process target true))
