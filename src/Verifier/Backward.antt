-- ===== src/Verifier/Backward.antt =====
-- src/qmt_execution_core/verifier.py: which of the reached snapshots lead to a terminal one.
use qmt_execution_core.Common.{ℕ, zero, suc, Option, none, some, List, [], ◌∷◌, ◌++◌, if◌then◌else◌}
use qmt_execution_core.Table.{is_terminal}
use qmt_execution_core.Machine.{MachineSnapshot}
use qmt_execution_core.Machine.Equality.{snapshot_eq, member_of}
use qmt_execution_core.Verifier.{Edge}

-- `reverse[dst]`
unfoldable pub reverse : MachineSnapshot → List Edge → List MachineSnapshot
reverse dst [] = []
reverse dst (e ∷ edges) =
    let rest = reverse dst edges in if snapshot_eq e.target dst then e.source ∷ rest else rest

-- `{s for s in reachable if s.state in TERMINAL_STATES}`
unfoldable pub terminal_ones : List MachineSnapshot → List MachineSnapshot
terminal_ones [] = []
terminal_ones (s ∷ all) =
    let rest = terminal_ones all in if is_terminal s.state then s ∷ rest else rest

-- The variables of the backward loop.
pub record Return : Type 0 where
  pub frontier : List MachineSnapshot
  pub can_reach_terminal : List MachineSnapshot

-- `for src in reverse[dst]`
unfoldable pub add_sources : List MachineSnapshot → Return → Return
add_sources [] back = back
add_sources (src ∷ rest) back = add_sources rest (
    if member_of src back.can_reach_terminal then back else record {
      frontier = back.frontier ++ (src ∷ []);
      can_reach_terminal = src ∷ back.can_reach_terminal;
    })

unfoldable pub go_back_from :
    List Edge → Return → List MachineSnapshot → (again : Return → Option Return) → Option Return
go_back_from edges back [] again = some back
go_back_from edges back (dst ∷ frontier) again =
    again (add_sources (reverse dst edges) (record back { frontier = frontier }))

-- `while frontier`; `none` when the fuel is used up
unfoldable pub go_back : ℕ → List Edge → Return → Option Return
go_back zero edges back = none
go_back (suc fuel) edges back = go_back_from edges back back.frontier (go_back fuel edges)
