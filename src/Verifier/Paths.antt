-- ===== src/Verifier/Paths.antt =====
-- What the backward loop of src/qmt_execution_core/verifier.py shows of a snapshot.
use qmt_execution_core.Common.{
  ℕ, zero, suc, ◌≡◌, sym, subst, inl, inr, true, some, List, [], ◌∷◌, ◌++◌, Bool-cases,
}
use qmt_execution_core.Errors.{ok}
use qmt_execution_core.Domain.{TradeEvent}
use qmt_execution_core.Table.{is_terminal}
use qmt_execution_core.Machine.{MachineSnapshot}
use qmt_execution_core.Machine.Equality.{snapshot_eq, snapshot_eq_sound, member_of, In}
use qmt_execution_core.Formal.{step_}
use qmt_execution_core.Verifier.{Edge}
use qmt_execution_core.Verifier.Backward.{
  Return, reverse, terminal_ones, add_sources, go_back_from, go_back,
}
use qmt_execution_core.Verifier.Explored.{AllSteps}

-- Events lead from the snapshot to a terminal one.
pub data CanEnd : MachineSnapshot → Type 0 where
  ended : {s : MachineSnapshot} → is_terminal s.state ≡ true → CanEnd s
  onward : {s t : MachineSnapshot} (e : TradeEvent) → step_ s e ≡ ok t → CanEnd t → CanEnd s

pub AllEnd : List MachineSnapshot → Type 0
AllEnd [] = Unit {0}
AllEnd (s ∷ all) = CanEnd s × AllEnd all

record BothEnd (back : Return) : Type 0 where
  frontier : AllEnd back.frontier
  can : AllEnd back.can_reach_terminal

terminal-AllEnd : (all : List MachineSnapshot) → AllEnd (terminal_ones all)
unfolding terminal_ones AllEnd
terminal-AllEnd [] = tt
terminal-AllEnd (s ∷ all) = elim (Bool-cases (is_terminal s.state)) [
  | inl h ↦ rw h (ended h, terminal-AllEnd all)
  | inr h ↦ rw h (terminal-AllEnd all)
]

reverse-AllEnd :
    (dst : MachineSnapshot) (edges : List Edge)
    → CanEnd dst
    → AllSteps edges
    → AllEnd (reverse dst edges)
unfolding reverse AllEnd
reverse-AllEnd dst [] h all = tt
reverse-AllEnd dst (e ∷ edges) h all = elim (Bool-cases (snapshot_eq e.target dst)) [
  | inl same ↦ rw same (
    onward e.event all.0 (subst CanEnd (sym (snapshot_eq_sound e.target dst same)) h),
    reverse-AllEnd dst edges h all.1,
  )
  | inr differs ↦ rw differs (reverse-AllEnd dst edges h all.1)
]

append-AllEnd :
    (all : List MachineSnapshot) (s : MachineSnapshot)
    → AllEnd all
    → CanEnd s
    → AllEnd (all ++ (s ∷ []))
unfolding AllEnd
append-AllEnd [] s h c = (c, tt)
append-AllEnd (t ∷ all) s h c = (h.0, append-AllEnd all s h.1 c)

add-BothEnd :
    (srcs : List MachineSnapshot) (back : Return)
    → AllEnd srcs
    → BothEnd back
    → BothEnd (add_sources srcs back)
unfolding add_sources AllEnd
add-BothEnd [] back h b = b
add-BothEnd (s ∷ rest) back h b = elim (Bool-cases (member_of s back.can_reach_terminal)) [
  | inl old ↦ rw old (add-BothEnd rest back h.1 b)
  | inr new ↦ rw new (
      add-BothEnd rest _ h.1
        (record { frontier = append-AllEnd back.frontier s b.frontier h.0; can = (h.0, b.can) }))
]

go_back_from-AllEnd :
    (fuel : ℕ) (edges : List Edge) (back last : Return) (frontier : List MachineSnapshot)
    → AllSteps edges
    → AllEnd frontier
    → AllEnd back.can_reach_terminal
    → go_back_from edges back frontier (go_back fuel edges) ≡ some last
    → ((after : Return)
        → BothEnd after
        → go_back fuel edges after ≡ some last
        → AllEnd last.can_reach_terminal)
    → AllEnd last.can_reach_terminal
unfolding go_back_from AllEnd
go_back_from-AllEnd fuel edges back last [] all f b h again =
    let same : back ≡ last = cc h in subst (λ r. AllEnd r.can_reach_terminal) same b
go_back_from-AllEnd fuel edges back last (dst ∷ frontier) all f b h again =
    again _
      (add-BothEnd (reverse dst edges) _ (reverse-AllEnd dst edges f.0 all)
        (record { frontier = f.1; can = b }))
      h

go_back-AllEnd :
    (fuel : ℕ) (edges : List Edge) (back last : Return)
    → AllSteps edges
    → BothEnd back
    → go_back fuel edges back ≡ some last
    → AllEnd last.can_reach_terminal
unfolding go_back
go_back-AllEnd zero edges back last all b h = absurd (cc h)
go_back-AllEnd (suc fuel) edges back last all b h =
    go_back_from-AllEnd fuel edges back last back.frontier all b.frontier b.can h
      (λ after c k. go_back-AllEnd fuel edges after last all c k)

-- Whatever the loop has in `can_reach_terminal` can end.
pub back_from_terminal-AllEnd :
    (fuel : ℕ) (edges : List Edge) (reachable : List MachineSnapshot) (last : Return)
    → AllSteps edges
    → go_back fuel edges (record {
      frontier = terminal_ones reachable;
      can_reach_terminal = terminal_ones reachable;
    })
      ≡ some last
    → AllEnd last.can_reach_terminal
back_from_terminal-AllEnd fuel edges reachable last all h =
    let ends = terminal-AllEnd reachable in
    go_back-AllEnd fuel edges _ last all (record { frontier = ends; can = ends }) h

pub In-CanEnd :
    (s : MachineSnapshot) (all : List MachineSnapshot) → AllEnd all → In s all → CanEnd s
unfolding AllEnd
In-CanEnd s [] h i = absurd i
In-CanEnd s (t ∷ all) h (inl same) = subst CanEnd same h.0
In-CanEnd s (t ∷ all) h (inr later) = In-CanEnd s all h.1 later
