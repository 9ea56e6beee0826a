-- ===== src/Verifier/Verified.antt =====
-- What a report of `verify_state_machine` in src/qmt_execution_core/verifier.py proves.
use qmt_execution_core.Common.{
  ℕ, ◌≡◌, refl, subst, ◌↔◌, inl, inr, Bool, true, false, ◌||◌, String, Option, none, some, List, [],
  ◌∷◌, ◌++◌, arith, Bool-cases, neither, length,
}
use qmt_execution_core.Errors.{ok, ◌>>=◌, bind_ok, raise_if, raise_if_ok, runtime_error}
use qmt_execution_core.Domain.{TradeState, TradeEvent}
use qmt_execution_core.Domain.Events.{event_eq, event_eq_sound}
use qmt_execution_core.Table.{transitions, is_terminal}
use qmt_execution_core.Machine.{
  MachineSnapshot, advance, declared, guarded, next_facts, assert_invariants,
}
use qmt_execution_core.Machine.Equality.{
  state_eq, state_eq_sound, facts_eq, member_of, member-In, In,
}
use qmt_execution_core.Machine.Reach.{Reachable}
use qmt_execution_core.Finality.{execution_finality}
use qmt_execution_core.Formal.{declared_events}
use qmt_execution_core.Verifier.{
  Exploration, explore, new_exploration, has_pair, explore_queue, visit, follow_event, follow_all,
  assert_v04_finality,
}
use qmt_execution_core.Verifier.Backward.{
  Return, go_back, terminal_ones, reverse, add_sources, go_back_from,
}
use qmt_execution_core.Verifier.Report.{
  StateMachineReport, SourceDigests, all_states, pairs_of, declared_edges, has_missing_edge,
  has_missing_state, has_nonterminating, has_illegal_unknown_event, is_event_in, last_checks,
  after_exploration, verify_state_machine,
}
use qmt_execution_core.Verifier.Canonical.{declared_listed}
use qmt_execution_core.Verifier.Explored.{
  IsTaken, AllTaken, IsOk, IsExpanded, explored, Reachable-In, In-Reachable,
}
use qmt_execution_core.Verifier.Paths.{CanEnd, back_from_terminal-AllEnd, In-CanEnd}

pair-IsTaken :
    (s : TradeState) (e : TradeEvent) (pairs : List (TradeState × TradeEvent))
    → AllTaken pairs
    → has_pair s e pairs ≡ true
    → IsTaken s e
pair-IsTaken s e [] all h = absurd (cc h)
pair-IsTaken s e ((t, f) ∷ pairs) all h = elim (Bool-cases (event_eq f e)) [
  | inr differs ↦ pair-IsTaken s e pairs all.1 (ground (arith, differs, h))
  | inl same ↦ elim (Bool-cases (state_eq t s)) [
    | inr differs ↦ pair-IsTaken s e pairs all.1 (ground (arith, differs, h))
    | inl equal ↦
        subst (λ u. IsTaken u e) (state_eq_sound t s equal)
          (subst (λ g. IsTaken t g) (event_eq_sound f e same) all.0)
  ]
]

missing_append :
    (xs ys : List (TradeState × TradeEvent)) (reached : List (TradeState × TradeEvent))
    → has_missing_edge (xs ++ ys) reached ≡ false
    → (has_missing_edge xs reached ≡ false) × (has_missing_edge ys reached ≡ false)
unfolding has_missing_edge
missing_append [] ys reached h = (refl, h)
missing_append ((s, e) ∷ xs) ys reached h =
    let (p, rest) = neither (has_pair s e reached) _ h in
    let (u, v) = missing_append xs ys reached rest in (rw (p, u) refl, v)

listed_pair :
    (s : TradeState) (e : TradeEvent) (events : List TradeEvent)
    (reached : List (TradeState × TradeEvent))
    → has_missing_edge (pairs_of s events) reached ≡ false
    → is_event_in e events ≡ true
    → has_pair s e reached ≡ true
unfolding has_missing_edge
listed_pair s e [] reached h i = absurd (cc i)
listed_pair s e (f ∷ events) reached h i =
    let (p, rest) = neither (has_pair s f reached) _ h in
    elim (Bool-cases (event_eq f e)) [
      | inl same ↦ subst (λ g. has_pair s g reached ≡ true) (event_eq_sound f e same) p
      | inr differs ↦ listed_pair s e events reached rest (ground (arith, differs, i))
    ]

abbrev stands_in : TradeState → List TradeState → Bool
stands_in s [] = false
stands_in s (t ∷ states) = state_eq t s || stands_in s states

all_listed : (s : TradeState) → stands_in s all_states ≡ true
all_listed s = ground arith

declared_pair :
    (s : TradeState) (e : TradeEvent) (states : List TradeState)
    (reached : List (TradeState × TradeEvent))
    → has_missing_edge (declared_edges states) reached ≡ false
    → stands_in s states ≡ true
    → is_event_in e (declared_events s) ≡ true
    → has_pair s e reached ≡ true
unfolding declared_edges
declared_pair s e [] reached h l i = absurd (cc l)
declared_pair s e (t ∷ states) reached h l i =
    let (p, q) = missing_append (pairs_of t (declared_events t)) _ reached h in
    elim (Bool-cases (state_eq t s)) [
      | inl same ↦
          let key = state_eq_sound t s same in
          listed_pair s e (declared_events s) reached
            (subst (λ u. has_missing_edge (pairs_of u (declared_events u)) reached ≡ false) key p) i
      | inr differs ↦ declared_pair s e states reached q (ground (arith, differs, l)) i
    ]

none_missing :
    (s : MachineSnapshot) (all can : List MachineSnapshot)
    → has_nonterminating all can ≡ false
    → In s all
    → In s can
unfolding has_nonterminating
none_missing s [] can h i = absurd i
none_missing s (t ∷ all) can h (inl same) =
    let (found, rest) = neither (member_of t can) _ h in
    subst (λ u. In u can) same (member-In t can found)
none_missing s (t ∷ all) can h (inr later) =
    let (found, rest) = neither (member_of t can) _ h in none_missing s all can rest later

-- What a report says of the machine.
pub record IsConclusive (report : StateMachineReport) : Type 0 where
  pub found : List MachineSnapshot
  pub counted : length found ≡ report.reachable_abstract_states
  pub are_reachable : (s : MachineSnapshot) → In s found ↔ Reachable s
  pub are_ok : (s : MachineSnapshot) → Reachable s → IsOk s × CanEnd s
  pub are_taken :
      (s : TradeState) (e : TradeEvent) (t : TradeState) → transitions s e ≡ some t → IsTaken s e

module _ (fuel : ℕ) (digests : SourceDigests) (report : StateMachineReport) where
  after_loops :
      (found : Exploration) (back : Option Return)
      → explore fuel new_exploration ≡ ok (some found)
      → go_back fuel found.edges (record {
        frontier = terminal_ones found.reachable;
        can_reach_terminal = terminal_ones found.reachable;
      })
        ≡ back
      → has_missing_edge (declared_edges all_states) found.reached_declared_edges ≡ false
      → last_checks digests found back ≡ ok (some report)
      → IsConclusive report
  unfolding last_checks IsExpanded
  after_loops found none forward backward missing h = absurd (cc h)
  after_loops found (some back) forward backward missing h =
      let (honest, first, done) = explored fuel found forward in
      let (_, ends, h₁) =
        bind_ok
          (raise_if (has_nonterminating found.reachable back.can_reach_terminal) runtime_error) _
          h in
      let (_, _, h₂) = bind_ok (raise_if has_illegal_unknown_event runtime_error) _ h₁ in
      let (sources, _, h₃) = bind_ok digests.sources _ h₂ in
      let all_end =
        back_from_terminal-AllEnd fuel found.edges found.reachable back honest.stepped backward in
      record {
        found = found.reachable;
        counted = cc h₃;
        are_reachable = λ s.
            (In-Reachable s found.reachable honest.reached, λ r. Reachable-In found first done r);
        are_ok = λ s r.
            let i = Reachable-In found first done r in
            (
              (done s i).0,
              In-CanEnd s back.can_reach_terminal all_end
                  (none_missing s found.reachable back.can_reach_terminal (raise_if_ok _ _ ends) i),
            );
        are_taken = λ s e t h. pair-IsTaken s e found.reached_declared_edges honest.pairs_taken (
            declared_pair s e all_states found.reached_declared_edges missing (all_listed s)
              (declared_listed s e t h));
      }

  after_forward :
      (found : Option Exploration)
      → explore fuel new_exploration ≡ ok found
      → after_exploration fuel digests found ≡ ok (some report)
      → IsConclusive report
  unfolding after_exploration
  after_forward none forward h = absurd (cc h)
  after_forward (some found) forward h =
      let (_, missing, h₁) =
        bind_ok
          (raise_if (has_missing_edge (declared_edges all_states) found.reached_declared_edges)
            runtime_error)
          _ h in
      let (_, _, h₂) =
        bind_ok (raise_if (has_missing_state all_states found.reachable) runtime_error) _ h₁ in
      after_loops found _ forward refl (raise_if_ok _ _ missing) h₂

  report-IsConclusive : verify_state_machine fuel digests ≡ ok (some report) → IsConclusive report
  unfolding verify_state_machine
  report-IsConclusive h =
      let (found, forward, h₁) = bind_ok (explore fuel new_exploration) _ h in
      after_forward found forward h₁

-- what the check reports
abbrev pub report_of : (spec source : String) → StateMachineReport
report_of spec source = record {
  reachable_abstract_states = 52;
  reachable_transitions = 211;
  declared_states = 16;
  declared_transitions = 80;
  spec_sha256 = spec;
  source_sha256 = source;
}

-- Only the hash of the sources can fail.
pub check_is_hash :
    (digests : SourceDigests)
    → verify_state_machine 53 digests
      ≡ (digests.sources >>= λ source. ok (some (report_of digests.spec source)))
unfolding verify_state_machine after_exploration last_checks declared_edges has_missing_edge
    has_nonterminating has_illegal_unknown_event explore explore_queue visit follow_event follow_all
    assert_v04_finality reverse terminal_ones add_sources go_back go_back_from declared_events
    advance declared guarded next_facts assert_invariants transitions is_terminal execution_finality
    facts_eq
check_is_hash digests = refl

-- If the sources can be hashed, the check of the machine returns a report within 53 passes of each
-- loop. The snapshots it counted are exactly those that `advance` reaches with any evidence; each
-- of them satisfies the invariants and the rules of finality and leads to a terminal snapshot; and
-- every declared transition is taken from one of them.
pub check_passes-IsConclusive :
    (digests : SourceDigests) (source : String)
    → digests.sources ≡ ok source
    → (report : StateMachineReport) × (verify_state_machine 53 digests ≡ ok (some report))
      × IsConclusive report
check_passes-IsConclusive digests source h =
    let passed : verify_state_machine 53 digests ≡ ok (some (report_of digests.spec source)) =
      rw (check_is_hash digests, h) refl in
    (report_of digests.spec source, passed, report-IsConclusive 53 digests _ passed)
