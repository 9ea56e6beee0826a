-- ===== src/Formal/Complete.antt =====
-- The search of src/qmt_execution_core/formal.py, `_verify_scenario`, finds what interleavings reach.
use qmt_execution_core.Common.{
  ℕ, zero, suc, ◌≡◌, refl, sym, ◌∙◌, subst, ◌↔◌, ◌⊎◌, inl, inr, Bool, true, false, ◌||◌, Option,
  some, List, [], ◌∷◌, IsIn, either_true,
}
use qmt_execution_core.Errors.{Result, ok, bind_ok, ok_inj}
use qmt_execution_core.Formal.Shared.{Three, Process, FormalScenario}
use qmt_execution_core.Formal.Moves.{Successor, global_successors}
use qmt_execution_core.Formal.Checks.{is_all_working, has_cross_account_same_symbol_working}
use qmt_execution_core.Formal.Explore.{
  initial_state, Search, new_search, seen, visit, explore_queue, explore, verify_scenario, reported,
}
use qmt_execution_core.Formal.Terminates.{state_count}
use qmt_execution_core.Formal.Search.{verification_ends}
use qmt_execution_core.Formal.Recorded.{visit-Recorded, seen-IsIn, IsIn-seen}
use qmt_execution_core.Formal.Verified.{IsAmong, Reached, begin, next, InRange}

-- A reached state passes the test.
abbrev pub IsReachedWith : FormalScenario → (Three Process → Bool) → Type 0
IsReachedWith scenario test = (s : Three Process) × Reached scenario s × (test s ≡ true)

abbrev pub is_crossing : FormalScenario → Three Process → Bool
is_crossing scenario s = has_cross_account_same_symbol_working s scenario

module _ (scenario : FormalScenario) where
  -- the state was visited
  record IsExpanded (found : Search) (s : Three Process) : Type 0 where
    all : List Successor
    successors : global_successors s scenario ≡ ok all
    recorded : (t : Three Process) → IsAmong t all → IsIn t found.reachable
    working : is_all_working s ≡ true → found.all_working_reached ≡ true
    crossing :
        is_crossing scenario s ≡ true → found.cross_account_same_symbol_working_reached ≡ true

  record Invariant (found : Search) : Type 0 where
    honest : (s : Three Process) → IsIn s found.reachable → Reached scenario s
    waits : (s : Three Process) → IsIn s found.queue → IsIn s found.reachable
    started : IsIn initial_state found.reachable
    expanded :
        (s : Three Process) → IsIn s found.reachable → IsIn s found.queue ⊎ IsExpanded found s
    saw_working : found.all_working_reached ≡ true → IsReachedWith scenario is_all_working
    saw_crossing :
        found.cross_account_same_symbol_working_reached ≡ true
        → IsReachedWith scenario (is_crossing scenario)

  or_left : (a b : Bool) → a ≡ true → (a || b) ≡ true
  or_left a b h = rw h refl

  or_right : (a b : Bool) → b ≡ true → (a || b) ≡ true
  or_right true b h = refl
  or_right false b h = h

  pass-Invariant :
      (current : Three Process) (queue : List (Three Process)) (found after : Search)
      → found.queue ≡ current ∷ queue
      → Invariant found
      → visit scenario current (record found { queue = queue }) ≡ ok after
      → Invariant after
  pass-Invariant current queue found after q inv h =
      let (all, h₁, r) = visit-Recorded scenario current (record found { queue = queue }) after h in
      let present : IsIn current found.reachable =
        inv.waits current (subst (IsIn current) (sym q) (inl refl)) in
      let now : Reached scenario current = inv.honest current present in
      record {
        honest = λ s i. elim (r.fresh s i) [
          | inl old ↦ inv.honest s old
          | inr (w, m) ↦ next all now h₁ m
        ];
        waits = λ s i. elim (r.queued s i) [
          | inl old ↦ r.kept s (inv.waits s (subst (IsIn s) (sym q) (inr old)))
          | inr new ↦ new
        ];
        started = r.kept initial_state inv.started;
        expanded = λ s i. elim (r.fresh s i) [
          | inr (w, m) ↦ inl w
          | inl old ↦ elim (inv.expanded s old) [
            | inr done ↦ inr (record {
              all = done.all;
              successors = done.successors;
              recorded = λ t m. r.kept t (done.recorded t m);
              working = λ w. sym r.same_working ∙ or_right _ _ (done.working w);
              crossing = λ w. sym r.same_crossing ∙ or_right _ _ (done.crossing w);
            })
            | inl waiting ↦ elim (subst (IsIn s) q waiting) [
              | inr later ↦ inl (r.waiting s later)
              | inl same ↦ inr (
                  subst (IsExpanded after) same (record {
                    all = all;
                    successors = h₁;
                    recorded = r.closes;
                    working = λ w. sym r.same_working ∙ or_left _ _ w;
                    crossing = λ w. sym r.same_crossing ∙ or_left _ _ w;
                  }))
            ]
          ]
        ];
        saw_working = λ w. elim (either_true _ _ (r.same_working ∙ w)) [
          | inl n ↦ (current, now, n)
          | inr o ↦ inv.saw_working o
        ];
        saw_crossing = λ w. elim (either_true _ _ (r.same_crossing ∙ w)) [
          | inl n ↦ (current, now, n)
          | inr o ↦ inv.saw_crossing o
        ];
      }

  queue-Invariant :
      (again : Search → Result (Option Search)) (found last : Search) (queue : List (Three Process))
      → found.queue ≡ queue
      → Invariant found
      → explore_queue scenario found queue again ≡ ok (some last)
      → ((after : Search)
          → Invariant after
          → again after ≡ ok (some last)
          → Invariant last × (last.queue ≡ []))
      → Invariant last × (last.queue ≡ [])
  unfolding explore_queue
  queue-Invariant again found last [] q inv h goes_on =
      let same : found ≡ last = cc h in subst (λ f. Invariant f × (f.queue ≡ [])) same (inv, q)
  queue-Invariant again found last (current ∷ queue) q inv h goes_on =
      let (after, h₁, h₂) = bind_ok (visit scenario current (record found { queue = queue })) _ h in
      goes_on after (pass-Invariant current queue found after q inv h₁) h₂

  explore-Invariant :
      (fuel : ℕ) (found last : Search)
      → Invariant found
      → explore fuel scenario found ≡ ok (some last)
      → Invariant last × (last.queue ≡ [])
  unfolding explore
  explore-Invariant zero found last inv h = absurd (cc h)
  explore-Invariant (suc fuel) found last inv h =
      queue-Invariant (explore fuel scenario) found last found.queue refl inv h
        (λ after i k. explore-Invariant fuel after last i k)

  new-Invariant : Invariant new_search
  new-Invariant = record {
    honest = λ s. elim [ inl same ↦ subst (Reached scenario) same begin | inr h ↦ absurd h ];
    waits = λ s h. h;
    started = inl refl;
    expanded = λ s h. inl h;
    saw_working = λ w. absurd (cc w);
    saw_crossing = λ w. absurd (cc w);
  }

  module _ (last : Search) (inv : Invariant last) (ended : last.queue ≡ []) where
    visited : (s : Three Process) → IsIn s last.reachable → IsExpanded last s
    visited s i = elim (inv.expanded s i) [
      | inl waiting ↦ absurd (subst (IsIn s) ended waiting)
      | inr done ↦ done
    ]

    Reached-IsIn : {s : Three Process} → Reached scenario s → IsIn s last.reachable
    Reached-IsIn begin = inv.started
    Reached-IsIn (next {s} {t} all r h m) =
        let done = visited s (Reached-IsIn r) in
        done.recorded t (subst (IsAmong t) (ok_inj (sym h ∙ done.successors)) m)

-- If every process of a scenario names an account of it, the search ends within one pass for each
-- of the at most 2^51 global states, without an exception. The states that it has counted are
-- exactly those that an interleaving reaches, and a run with all three in WORKING, or with two of
-- them there on one symbol of two accounts, was seen exactly if an interleaving has it.
pub search_is_exact :
    (scenario : FormalScenario)
    → InRange scenario
    → (last : Search) × (explore (suc state_count) scenario new_search ≡ ok (some last))
      × (verify_scenario (suc state_count) scenario ≡ reported scenario (some last))
      × ((s : Three Process) → (seen s last.reachable ≡ true) ↔ Reached scenario s)
      × ((last.all_working_reached ≡ true) ↔ IsReachedWith scenario is_all_working)
      × ((last.cross_account_same_symbol_working_reached ≡ true)
          ↔ IsReachedWith scenario (is_crossing scenario))
search_is_exact scenario range =
    let (last, h, k) = verification_ends scenario range in
    let (inv, ended) =
      explore-Invariant scenario (suc state_count) new_search last (new-Invariant scenario) h in
    let found : (s : Three Process) → Reached scenario s → IsIn s last.reachable =
      λ s r. Reached-IsIn scenario last inv ended r in
    let seen_at : (s : Three Process) → Reached scenario s → IsExpanded scenario last s =
      λ s r. visited scenario last inv ended s (found s r) in
    (
      last,
      h,
      k,
      λ s. (
        λ a. inv.honest s (seen-IsIn s last.reachable a),
        λ r. IsIn-seen s last.reachable (found s r),
      ),
      (inv.saw_working, λ w. (seen_at w.0 w.1).working w.2),
      (inv.saw_crossing, λ w. (seen_at w.0 w.1).crossing w.2),
    )
