-- ===== src/Verifier/Explored.antt =====
-- What the forward loop of src/qmt_execution_core/verifier.py has recorded when it ends.
use qmt_execution_core.Common.{
  ℕ, zero, suc, ◌≡◌, refl, sym, subst, ◌⊎◌, inl, inr, true, false, some, List, [], ◌∷◌, ◌++◌, arith,
  Bool-cases,
}
use qmt_execution_core.Errors.{Result, ok, err, bind_ok, ok_inj, invalid_transition}
use qmt_execution_core.Domain.{TradeState, TradeEvent}
use qmt_execution_core.Domain.Events.{event_eq, event_eq_sound}
use qmt_execution_core.Machine.{MachineSnapshot, initial_snapshot, assert_invariants}
use qmt_execution_core.Machine.Equality.{member_of, In, member-In, In-append}
use qmt_execution_core.Machine.Reach.{Reachable, start, step, advance_parts}
use qmt_execution_core.Formal.{declared_events, step_, session_kwarg, precheck_kwarg}
use qmt_execution_core.Verifier.{
  Edge, Exploration, new_exploration, has_edge, has_pair, add_edge, add_pair, reach, note_edge,
  follow_event, follow_all, visit, explore_queue, explore, assert_v04_finality,
}
use qmt_execution_core.Verifier.Report.{is_event_in}
use qmt_execution_core.Verifier.Canonical.{declared_listed, canonical_step}

-- `_step` takes the edge.
abbrev pub IsStep : Edge → Type 0
IsStep e = step_ e.source e.event ≡ ok e.target

-- A reachable snapshot in the state takes the event.
abbrev pub IsTaken : TradeState → TradeEvent → Type 0
IsTaken s e =
    (src : MachineSnapshot) × Reachable src
    × (src.state ≡ s)
    × ((t : MachineSnapshot) × (step_ src e ≡ ok t))

abbrev pub AllSteps : List Edge → Type 0
AllSteps [] = Unit {0}
AllSteps (e ∷ edges) = IsStep e × AllSteps edges

abbrev pub AllTaken : List (TradeState × TradeEvent) → Type 0
AllTaken [] = Unit {0}
AllTaken ((s, e) ∷ pairs) = IsTaken s e × AllTaken pairs

abbrev pub AllReachable : List MachineSnapshot → Type 0
AllReachable [] = Unit {0}
AllReachable (s ∷ all) = Reachable s × AllReachable all

pub In-Reachable :
    (s : MachineSnapshot) (all : List MachineSnapshot) → AllReachable all → In s all → Reachable s
In-Reachable s [] h i = absurd i
In-Reachable s (t ∷ all) h (inl same) = subst Reachable same h.0
In-Reachable s (t ∷ all) h (inr later) = In-Reachable s all h.1 later

-- Nothing is recorded that is not so.
pub record IsHonest (found : Exploration) : Type 0 where
  pub reached : AllReachable found.reachable
  pub waits : AllReachable found.queue
  pub stepped : AllSteps found.edges
  pub pairs_taken : AllTaken found.reached_declared_edges

-- Nothing that was recorded is forgotten, and what is new waits in the queue.
pub record Grows (before after : Exploration) : Type 0 where
  pub kept : (s : MachineSnapshot) → In s before.reachable → In s after.reachable
  pub waiting : (s : MachineSnapshot) → In s before.queue → In s after.queue
  pub fresh :
      (s : MachineSnapshot) → In s after.reachable → In s before.reachable ⊎ In s after.queue

Grows-refl : (found : Exploration) → Grows found found
Grows-refl found = record { kept = λ s h. h; waiting = λ s h. h; fresh = λ s h. inl h }

Grows-trans : (a b c : Exploration) → Grows a b → Grows b c → Grows a c
Grows-trans a b c g h = record {
  kept = λ s i. h.kept s (g.kept s i);
  waiting = λ s i. h.waiting s (g.waiting s i);
  fresh = λ s i. elim (h.fresh s i) [
    | inr w ↦ inr w
    | inl j ↦ elim (g.fresh s j) [ inl k ↦ inl k | inr w ↦ inr (h.waiting s w) ]
  ];
}

reach-Grows : (s : MachineSnapshot) (found : Exploration) → Grows found (reach s found)
reach-Grows s found = elim (Bool-cases (member_of s found.reachable)) [
  | inl old ↦ rw old (Grows-refl found)
  | inr new ↦ rw new (record {
    kept = λ t h. inr h;
    waiting = λ t h. In-append t found.queue (s ∷ []) (inl h);
    fresh = λ t. elim [
      | inl same ↦ inr (In-append t found.queue (s ∷ []) (inr (inl same)))
      | inr old ↦ inl old
    ];
  })
]

reach-In : (s : MachineSnapshot) (found : Exploration) → In s (reach s found).reachable
reach-In s found = elim (Bool-cases (member_of s found.reachable)) [
  | inl old ↦ rw old (member-In s found.reachable old)
  | inr new ↦ rw new (inl refl)
]

AllReachable-append :
    (all : List MachineSnapshot) (s : MachineSnapshot)
    → AllReachable all
    → Reachable s
    → AllReachable (all ++ (s ∷ []))
AllReachable-append [] s h r = (r, tt)
AllReachable-append (t ∷ all) s h r = (h.0, AllReachable-append all s h.1 r)

reach-IsHonest :
    (s : MachineSnapshot) (found : Exploration)
    → Reachable s
    → IsHonest found
    → IsHonest (reach s found)
reach-IsHonest s found r h = elim (Bool-cases (member_of s found.reachable)) [
  | inl old ↦ rw old h
  | inr new ↦ rw new (record {
    reached = (r, h.reached);
    waits = AllReachable-append found.queue s h.waits r;
    stepped = h.stepped;
    pairs_taken = h.pairs_taken;
  })
]

add-AllSteps :
    (e : Edge) (edges : List Edge) → IsStep e → AllSteps edges → AllSteps (add_edge e edges)
add-AllSteps e edges h all = elim (Bool-cases (has_edge e edges)) [
  | inl old ↦ rw old all
  | inr new ↦ rw new (h, all)
]

add-AllTaken :
    (s : TradeState) (e : TradeEvent) (pairs : List (TradeState × TradeEvent))
    → IsTaken s e
    → AllTaken pairs
    → AllTaken (add_pair s e pairs)
add-AllTaken s e pairs h all = elim (Bool-cases (has_pair s e pairs)) [
  | inl old ↦ rw old all
  | inr new ↦ rw new (h, all)
]

note-IsHonest :
    (e : Edge) (found : Exploration)
    → IsStep e
    → Reachable e.source
    → IsHonest found
    → IsHonest (note_edge e found)
note-IsHonest e found h r honest = record {
  reached = honest.reached;
  waits = honest.waits;
  stepped = add-AllSteps e found.edges h honest.stepped;
  pairs_taken =
      add-AllTaken e.source.state e.event found.reached_declared_edges
        (e.source, r, refl, (e.target, h)) honest.pairs_taken;
}

-- What the handling of some events of a snapshot comes to.
pub record Followed (current : MachineSnapshot) (events : List TradeEvent)
    (before after : Exploration) : Type 0 where
  pub grows : Grows before after
  pub honest : Reachable current → IsHonest before → IsHonest after
  pub closes :
      (e : TradeEvent) (t : MachineSnapshot)
      → is_event_in e events ≡ true
      → step_ current e ≡ ok t
      → In t after.reachable

-- the same for one event, given the answer of `_step`
record Handled (current : MachineSnapshot) (e : TradeEvent) (answer : Result MachineSnapshot)
    (before after : Exploration) : Type 0 where
  grows : Grows before after
  honest : Reachable current → step_ current e ≡ answer → IsHonest before → IsHonest after
  closes : (t : MachineSnapshot) → answer ≡ ok t → In t after.reachable

follow_event_lem :
    (current : MachineSnapshot) (e : TradeEvent) (answer : Result MachineSnapshot)
    (before after : Exploration)
    → follow_event current e answer before ≡ ok after
    → Handled current e answer before after
unfolding follow_event
follow_event_lem current e (err invalid_transition) before after h =
    let same : before ≡ after = cc h in
    record {
      grows = subst (Grows before) same (Grows-refl before);
      honest = λ r a honest. subst IsHonest same honest;
      closes = λ t a. absurd (cc a);
    }
follow_event_lem current e (err _) before after h = absurd (cc h)
follow_event_lem current e (ok s) before after h =
    let (_, _, h₁) = bind_ok (assert_invariants s) _ h in
    let (_, _, h₂) = bind_ok (assert_v04_finality s) _ h₁ in
    let noted = note_edge (record { source = current; event = e; target = s }) before in
    let same : reach s noted ≡ after = cc h₂ in
    let grown = reach-Grows s noted in
    subst (Handled current e (ok s) before) same (record {
      grows = record { kept = grown.kept; waiting = grown.waiting; fresh = grown.fresh };
      honest = λ r a honest.
          reach-IsHonest s noted (step (session_kwarg e) (precheck_kwarg e) e r a)
            (note-IsHonest _ before a r honest);
      closes = λ t a. subst (λ u. In u (reach s noted).reachable) (ok_inj a) (reach-In s noted);
    })

else_listed :
    (e f : TradeEvent) (events : List TradeEvent)
    → event_eq e f ≡ false
    → is_event_in f (e ∷ events) ≡ true
    → is_event_in f events ≡ true
else_listed e f events differs listed = ground arith

follow_all_lem :
    (current : MachineSnapshot) (events : List TradeEvent) (before after : Exploration)
    → follow_all current events before ≡ ok after
    → Followed current events before after
unfolding follow_all
follow_all_lem current [] before after h =
    let same : before ≡ after = cc h in
    subst (Followed current [] before) same (record {
      grows = Grows-refl before;
      honest = λ r honest. honest;
      closes = λ e t listed a. absurd (cc listed);
    })
follow_all_lem current (e ∷ events) before after h =
    let (mid, h₁, h₂) = bind_ok (follow_event current e (step_ current e) before) _ h in
    let first = follow_event_lem current e (step_ current e) before mid h₁ in
    let rest = follow_all_lem current events mid after h₂ in
    record {
      grows = Grows-trans before mid after first.grows rest.grows;
      honest = λ r honest. rest.honest r (first.honest r refl honest);
      closes = λ f t listed a. elim (Bool-cases (event_eq e f)) [
        | inl same ↦
            let key : step_ current e ≡ ok t =
              subst (λ k. step_ current k ≡ ok t) (sym (event_eq_sound e f same)) a in
            rest.grows.kept t (first.closes t key)
        | inr differs ↦ rest.closes f t (else_listed e f events differs listed) a
      ];
    }

-- What a pass of the loop tests of its snapshot.
abbrev pub IsOk : MachineSnapshot → Type 0
IsOk s = (assert_invariants s ≡ ok tt) × (assert_v04_finality s ≡ ok tt)

-- It was tested, and all its successors are recorded.
unfoldable pub IsExpanded : Exploration → MachineSnapshot → Type 0
IsExpanded found s =
    IsOk s
    × ((e : TradeEvent) (t : MachineSnapshot)
        → is_event_in e (declared_events s.state) ≡ true
        → step_ s e ≡ ok t
        → In t found.reachable)

pub record Invariant (found : Exploration) : Type 0 where
  pub honest : IsHonest found
  pub started : In initial_snapshot found.reachable
  pub expanded :
      (s : MachineSnapshot) → In s found.reachable → In s found.queue ⊎ IsExpanded found s

visit_lem :
    (current : MachineSnapshot) (before after : Exploration)
    → visit current before ≡ ok after
    → IsOk current × Followed current (declared_events current.state) before after
unfolding visit
visit_lem current before after h =
    let (u, p, h₁) = bind_ok (assert_invariants current) _ h in
    let (v, q, h₂) = bind_ok (assert_v04_finality current) _ h₁ in
    ((p, q), follow_all_lem current (declared_events current.state) before after h₂)

pass-Invariant :
    (current : MachineSnapshot) (queue : List MachineSnapshot) (found after : Exploration)
    → found.queue ≡ current ∷ queue
    → Invariant found
    → visit current (record found { queue = queue }) ≡ ok after
    → Invariant after
unfolding IsExpanded
pass-Invariant current queue found after q inv h =
    let (fine, f) = visit_lem current _ after h in
    let waits : AllReachable (current ∷ queue) = subst AllReachable q inv.honest.waits in
    record {
      honest = f.honest waits.0 (record {
        reached = inv.honest.reached;
        waits = waits.1;
        stepped = inv.honest.stepped;
        pairs_taken = inv.honest.pairs_taken;
      });
      started = f.grows.kept initial_snapshot inv.started;
      expanded = λ s i. elim (f.grows.fresh s i) [
        | inr waiting ↦ inl waiting
        | inl old ↦ elim (inv.expanded s old) [
          | inr done ↦ inr (done.0, λ e t listed a. f.grows.kept t (done.1 e t listed a))
          | inl queued ↦ elim (subst (In s) q queued) [
            | inl same ↦ inr (subst (IsExpanded after) same (fine, f.closes))
            | inr later ↦ inl (f.grows.waiting s later)
          ]
        ]
      ];
    }

queue-Invariant :
    (fuel : ℕ) (found : Exploration) (queue : List MachineSnapshot) (last : Exploration)
    → found.queue ≡ queue
    → Invariant found
    → explore_queue found queue (explore fuel) ≡ ok (some last)
    → ((after : Exploration)
        → Invariant after
        → explore fuel after ≡ ok (some last)
        → Invariant last × (last.queue ≡ []))
    → Invariant last × (last.queue ≡ [])
unfolding explore_queue
queue-Invariant fuel found [] last q inv h again =
    let same : found ≡ last = cc h in subst (λ f. Invariant f × (f.queue ≡ [])) same (inv, q)
queue-Invariant fuel found (current ∷ queue) last q inv h again =
    let (after, h₁, h₂) = bind_ok (visit current (record found { queue = queue })) _ h in
    again after (pass-Invariant current queue found after q inv h₁) h₂

explore-Invariant :
    (fuel : ℕ) (found last : Exploration)
    → Invariant found
    → explore fuel found ≡ ok (some last)
    → Invariant last × (last.queue ≡ [])
unfolding explore
explore-Invariant zero found last inv h = absurd (cc h)
explore-Invariant (suc fuel) found last inv h =
    queue-Invariant fuel found found.queue last refl inv h
      (λ after i k. explore-Invariant fuel after last i k)

new-Invariant : Invariant new_exploration
new-Invariant = record {
  honest = record { reached = (start, tt); waits = (start, tt); stepped = tt; pairs_taken = tt };
  started = inl refl;
  expanded = λ s h. inl h;
}

-- What the loop has found when it ends.
pub explored :
    (fuel : ℕ) (last : Exploration)
    → explore fuel new_exploration ≡ ok (some last)
    → IsHonest last
      × (In initial_snapshot last.reachable)
      × ((s : MachineSnapshot) → In s last.reachable → IsExpanded last s)
explored fuel last h =
    let (inv, ended) = explore-Invariant fuel new_exploration last new-Invariant h in
    (
      inv.honest,
      inv.started,
      λ s i. elim (inv.expanded s i) [
        | inl queued ↦ absurd (subst (In s) ended queued)
        | inr done ↦ done
      ],
    )

-- Every reachable snapshot is among them.
pub Reachable-In :
    (last : Exploration)
    → In initial_snapshot last.reachable
    → ((s : MachineSnapshot) → In s last.reachable → IsExpanded last s)
    → {s : MachineSnapshot} → Reachable s
    → In s last.reachable
unfolding IsExpanded
Reachable-In last first done start = first
Reachable-In last first done (step {s} {t} se pe e r a) =
    (done s (Reachable-In last first done r)).1 e t
      (declared_listed s.state e t.state (advance_parts se pe e s t a).0)
      (canonical_step se pe e s t a)
