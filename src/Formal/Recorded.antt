-- ===== src/Formal/Recorded.antt =====
-- What one pass of the loop in src/qmt_execution_core/formal.py, `_verify_scenario`, records.
use qmt_execution_core.Common.{
  ◌≡◌, refl, sym, ◌∙◌, subst, ◌⊎◌, inl, inr, true, List, [], ◌∷◌, ◌++◌, ◌==◌, arith, Bool-cases,
  IsIn, IsIn-left, IsIn-right,
}
use qmt_execution_core.Errors.{ok, bind_ok}
use qmt_execution_core.Formal.Shared.{Three, Index, Process, FormalScenario}
use qmt_execution_core.Formal.Moves.{Label, Successor, global_successors}
use qmt_execution_core.Formal.Checks.{assert_global_invariants}
use qmt_execution_core.Formal.Explore.{
  Search, all_terminal, state_code, seen, record_successor, record_all, count_deadlock, witnessed,
  visit,
}
use qmt_execution_core.Formal.Codes.{state_code_inj}
use qmt_execution_core.Formal.Verified.{IsAmong}

pub seen-IsIn : (s : Three Process) (all : List (Three Process)) → seen s all ≡ true → IsIn s all
seen-IsIn s [] h = absurd (cc h)
seen-IsIn s (t ∷ all) h = elim (Bool-cases (state_code t == state_code s)) [
  | inl same ↦ inl (state_code_inj t s (ground (arith, same)))
  | inr differs ↦ inr (seen-IsIn s all (ground (arith, differs, h)))
]

pub IsIn-seen : (s : Three Process) (all : List (Three Process)) → IsIn s all → seen s all ≡ true
IsIn-seen s [] h = absurd h
IsIn-seen s (t ∷ all) (inl same) = rw same (ground arith)
IsIn-seen s (t ∷ all) (inr h) = ground (arith, IsIn-seen s all h)

module _ (t : Three Process) where
  among_left : (xs ys : List Successor) → IsAmong t xs → IsAmong t (xs ++ ys)
  among_left [] ys h = absurd h
  among_left (x ∷ xs) ys (inl same) = inl same
  among_left (x ∷ xs) ys (inr h) = inr (among_left xs ys h)

  among_right : (xs ys : List Successor) → IsAmong t ys → IsAmong t (xs ++ ys)
  among_right [] ys h = h
  among_right (x ∷ xs) ys h = inr (among_right xs ys h)

  among_split : (xs ys : List Successor) → IsAmong t (xs ++ ys) → IsAmong t xs ⊎ IsAmong t ys
  among_split [] ys h = inr h
  among_split (x ∷ xs) ys (inl same) = inl (inl same)
  among_split (x ∷ xs) ys (inr h) = elim (among_split xs ys h) [
    | inl a ↦ inl (inr a)
    | inr b ↦ inr b
  ]

-- The successors are recorded: nothing is forgotten, nothing else is added, and what is new waits.
pub record Recorded (all : List Successor) (before after : Search) : Type 0 where
  pub kept : (s : Three Process) → IsIn s before.reachable → IsIn s after.reachable
  pub waiting : (s : Three Process) → IsIn s before.queue → IsIn s after.queue
  pub fresh :
      (s : Three Process)
      → IsIn s after.reachable
      → IsIn s before.reachable ⊎ (IsIn s after.queue × IsAmong s all)
  pub queued :
      (s : Three Process) → IsIn s after.queue → IsIn s before.queue ⊎ IsIn s after.reachable
  pub closes : (s : Three Process) → IsAmong s all → IsIn s after.reachable
  pub same_working : before.all_working_reached ≡ after.all_working_reached
  pub same_crossing :
      before.cross_account_same_symbol_working_reached
      ≡ after.cross_account_same_symbol_working_reached

Recorded-trans :
    (xs ys : List Successor) (a b c : Search)
    → Recorded xs a b
    → Recorded ys b c
    → Recorded (xs ++ ys) a c
Recorded-trans xs ys a b c g h = record {
  kept = λ s i. h.kept s (g.kept s i);
  waiting = λ s i. h.waiting s (g.waiting s i);
  fresh = λ s i. elim (h.fresh s i) [
    | inr (w, m) ↦ inr (w, among_right s xs ys m)
    | inl j ↦ elim (g.fresh s j) [
      | inl k ↦ inl k
      | inr (w, m) ↦ inr (h.waiting s w, among_left s xs ys m)
    ]
  ];
  queued = λ s i. elim (h.queued s i) [
    | inr r ↦ inr r
    | inl j ↦ elim (g.queued s j) [ inl k ↦ inl k | inr r ↦ inr (h.kept s r) ]
  ];
  closes = λ s i. elim (among_split s xs ys i) [
    | inl x ↦ h.kept s (g.closes s x)
    | inr y ↦ h.closes s y
  ];
  same_working = g.same_working ∙ h.same_working;
  same_crossing = g.same_crossing ∙ h.same_crossing;
}

-- Neither the lists nor the flags change.
Recorded-same :
    (a b : Search)
    → a.reachable ≡ b.reachable
    → a.queue ≡ b.queue
    → a.all_working_reached ≡ b.all_working_reached
    → a.cross_account_same_symbol_working_reached ≡ b.cross_account_same_symbol_working_reached
    → Recorded [] a b
Recorded-same a b r q w x = record {
  kept = λ s i. subst (IsIn s) r i;
  waiting = λ s i. subst (IsIn s) q i;
  fresh = λ s i. inl (subst (IsIn s) (sym r) i);
  queued = λ s i. inl (subst (IsIn s) (sym q) i);
  closes = λ s i. absurd i;
  same_working = w;
  same_crossing = x;
}

in_appended :
    (s t : Three Process) (queue : List (Three Process))
    → IsIn s (queue ++ (t ∷ []))
    → IsIn s queue ⊎ (t ≡ s)
in_appended s t [] (inl same) = inr same
in_appended s t [] (inr h) = absurd h
in_appended s t (u ∷ queue) (inl same) = inl (inl same)
in_appended s t (u ∷ queue) (inr h) = elim (in_appended s t queue h) [
  | inl i ↦ inl (inr i)
  | inr same ↦ inr same
]

successor-Recorded :
    (i : Index) (label : Label) (s : Three Process) (found : Search)
    → Recorded ((i, label, s) ∷ []) found (record_successor s found)
unfolding record_successor
successor-Recorded i label s found = elim (Bool-cases (seen s found.reachable)) [
  | inl old ↦ rw old (record {
    kept = λ t h. h;
    waiting = λ t h. h;
    fresh = λ t h. inl h;
    queued = λ t h. inl h;
    closes = λ t. elim [
      | inl same ↦ subst (λ u. IsIn u found.reachable) same (seen-IsIn s found.reachable old)
      | inr h ↦ absurd h
    ];
    same_working = refl;
    same_crossing = refl;
  })
  | inr new ↦ rw new (record {
    kept = λ t h. inr h;
    waiting = λ t h. IsIn-left t found.queue (s ∷ []) h;
    fresh = λ t. elim [
      | inl same ↦ inr (IsIn-right t found.queue (s ∷ []) (inl same), inl same)
      | inr h ↦ inl h
    ];
    queued =
        λ t h. elim (in_appended t s found.queue h) [ inl i ↦ inl i | inr same ↦ inr (inl same) ];
    closes = λ t. elim [ inl same ↦ inl same | inr h ↦ absurd h ];
    same_working = refl;
    same_crossing = refl;
  })
]

all-Recorded :
    (scenario : FormalScenario) (all : List Successor) (before after : Search)
    → record_all scenario all before ≡ ok after
    → Recorded all before after
unfolding record_all
all-Recorded scenario [] before after h =
    let same : before ≡ after = cc h in
    subst (Recorded [] before) same (Recorded-same before before refl refl refl refl)
all-Recorded scenario ((i, label, s) ∷ rest) before after h =
    let (_, _, later) = bind_ok (assert_global_invariants s scenario) _ h in
    Recorded-trans ((i, label, s) ∷ []) rest before (record_successor s before) after
      (successor-Recorded i label s before)
      (all-Recorded scenario rest (record_successor s before) after later)

counted-Recorded :
    (current : Three Process) (all : List Successor) (before after : Search)
    → count_deadlock current all before ≡ ok after
    → Recorded [] before after
unfolding count_deadlock
counted-Recorded current (s ∷ rest) before after h =
    let same : before ≡ after = cc h in
    subst (Recorded [] before) same (Recorded-same before before refl refl refl refl)
counted-Recorded current [] before after h = elim (Bool-cases (all_terminal current)) [
  | inl ended ↦ let g = rw ended at h in Recorded-same before after (cc g) (cc g) (cc g) (cc g)
  | inr going ↦ absurd (cc (rw going at h))
]

pub visit-Recorded :
    (scenario : FormalScenario) (current : Three Process) (before after : Search)
    → visit scenario current before ≡ ok after
    → (all : List Successor) × (global_successors current scenario ≡ ok all)
      × Recorded all (witnessed scenario current before) after
unfolding visit
visit-Recorded scenario current before after h =
    let (_, _, h₁) = bind_ok (assert_global_invariants current scenario) _ h in
    let (all, found, h₂) = bind_ok (global_successors current scenario) _ h₁ in
    let (counted, c, h₃) =
      bind_ok (count_deadlock current all (witnessed scenario current before)) _ h₂ in
    (
      all,
      found,
      Recorded-trans [] all (witnessed scenario current before) counted after
          (counted-Recorded current all _ counted c) (all-Recorded scenario all counted after h₃),
    )
