-- ===== src/Machine/Equality.antt =====
-- The equality and the sets of src/qmt_execution_core/state_machine.py's frozen `MachineSnapshot`.
use qmt_execution_core.Common.{
  ℕ, ◌≡◌, refl, ◌⊎◌, inl, inr, Bool, true, false, ◌&&◌, ◌||◌, List, [], ◌∷◌, ◌++◌, ◌==◌, arith,
  Bool-cases, both_true,
}
use qmt_execution_core.Domain.{TradeState, SafetyFacts}
use qmt_execution_core.Machine.{MachineSnapshot}

-- the position of a member in the class
abbrev pub rank : TradeState → ℕ
rank TradeState.idle = 0
rank TradeState.wait_trigger = 1
rank TradeState.trigger = 2
rank TradeState.pre_check = 3
rank TradeState.submitted = 4
rank TradeState.accepted = 5
rank TradeState.working = 6
rank TradeState.unknown = 7
rank TradeState.partially_filled = 8
rank TradeState.pending_cancel = 9
rank TradeState.cancelling = 10
rank TradeState.filled = 11
rank TradeState.cancelled = 12
rank TradeState.rejected = 13
rank TradeState.cancel_rejected = 14
rank TradeState.failed = 15

abbrev pub state_eq : TradeState → TradeState → Bool
state_eq s t = rank s == rank t

abbrev pub bool_eq : Bool → Bool → Bool
bool_eq true b = b
bool_eq false true = false
bool_eq false false = true

unfoldable pub facts_eq : SafetyFacts → SafetyFacts → Bool
facts_eq f g =
    bool_eq f.environment_verified g.environment_verified
    && (bool_eq f.account_verified g.account_verified
        && (bool_eq f.broker_snapshot_verified g.broker_snapshot_verified
            && (bool_eq f.position_verified g.position_verified
                && (bool_eq f.cash_verified g.cash_verified
                    && (bool_eq f.quote_verified g.quote_verified
                        && (bool_eq f.intent_persisted g.intent_persisted
                            && (bool_eq f.reservation_persisted g.reservation_persisted
                                && (bool_eq f.unresolved_order g.unresolved_order
                                    && (bool_eq f.terminal_order_confirmed
                                          g.terminal_order_confirmed
                                        && (bool_eq f.submitted_once g.submitted_once
                                            && bool_eq f.cancel_intent_persisted
                                                g.cancel_intent_persisted))))))))))

abbrev pub snapshot_eq : MachineSnapshot → MachineSnapshot → Bool
snapshot_eq s t = state_eq s.state t.state && facts_eq s.facts t.facts

pub state_eq_sound : (s t : TradeState) → state_eq s t ≡ true → s ≡ t
state_eq_sound s t h = ground arith

state_eq_refl : (s : TradeState) → state_eq s s ≡ true
state_eq_refl s = ground arith

bool_eq_sound : (a b : Bool) → bool_eq a b ≡ true → a ≡ b
bool_eq_sound a b h = ground arith

facts_eq_refl : (f : SafetyFacts) → facts_eq f f ≡ true
unfolding facts_eq
facts_eq_refl f = ground arith

facts_eq_sound : (f g : SafetyFacts) → facts_eq f g ≡ true → f ≡ g
unfolding facts_eq
facts_eq_sound f g h =
    let (p0, h0) = both_true (bool_eq f.environment_verified g.environment_verified) _ h in
    let (p1, h1) = both_true (bool_eq f.account_verified g.account_verified) _ h0 in
    let (p2, h2) = both_true (bool_eq f.broker_snapshot_verified g.broker_snapshot_verified) _ h1 in
    let (p3, h3) = both_true (bool_eq f.position_verified g.position_verified) _ h2 in
    let (p4, h4) = both_true (bool_eq f.cash_verified g.cash_verified) _ h3 in
    let (p5, h5) = both_true (bool_eq f.quote_verified g.quote_verified) _ h4 in
    let (p6, h6) = both_true (bool_eq f.intent_persisted g.intent_persisted) _ h5 in
    let (p7, h7) = both_true (bool_eq f.reservation_persisted g.reservation_persisted) _ h6 in
    let (p8, h8) = both_true (bool_eq f.unresolved_order g.unresolved_order) _ h7 in
    let (p9, h9) = both_true (bool_eq f.terminal_order_confirmed g.terminal_order_confirmed) _ h8 in
    let (p10, h10) = both_true (bool_eq f.submitted_once g.submitted_once) _ h9 in
    cc (
      bool_eq_sound f.environment_verified g.environment_verified p0,
      bool_eq_sound f.account_verified g.account_verified p1,
      bool_eq_sound f.broker_snapshot_verified g.broker_snapshot_verified p2,
      bool_eq_sound f.position_verified g.position_verified p3,
      bool_eq_sound f.cash_verified g.cash_verified p4,
      bool_eq_sound f.quote_verified g.quote_verified p5,
      bool_eq_sound f.intent_persisted g.intent_persisted p6,
      bool_eq_sound f.reservation_persisted g.reservation_persisted p7,
      bool_eq_sound f.unresolved_order g.unresolved_order p8,
      bool_eq_sound f.terminal_order_confirmed g.terminal_order_confirmed p9,
      bool_eq_sound f.submitted_once g.submitted_once p10,
      bool_eq_sound f.cancel_intent_persisted g.cancel_intent_persisted h10,
    )

pub snapshot_eq_refl : (s : MachineSnapshot) → snapshot_eq s s ≡ true
snapshot_eq_refl s = ground (arith, state_eq_refl s.state, facts_eq_refl s.facts)

pub snapshot_eq_sound : (s t : MachineSnapshot) → snapshot_eq s t ≡ true → s ≡ t
snapshot_eq_sound s t h =
    let (p, q) = both_true (state_eq s.state t.state) _ h in
    cc (state_eq_sound s.state t.state p, facts_eq_sound s.facts t.facts q)

-- `snapshot in reachable`
abbrev pub member_of : MachineSnapshot → List MachineSnapshot → Bool
member_of s [] = false
member_of s (t ∷ all) = snapshot_eq t s || member_of s all

abbrev pub In : MachineSnapshot → List MachineSnapshot → Type 0
In s [] = ⊥
In s (t ∷ all) = (t ≡ s) ⊎ In s all

pub member-In :
    (s : MachineSnapshot) (all : List MachineSnapshot) → member_of s all ≡ true → In s all
member-In s [] h = absurd (cc h)
member-In s (t ∷ all) h = elim (Bool-cases (snapshot_eq t s)) [
  | inl same ↦ inl (snapshot_eq_sound t s same)
  | inr differs ↦ inr (member-In s all (ground (arith, differs, h)))
]

pub In-member :
    (s : MachineSnapshot) (all : List MachineSnapshot) → In s all → member_of s all ≡ true
In-member s [] h = absurd h
In-member s (t ∷ all) (inl same) = rw (same, snapshot_eq_refl s) refl
In-member s (t ∷ all) (inr later) = ground (arith, In-member s all later)

pub In-append :
    (s : MachineSnapshot) (all more : List MachineSnapshot)
    → In s all ⊎ In s more
    → In s (all ++ more)
In-append s [] more h = ground (arith, h)
In-append s (t ∷ all) more (inl (inl same)) = inl same
In-append s (t ∷ all) more (inl (inr later)) = inr (In-append s all more (inl later))
In-append s (t ∷ all) more (inr later) = inr (In-append s all more (inr later))
