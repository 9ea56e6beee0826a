-- ===== src/Recovery/Identity.antt =====
-- `find_unique_managed_order` of recovery.py finds an order exactly when there is one.
use qmt_execution_core.Common.{
  ℕ, ◌≡◌, ◌↔◌, true, String, str_eq, eq_iff, eq_refl, List, [], ◌∷◌, arith, both_true, matches,
  IsOnlyOne, matches-IsOnlyOne,
}
use qmt_execution_core.Errors.{Error, ok, err, recovery_ambiguous}
use qmt_execution_core.Domain.{Side, side_eq, BrokerOrder}
use qmt_execution_core.Recovery.{has_identity, only_match, find_unique_managed_order}

-- The order carries the durable identity.
abbrev pub IsManaged : String → Side → ℕ → String → BrokerOrder → Type 0
IsManaged symbol side qty remark o =
    (o.order_remark ≡ remark) × (o.symbol ≡ symbol) × (o.side ≡ side) × (o.qty ≡ qty)

side_eq_sound : (a b : Side) → side_eq a b ≡ true → a ≡ b
side_eq_sound a b h = ground arith

side_eq_refl : (a : Side) → side_eq a a ≡ true
side_eq_refl a = ground arith

has_identity-IsManaged :
    (symbol : String) (side : Side) (qty : ℕ) (remark : String) (o : BrokerOrder)
    → (has_identity symbol side qty remark o ≡ true) ↔ IsManaged symbol side qty remark o
unfolding has_identity
has_identity-IsManaged symbol side qty remark o = (
  λ h.
      let (a, h₁) = both_true (str_eq o.order_remark remark) _ h in
      let (b, h₂) = both_true (str_eq o.symbol symbol) _ h₁ in
      let (c, d) = both_true (side_eq o.side side) _ h₂ in
      ((eq_iff _ _).0 a, (eq_iff _ _).0 b, side_eq_sound _ _ c, ground (arith, d)),
  λ m.
      let (a, b, c, d) = m in
      rw (a, b, c, d) (rw (eq_refl remark, eq_refl symbol, side_eq_refl side) (ground arith)),
)

only_match_iff : (os : List BrokerOrder) (o : BrokerOrder) → (only_match os ≡ ok o) ↔ (os ≡ o ∷ [])
unfolding only_match
only_match_iff [] o = (λ h. cc, λ h. cc)
only_match_iff (p ∷ []) o = (λ h. cc, λ h. cc)
only_match_iff (p ∷ q ∷ os) o = (λ h. cc, λ h. cc)

only_match_err :
    (os : List BrokerOrder) (x : Error) → only_match os ≡ err x → x ≡ recovery_ambiguous
unfolding only_match
only_match_err [] x h = cc
only_match_err (p ∷ []) x h = cc
only_match_err (p ∷ q ∷ os) x h = cc

-- The search returns an order exactly if that order stands at one place of the broker's list,
-- carries the durable remark, symbol, side and quantity, and no other entry does; everything else,
-- no match included, is refused as ambiguous.
pub finds_unique_order :
    (orders : List BrokerOrder) (symbol : String) (side : Side) (qty : ℕ) (remark : String)
    → ((o : BrokerOrder)
        → (find_unique_managed_order orders symbol side qty remark ≡ ok o)
          ↔ IsOnlyOne (IsManaged symbol side qty remark) orders o)
      × ((x : Error)
          → find_unique_managed_order orders symbol side qty remark ≡ err x
          → x ≡ recovery_ambiguous)
unfolding find_unique_managed_order
finds_unique_order orders symbol side qty remark =
    let p = has_identity symbol side qty remark in
    let only : (o : BrokerOrder)
        → (matches p orders ≡ o ∷ []) ↔ IsOnlyOne (IsManaged symbol side qty remark) orders o =
      matches-IsOnlyOne p (IsManaged symbol side qty remark)
        (has_identity-IsManaged symbol side qty remark) orders in
    (
      λ o. (
        λ h. (only o).0 ((only_match_iff (matches p orders) o).0 h),
        λ m. (only_match_iff (matches p orders) o).1 ((only o).1 m),
      ),
      λ x h. only_match_err (matches p orders) x h,
    )
