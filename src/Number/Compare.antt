-- ===== src/Number/Compare.antt =====
-- `EFNumberCompare` and the class's `equal` handler against the order of the integers.
use emex_foundation.Base.{ap, ◌∙◌, sym, true, false, some, ◌≡◌, ◌↔◌, arith, ◌<ℤ◌}
use emex_foundation.Number.{
  is_overflow, same_type, Number, less_than, equal_to, greater_than, compare, equal, NumberType,
}

-- Between two numbers of which neither is the overflow marker, whatever their types, the result
-- is less, equal or greater exactly as the integers are.
pub compare-order :
    (n m : Number)
    → is_overflow n.type ≡ false
    → is_overflow m.type ≡ false
    → ((compare (some n) (some m) ≡ less_than) ↔ (n.s128 <ℤ m.s128))
      × ((compare (some n) (some m) ≡ equal_to) ↔ (n.s128 ≡ m.s128))
      × ((compare (some n) (some m) ≡ greater_than) ↔ (m.s128 <ℤ n.s128))
unfolding compare
compare-order n m p q = ground arith

same_type-eq : (t u : NumberType) → same_type t u ≡ true → t ≡ u
same_type-eq t u h = ground arith

same_type_self : (t : NumberType) → same_type t t ≡ true
same_type_self t = ground arith

-- The class's `equal` handler says of a number that is not the overflow marker and of any other that
-- they are equal exactly when they have one type and `EFNumberCompare` finds neither less or greater.
pub equal-compare :
    (n m : Number)
    → is_overflow n.type ≡ false
    → (equal n m ≡ true) ↔ ((n.type ≡ m.type) × (compare (some n) (some m) ≡ equal_to))
unfolding equal compare
equal-compare n m p = (
  λ h. (same_type-eq n.type m.type (ground arith), ground arith),
  λ (e, c).
      let one : same_type n.type m.type ≡ true =
        ap (same_type n.type) (sym e) ∙ same_type_self n.type in
      let two : is_overflow m.type ≡ false = ap is_overflow (sym e) ∙ p in ground arith,
)
