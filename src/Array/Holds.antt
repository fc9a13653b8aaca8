-- ===== src/Array/Holds.antt =====
-- What an array stands for: the list of the pointers in it, in order.
use emex_foundation.Base.{
  ℕ, zero, suc, ◌+◌, ◌*◌, ◌^◌, ◌<◌, Option, some, List, [], ◌∷◌, ◌++◌, ◌≡◌, refl, ap, arith, ◌∙◌,
  length, set, get_elem?, lt→ltb, pos, ok, length-append, ◌∙◌,
}
use emex_foundation.Array.Model.{Ptr, Array, load, store}

-- The written cells of a block that holds `xs`.
abbrev pub cells_of : List Ptr → List (Option Ptr)
cells_of [] = []
cells_of (x ∷ xs) = some x ∷ cells_of xs

-- The block holds the items of `xs` and then spare cells, and the capacity is that of the block.
pub record Holds {S : Type 0} (a : Array S) (xs : List Ptr) : Type 0 where
  pub spare : List (Option Ptr)
  pub cells : a.items ≡ cells_of xs ++ spare
  pub counted : a.items_count ≡ length xs
  pub capacity : a.items_capacity ≡ pos (length a.items)
  pub small : length a.items * 8 < 2 ^ 63

pub length-cells_of : (xs : List Ptr) → length (cells_of xs) ≡ length xs
length-cells_of [] = refl
length-cells_of (x ∷ xs) = ap suc (length-cells_of xs)

pub cells_of-append : (xs ys : List Ptr) → cells_of (xs ++ ys) ≡ cells_of xs ++ cells_of ys
cells_of-append [] ys = refl
cells_of-append (x ∷ xs) ys = ap (◌∷◌ (some x)) (cells_of-append xs ys)

pub load-cells :
    (xs : List Ptr) (spare : List (Option Ptr)) (i : ℕ) {x : Ptr}
    → get_elem? xs i ≡ some x
    → load (cells_of xs ++ spare) i ≡ ok x
load-cells [] spare i h = cc
load-cells (y ∷ xs) spare zero h = ground arith
load-cells (y ∷ xs) spare (suc i) h = load-cells xs spare i h

-- A write to the first spare cell.
pub set-cells :
    (xs : List Ptr) (c : Option Ptr) (spare : List (Option Ptr)) (p : Ptr)
    → set (cells_of xs ++ (c ∷ spare)) (length xs) (some p) ≡ cells_of (xs ++ (p ∷ [])) ++ spare
set-cells [] c spare p = refl
set-cells (x ∷ xs) c spare p = ap (◌∷◌ (some x)) (set-cells xs c spare p)

-- Storing a pointer behind the items takes up one spare cell.
pub store_end :
    (xs : List Ptr) (spare : List (Option Ptr)) (p : Ptr)
    → 0 < length spare
    → (rest : List (Option Ptr)) × (store (cells_of xs ++ spare) (length xs) p
        ≡ ok (cells_of (xs ++ (p ∷ [])) ++ rest))
      × (length rest + 1 ≡ length spare)
store_end xs [] p h = absurd (omega arith)
store_end xs (c ∷ spare) p h = (
  spare,
  rw (
    lt→ltb (length xs) (length (cells_of xs ++ (c ∷ spare)))
        (omega (arith, length-append (cells_of xs) (c ∷ spare), length-cells_of xs)),
    set-cells xs c spare p,
  ),
  omega arith,
)

module _ {S : Type 0} {a : Array S} {xs : List Ptr} (h : Holds a xs) where
  pub length-items : length a.items ≡ length xs + length h.spare
  length-items =
      ap length h.cells
      ∙ length-append (cells_of xs) h.spare
      ∙ ap (λ n. n + length h.spare) (length-cells_of xs)
