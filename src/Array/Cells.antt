-- ===== src/Array/Cells.antt =====
-- The two `memmove` calls of src/EFArray.c, on a block that holds a list.
use emex_foundation.Base.{
  ℕ, zero, suc, ◌+◌, ◌≤◌, Option, some, List, [], ◌∷◌, ◌++◌, ◌≡◌, ap, ap₂, ◌∙◌, sym, arith, length,
  take, drop, set, ok, ◌==◌, take-append-drop, Bool-cases, inl, inr, ==→eq, le→leb, take-append,
}
use emex_foundation.Array.Model.{Ptr, memmove}
use emex_foundation.Array.Holds.{cells_of, length-cells_of}

-- The list with an item put in, and with one taken out.
abbrev pub insert_at : ℕ → Ptr → List Ptr → List Ptr
insert_at i p xs = take i xs ++ (p ∷ drop i xs)

abbrev pub remove_at : ℕ → List Ptr → List Ptr
remove_at i xs = take i xs ++ drop (suc i) xs

-- A move inside the block, a move of nothing included.
pub memmove-moved :
    (dst src n : ℕ) (cells : List (Option Ptr))
    → dst + n ≤ length cells
    → src + n ≤ length cells
    → memmove dst src n cells
      ≡ ok (take dst cells ++ (take n (drop src cells) ++ drop (dst + n) cells))
memmove-moved dst src n cells h k = elim (Bool-cases (n == 0)) [
  | inl z ↦
      let e : n ≡ 0 = ==→eq n 0 z in
      let f : dst + 0 ≡ dst = omega arith in rw (z, e, f) (ap ok (sym (take-append-drop dst cells)))
  | inr z ↦ rw (z, le→leb _ _ h, le→leb _ _ k)
]

pub drop_past :
    (xs : List Ptr) (spare : List (Option Ptr)) (k n : ℕ)
    → n ≡ length xs + k
    → drop n (cells_of xs ++ spare) ≡ drop k spare
drop_past [] spare k n e = ap (λ m. drop m spare) (e ∙ omega arith)
drop_past (x ∷ xs) spare k zero e = absurd (omega arith)
drop_past (x ∷ xs) spare k (suc n) e = drop_past xs spare k n (omega arith)

pub take_items :
    (xs : List Ptr) (spare : List (Option Ptr)) (n : ℕ)
    → n ≡ length xs
    → take n (cells_of xs ++ spare) ≡ cells_of xs
take_items xs spare n e = take-append n (cells_of xs) spare (e ∙ sym (length-cells_of xs))

-- Moving the tail up and writing into the gap puts the pointer in.
pub insert_cells :
    (i m : ℕ) (xs : List Ptr) (c : Option Ptr) (spare : List (Option Ptr)) (p : Ptr)
    → i + m ≡ length xs
    → set
        (take (suc i) (cells_of xs ++ (c ∷ spare))
          ++ (take m (drop i (cells_of xs ++ (c ∷ spare)))
              ++ drop (suc (length xs)) (cells_of xs ++ (c ∷ spare))))
        i
        (some p)
      ≡ cells_of (insert_at i p xs) ++ spare
insert_cells zero m [] c spare p e = let z : m ≡ 0 = omega arith in rw z
insert_cells zero m (x ∷ xs) c spare p e = ap (◌∷◌ (some p)) (
    ap₂ ◌++◌ (take_items (x ∷ xs) (c ∷ spare) m (omega arith))
      (drop_past xs (c ∷ spare) 1 (suc (length xs)) (omega arith)))
insert_cells (suc i) m [] c spare p e = absurd (omega arith)
insert_cells (suc i) m (x ∷ xs) c spare p e =
    ap (◌∷◌ (some x)) (insert_cells i m xs c spare p (omega arith))

-- Moving the tail down over an item takes it out.
pub remove_cells :
    (i m : ℕ) (xs : List Ptr) (spare : List (Option Ptr))
    → i + m + 1 ≡ length xs
    → take i (cells_of xs ++ spare) ++ take m (drop (suc i) (cells_of xs ++ spare))
      ≡ cells_of (remove_at i xs)
remove_cells i m [] spare e = absurd (omega arith)
remove_cells zero m (x ∷ xs) spare e = take_items xs spare m (omega arith)
remove_cells (suc i) m (x ∷ xs) spare e =
    ap (◌∷◌ (some x)) (remove_cells i m xs spare (omega arith))
