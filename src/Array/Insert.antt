-- ===== src/Array/Insert.antt =====
-- `EFArrayInsertValueAtIndex` on the list that the array holds.
use native.Mathlib.Numerals.{add-one}
use emex_foundation.Base.{
  ℕ, suc, ◌+◌, ◌-◌, ◌≤◌, ◌<◌, ◌≢◌, Bool, true, false, not, ◌||◌, Option, some, List, [], ◌∷◌, ◌++◌,
  ◌≡◌, refl, ap, ◌∙◌, sym, arith, length, take, drop, set, ltb, leb, ◌==◌, pos, length-append,
  length-set, length-take, length-drop, >>=-eq-ok, ok, ◌>>=◌, Returns, returns, lt→ltb,
}
use emex_foundation.Allocator.{Allocator}
use emex_foundation.Array.Model.{
  Ptr, null, long_max, Array, resize_if_needed, insert_kept, insert_resized, insert_value_at_index,
  store, memmove, retain_item,
}
use emex_foundation.Array.Holds.{Holds, cells_of, length-items, length-cells_of}
use emex_foundation.Array.Cells.{insert_at, memmove-moved, insert_cells}
use emex_foundation.Array.Append.{
  Became, Resized, resize-Resized, guard_off, Became-items, Added, no_room-Added, room-Added,
}

pub length-insert_at :
    (i : ℕ) (p : Ptr) (xs : List Ptr) → i ≤ length xs → length (insert_at i p xs) ≡ length xs + 1
length-insert_at i p xs h =
    omega (arith, length-append (take i xs) (p ∷ drop i xs), length-take i xs, length-drop i xs)

-- A write whose effect on the list of cells is known.
store-set :
    (cells after : List (Option Ptr)) (i : ℕ) (p : Ptr)
    → set cells i (some p) ≡ after
    → i < length after
    → store cells i p ≡ ok after
store-set cells after i p e h =
    let size : length cells ≡ length after = sym (length-set cells i (some p)) ∙ ap length e in
    rw (size, lt→ltb _ _ h, e)

-- The moved block, and the pointer written into it.
insert_block :
    (i : ℕ) (xs : List Ptr) (spare : List (Option Ptr)) (p : Ptr)
    → i ≤ length xs
    → 0 < length spare
    → (rest : List (Option Ptr)) × ((memmove (i + 1) i (length xs - i) (cells_of xs ++ spare)
          >>= λ c. store c i p)
        ≡ ok (cells_of (insert_at i p xs) ++ rest))
      × (length rest + 1 ≡ length spare)
insert_block i xs [] p h k = absurd (omega arith)
insert_block i xs (c ∷ spare) p h k =
    let size : length (cells_of xs ++ (c ∷ spare)) ≡ length xs + 1 + length spare =
      omega (arith, length-append (cells_of xs) (c ∷ spare), length-cells_of xs) in
    let stop : i + 1 + (length xs - i) ≡ suc (length xs) = omega arith in
    (
      spare,
      rw
          (memmove-moved (i + 1) i (length xs - i) (cells_of xs ++ (c ∷ spare)) (omega arith)
            (omega arith))
          (rw (stop, add-one)
            (store-set _ _ i p (insert_cells i (length xs - i) xs c spare p (omega arith)) (
              omega (
                arith,
                length-append (cells_of (insert_at i p xs)) spare,
                length-cells_of (insert_at i p xs),
                length-insert_at i p xs h,
              )))),
      omega arith,
    )

module _ {S : Type 0} where
  insert_kept-Became :
      {a : Array S} {xs : List Ptr} (i : ℕ) (p : Ptr) (s : S) (h : Holds a xs)
      → i ≤ length xs
      → length xs < length a.items
      → Returns
          (λ out. Became a (insert_at i p xs) out.1 × (out.0 ≡ true) × (out.2 ≡ s))
          (insert_kept a i p (true, s))
  insert_kept-Became {a} {xs} i p s h in_range room =
      let (rest, written, size) =
        insert_block i xs h.spare p in_range (omega (arith, length-items h)) in
      let here : (memmove (i + 1) i (a.items_count - i) a.items >>= λ c. store c i p)
          ≡ ok (cells_of (insert_at i p xs) ++ rest) =
        rw (h.counted, h.cells) written in
      let (cells, moved, stored) =
        >>=-eq-ok (memmove (i + 1) i (a.items_count - i) a.items) (λ c. store c i p) here in
      rw (moved, stored)
        (returns (
          Became-items (insert_at i p xs) rest (a.items_count + 1) h
              (omega (arith, h.counted, length-insert_at i p xs in_range))
              (omega (
                arith,
                size,
                length-items h,
                length-append (cells_of (insert_at i p xs)) rest,
                length-cells_of (insert_at i p xs),
                length-insert_at i p xs in_range,
              )),
          refl,
          refl,
        ))

  insert_resized-Added :
      (al : Allocator) {a : Array S} {xs : List Ptr} (i : ℕ) (p : Ptr) (s : S) (r : Bool × Array S)
      → i ≤ length xs
      → Returns (λ _. Unit {0}) (retain_item a.callbacks p s)
      → Resized al a xs r
      → Returns (Added al a xs (insert_at i p xs) p s) (insert_resized r i p s)
  insert_resized-Added al i p s (false, b) in_range keeps r = returns (no_room-Added _ p s r)
  insert_resized-Added al {a} {xs} i p s (true, b) in_range keeps r =
      room-Added (insert_at i p xs) p s (insert_kept b i p) r keeps (λ s'. refl)
        λ s'. insert_kept-Became i p s' r.holds in_range (r.room refl)

  -- `EFArrayInsertValueAtIndex` of a pointer that is not NULL at an index up to the count of a
  -- mutable array that holds `xs`, with a retain callback that returns, stays inside its block and
  -- returns. If there is room, now or by a granted request, the retain callback runs once and the
  -- result is its answer, else the result is false and it does not run. The array then holds the
  -- items before the index, the pointer and the items from the index on if the result is true,
  -- and `xs` if it is false.
  pub insert_value_at_index-Added :
      (al : Allocator) {a : Array S} {xs : List Ptr} (i : ℕ) (p : Ptr) (s : S)
      → Holds a xs
      → a.is_mutable ≡ true
      → p ≢ null
      → i ≤ length xs
      → Returns (λ _. Unit {0}) (retain_item a.callbacks p s)
      → Returns
          (Added al a xs (insert_at i p xs) p s)
          (insert_value_at_index al (some a) (pos i) p s)
  unfolding insert_value_at_index
  insert_value_at_index-Added al {a} i p s h m n in_range keeps =
      let off : (p == null
            || (not a.is_mutable || (ltb a.items_count i || leb long_max a.items_count)))
          ≡ false =
        ground (arith, guard_off h m n, h.counted) in
      rw off
        (insert_resized-Added al i p s (resize_if_needed al a) in_range keeps (resize-Resized al h))
