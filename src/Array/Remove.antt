-- ===== src/Array/Remove.antt =====
-- `EFArrayRemoveValueAtIndex` and `EFArrayGetValueAtIndex` on the list that the array holds.
use native.Mathlib.Numerals.{add-one}
use emex_foundation.Base.{
  ℕ, suc, ◌+◌, ◌-◌, ◌≤◌, ◌<◌, true, false, not, ◌||◌, Option, none, some, List, ◌++◌, ◌≡◌, refl, ap,
  ◌∙◌, sym, arith, length, take, drop, get_elem?, leb, pos, negsuc, length-append, length-take,
  length-drop, append_assoc, ok, Returns, returns, leb→le, Bool-cases, Option-cases, inl, inr,
  lt_of_get_elem?, get_elem?-lt, get_elem?-ge,
}
use emex_foundation.Array.Model.{
  Ptr, null, Array, remove_value_at_index, release_at, release_item, memmove, load,
  get_value_at_index,
}
use emex_foundation.Array.Holds.{Holds, cells_of, length-items, length-cells_of, load-cells}
use emex_foundation.Array.Cells.{remove_at, memmove-moved, remove_cells}
use emex_foundation.Array.Append.{Became, Became-items}

pub length-remove_at :
    (i : ℕ) (xs : List Ptr) → i < length xs → length (remove_at i xs) + 1 ≡ length xs
length-remove_at i xs h =
    omega
      (arith, length-append (take i xs) (drop (suc i) xs), length-take i xs, length-drop (suc i) xs)

-- The block after the move: the items without one, and its last cells as they were.
remove_block :
    (i : ℕ) (xs : List Ptr) (spare : List (Option Ptr))
    → i < length xs
    → (rest : List (Option Ptr)) × (memmove i (i + 1) (length xs - i - 1) (cells_of xs ++ spare)
        ≡ ok (cells_of (remove_at i xs) ++ rest))
      × (length rest ≡ length spare + 1)
remove_block i xs spare h =
    let n : ℕ = length xs - i - 1 in
    let cells = cells_of xs ++ spare in
    let size : length cells ≡ length xs + length spare =
      omega (arith, length-append (cells_of xs) spare, length-cells_of xs) in
    (
      drop (i + n) cells,
      memmove-moved i (i + 1) n cells (omega arith) (omega arith)
          ∙ ap ok (
              sym (append_assoc (take i cells) (take n (drop (i + 1) cells)) (drop (i + n) cells))
              ∙ ap (λ c. c ++ drop (i + n) cells)
                  (rw add-one (remove_cells i n xs spare (omega arith)))),
      omega (arith, length-drop (i + n) cells),
    )

module _ {S : Type 0} where
  pub load_item :
      {a : Array S} {xs : List Ptr} (i : ℕ) {x : Ptr}
      → Holds a xs
      → get_elem? xs i ≡ some x
      → load a.items i ≡ ok x
  load_item {xs} i h e = rw h.cells (load-cells xs h.spare i e)

  -- `EFArrayGetValueAtIndex` at any index of an array that holds `xs` returns: the item there, and
  -- NULL at an index that is negative or not below the count.
  pub get_value_at_index-get_elem? :
      {a : Array S} {xs : List Ptr} (i : ℕ)
      → Holds a xs
      → (get_value_at_index (some a) (pos i)
          ≡ ok (elim (get_elem? xs i) [ none ↦ null | some x ↦ x ]))
        × (get_value_at_index (some a) (negsuc i) ≡ ok null)
  unfolding get_value_at_index
  get_value_at_index-get_elem? {a} {xs} i h = (
    elim (Bool-cases (leb a.items_count i)) [
      | inl past ↦
          let over : length xs ≤ i = omega (arith, leb→le _ _ past, h.counted) in
          rw (past, get_elem?-ge xs i over)
      | inr inside ↦
          let (x, e) = get_elem?-lt xs i (ground (arith, h.counted)) in
          rw (inside, e) (load_item i h e)
    ],
    refl,
  )

  release_at-item :
      {a : Array S} {xs : List Ptr} (i : ℕ) {x : Ptr} (s : S)
      → Holds a xs
      → get_elem? xs i ≡ some x
      → release_at a i s ≡ release_item a.callbacks x s
  unfolding release_item
  release_at-item {a} {xs} i {x} s h e = elim (Option-cases a.callbacks.release) [
    | inl n ↦ rw n
    | inr (f, n) ↦ rw (n, load_item i h e)
  ]

  -- `EFArrayRemoveValueAtIndex` of an index below the count of a mutable array that holds `xs`,
  -- with a release callback that returns, runs the release callback once, on the item there, and
  -- leaves the array holding the other items in order.
  pub remove_value_at_index-remove_at :
      {a : Array S} {xs : List Ptr} (i : ℕ) {x : Ptr} (s : S) {s' : S}
      → Holds a xs
      → a.is_mutable ≡ true
      → get_elem? xs i ≡ some x
      → release_item a.callbacks x s ≡ ok s'
      → Returns
          (λ out. Became a (remove_at i xs) out.0 × (out.1 ≡ s'))
          (remove_value_at_index (some a) (pos i) s)
  unfolding remove_value_at_index
  remove_value_at_index-remove_at {a} {xs} i {x} s {s'} h m e r =
      let inside : i < length xs = lt_of_get_elem? xs i e in
      let off : (not a.is_mutable || leb a.items_count i) ≡ false = ground (arith, h.counted) in
      let (rest, moved, size) = remove_block i xs h.spare inside in
      let move : memmove i (i + 1) (a.items_count - i - 1) a.items
          ≡ ok (cells_of (remove_at i xs) ++ rest) =
        rw (h.counted, h.cells) moved in
      rw (off, release_at-item i s h e, r, move)
        (returns (
          Became-items (remove_at i xs) rest (a.items_count - 1) h
              (omega (arith, h.counted, length-remove_at i xs inside))
              (omega (
                arith,
                size,
                length-items h,
                length-append (cells_of (remove_at i xs)) rest,
                length-cells_of (remove_at i xs),
                length-remove_at i xs inside,
              )),
          refl,
        ))
