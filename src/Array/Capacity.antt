-- ===== src/Array/Capacity.antt =====
-- `__EFArrayResizeIfNeededForOneMoreIndex` on an array that holds a list.
use emex_foundation.Base.{
  add_index, ℕ, ◌+◌, ◌-◌, ◌*◌, ◌/◌, ◌^◌, ◌<◌, true, false, Option, none, List, ◌++◌, ◌≡◌, ap, ◌∙◌,
  arith, length, replicate, ltb, if◌then◌else◌, pos, ◌+ℤ◌, take_all, length-append, append_assoc,
}
use emex_foundation.Allocator.{Allocator}
use emex_foundation.Array.Model.{Ptr, Array, pointer_bytes, realloc, resize_if_needed}
use emex_foundation.Array.Holds.{Holds, cells_of}

-- The array with five more cells.
abbrev pub grown : {S : Type 0} → Array S → Array S
grown a = record a {
  items_capacity = pos (length a.items + 5);
  items = a.items ++ replicate 5 none;
}

-- The request that growing makes.
abbrev pub grown_bytes : {S : Type 0} → Array S → ℕ
grown_bytes a = (length a.items + 5) * 8

add_five : (n : ℕ) → n * 8 < 2 ^ 63 → add_index (pos n) (pos 5) ≡ pos (n + 5)
unfolding ◌+ℤ◌
add_five n h = ground arith

bytes_exact : (n : ℕ) → n * 8 < 2 ^ 63 → pointer_bytes (pos (n + 5)) ≡ (n + 5) * 8
bytes_exact n h = omega arith

realloc_five :
    (cells : List (Option Ptr))
    → realloc ((length cells + 5) * 8 / 8) cells ≡ cells ++ replicate 5 none
realloc_five cells =
    let n : (length cells + 5) * 8 / 8 ≡ length cells + 5 = omega arith in
    let k : length cells + 5 - length cells ≡ 5 = omega arith in
    rw (n, k, take_all (length cells + 5) cells (omega arith))

module _ {S : Type 0} (al : Allocator) {a : Array S} {xs : List Ptr} (h : Holds a xs) where
  -- With room nothing changes; else the array grows by five cells if the request is granted.
  pub resize_if_needed-grown : resize_if_needed al a ≡ (
      if ltb a.items_count (length a.items)
      then (true, a)
      else (if al.grants (grown_bytes a) then (true, grown a) else (false, a)))
  unfolding resize_if_needed
  resize_if_needed-grown =
      rw
        (
          h.capacity,
          add_five (length a.items) h.small,
          bytes_exact (length a.items) h.small,
          realloc_five a.items,
        )
        (ground arith)

  pub Holds-grown : al.grants (grown_bytes a) ≡ true → Holds (grown a) xs
  Holds-grown g = record {
    spare = h.spare ++ replicate 5 none;
    cells =
        ap (λ c. c ++ replicate 5 none) h.cells
        ∙ append_assoc (cells_of xs) h.spare (replicate 5 none);
    counted = h.counted;
    capacity = ap pos (omega (arith, length-append a.items (replicate 5 none)));
    small =
        omega (arith, al.grants_small (grown_bytes a) g, length-append a.items (replicate 5 none));
  }
