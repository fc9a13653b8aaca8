-- ===== src/Array/Overrun.antt =====
-- Where src/EFArray.c leaves its block: appending an array whose items do not all fit.
use native.Mathlib.Numerals.{add-one}
use emex_foundation.Base.{
  ℕ, zero, suc, ◌+◌, ◌-◌, ◌≤◌, ◌<◌, true, false, not, ◌||◌, some, List, [], ◌∷◌, ◌≡◌, refl, ap, ◌∙◌,
  arith, length, drop, ltb, ◌==◌, ok, fault, length-append, drop_head, some_inj, Returns-value,
  Bool-cases, inl, inr,
}
use emex_foundation.Allocator.{Allocator}
use emex_foundation.Array.Model.{Ptr, Array, push_item}
use emex_foundation.Array.Holds.{Holds, length-items}
use emex_foundation.Array.Append.{push_item-Holds}
use emex_foundation.Array.Remove.{load_item}
use emex_foundation.Array.Bulk.{reserve_loop, copy_loop, append_values_of_array}
use emex_foundation.Array.AppendArray.{
  retain_all, retain_all-cons, copy_loop-suc, reserve_loop-step, reserve_loop-zero, roomy,
}

module _ {S : Type 0} where
  push_item_full :
      {a : Array S} {xs : List Ptr} (p : Ptr)
      → Holds a xs
      → length xs ≡ length a.items
      → push_item a p ≡ fault
  push_item_full {a} p h e =
      let off : ltb a.items_count (length a.items) ≡ false = ground (arith, h.counted) in rw off

  -- More items than spare cells: the second loop writes behind the block.
  copy_loop_overrun :
      (left i : ℕ) (zs : List Ptr) {a b : Array S} {xs ys : List Ptr} (s s' : S)
      → Holds b ys
      → drop i ys ≡ zs
      → left ≡ length zs
      → Holds a xs
      → length a.items < length xs + left
      → retain_all a.callbacks zs s ≡ ok (true, s')
      → copy_loop b.items left i a s ≡ fault
  copy_loop_overrun zero i zs s s' hb d e h f r = absurd (omega (arith, length-items h))
  copy_loop_overrun (suc left) i [] s s' hb d e h f r = absurd (omega arith)
  copy_loop_overrun (suc left) i (z ∷ zs) {a} {b} {xs} {ys} s s' hb d e h f r =
      let (at, later) = drop_head i ys d in
      let (t, kept, rest) = retain_all-cons a.callbacks z zs s s' r in
      rw (copy_loop-suc b.items left i a s (load_item i hb at) kept)
        (elim (Bool-cases (length xs == length a.items)) [
          | inl full ↦ rw (push_item_full z h (ground arith))
          | inr room ↦
              let (a', pushed, m) =
                Returns-value (push_item-Holds z h (ground (arith, length-items h))) in
              let e' : a' ≡ m.0.array = some_inj m.0.is in
              let next : drop (i + 1) ys ≡ zs = rw add-one later in
              rw (pushed, e')
                (copy_loop_overrun left (i + 1) zs t s' hb next (omega arith) m.0.holds
                  (omega (
                    arith,
                    m.1,
                    length-append xs (z ∷ []),
                    ap (λ (c : Array S). length c.items) e',
                  ))
                  (rw m.0.same_callbacks rest))
        ])

  -- `EFArrayAppendValuesOfArray` does not check its capacity for all of the items. If the array has
  -- at least one spare cell, the other array has up to five items and more than there are spare
  -- cells, and the retain callback keeps them, then no memory is asked for and the copy writes
  -- behind the block, whatever the allocator grants.
  pub append_values_of_array_overrun :
      (al : Allocator) {a b : Array S} {xs ys : List Ptr} (s s' : S)
      → Holds a xs
      → Holds b ys
      → a.is_mutable ≡ true
      → a.callbacks.address ≡ b.callbacks.address
      → length xs < length a.items
      → length a.items < length xs + length ys
      → length ys ≤ 5
      → retain_all a.callbacks ys s ≡ ok (true, s')
      → append_values_of_array al (some a) (some b) s ≡ fault
  unfolding append_values_of_array
  append_values_of_array_overrun al {a} {b} {xs} {ys} s s' ha hb m same room over few r =
      let off : (not a.is_mutable || not (a.callbacks.address == b.callbacks.address)) ≡ false =
        ground arith in
      rw (off, one_round b.items_count (hb.counted) (omega arith) (omega arith))
        (copy_loop_overrun b.items_count 0 ys s s' hb refl hb.counted ha (omega (arith, hb.counted))
          r)
    where
      one_round :
          (n : ℕ)
          → n ≡ length ys
          → 0 < n
          → n ≤ 5
          → reserve_loop al n n a ≡ (true, record a { items_count = a.items_count + 5 })
      one_round zero e p q = absurd (omega arith)
      one_round (suc n) e p q =
          let z : suc n - 5 ≡ 0 = omega arith in
          reserve_loop-step al n (suc n) a p
            (roomy al a (length a.items) ha.capacity (omega (arith, ha.counted)))
          ∙ rw z (reserve_loop-zero al n _)
