-- ===== src/Array/Range.antt =====
-- `EFArrayRemoveValuesInRange` on the list that the array holds.
use emex_foundation.Base.{
  add_index, ℕ, zero, suc, ◌+◌, ◌^◌, ◌≤◌, ◌<◌, true, Option, some, List, [], ◌∷◌, ◌++◌, ◌≡◌, refl,
  ap, ◌∙◌, arith, length, take, drop, pos, ◌+ℤ◌, Run, ok, ◌>>=◌, >>=-eq-ok, Returns, returns,
  Returns-bind, Returns-mono, take-append-drop, take_all, drop_past_end, drop-get_elem?,
  drop-append, length-take, get_elem?-lt, Bool-cases, ltb, inl, inr, ltb→lt,
}
use emex_foundation.Array.Model.{Ptr, Callbacks, Array, remove_value_at_index, release_item}
use emex_foundation.Array.Holds.{Holds}
use emex_foundation.Array.Cells.{remove_at}
use emex_foundation.Array.Append.{Became}
use emex_foundation.Array.Bulk.{remove_loop, remove_values_in_range, rounds}
use emex_foundation.Array.Remove.{remove_value_at_index-remove_at}

-- The list without `n` items from index `i` on.
abbrev pub remove_range : ℕ → ℕ → List Ptr → List Ptr
remove_range i n xs = take i xs ++ drop (i + n) xs

remove_range-remove_at :
    (i n j k : ℕ) (xs : List Ptr)
    → j ≡ i + n
    → k ≡ i + suc n
    → i < length xs
    → take i (remove_at i xs) ++ drop j (remove_at i xs) ≡ take i xs ++ drop k xs
remove_range-remove_at i n j k [] e f h = absurd (omega arith)
remove_range-remove_at zero n j zero (x ∷ xs) e f h = absurd (omega arith)
remove_range-remove_at zero n j (suc k) (x ∷ xs) e f h = ap (λ m. drop m xs) (omega arith)
remove_range-remove_at (suc i) n zero k (x ∷ xs) e f h = absurd (omega arith)
remove_range-remove_at (suc i) n (suc j) zero (x ∷ xs) e f h = absurd (omega arith)
remove_range-remove_at (suc i) n (suc j) (suc k) (x ∷ xs) e f h =
    ap (◌∷◌ x) (remove_range-remove_at i n j k xs (omega arith) (omega arith) (omega arith))

drop-remove_at : (i : ℕ) (xs : List Ptr) → i < length xs → drop i (remove_at i xs) ≡ drop (suc i) xs
drop-remove_at i xs h =
    drop-append i (take i xs) (drop (suc i) xs) (omega (arith, length-take i xs))

rounds-add_index : (i n : ℕ) → i + n < 2 ^ 63 → rounds (pos i) (add_index (pos i) (pos n)) ≡ n
unfolding ◌+ℤ◌
rounds-add_index i n h = ground arith

module _ {S : Type 0} where
  -- The release callback on each item of a list, in order.
  abbrev pub release_all : Callbacks S → List Ptr → S → Run S
  release_all c [] s = ok s
  release_all c (x ∷ xs) s = release_item c x s >>= release_all c xs

  pub Became-trans :
      {a : Array S} {xs ys : List Ptr} {o o' : Option (Array S)} (m : Became a xs o)
      → Became m.array ys o'
      → Became a ys o'
  Became-trans m n = record {
    array = n.array;
    is = n.is;
    same_mutable = n.same_mutable ∙ m.same_mutable;
    same_callbacks = n.same_callbacks ∙ m.same_callbacks;
    holds = n.holds;
  }

  remove_past :
      {a : Array S} {xs : List Ptr} (i : ℕ) (s : S)
      → Holds a xs
      → length xs ≤ i
      → remove_value_at_index (some a) (pos i) s ≡ ok (some a, s)
  unfolding remove_value_at_index
  remove_past {a} i s h k = ground (arith, h.counted)

  pub Became-same : {a : Array S} {xs : List Ptr} → Holds a xs → Became a xs (some a)
  Became-same {a} h = record {
    array = a;
    is = refl;
    same_mutable = refl;
    same_callbacks = refl;
    holds = h;
  }

  Removed : Array S → List Ptr → S → Option (Array S) × S → Type 0
  Removed a ys s' out = Became a ys out.0 × (out.1 ≡ s')

  remove_loop-Removed :
      (n i : ℕ) {a : Array S} {xs : List Ptr} (s s' : S)
      → Holds a xs
      → a.is_mutable ≡ true
      → release_all a.callbacks (take n (drop i xs)) s ≡ ok s'
      → Returns (Removed a (remove_range i n xs) s') (remove_loop n (pos i) (some a) s)
  unfolding remove_loop Removed
  remove_loop-Removed zero i {a} {xs} s s' h m r =
      let z : i + 0 ≡ i = omega arith in returns (rw (z, take-append-drop i xs) (Became-same h), cc)
  remove_loop-Removed (suc n) i {a} {xs} s s' h m r = elim (Bool-cases (ltb i (length xs))) [
    | inl inside ↦
        let (x, e) = get_elem?-lt xs i (ltb→lt _ _ inside) in
        let r' : (release_item a.callbacks x s
              >>= release_all a.callbacks (take n (drop (suc i) xs)))
            ≡ ok s' =
          rw (drop-get_elem? i xs e) at r in
        let (t, first, later) = >>=-eq-ok (release_item a.callbacks x s) _ r' in
        Returns-bind (remove_value_at_index-remove_at i s h m e first) λ out q.
          rw (q.0.is, q.1)
            (Returns-mono
              (remove_loop-Removed n i t s' q.0.holds (q.0.same_mutable ∙ m)
                (rw (q.0.same_callbacks, drop-remove_at i xs (ltb→lt _ _ inside)) later))
              λ out' u. (
                rw
                    (← remove_range-remove_at i n (i + n) (i + suc n) xs refl refl
                      (ltb→lt _ _ inside))
                    (Became-trans q.0 u.0),
                u.1,
              ))
    | inr outside ↦
        let past : length xs ≤ i = ground arith in
        let r' : release_all a.callbacks (take n (drop i xs)) s ≡ ok s' =
          rw (drop_past_end i xs past, take_all {A = Ptr} n [] (omega arith))
            (rw (drop_past_end i xs past) at r) in
        rw (remove_past i s h past) (
          Returns-mono (remove_loop-Removed n i s s' h m r') λ out u. (
            rw
                (
                  drop_past_end (i + suc n) xs (omega arith),
                  ← drop_past_end (i + n) xs (omega arith),
                )
                u.0,
            u.1,
          ))
  ]

  -- `EFArrayRemoveValuesInRange` on a mutable array that holds `xs`, for a location and a length
  -- that are not negative and do not overflow together, runs the release callback on each item in
  -- the range in order, and leaves the array holding the items before and behind the range. The
  -- part of the range past the end counts for nothing. The release callback has to return.
  pub remove_values_in_range-remove_range :
      (i n : ℕ) {a : Array S} {xs : List Ptr} (s : S) {s' : S}
      → i + n < 2 ^ 63
      → Holds a xs
      → a.is_mutable ≡ true
      → release_all a.callbacks (take n (drop i xs)) s ≡ ok s'
      → Returns
          (λ out. Became a (remove_range i n xs) out.0 × (out.1 ≡ s'))
          (remove_values_in_range (some a) (pos i) (pos n) s)
  unfolding remove_values_in_range Removed
  remove_values_in_range-remove_range i n s {s'} fits h m r =
      rw (rounds-add_index i n fits) (remove_loop-Removed n i s s' h m r)
