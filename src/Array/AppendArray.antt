-- ===== src/Array/AppendArray.antt =====
-- `EFArrayAppendValuesOfArray` of one array to another.
use native.Mathlib.Numerals.{add-one}
use emex_foundation.Base.{
  ℕ, zero, suc, ◌+◌, ◌-◌, ◌≤◌, ◌<◌, Bool, true, false, not, ◌||◌, Option, some, List, [], ◌∷◌, ◌++◌,
  ◌≡◌, refl, ap, ◌∙◌, arith, length, drop, ◌==◌, pos, Run, ok, fault, abort, ◌>>=◌, some_inj,
  Returns, returns, Returns-bind, Returns-mono, append_assoc, append-nil, length-append, drop_head,
}
use emex_foundation.Array.Remove.{load_item}
use emex_foundation.Allocator.{Allocator}
use emex_foundation.Array.Model.{
  Ptr, Callbacks, Array, load, retain_item, resize_if_needed, push_item,
}
use emex_foundation.Array.Holds.{Holds}
use emex_foundation.Array.Append.{Became, push_item-Holds}
use emex_foundation.Array.Range.{Became-trans, Became-same}
use emex_foundation.Array.Bulk.{reserve_loop, copy_loop, append_values_of_array}

module _ {S : Type 0} where
  -- The retain callback on each item of a list, up to the first that it refuses.
  abbrev pub retain_all : Callbacks S → List Ptr → S → Run (Bool × S)
  retain_all c [] s = ok (true, s)
  retain_all c (x ∷ xs) s = do
    (kept, s) ← retain_item c x s
    elim kept [ true ↦ retain_all c xs s | false ↦ ok (false, s) ]

  -- All were kept, so the first was.
  pub retain_all-cons :
      (c : Callbacks S) (x : Ptr) (xs : List Ptr) (s s' : S)
      → retain_all c (x ∷ xs) s ≡ ok (true, s')
      → (t : S) × (retain_item c x s ≡ ok (true, t)) × (retain_all c xs t ≡ ok (true, s'))
  retain_all-cons c x xs s s' h = go (retain_item c x s) refl h
    where
      go :
          (m : Run (Bool × S))
          → retain_item c x s ≡ m
          → ◌>>=◌ {B = Bool × S} m
              (λ r. elim r.0 [ true ↦ retain_all c xs r.1 | false ↦ ok (false, r.1) ])
            ≡ ok (true, s')
          → (t : S) × (retain_item c x s ≡ ok (true, t)) × (retain_all c xs t ≡ ok (true, s'))
      go (ok (true, t)) e k = (t, e, k)
      go (ok (false, t)) e k = cc
      go fault e k = cc
      go abort e k = cc

  pub reserve_loop-zero :
      (al : Allocator) (fuel : ℕ) (a : Array S) → reserve_loop al fuel 0 a ≡ (true, a)
  unfolding reserve_loop
  reserve_loop-zero al zero a = refl
  reserve_loop-zero al (suc fuel) a = refl

  pub reserve_loop-step :
      (al : Allocator) (fuel remaining : ℕ) (a : Array S)
      → 0 < remaining
      → resize_if_needed al a ≡ (true, a)
      → reserve_loop al (suc fuel) remaining a
        ≡ reserve_loop al fuel (remaining - 5) (record a { items_count = a.items_count + 5 })
  unfolding reserve_loop
  reserve_loop-step al fuel remaining a h e = ground arith

  pub roomy :
      (al : Allocator) (a : Array S) (k : ℕ)
      → a.items_capacity ≡ pos k
      → a.items_count < k
      → resize_if_needed al a ≡ (true, a)
  unfolding resize_if_needed
  roomy al a k e h = ground arith

  -- With enough capacity no round of the first loop asks for memory, and only the count moves.
  reserve_loop-fits :
      (al : Allocator) (a : Array S) (fuel remaining c k : ℕ)
      → remaining ≤ fuel
      → a.items_capacity ≡ pos k
      → (0 < remaining → c + remaining ≤ k)
      → (d : ℕ) × (reserve_loop al fuel remaining (record a { items_count = c })
          ≡ (true, record a { items_count = d }))
  reserve_loop-fits al a fuel zero c k h e f = (c, reserve_loop-zero al fuel _)
  reserve_loop-fits al a zero (suc r) c k h e f = absurd (omega arith)
  reserve_loop-fits al a (suc fuel) (suc r) c k h e f =
      let (d, rest) =
        reserve_loop-fits al a fuel (suc r - 5) (c + 5) k (omega arith) e
          (λ q. omega (arith, f (omega arith))) in
      (
        d,
        reserve_loop-step al fuel (suc r) (record a { items_count = c }) (omega arith)
              (roomy al (record a { items_count = c }) k e (omega (arith, f (omega arith))))
            ∙ rest,
      )

  -- One round of the second loop.
  pub copy_loop-suc :
      (cells : List (Option Ptr)) (left i : ℕ) (a : Array S) (s : S) {p : Ptr} {t : S}
      → load cells i ≡ ok p
      → retain_item a.callbacks p s ≡ ok (true, t)
      → copy_loop cells (suc left) i a s ≡ (push_item a p >>= λ b. copy_loop cells left (i + 1) b t)
  unfolding copy_loop
  copy_loop-suc cells left i a s e f = rw (e, f)

  -- What the second loop leaves when every item is kept.
  Copied : Array S → List Ptr → S → Bool × Option (Array S) × S → Type 0
  Copied a xs s' out = (out.0 ≡ true) × Became a xs out.1 × (out.2 ≡ s')

  copy_loop-Copied :
      (left i : ℕ) (zs : List Ptr) {a b : Array S} {xs ys : List Ptr} (s s' : S)
      → Holds b ys
      → drop i ys ≡ zs
      → left ≡ length zs
      → Holds a xs
      → length xs + left ≤ length a.items
      → retain_all a.callbacks zs s ≡ ok (true, s')
      → Returns (Copied a (xs ++ zs) s') (copy_loop b.items left i a s)
  unfolding Copied copy_loop
  copy_loop-Copied zero i [] {a} {b} {xs} s s' hb d e h f r =
      returns (refl, rw append-nil (Became-same h), cc)
  copy_loop-Copied zero i (z ∷ zs) s s' hb d e h f r = absurd (omega arith)
  copy_loop-Copied (suc left) i [] s s' hb d e h f r = absurd (omega arith)
  copy_loop-Copied (suc left) i (z ∷ zs) {a} {b} {xs} {ys} s s' hb d e h f r =
      let (at, later) = drop_head i ys d in
      let (t, kept, rest) = retain_all-cons a.callbacks z zs s s' r in
      rw (copy_loop-suc b.items left i a s (load_item i hb at) kept) (
        Returns-bind (push_item-Holds z h (omega arith)) λ a' m.
          let e' : a' ≡ m.0.array = some_inj m.0.is in
          let next : drop (i + 1) ys ≡ zs = rw add-one later in
          rw e' (
            Returns-mono
              (copy_loop-Copied left (i + 1) zs t s' hb next (omega arith) m.0.holds
                (omega
                  (arith, m.1, length-append xs (z ∷ []), ap (λ (c : Array S). length c.items) e'))
                (rw m.0.same_callbacks rest))
              λ out u. (u.0, rw (← append_assoc xs (z ∷ []) zs) (Became-trans m.0 u.1), u.2)))

  -- `EFArrayAppendValuesOfArray` of an array that holds `ys` to another, mutable array with the
  -- same callbacks that holds `xs`, where the capacity of the latter is enough for both and the
  -- retain callback keeps every item: it returns true, has run the retain callback on each item of
  -- `ys` in order, and the array holds `xs` and `ys`.
  pub append_values_of_array-append :
      (al : Allocator) {a b : Array S} {xs ys : List Ptr} (s s' : S)
      → Holds a xs
      → Holds b ys
      → a.is_mutable ≡ true
      → a.callbacks.address ≡ b.callbacks.address
      → length xs + length ys ≤ length a.items
      → retain_all a.callbacks ys s ≡ ok (true, s')
      → Returns
          (λ out. (out.0 ≡ true) × Became a (xs ++ ys) out.1 × (out.2 ≡ s'))
          (append_values_of_array al (some a) (some b) s)
  unfolding append_values_of_array Copied
  append_values_of_array-append al {a} {b} {xs} {ys} s s' ha hb m same fits r =
      let off : (not a.is_mutable || not (a.callbacks.address == b.callbacks.address)) ≡ false =
        ground arith in
      let (d, reserved) =
        reserve_loop-fits al a b.items_count b.items_count a.items_count (length a.items)
          (omega arith) ha.capacity (λ _. omega (arith, ha.counted, hb.counted)) in
      rw (off, reserved)
        (copy_loop-Copied b.items_count 0 ys s s' hb refl hb.counted ha (omega (arith, hb.counted))
          r)
