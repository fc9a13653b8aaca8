-- ===== src/Array/Handlers.antt =====
-- The class handlers of src/EFArray.c: what deinitialising releases, and what counts as equal.
use native.Mathlib.Numerals.{add-one}
use emex_foundation.Base.{
  ℕ, zero, suc, ◌+◌, Bool, true, false, not, ◌||◌, Option, none, some, List, [], ◌∷◌, ◌≡◌, refl, ap,
  fun_ext, ◌∙◌, sym, arith, length, drop, ◌==◌, Run, ok, ◌>>=◌, if◌then◌else◌, drop_head,
  Bool-cases, Option-cases, inl, inr, ◌⊎◌, ◌↔◌, get_elem?, some_inj,
}
use emex_foundation.Array.Model.{Ptr, Callbacks, Array, release_item}
use emex_foundation.Array.Holds.{Holds}
use emex_foundation.Array.Remove.{load_item}
use emex_foundation.Array.Range.{release_all}
use emex_foundation.Array.Bulk.{release_loop, release_items, deinit, equal_loop, equal}

-- Two lists match: as many items, and at each index one pointer, or two that `r` relates.
pub record Match (r : Ptr → Ptr → Bool) (xs ys : List Ptr) : Type 0 where
  pub count : length xs ≡ length ys
  pub items :
      (i : ℕ) (x y : Ptr)
      → get_elem? xs i ≡ some x
      → get_elem? ys i ≡ some y
      → (x ≡ y) ⊎ (r x y ≡ true)

Match-cons :
    (r : Ptr → Ptr → Bool) (x y : Ptr) (xs ys : List Ptr)
    → (x ≡ y) ⊎ (r x y ≡ true)
    → Match r xs ys
    → Match r (x ∷ xs) (y ∷ ys)
Match-cons r x y xs ys h m = record { count = ap suc m.count; items = items }
  where
    items :
        (i : ℕ) (x' y' : Ptr)
        → get_elem? (x ∷ xs) i ≡ some x'
        → get_elem? (y ∷ ys) i ≡ some y'
        → (x' ≡ y') ⊎ (r x' y' ≡ true)
    items zero x' y' e f = rw (sym (some_inj e), sym (some_inj f)) h
    items (suc i) x' y' e f = m.items i x' y' e f

Match-rest :
    {r : Ptr → Ptr → Bool} {x y : Ptr} {xs ys : List Ptr}
    → Match r (x ∷ xs) (y ∷ ys)
    → Match r xs ys
Match-rest m = record {
  count = omega (arith, m.count);
  items = λ i x y e f. m.items (suc i) x y e f;
}

module _ {S : Type 0} where
  release_loop-release_all :
      (c : Callbacks S) (f : Ptr → S → Run S) (left i : ℕ) (zs : List Ptr) {a : Array S}
      {xs : List Ptr} (s : S)
      → c.release ≡ some f
      → Holds a xs
      → drop i xs ≡ zs
      → left ≡ length zs
      → release_loop f a.items left i s ≡ release_all c zs s
  unfolding release_loop release_item
  release_loop-release_all c f zero i [] s n h d e = refl
  release_loop-release_all c f zero i (z ∷ zs) s n h d e = absurd (omega arith)
  release_loop-release_all c f (suc left) i [] s n h d e = absurd (omega arith)
  release_loop-release_all c f (suc left) i (z ∷ zs) {a} {xs} s n h d e =
      let (at, later) = drop_head i xs d in
      rw (load_item i h at, n)
        (ap (◌>>=◌ (f z s)) (
          fun_ext λ t.
            release_loop-release_all c f left (i + 1) zs t n h (rw add-one later) (omega arith)))

  release_all-none :
      (c : Callbacks S) (xs : List Ptr) (s : S) → c.release ≡ none → release_all c xs s ≡ ok s
  unfolding release_item
  release_all-none c [] s n = refl
  release_all-none c (x ∷ xs) s n = rw (n, release_item) (release_all-none c xs s n)

  release_items-release_all :
      {a : Array S} {xs : List Ptr} (s : S)
      → Holds a xs
      → release_items a s ≡ release_all a.callbacks xs s
  release_items-release_all {a} {xs} s h = elim (Option-cases a.callbacks.release) [
    | inl n ↦ items_none n ∙ sym (release_all-none a.callbacks xs s n)
    | inr (f, n) ↦
        items_some f n
        ∙ release_loop-release_all a.callbacks f a.items_count 0 xs s n h refl h.counted
  ]
    where
      items_none : a.callbacks.release ≡ none → release_items a s ≡ ok s
      items_none n = unfold release_items in ground arith

      items_some :
          (f : Ptr → S → Run S)
          → a.callbacks.release ≡ some f
          → release_items a s ≡ release_loop f a.items a.items_count 0 s
      items_some f n = unfold release_items in ground arith

  -- Deinitialising an array that holds `xs` runs the release callback once on each item, in order, and
  -- then gives the block of the array back.
  pub deinit-release_all :
      {a : Array S} {xs : List Ptr} (s : S)
      → Holds a xs
      → deinit a s ≡ (release_all a.callbacks xs s >>= λ s'. ok (s', a.items))
  unfolding deinit
  deinit-release_all {a} s h =
      ap (λ r. r >>= λ s'. ok (s', a.items)) (release_items-release_all s h)

  -- Item by item: the same pointer, or two that the equal callback, if there is one, takes for
  -- equal. It is asked in order, up to the first no.
  abbrev pub same_items : Option (Ptr → Ptr → S → Run Bool) → List Ptr → List Ptr → S → Run Bool
  same_items f [] ys s = ok true
  same_items f (x ∷ xs) [] s = ok true
  same_items f (x ∷ xs) (y ∷ ys) s = do
    same ← (if x == y then ok true else elim f [ none ↦ ok true | some g ↦ g x y s ])
    elim same [ true ↦ same_items f xs ys s | false ↦ ok false ]

  equal_loop-same_items :
      (f : Option (Ptr → Ptr → S → Run Bool)) (left i : ℕ) (zs ws : List Ptr) {a b : Array S}
      {xs ys : List Ptr} (s : S)
      → Holds a xs
      → Holds b ys
      → drop i xs ≡ zs
      → drop i ys ≡ ws
      → left ≡ length zs
      → left ≡ length ws
      → equal_loop f a.items b.items left i s ≡ same_items f zs ws s
  unfolding equal_loop
  equal_loop-same_items f zero i [] ws s ha hb d e p q = refl
  equal_loop-same_items f zero i (z ∷ zs) ws s ha hb d e p q = absurd (omega arith)
  equal_loop-same_items f (suc left) i [] ws s ha hb d e p q = absurd (omega arith)
  equal_loop-same_items f (suc left) i (z ∷ zs) [] s ha hb d e p q = absurd (omega arith)
  equal_loop-same_items f (suc left) i (z ∷ zs) (w ∷ ws) {a} {b} {xs} {ys} s ha hb d e p q =
      let (at, later) = drop_head i xs d in
      let (at', later') = drop_head i ys e in
      let rest : equal_loop f a.items b.items left (i + 1) s ≡ same_items f zs ws s =
        equal_loop-same_items f left (i + 1) zs ws s ha hb (rw add-one later) (rw add-one later')
          (omega arith) (omega arith) in
      rw (load_item i ha at, load_item i hb at')
        (ap
          (λ (r : Run Bool).
            (if z == w then ok true else elim f [ none ↦ ok true | some g ↦ g z w s ]) >>= λ same.
            elim same [ true ↦ r | false ↦ ok false ])
          rest)

  equal-loop_items :
      {a b : Array S} {xs ys : List Ptr} (s : S)
      → Holds a xs
      → Holds b ys
      → equal a b s ≡ (
          if not (a.callbacks.address == b.callbacks.address) || not (length xs == length ys)
          then ok false
          else same_items a.callbacks.equal xs ys s)
  unfolding equal
  equal-loop_items {a} {b} {xs} {ys} s ha hb = ground (
    arith,
    ha.counted,
    hb.counted,
    equal_loop-same_items a.callbacks.equal a.items_count 0 xs ys s ha hb refl refl ha.counted,
  )

  same_items-Match :
      (f : Ptr → Ptr → S → Run Bool) (r : Ptr → Ptr → Bool) (s : S) (xs ys : List Ptr)
      → ((x y : Ptr) → f x y s ≡ ok (r x y))
      → length xs ≡ length ys
      → (b : Bool) × (same_items (some f) xs ys s ≡ ok b) × ((b ≡ true) ↔ Match r xs ys)
  same_items-Match f r s [] [] d n =
      (true, refl, (λ _. record { count = refl; items = λ i x y e f. cc }, λ _. refl))
  same_items-Match f r s [] (y ∷ ys) d n = absurd (omega arith)
  same_items-Match f r s (x ∷ xs) [] d n = absurd (omega arith)
  same_items-Match f r s (x ∷ xs) (y ∷ ys) d n =
      let (b, rest, iff) = same_items-Match f r s xs ys d (omega arith) in
      elim (Bool-cases (x == y)) [
        | inl same ↦ (
          b,
          rw same rest,
          (λ t. Match-cons r x y xs ys (inl (ground arith)) (iff.0 t), λ m. iff.1 (Match-rest m)),
        )
        | inr other ↦ elim (Bool-cases (r x y)) [
          | inl related ↦ (
            b,
            rw (other, d x y, related) rest,
            (λ t. Match-cons r x y xs ys (inr related) (iff.0 t), λ m. iff.1 (Match-rest m)),
          )
          | inr apart ↦ (
            false,
            rw (other, d x y, apart) refl,
            (λ t. cc, λ m. elim (m.items 0 x y refl refl) [ inl e ↦ ground arith | inr t ↦ cc ]),
          )
        ]
      ]

  -- The class's `equal` handler on two arrays that hold lists, of which the first has an equal callback
  -- that answers `r` of any two pointers: it returns, and true exactly when the two have one address of
  -- callbacks, as many items, and at each index one pointer or two of which `r` is true.
  pub equal-Match :
      {a b : Array S} {xs ys : List Ptr} (f : Ptr → Ptr → S → Run Bool) (r : Ptr → Ptr → Bool)
      (s : S)
      → Holds a xs
      → Holds b ys
      → a.callbacks.equal ≡ some f
      → ((x y : Ptr) → f x y s ≡ ok (r x y))
      → (same : Bool) × (equal a b s ≡ ok same)
        × ((same ≡ true) ↔ ((a.callbacks.address ≡ b.callbacks.address) × Match r xs ys))
  equal-Match {a} {b} {xs} {ys} f r s ha hb is d =
      let run = equal-loop_items s ha hb in
      elim (Bool-cases
        (not (a.callbacks.address == b.callbacks.address) || not (length xs == length ys))) [
          | inl differ ↦
              (false, rw (run, differ) refl, (λ t. cc, λ (e, m). let n = m.count in ground arith))
          | inr alike ↦
              let (same, out, iff) = same_items-Match f r s xs ys d (ground arith) in
              (same, rw (run, alike, is) out, (λ t. (ground arith, iff.0 t), λ h. iff.1 h.1))
        ]

  same_items-none : (xs ys : List Ptr) (s : S) → same_items none xs ys s ≡ ok true
  same_items-none [] ys s = refl
  same_items-none (x ∷ xs) [] s = refl
  same_items-none (x ∷ xs) (y ∷ ys) s = elim (Bool-cases (x == y)) [
    | inl e ↦ rw e (same_items-none xs ys s)
    | inr e ↦ rw e (same_items-none xs ys s)
  ]

  -- Without an equal callback any two arrays with the same callbacks and as many items are taken
  -- for equal, whatever the items are.
  pub equal_without_callback :
      {a b : Array S} {xs ys : List Ptr} (s : S)
      → Holds a xs
      → Holds b ys
      → a.callbacks.address ≡ b.callbacks.address
      → a.callbacks.equal ≡ none
      → length xs ≡ length ys
      → equal a b s ≡ ok true
  equal_without_callback {a} {b} {xs} {ys} s ha hb same n e =
      equal-loop_items s ha hb ∙ ground (arith, same_items-none xs ys s)
