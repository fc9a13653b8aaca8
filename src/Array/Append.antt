-- ===== src/Array/Append.antt =====
-- `EFArrayAppendValue`, and the room check that it shares with insertion, on the list that the
-- array holds.
use emex_foundation.Base.{
  ℕ, ◌+◌, ◌<◌, ◌≢◌, Bool, true, false, not, ◌||◌, Option, none, some, List, [], ◌∷◌, ◌++◌, ◌≡◌,
  refl, ap, ap₂, ◌∙◌, sym, fault, abort, ltb→lt, arith, length, replicate, ltb, leb, ◌==◌,
  if◌then◌else◌, pos, Bool-cases, inl, inr, length-append, Run, ok, ◌>>=◌, Returns, returns,
  Returns-bind, Returns-mono,
}
use emex_foundation.Allocator.{Allocator}
use emex_foundation.Array.Model.{
  Ptr, null, long_max, Array, resize_if_needed, push_item, append_kept, append_resized,
  append_value, store, retain_item,
}
use emex_foundation.Array.Holds.{Holds, cells_of, length-items, store_end, length-cells_of}
use emex_foundation.Array.Capacity.{grown_bytes, resize_if_needed-grown, Holds-grown}

module _ {S : Type 0} where
  -- Room for one more item, now or after growing.
  abbrev pub has_room : Allocator → Array S → Bool
  has_room al a = ltb a.items_count (length a.items) || al.grants (grown_bytes a)

  -- The array `o` is `a` with other items: those of `xs`.
  pub record Became (a : Array S) (xs : List Ptr) (o : Option (Array S)) : Type 0 where
    pub array : Array S
    pub is : o ≡ some array
    pub same_mutable : array.is_mutable ≡ a.is_mutable
    pub same_callbacks : array.callbacks ≡ a.callbacks
    pub holds : Holds array xs

  -- Other items in the same block.
  pub Became-items :
      {a : Array S} {xs : List Ptr} (ys : List Ptr) (rest : List (Option Ptr)) (count : ℕ)
      → Holds a xs
      → count ≡ length ys
      → length (cells_of ys ++ rest) ≡ length a.items
      → Became a ys (some (record a { items = cells_of ys ++ rest; items_count = count }))
  Became-items {a} ys rest count h e size = record {
    array = record a { items = cells_of ys ++ rest; items_count = count };
    is = refl;
    same_mutable = refl;
    same_callbacks = refl;
    holds = record {
      spare = rest;
      cells = refl;
      counted = e;
      capacity = h.capacity ∙ ap pos (sym size);
      small = rw size h.small;
    };
  }

  -- The store behind the last item, at the array.
  store_item :
      {a : Array S} {xs : List Ptr} (p : Ptr) (h : Holds a xs)
      → length xs < length a.items
      → (rest : List (Option Ptr)) × (store a.items a.items_count p
          ≡ ok (cells_of (xs ++ (p ∷ [])) ++ rest))
        × (length (cells_of (xs ++ (p ∷ [])) ++ rest) ≡ length a.items)
  store_item {a} {xs} p h room =
      let (rest, stored, size) = store_end xs h.spare p (omega (arith, length-items h)) in
      (
        rest,
        rw (h.cells, h.counted) stored,
        omega (
          arith,
          size,
          length-items h,
          length-append (cells_of (xs ++ (p ∷ []))) rest,
          length-cells_of (xs ++ (p ∷ [])),
          length-append xs (p ∷ []),
        ),
      )

  pub push_item-Holds :
      {a : Array S} {xs : List Ptr} (p : Ptr) (h : Holds a xs)
      → length xs < length a.items
      → Returns
          (λ b. Became a (xs ++ (p ∷ [])) (some b) × (length b.items ≡ length a.items))
          (push_item a p)
  push_item-Holds {a} {xs} p h room =
      let (rest, stored, size) = store_item p h room in
      rw stored (
        returns (
          Became-items (xs ++ (p ∷ [])) rest (a.items_count + 1) h
              (omega (arith, h.counted, length-append xs (p ∷ []))) size,
          size,
        ))

  -- What is known of the array that the resize hands on.
  pub record Resized (al : Allocator) (a : Array S) (xs : List Ptr) (r : Bool × Array S)
      : Type 0 where
    pub decided : r.0 ≡ has_room al a
    pub same_mutable : r.1.is_mutable ≡ a.is_mutable
    pub same_callbacks : r.1.callbacks ≡ a.callbacks
    pub holds : Holds r.1 xs
    pub room : r.0 ≡ true → length xs < length r.1.items

  pub resize-Resized :
      (al : Allocator) {a : Array S} {xs : List Ptr}
      → Holds a xs
      → Resized al a xs (resize_if_needed al a)
  resize-Resized al {a} {xs} h =
      rw (resize_if_needed-grown al h) (elim (Bool-cases (ltb a.items_count (length a.items))) [
        | inl t ↦ rw t (record {
          decided = rw t;
          same_mutable = refl;
          same_callbacks = refl;
          holds = h;
          room = λ _. omega (arith, ltb→lt _ _ t, h.counted);
        })
        | inr f ↦ rw f (elim (Bool-cases (al.grants (grown_bytes a))) [
          | inl g ↦ rw g (record {
            decided = rw (f, g);
            same_mutable = refl;
            same_callbacks = refl;
            holds = Holds-grown al h g;
            room = λ _. omega (arith, length-items h, length-append a.items (replicate 5 none));
          })
          | inr g ↦ rw g (record {
            decided = rw (f, g);
            same_mutable = refl;
            same_callbacks = refl;
            holds = h;
            room = λ e. absurd (ground arith);
          })
        ])
      ])

  -- What an attempt to add an item to the list `xs` leaves, `ys` being the list with the item:
  -- the flag of the output says whether it was added.
  pub record Added (al : Allocator) (a : Array S) (xs ys : List Ptr) (p : Ptr) (s : S)
      (out : Bool × Option (Array S) × S) : Type 0 where
    pub became : Became a (if out.0 then ys else xs) out.1
    pub kept : has_room al a ≡ true → retain_item a.callbacks p s ≡ ok (out.0, out.2)
    pub refused : has_room al a ≡ false → (out.0 ≡ false) × (out.2 ≡ s)

  Became-Resized :
      {al : Allocator} {a b : Array S} {xs ys : List Ptr} {o : Option (Array S)} {d : Bool}
      → Resized al a xs (d, b)
      → Became b ys o
      → Became a ys o
  Became-Resized r m = record {
    array = m.array;
    is = m.is;
    same_mutable = m.same_mutable ∙ r.same_mutable;
    same_callbacks = m.same_callbacks ∙ r.same_callbacks;
    holds = m.holds;
  }

  unchanged : {b : Array S} {xs : List Ptr} → Holds b xs → Became b xs (some b)
  unchanged {b} h = record {
    array = b;
    is = refl;
    same_mutable = refl;
    same_callbacks = refl;
    holds = h;
  }

  -- Without room the array is handed on as it is.
  pub no_room-Added :
      {al : Allocator} {a b : Array S} {xs : List Ptr} (ys : List Ptr) (p : Ptr) (s : S)
      → Resized al a xs (false, b)
      → Added al a xs ys p s (false, some b, s)
  no_room-Added ys p s r = record {
    became = Became-Resized r (unchanged r.holds);
    kept = λ e. cc (r.decided);
    refused = λ e. (refl, refl);
  }

  -- With room the retain callback decides, and `k` goes on with its answer.
  pub room-Added :
      {al : Allocator} {a b : Array S} {xs : List Ptr} (ys : List Ptr) (p : Ptr) (s : S)
      (k : Bool × S → Run (Bool × Option (Array S) × S))
      → Resized al a xs (true, b)
      → Returns (λ _. Unit {0}) (retain_item a.callbacks p s)
      → ((s' : S) → k (false, s') ≡ ok (false, some b, s'))
      → ((s' : S)
          → Returns (λ out. Became b ys out.1 × (out.0 ≡ true) × (out.2 ≡ s')) (k (true, s')))
      → Returns (Added al a xs ys p s) (retain_item b.callbacks p s >>= k)
  room-Added {al} {a} {b} {xs} ys p s k r keeps refuse accept =
      after (retain_item b.callbacks p s) refl (rw same keeps)
    where
      same : retain_item b.callbacks p s ≡ retain_item a.callbacks p s
      same = ap (λ c. retain_item c p s) r.same_callbacks

      after :
          (m : Run (Bool × S))
          → retain_item b.callbacks p s ≡ m
          → Returns (λ _. Unit {0}) m
          → Returns (Added al a xs ys p s) (m >>= k)
      after (ok (false, s')) e q = rw (refuse s') (
          returns (record {
            became = Became-Resized r (unchanged r.holds);
            kept = λ _. sym same ∙ e;
            refused = λ e'. cc (r.decided);
          }))
      after (ok (true, s')) e q = Returns-mono (accept s') λ out m. record {
        became = rw m.1 (Became-Resized r m.0);
        kept = λ _. sym same ∙ e ∙ ap₂ (λ d t. ok (d, t)) (sym m.1) (sym m.2);
        refused = λ e'. cc (r.decided);
      }
      after fault e q = elim q [ ]
      after abort e q = elim q [ ]

  append_resized-Added :
      (al : Allocator) {a : Array S} {xs : List Ptr} (p : Ptr) (s : S) (r : Bool × Array S)
      → Returns (λ _. Unit {0}) (retain_item a.callbacks p s)
      → Resized al a xs r
      → Returns (Added al a xs (xs ++ (p ∷ [])) p s) (append_resized r p s)
  append_resized-Added al {a} {xs} p s (false, b) keeps r = returns (no_room-Added _ p s r)
  append_resized-Added al {a} {xs} p s (true, b) keeps r =
      room-Added (xs ++ (p ∷ [])) p s (append_kept b p) r keeps (λ s'. refl)
        λ s'.
          Returns-bind (push_item-Holds p r.holds (r.room refl)) λ b' m. returns (m.0, refl, refl)

  -- The guards of the two operations that add an item.
  pub guard_off :
      {a : Array S} {xs : List Ptr} {p : Ptr}
      → Holds a xs
      → a.is_mutable ≡ true
      → p ≢ null
      → (p == null || (not a.is_mutable || leb long_max a.items_count)) ≡ false
  guard_off {a} {xs} {p} h m n = ground (arith, length-items h)

  -- `EFArrayAppendValue` of a pointer that is not NULL to a mutable array that holds `xs`, with a
  -- retain callback that returns, writes and reads inside its block and returns. If there is room,
  -- now or by a granted request for five more cells, the retain callback runs once on the pointer
  -- and the result is its answer, else the result is false and it does not run. The array then
  -- holds `xs` with the pointer behind it if the result is true, and `xs` if it is false.
  pub append_value-Added :
      (al : Allocator) {a : Array S} {xs : List Ptr} (p : Ptr) (s : S)
      → Holds a xs
      → a.is_mutable ≡ true
      → p ≢ null
      → Returns (λ _. Unit {0}) (retain_item a.callbacks p s)
      → Returns (Added al a xs (xs ++ (p ∷ [])) p s) (append_value al (some a) p s)
  unfolding append_value
  append_value-Added al {a} p s h m n keeps =
      rw (guard_off h m n)
        (append_resized-Added al p s (resize_if_needed al a) keeps (resize-Resized al h))
