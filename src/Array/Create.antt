-- ===== src/Array/Create.antt =====
-- The constructors of src/EFArray.c.
use emex_foundation.Base.{
  ℕ, zero, suc, ◌+◌, ◌*◌, ◌/◌, ◌%◌, ◌^◌, ◌≤◌, ◌<◌, ◌≢◌, Bool, true, false, Option, none, some, List,
  [], ◌∷◌, ◌++◌, ◌≡◌, refl, ap, ◌∙◌, sym, arith, length, replicate, pos, Run, ok, ◌>>=◌, Returns,
  returns, Returns-bind, Returns-mono, >>=_assoc, or_fault, get_elem?, some_inj, length-replicate,
  length-append, append_assoc, append-nil,
}
use emex_foundation.Allocator.{Allocator}
use emex_foundation.Array.Model.{
  Ptr, null, push_item, Callbacks, Array, create_mutable, retain_item, append_value, load,
}
use emex_foundation.Array.Holds.{Holds}
use emex_foundation.Array.Append.{Became, push_item-Holds, guard_off}
use emex_foundation.Array.AppendArray.{retain_all, retain_all-cons, roomy}
use emex_foundation.Array.Range.{Became-trans, Became-same}
use emex_foundation.Array.Bulk.{
  append_loop, finish, create, create_copy, fill, value_at, or_default,
}
use emex_foundation.Array.Remove.{load_item}

abbrev pub NoNull : List Ptr → Type 0
NoNull [] = Unit {0}
NoNull (x ∷ xs) = (x ≢ null) × NoNull xs

value_at-append :
    (xs more : List Ptr) (k : ℕ) (z : Ptr)
    → get_elem? xs k ≡ some z
    → value_at (some (xs ++ more)) k ≡ ok z
value_at-append [] more k z e = cc
value_at-append (x ∷ xs) more zero z e = ap or_fault e
value_at-append (x ∷ xs) more (suc k) z e = value_at-append xs more k z e

module _ {S : Type 0} where
  -- A new array holds nothing, and has room for as many items as were asked for.
  pub record Fresh (cb : Callbacks S) (n : ℕ) (o : Option (Array S)) : Type 0 where
    pub array : Array S
    pub is : o ≡ some array
    pub mutable : array.is_mutable ≡ true
    pub callbacks : array.callbacks ≡ cb
    pub holds : Holds array []
    pub room : length array.items ≡ n

  pub create_mutable-Fresh :
      (al : Allocator) (cb : Callbacks S) (n : ℕ)
      → n * 8 < 2 ^ 63
      → al.grants (n * 8) ≡ true
      → al.grants 72 ≡ true
      → Fresh cb n (create_mutable al (some cb) (pos n))
  unfolding create_mutable
  create_mutable-Fresh al cb n small g h = record {
    array = record {
      is_mutable = true;
      callbacks = cb;
      items_capacity = pos n;
      items_count = 0;
      items = replicate n none;
    };
    is = made n small g;
    mutable = refl;
    callbacks = refl;
    holds = record {
      spare = replicate n none;
      cells = refl;
      counted = refl;
      capacity = ap pos (sym (length-replicate n none));
      small = rw length-replicate small;
    };
    room = length-replicate n none;
  }
    where
      made :
          (n : ℕ)
          → n * 8 < 2 ^ 63
          → al.grants (n * 8) ≡ true
          → create_mutable al (some cb) (pos n)
            ≡ some (record {
              is_mutable = true;
              callbacks = cb;
              items_capacity = pos n;
              items_count = 0;
              items = replicate n none;
            })
      made zero small g = ground (arith, h)
      made (suc n) small g =
          let asked : suc n % 2 ^ 64 * 8 % 2 ^ 64 ≡ suc n * 8 = omega arith in
          let cells : suc n * 8 / 8 ≡ suc n = omega arith in rw (asked, cells, g, h) (ground arith)

  -- An item appended where there is a spare cell.
  append_value_roomy :
      (al : Allocator) {a : Array S} {xs : List Ptr} (p : Ptr) (s t : S)
      → Holds a xs
      → a.is_mutable ≡ true
      → p ≢ null
      → length xs < length a.items
      → retain_item a.callbacks p s ≡ ok (true, t)
      → append_value al (some a) p s ≡ (push_item a p >>= λ b. ok (true, some b, t))
  unfolding append_value
  append_value_roomy al {a} p s t h m n room kept =
      rw (guard_off h m n, roomy al a (length a.items) h.capacity (omega (arith, h.counted)), kept)
        refl

  -- What the loop leaves when every item is kept.
  Filled : Array S → List Ptr → S → Bool × Option (Array S) × S → Type 0
  Filled a xs s' out = (out.0 ≡ true) × Became a xs out.1 × (out.2 ≡ s')

  append_loop-Filled :
      (al : Allocator) (values : ℕ → Run Ptr) (left i : ℕ) (zs : List Ptr) {a : Array S}
      {xs : List Ptr} (s s' : S)
      → ((k : ℕ) (z : Ptr) → get_elem? zs k ≡ some z → values (i + k) ≡ ok z)
      → left ≡ length zs
      → Holds a xs
      → a.is_mutable ≡ true
      → NoNull zs
      → length xs + left ≤ length a.items
      → retain_all a.callbacks zs s ≡ ok (true, s')
      → Returns (Filled a (xs ++ zs) s') (append_loop al values left i (some a) s)
  unfolding Filled append_loop
  append_loop-Filled al values zero i [] s s' at e h w nn room r =
      returns (refl, rw append-nil (Became-same h), cc)
  append_loop-Filled al values zero i (z ∷ zs) s s' at e h w nn room r = absurd (omega arith)
  append_loop-Filled al values (suc left) i [] s s' at e h w nn room r = absurd (omega arith)
  append_loop-Filled al values (suc left) i (z ∷ zs) {a} {xs} s s' at e h w nn room r =
      let (t, kept, rest) = retain_all-cons a.callbacks z zs s s' r in
      let start : i ≡ i + 0 = omega arith in
      let here : values i ≡ ok z = ap values start ∙ at 0 z refl in
      rw (here, append_value_roomy al z s t h w nn.0 (omega arith) kept, >>=_assoc (push_item a z))
        (Returns-bind (push_item-Holds z h (omega arith)) λ a' m.
          let e' : a' ≡ m.0.array = some_inj m.0.is in
          let next : (k : ℕ) (y : Ptr) → get_elem? zs k ≡ some y → values (i + 1 + k) ≡ ok y =
            λ k y q.
              let there : i + 1 + k ≡ i + suc k = omega arith in ap values there ∙ at (suc k) y q in
          rw e' (
            Returns-mono
              (append_loop-Filled al values left (i + 1) zs t s' next (omega arith) m.0.holds
                (m.0.same_mutable ∙ w) nn.1
                (omega
                  (arith, m.1, length-append xs (z ∷ []), ap (λ (c : Array S). length c.items) e'))
                (rw m.0.same_callbacks rest))
              λ out u. (u.0, rw (← append_assoc xs (z ∷ []) zs) (Became-trans m.0 u.1), u.2)))

  -- A new array with the items of `zs`, or none if it cannot be made.
  abbrev pub Created : Callbacks S → Bool → List Ptr → S → Option (Array S) × S → Type 0
  Created cb is_mutable zs s' out =
      (b : Array S) × (out.0 ≡ some b)
      × (b.is_mutable ≡ is_mutable)
      × (b.callbacks ≡ cb)
      × Holds b zs
      × (out.1 ≡ s')

  finish-Created :
      (a : Array S) (zs : List Ptr) (is_mutable : Bool) (s' : S) (out : Bool × Option (Array S) × S)
      → Filled a zs s' out
      → Returns (Created a.callbacks is_mutable zs s') (finish is_mutable out)
  unfolding Filled finish
  finish-Created a zs is_mutable s' (true, none, s) f = cc (f.1.is)
  finish-Created a zs is_mutable s' (true, some b, s) f =
      let same : b ≡ f.1.array = some_inj f.1.is in
      let held : Holds b zs = rw same f.1.holds in
      returns (
        record b { is_mutable = is_mutable },
        refl,
        refl,
        ap (λ (c : Array S). c.callbacks) same ∙ f.1.same_callbacks,
        record {
          spare = held.spare;
          cells = held.cells;
          counted = held.counted;
          capacity = held.capacity;
          small = held.small;
        },
        f.2,
      )
  finish-Created a zs is_mutable s' (false, o, s) f = cc (f.0)

  filled-Created :
      (al : Allocator) (cb : Callbacks S) (values : ℕ → Run Ptr) (zs : List Ptr) (is_mutable : Bool)
      (s s' : S)
      → ((k : ℕ) (z : Ptr) → get_elem? zs k ≡ some z → values k ≡ ok z)
      → length zs * 8 < 2 ^ 63
      → al.grants (length zs * 8) ≡ true
      → al.grants 72 ≡ true
      → NoNull zs
      → retain_all cb zs s ≡ ok (true, s')
      → Returns
          (Created cb is_mutable zs s')
          (fill al (create_mutable al (some cb) (pos (length zs))) values (length zs) is_mutable s)
  filled-Created al cb values zs is_mutable s s' at small g h nn r =
      let fresh = create_mutable-Fresh al cb (length zs) small g h in
      let start : (k : ℕ) (z : Ptr) → get_elem? zs k ≡ some z → values (0 + k) ≡ ok z =
        λ k z q. let here : 0 + k ≡ k = omega arith in ap values here ∙ at k z q in
      rw fresh.is (
        Returns-bind
          (append_loop-Filled al values (length zs) 0 zs s s' start refl fresh.holds fresh.mutable
            nn (omega (arith, fresh.room)) (rw fresh.callbacks r))
          λ out f.
            Returns-mono (finish-Created fresh.array zs is_mutable s' out f)
              λ out c. (c.0, c.1, c.2, c.3 ∙ fresh.callbacks, c.4, c.5))

  -- EFArrayCreateCopy and EFArrayCreateMutableCopy of an array that holds pointers that are not
  -- NULL, with the memory for a block of them and for an object, and with a retain callback that
  -- keeps each of them: the copy holds the same list, has the callbacks of the array and is mutable
  -- as asked, and the retain callback has run on each item in order.
  pub create_copy-Created :
      (al : Allocator) {a : Array S} {xs : List Ptr} (is_mutable : Bool) (s s' : S)
      → Holds a xs
      → NoNull xs
      → al.grants (length xs * 8) ≡ true
      → al.grants 72 ≡ true
      → retain_all a.callbacks xs s ≡ ok (true, s')
      → Returns (Created a.callbacks is_mutable xs s') (create_copy al (some a) is_mutable s)
  unfolding create_copy
  create_copy-Created al {a} {xs} is_mutable s s' h nn g o r = rw h.counted (
      filled-Created al a.callbacks (load a.items) xs is_mutable s s' (λ k z e. load_item k h e)
        (al.grants_small _ g) g o nn r)

  -- EFArrayCreate of as many values as `xs` has, from a block that starts with them, none of them
  -- NULL, with the memory for a block and for an object, and with a retain callback that keeps each
  -- of them: the array is immutable, holds `xs` and has the callbacks that were passed, the default
  -- ones for NULL, and the retain callback has run on each value in order.
  pub create-Created :
      (al : Allocator) (cb : Option (Callbacks S)) (xs more : List Ptr) (s s' : S)
      → NoNull xs
      → al.grants (length xs * 8) ≡ true
      → al.grants 72 ≡ true
      → retain_all (or_default cb) xs s ≡ ok (true, s')
      → Returns
          (Created (or_default cb) false xs s')
          (create al cb (some (xs ++ more)) (pos (length xs)) s)
  unfolding create
  create-Created al cb xs more s s' nn g o r =
      filled-Created al (or_default cb) (value_at (some (xs ++ more))) xs false s s'
        (value_at-append xs more) (al.grants_small _ g) g o nn r
