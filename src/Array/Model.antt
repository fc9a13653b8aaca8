-- ===== src/Array/Model.antt =====
-- The data and the operations of src/EFArray.c.
use emex_foundation.Base.{
  add_index, ℕ, ◌+◌, ◌-◌, ◌*◌, ◌/◌, ◌%◌, ◌^◌, Bool, true, false, not, ◌&&◌, ◌||◌, Option, none,
  some, List, [], ◌++◌, if◌then◌else◌, leb, ltb, ◌==◌, length, take, drop, set, get_elem?,
  replicate, ℤ, pos, negsuc, ltb_ℤ, leb_ℤ, wrap, Run, ok, fault, ◌>>=◌,
}
use emex_foundation.Allocator.{Allocator}

abbrev pub Ptr : Type 0
Ptr = ℕ

abbrev pub null : Ptr
null = 0

abbrev pub long_max : ℕ
long_max = 2 ^ 63 - 1

-- `struct EFArrayCallbacks` over the state `S` that the callbacks act on; `address` is that of the
-- structure, which the code compares.
pub record Callbacks (S : Type 0) : Type 0 where
  pub address : ℕ
  pub retain : Option (Ptr → S → Run (Bool × S))
  pub release : Option (Ptr → S → Run S)
  pub equal : Option (Ptr → Ptr → S → Run Bool)

-- `struct __EFArray`. `items` is the block behind the pointer, one cell for each pointer it has
-- room for; a cell is `none` until it is written.
pub record Array (S : Type 0) : Type 0 where
  pub is_mutable : Bool
  pub callbacks : Callbacks S
  pub items_capacity : ℤ
  pub items_count : ℕ
  pub items : List (Option Ptr)

-- `(EFSize)(n * sizeof(void*))`
abbrev pub pointer_bytes : ℤ → ℕ
pointer_bytes n = (wrap (2 ^ 64) n * 8) % 2 ^ 64

-- What `realloc` makes of a block: the old cells as far as they fit, the rest not written.
abbrev pub realloc : ℕ → List (Option Ptr) → List (Option Ptr)
realloc n cells = take n cells ++ replicate (n - length cells) none

-- `*p`, a fault outside the block and on a cell that was never written.
abbrev pub load : List (Option Ptr) → ℕ → Run Ptr
load cells i = elim (get_elem? cells i) [ some (some p) ↦ ok p | _ ↦ fault ]

abbrev pub store : List (Option Ptr) → ℕ → Ptr → Run (List (Option Ptr))
store cells i p = if ltb i (length cells) then ok (set cells i (some p)) else fault

-- `memmove(&cells[dst], &cells[src], n * sizeof(void*))`
abbrev pub memmove : ℕ → ℕ → ℕ → List (Option Ptr) → Run (List (Option Ptr))
memmove dst src n cells =
    if n == 0
    then ok cells
    else (if leb (dst + n) (length cells) && leb (src + n) (length cells)
        then ok (take dst cells ++ (take n (drop src cells) ++ drop (dst + n) cells))
        else fault)

module _ {S : Type 0} where
  -- `kEFArrayCallbacksDefaultCallbacks`
  abbrev pub default_callbacks : Callbacks S
  default_callbacks = record { address = 1; retain = none; release = none; equal = none }

  -- A callback that is NULL is skipped.
  unfoldable pub retain_item : Callbacks S → Ptr → S → Run (Bool × S)
  retain_item c p s = elim c.retain [ none ↦ ok (true, s) | some f ↦ f p s ]

  unfoldable pub release_item : Callbacks S → Ptr → S → Run S
  release_item c p s = elim c.release [ none ↦ ok s | some f ↦ f p s ]

  -- `EFArrayCreateMutable`, with its two requests for memory.
  unfoldable pub create_mutable : Allocator → Option (Callbacks S) → ℤ → Option (Array S)
  create_mutable al cb capacity =
      let chosen : Callbacks S =
        if ltb_ℤ capacity (pos 0)
        then default_callbacks
        else elim cb [ none ↦ default_callbacks | some c ↦ c ] in
      let bytes = pointer_bytes capacity in
      if ltb_ℤ (pos 0) capacity && not (al.grants bytes)
      then none
      else (if not (al.grants 72)
          then none
          else some (record {
            is_mutable = true;
            callbacks = chosen;
            items_capacity = capacity;
            items_count = 0;
            items = if ltb_ℤ (pos 0) capacity then replicate (bytes / 8) none else [];
          }))

  unfoldable pub get_count : Option (Array S) → ℕ
  get_count none = 0
  get_count (some a) = a.items_count

  unfoldable pub get_value_at_index : Option (Array S) → ℤ → Run Ptr
  get_value_at_index none index = ok null
  get_value_at_index (some a) (negsuc _) = ok null
  get_value_at_index (some a) (pos i) = if leb a.items_count i then ok null else load a.items i

  -- `__EFArrayResizeIfNeededForOneMoreIndex`
  unfoldable pub resize_if_needed : Allocator → Array S → Bool × Array S
  resize_if_needed al a =
      let new_cap = add_index a.items_capacity (pos 5) in
      let bytes = pointer_bytes new_cap in
      if leb_ℤ (pos (a.items_count + 1)) a.items_capacity
      then (true, a)
      else (if ltb_ℤ new_cap a.items_capacity
          then (false, a)
          else (if not (al.grants bytes) then (false, a) else (
            true,
            record a { items_capacity = new_cap; items = realloc (bytes / 8) a.items },
          )))

  -- The pointer stored at the end, with the count advanced.
  abbrev pub push_item : Array S → Ptr → Run (Array S)
  push_item a p = do
    cells ← store a.items a.items_count p
    ok (record a { items = cells; items_count = a.items_count + 1 })

  abbrev pub append_kept : Array S → Ptr → Bool × S → Run (Bool × Option (Array S) × S)
  append_kept a p (true, s) = do a' ← push_item a p; ok (true, some a', s)
  append_kept a p (false, s) = ok (false, some a, s)

  abbrev pub append_resized : Bool × Array S → Ptr → S → Run (Bool × Option (Array S) × S)
  append_resized (true, a) p s = do kept ← retain_item a.callbacks p s; append_kept a p kept
  append_resized (false, a) p s = ok (false, some a, s)

  -- `EFArrayAppendValue`
  unfoldable pub append_value :
      Allocator → Option (Array S) → Ptr → S → Run (Bool × Option (Array S) × S)
  append_value al none p s = ok (false, none, s)
  append_value al (some a) p s =
      if p == null || (not a.is_mutable || leb long_max a.items_count)
      then ok (false, some a, s)
      else append_resized (resize_if_needed al a) p s

  abbrev pub insert_kept : Array S → ℕ → Ptr → Bool × S → Run (Bool × Option (Array S) × S)
  insert_kept a i p (true, s) = do
    cells ← memmove (i + 1) i (a.items_count - i) a.items
    cells ← store cells i p
    ok (true, some (record a { items = cells; items_count = a.items_count + 1 }), s)
  insert_kept a i p (false, s) = ok (false, some a, s)

  abbrev pub insert_resized : Bool × Array S → ℕ → Ptr → S → Run (Bool × Option (Array S) × S)
  insert_resized (true, a) i p s = do kept ← retain_item a.callbacks p s; insert_kept a i p kept
  insert_resized (false, a) i p s = ok (false, some a, s)

  -- `EFArrayInsertValueAtIndex`. A negative index fails before the array is resized.
  unfoldable pub insert_value_at_index :
      Allocator → Option (Array S) → ℤ → Ptr → S → Run (Bool × Option (Array S) × S)
  insert_value_at_index al none index p s = ok (false, none, s)
  insert_value_at_index al (some a) (negsuc _) p s = ok (false, some a, s)
  insert_value_at_index al (some a) (pos i) p s =
      if p == null || (not a.is_mutable || (ltb a.items_count i || leb long_max a.items_count))
      then ok (false, some a, s)
      else insert_resized (resize_if_needed al a) i p s

  -- The released pointer is read only if there is a release callback.
  abbrev pub release_at : Array S → ℕ → S → Run S
  release_at a i s = elim a.callbacks.release [
    | none ↦ ok s
    | some f ↦ load a.items i >>= λ p. f p s
  ]

  -- `EFArrayRemoveValueAtIndex`
  unfoldable pub remove_value_at_index : Option (Array S) → ℤ → S → Run (Option (Array S) × S)
  remove_value_at_index none index s = ok (none, s)
  remove_value_at_index (some a) (negsuc _) s = ok (some a, s)
  remove_value_at_index (some a) (pos i) s =
      if not a.is_mutable || leb a.items_count i then ok (some a, s) else (do
        s ← release_at a i s
        cells ← memmove i (i + 1) (a.items_count - i - 1) a.items
        ok (some (record a { items = cells; items_count = a.items_count - 1 }), s))
