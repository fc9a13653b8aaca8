-- ===== src/Array/Bulk.antt =====
-- The operations of src/EFArray.c that go over many items, the constructors and the class handlers.
use emex_foundation.Base.{
  add_index, ℕ, zero, suc, ◌+◌, ◌-◌, Bool, true, false, not, ◌&&◌, ◌||◌, Option, none, some, List,
  if◌then◌else◌, ◌==◌, ℤ, pos, negsuc, pos_part, neg_part, Run, ok, fault, ◌>>=◌, or_fault,
  get_elem?,
}
use emex_foundation.Allocator.{Allocator}
use emex_foundation.Array.Model.{
  Ptr, Callbacks, Array, load, default_callbacks, retain_item, create_mutable, resize_if_needed,
  push_item, append_value, remove_value_at_index,
}

abbrev pub value_at : Option (List Ptr) → ℕ → Run Ptr
value_at none i = fault
value_at (some xs) i = or_fault (get_elem? xs i)

abbrev pub is_null : Option (List Ptr) → Bool
is_null none = true
is_null (some _) = false

-- The rounds of `for(index = location; index < location + length; index++)`.
abbrev pub rounds : ℤ → ℤ → ℕ
rounds location ceiling =
    pos_part ceiling + neg_part location - (pos_part location + neg_part ceiling)

module _ {S : Type 0} where
  -- Release calls on the items from index `i` on, `left` of them.
  unfoldable pub release_loop : (Ptr → S → Run S) → List (Option Ptr) → ℕ → ℕ → S → Run S
  release_loop f cells zero i s = ok s
  release_loop f cells (suc left) i s = do
    p ← load cells i
    s ← f p s
    release_loop f cells left (i + 1) s

  -- The loop of `__EFArrayClassDeinit`, if there is a release callback.
  unfoldable pub release_items : Array S → S → Run S
  unfolding release_loop
  release_items a s = elim a.callbacks.release [
    | none ↦ ok s
    | some f ↦ release_loop f a.items a.items_count 0 s
  ]

  -- `__EFArrayClassDeinit`: the state that the callbacks leave, and the block that goes to
  -- `EFAllocatorDeallocate`.
  unfoldable pub deinit : Array S → S → Run (S × List (Option Ptr))
  deinit a s = release_items a s >>= λ s'. ok (s', a.items)

  -- Appending `left` values from index `i` on, stopping at the first that fails.
  unfoldable pub append_loop :
      Allocator → (ℕ → Run Ptr) → ℕ → ℕ → Option (Array S) → S → Run (Bool × Option (Array S) × S)
  append_loop al values zero i o s = ok (true, o, s)
  append_loop al values (suc left) i o s = do
    p ← values i
    (done, o, s) ← append_value al o p s
    elim done [ true ↦ append_loop al values left (i + 1) o s | false ↦ ok (false, o, s) ]

  -- On failure the new array is released at the end of the scope, which runs its `deinit`.
  unfoldable pub finish : Bool → Bool × Option (Array S) × S → Run (Option (Array S) × S)
  finish is_mutable (true, some a, s) = ok (some (record a { is_mutable = is_mutable }), s)
  finish is_mutable (true, none, s) = fault
  finish is_mutable (false, none, s) = ok (none, s)
  finish is_mutable (false, some a, s) = deinit a s >>= λ r. ok (none, r.0)

  abbrev pub fill :
      Allocator → Option (Array S) → (ℕ → Run Ptr) → ℕ → Bool → S → Run (Option (Array S) × S)
  fill al none values count is_mutable s = ok (none, s)
  fill al (some a) values count is_mutable s =
      append_loop al values count 0 (some a) s >>= finish is_mutable

  abbrev pub or_default : Option (Callbacks S) → Callbacks S
  or_default none = default_callbacks
  or_default (some c) = c

  -- `EFArrayCreate`; `values` is the block that the caller passes.
  unfoldable pub create :
      Allocator → Option (Callbacks S) → Option (List Ptr) → ℤ → S → Run (Option (Array S) × S)
  unfolding finish
  create al cb values (negsuc _) s = ok (none, s)
  create al cb values (pos n) s =
      if is_null values && not (n == 0)
      then ok (none, s)
      else fill al (create_mutable al (some (or_default cb)) (pos n)) (value_at values) n false s

  -- `__EFArrayCreateCopy`, for `EFArrayCreateCopy` and `EFArrayCreateMutableCopy`.
  unfoldable pub create_copy : Allocator → Option (Array S) → Bool → S → Run (Option (Array S) × S)
  unfolding finish
  create_copy al none is_mutable s = ok (none, s)
  create_copy al (some a) is_mutable s =
      fill al (create_mutable al (some a.callbacks) (pos a.items_count)) (load a.items)
        a.items_count is_mutable s

  -- The first loop of `EFArrayAppendValuesOfArray`, on fuel: `remaining` falls by 5 each round, so
  -- `remaining` rounds are enough.
  unfoldable pub reserve_loop : Allocator → ℕ → ℕ → Array S → Bool × Array S
  reserve_loop al zero remaining a = (true, a)
  reserve_loop al (suc fuel) remaining a = elim (remaining == 0) [
    | true ↦ (true, a)
    | false ↦
        let (done, b) = resize_if_needed al a in
        elim done [
          | true ↦
              reserve_loop al fuel (remaining - 5) (record b { items_count = b.items_count + 5 })
          | false ↦ (false, b)
        ]
  ]

  -- The second loop: `left` items of the other array from index `i` on, stored without a check.
  unfoldable pub copy_loop :
      List (Option Ptr) → ℕ → ℕ → Array S → S → Run (Bool × Option (Array S) × S)
  copy_loop cells zero i a s = ok (true, some a, s)
  copy_loop cells (suc left) i a s = do
    p ← load cells i
    (kept, s) ← retain_item a.callbacks p s
    elim kept [
      | true ↦ push_item a p >>= λ b. copy_loop cells left (i + 1) b s
      | false ↦ ok (false, some a, s)
    ]

  -- `EFArrayAppendValuesOfArray`, where the two arrays are two objects.
  unfoldable pub append_values_of_array :
      Allocator → Option (Array S) → Option (Array S) → S → Run (Bool × Option (Array S) × S)
  append_values_of_array al none other s = ok (false, none, s)
  append_values_of_array al (some a) none s = ok (false, some a, s)
  append_values_of_array al (some a) (some other) s =
      if not a.is_mutable || not (a.callbacks.address == other.callbacks.address)
      then ok (false, some a, s)
      else (let (done, b) = reserve_loop al other.items_count other.items_count a in
          let c = record b { items_count = a.items_count } in
          if done then copy_loop other.items other.items_count 0 c s else ok (false, some c, s))

  unfoldable pub remove_loop : ℕ → ℤ → Option (Array S) → S → Run (Option (Array S) × S)
  remove_loop zero location o s = ok (o, s)
  remove_loop (suc left) location o s = do
    (o, s) ← remove_value_at_index o location s
    remove_loop left location o s

  -- `EFArrayRemoveValuesInRange`
  unfoldable pub remove_values_in_range : Option (Array S) → ℤ → ℤ → S → Run (Option (Array S) × S)
  remove_values_in_range o location length s =
      remove_loop (rounds location (add_index location length)) location o s

  -- The loop of `__EFArrayClassEqual`.
  unfoldable pub equal_loop :
      Option (Ptr → Ptr → S → Run Bool)
      → List (Option Ptr)
      → List (Option Ptr)
      → ℕ
      → ℕ
      → S
      → Run Bool
  equal_loop f cells1 cells2 zero i s = ok true
  equal_loop f cells1 cells2 (suc left) i s = do
    p ← load cells1 i
    q ← load cells2 i
    same ← (if p == q then ok true else elim f [ none ↦ ok true | some g ↦ g p q s ])
    elim same [ true ↦ equal_loop f cells1 cells2 left (i + 1) s | false ↦ ok false ]

  -- `__EFArrayClassEqual`
  unfoldable pub equal : Array S → Array S → S → Run Bool
  equal a b s =
      if not (a.callbacks.address == b.callbacks.address) || not (a.items_count == b.items_count)
      then ok false
      else equal_loop a.callbacks.equal a.items b.items a.items_count 0 s
