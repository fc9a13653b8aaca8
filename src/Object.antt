-- ===== src/Object.antt =====
-- src/EFRuntime/EFObject.c and src/EFRuntime/EFAllocator.c: objects, their reference counts and
-- the allocators they come from.
pub mod Balance
pub mod Counts
pub mod Describe
pub mod Equality
pub mod Lifetime
mod Tests
use emex_foundation.Base.{
  ℕ, ◌+◌, ◌-◌, ◌%◌, ◌^◌, Bool, true, false, not, ◌&&◌, ◌||◌, Option, none, some, List,
  if◌then◌else◌, leb, ltb, ◌==◌, ℤ, signed, Run, ok, fault, abort, ◌>>=◌, assert, or_fault,
}
use emex_foundation.Allocator.{Allocator}
use emex_foundation.Class.{Class, ClassTable, get_by_id}

-- An address; 0 is NULL.
abbrev pub Ref : Type 0
Ref = ℕ

-- `EFRootType`.
pub data RootType : Type 0 where
  not_a_root_type : RootType
  root_allocator : RootType
  root_object : RootType
  root_static_object : RootType

-- `EFObject`. The reference count is the bit pattern of an `EFIndex`.
pub record Object : Type 0 where
  pub root_type : RootType
  pub type_id : ℕ
  pub allocator : Ref
  pub refcount : ℕ

-- `EFAllocator`: a pointer to a name, one to more data, and the addresses of the handlers.
pub record AllocatorObject : Type 0 where
  pub name : Ref
  pub info : Ref
  pub allocate : ℕ
  pub deallocate : ℕ
  pub reallocate : ℕ

-- What stands at an address that a reference points to.
pub data Cell : Type 0 where
  object : Object → Cell
  allocator : AllocatorObject → Cell

-- The memory, the table of classes and `kEFAllocatorDefault`.
pub record World : Type 0 where
  pub cells : Ref → Option Cell
  pub classes : ClassTable
  pub default_allocator : Ref

-- The functions behind the addresses of handlers: they are the clients' or other parts'.
pub record Code : Type 0 where
  pub init : ℕ → Ref → World → Run World
  pub deinit : ℕ → Ref → World → Run World
  pub equal : ℕ → Ref → Ref → World → Run (Bool × World)
  pub allocate : ℕ → Ref → ℕ → World → Run (Ref × World)
  pub deallocate : ℕ → Ref → Ref → World → Run World

-- The cell read as an `EFObject`. An allocator starts with its root type, and then has its name,
-- its data and its first handler where an object has its type, allocator and count.
abbrev pub as_object : Cell → Object
as_object (object o) = o
as_object (allocator a) = record {
  root_type = root_allocator;
  type_id = a.name;
  allocator = a.info;
  refcount = a.allocate;
}

abbrev pub with_refcount : ℕ → Cell → Cell
with_refcount n (object o) = object (record o { refcount = n })
with_refcount n (allocator a) = allocator (record a { allocate = n })

abbrev pub counted : ℕ → Option Cell → Option Cell
counted n none = none
counted n (some c) = some (with_refcount n c)

-- `*(EFObject *)ref`
abbrev pub load_object : World → Ref → Run Object
load_object w p = elim (w.cells p) [ none ↦ fault | some c ↦ ok (as_object c) ]

abbrev pub put : (Ref → Option Cell) → Ref → Option Cell → Ref → Option Cell
put cells p c q = if q == p then c else cells q

-- `object->refcount = n`, atomically.
unfoldable pub store_refcount : World → Ref → ℕ → World
store_refcount w p n = record w { cells = put w.cells p (counted n (w.cells p)) }

abbrev pub is_static : RootType → Bool
is_static root_static_object = true
is_static _ = false

-- `EFGetTypeID`
abbrev pub get_type_id : World → Ref → Run ℕ
get_type_id w p = if p == 0 then ok 0 else (load_object w p >>= λ o. ok o.type_id)

-- `EFGetRootType`
abbrev pub get_root_type : World → Ref → Run RootType
get_root_type w p = if p == 0 then ok not_a_root_type else (load_object w p >>= λ o. ok o.root_type)

-- `EFGetAllocator`
abbrev pub get_allocator : World → Ref → Run Ref
get_allocator w p =
    if p == 0 then ok w.default_allocator else (load_object w p >>= λ o. ok o.allocator)

-- `EFGetRetainCount`
unfoldable pub get_retain_count : World → Ref → Run ℤ
get_retain_count w p = assert (not (p == 0)) (
    load_object w p >>= λ o.
    if is_static o.root_type then ok (ℤ.pos 1) else ok (signed (2 ^ 63) o.refcount))

-- `EFRetain`
unfoldable pub retain : Ref → World → Run World
retain p w = assert (not (p == 0)) (
    load_object w p >>= λ o.
    if is_static o.root_type then ok w else ok (store_refcount w p ((o.refcount + 1) % 2 ^ 64)))

-- The allocator that a reference names: NULL names the default one.
abbrev pub load_allocator : World → Ref → Run AllocatorObject
load_allocator w p = elim (w.cells (if p == 0 then w.default_allocator else p)) [
  | some (allocator a) ↦ ok a
  | _ ↦ fault
]

module _ (code : Code) where
  -- `EFAllocatorAllocate`
  unfoldable pub allocate_bytes : Ref → ℕ → World → Run (Ref × World)
  allocate_bytes p size w =
      load_allocator w p >>= λ a. assert (not (a.allocate == 0)) (code.allocate a.allocate p size w)

  -- `EFAllocatorDeallocate`
  unfoldable pub deallocate_bytes : Ref → Ref → World → Run World
  deallocate_bytes p block w = load_allocator w p >>= λ a.
      assert (not (a.deallocate == 0)) (code.deallocate a.deallocate p block w)

  module _ (al : Allocator) (library : List (Option (Option Class))) where
    -- `__EFClassGetByID`
    abbrev pub get_class : ℕ → World → Run (Option Class × World)
    get_class id w = get_by_id al library w.classes id >>= λ r. ok (r.0, record w { classes = r.1 })

    abbrev pub run_handler : Option ℕ → (ℕ → Ref → World → Run World) → Ref → World → Run World
    run_handler none run p w = ok w
    run_handler (some h) run p w = run h p w

    -- `EFRelease` when the count was one.
    unfoldable pub destroy : Ref → World → Run World
    destroy p w = load_object w p >>= λ o. get_class o.type_id w >>= λ r. elim r.0 [
      | none ↦ abort
      | some class ↦ run_handler class.handlers.deinit code.deinit p r.1 >>= λ w'.
          load_object w' p >>= λ o'. deallocate_bytes o'.allocator p w'
    ]

    -- `EFRelease`
    unfoldable pub release : Ref → World → Run World
    release p w = assert (not (p == 0)) (
        load_object w p >>= λ o.
        if is_static o.root_type
        then ok w
        else (let w' = store_refcount w p ((o.refcount + (2 ^ 64 - 1)) % 2 ^ 64) in
            if o.refcount == 1
            then destroy p w'
            else if o.refcount == 0 || leb (2 ^ 63) o.refcount
            then abort
            else ok w'))

    -- `EFRetainTry`
    abbrev pub retain_try : Ref → World → Run (Ref × World)
    retain_try p w = if p == 0 then ok (0, w) else (retain p w >>= λ w'. ok (p, w'))

    -- `EFReleaseTry`
    abbrev pub release_try : Ref → World → Run (Bool × World)
    release_try p w = if p == 0 then ok (false, w) else (release p w >>= λ w'. ok (true, w'))

    -- `EFReleaseTryHelper`: the variable that holds the reference, or NULL.
    abbrev pub release_try_helper : Option Ref → World → Run (Bool × World)
    release_try_helper none w = ok (false, w)
    release_try_helper (some p) w = release_try p w

    abbrev pub ask_equal : Option ℕ → Ref → Ref → World → Run (Bool × World)
    ask_equal none p q w = ok (false, w)
    ask_equal (some h) p q w = code.equal h p q w

    -- The class of the two objects decides on them; a class that is not found is read all the same.
    abbrev pub equal_by_class : Option Class → Ref → Ref → World → Run (Bool × World)
    equal_by_class none p q w = fault
    equal_by_class (some class) p q w = ask_equal class.handlers.equal p q w

    -- `EFEqual`
    unfoldable pub equal : Ref → Ref → World → Run (Bool × World)
    equal p q w =
        if p == 0 || q == 0
        then ok (false, w)
        else if p == q
        then ok (true, w)
        else (get_type_id w p >>= λ a. get_type_id w q >>= λ b.
            if not (a == b)
            then ok (false, w)
            else (get_class a w >>= λ r. equal_by_class r.0 p q r.1))

    -- `EFObjectCreate`, for a size that holds the header of 32 bytes. NULL if there is no memory.
    unfoldable pub create : Ref → ℕ → ℕ → World → Run (Ref × World)
    create from type_id size w = get_class type_id w >>= λ r. elim r.0 [
      | none ↦ abort
      | some class ↦ assert (leb 32 size) (
          allocate_bytes from size r.1 >>= λ b.
          if b.0 == 0
          then ok (0, b.1)
          else (let w' = record b.1 {
            cells = put b.1.cells b.0 (
                some (
                  object (record {
                    root_type = root_object;
                    type_id = class.type_id;
                    allocator = from;
                    refcount = 1;
                  })));
          } in
              run_handler class.handlers.init code.init b.0 w' >>= λ w''. ok (b.0, w'')))
    ]
