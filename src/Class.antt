-- ===== src/Class.antt =====
-- src/EFRuntime/EFClass.c and include/EmexFoundation/EFRuntime/EFClass.h: the table of classes.
pub mod Growth
pub mod Lookup
mod Tests
use emex_foundation.Base.{
  ℕ, suc, ◌+◌, ◌-◌, ◌*◌, ◌%◌, ◌^◌, Bool, true, false, not, ◌&&◌, ◌||◌, Option, none, some, List, [],
  ◌∷◌, ◌++◌, if◌then◌else◌, ltb, ◌==◌, length, take, set, get_elem?, replicate, Run, ok, fault,
  abort, ◌>>=◌,
}
use emex_foundation.Allocator.{Allocator}

-- A handler is the address of its function; a name is the address of a string.
pub record Handlers : Type 0 where
  pub init : Option ℕ
  pub deinit : Option ℕ
  pub equal : Option ℕ
  pub hash : Option ℕ
  pub copy_description : Option ℕ
  pub copy_debug_description : Option ℕ

-- `EFClassDefinitionV4`, the newest.
pub record Class : Type 0 where
  pub version : ℕ
  pub type_id : ℕ
  pub name : Option ℕ
  pub handlers : Handlers

-- What `EFClassRegister` is given, by the version in its header: `v2` has its name as a C string,
-- and `v2` and `v3` have one description handler.
pub data Definition : Type 0 where
  v2 : (name : Option ℕ) (init deinit equal copy_description hash : Option ℕ) → Definition
  v3 : (name : Option ℕ) (init deinit equal copy_description hash : Option ℕ) → Definition
  v4 : Class → Definition
  other : ℕ → Definition

-- The static variables of the file. A cell of the table is `none` until it is written.
pub record ClassTable : Type 0 where
  pub cells : Option (List (Option (Option Class)))
  pub next : ℕ
  pub capacity : ℕ

abbrev pub newest_version : ℕ
newest_version = 4

-- `sizeof(EFClass) * 1024`, and `sizeof(EFClassDefinitionNewest)`.
abbrev pub table_bytes : ℕ
table_bytes = 8 * 1024

abbrev pub class_bytes : ℕ
class_bytes = 72

-- `efClassNext` starts at kEFTypeIDFileManager.
abbrev pub initial : ClassTable
initial = record { cells = none; next = 14; capacity = 0 }

-- The classes of the library, at their type identifiers 1 to 14, in a table of 1024 cells that
-- `calloc` has zeroed.
abbrev pub built_in : List (Option (Option Class)) → List (Option (Option Class))
built_in classes = some none ∷ (classes ++ replicate 1009 (some none))

-- `*p`, a fault out of bounds and on a cell that was never written.
abbrev pub load_class : List (Option (Option Class)) → ℕ → Run (Option Class)
load_class cells i = elim (get_elem? cells i) [ some (some c) ↦ ok c | _ ↦ fault ]

abbrev pub read_class : ClassTable → ℕ → Run (Option Class × ClassTable)
read_class t id = elim t.cells [
  | none ↦ fault
  | some cells ↦ load_class cells id >>= λ c. ok (c, t)
]

abbrev pub is_null : Option (List (Option (Option Class))) → Bool
is_null none = true
is_null (some _) = false

module _ (al : Allocator) (library : List (Option (Option Class))) where
  -- `__EFClassTableExtendIfNeeded`; `locked` is whether some thread holds the lock.
  unfoldable pub extend_if_needed : Bool → ClassTable → Bool × ClassTable
  extend_if_needed false t = (false, t)
  extend_if_needed true t = elim t.cells [
    | none ↦
        if not (al.grants table_bytes)
        then (false, t)
        else (true, record t { cells = some (built_in library); capacity = 1024 })
    | some cells ↦
        if ltb t.capacity t.next
        then (if not (al.grants (8 * (t.capacity + 1024))) then (false, t) else (
          true,
          record t {
            cells = some (
                take (t.capacity + 1024) cells
                ++ replicate (t.capacity + 1024 - length cells) none);
            capacity = t.capacity + 1024;
          },
        ))
        else (true, t)
  ]

  -- `__EFClassGetByID`: the lock is held.
  unfoldable pub get_by_id : ClassTable → ℕ → Run (Option Class × ClassTable)
  get_by_id t id =
      let (done, t') = if is_null t.cells then extend_if_needed true t else (true, t) in
      if not done || ltb t'.next id then ok (none, t') else read_class t' id

  -- `EFClassCopySafely`. The copy of a name is a new string, NULL if it cannot be made; the field
  -- of the type identifier is not set for the older versions, and is `unset`.
  module _ (unset : ℕ) (create_with_c_string create_copy : Option ℕ → Option ℕ) where
    abbrev pub copied : Definition → Option Class
    copied (v2 name init deinit equal copy_description hash) = some (record {
      version = newest_version;
      type_id = unset;
      name = create_with_c_string name;
      handlers = record {
        init = init;
        deinit = deinit;
        equal = equal;
        hash = hash;
        copy_description = none;
        copy_debug_description = copy_description;
      };
    })
    copied (v3 name init deinit equal copy_description hash) = some (record {
      version = newest_version;
      type_id = unset;
      name = create_copy name;
      handlers = record {
        init = init;
        deinit = deinit;
        equal = equal;
        hash = hash;
        copy_description = none;
        copy_debug_description = copy_description;
      };
    })
    copied (v4 c) = some c
    copied (other _) = none

    unfoldable pub copy_safely : Definition → Option Class
    copy_safely d = if al.grants class_bytes then copied d else none

    -- The write of the table's new cell.
    abbrev pub store_class : ClassTable → ℕ → Class → Run (ℕ × ClassTable)
    store_class t id c = elim t.cells [
      | none ↦ fault
      | some cells ↦
          if ltb id (length cells)
          then ok (id, record t { cells = some (set cells id (some (some c))) })
          else fault
    ]

    -- `EFClassRegister`: the identifier, which the caller's definition is given too, or an abort where
    -- an `assert` fails.
    unfoldable pub register : ClassTable → Definition → Run (ℕ × ClassTable)
    register t d = elim (copy_safely d) [
      | none ↦ abort
      | some c ↦
          let id = (t.next + 1) % 2 ^ 64 in
          let (done, t') = extend_if_needed true (record t { next = id }) in
          if id == 0 || not done then abort else store_class t' id (record c { type_id = id })
    ]
