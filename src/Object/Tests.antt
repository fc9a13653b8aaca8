-- ===== src/Object/Tests.antt =====
-- Runs of the object runtime of src/EFRuntime/EFObject.c.
use emex_foundation.Base.{
  ℕ, true, false, Option, none, some, [], ◌∷◌, if◌then◌else◌, ◌==◌, ◌≡◌, inl, refl, arith, ok,
  fault, abort, ◌>>=◌,
}
use emex_foundation.Allocator.{megabyte}
use emex_foundation.Class.{Class, get_by_id}
use emex_foundation.Object.{
  Ref, RootType, Object, AllocatorObject, Cell, World, Code, get_type_id, put, store_refcount,
  allocate_bytes, deallocate_bytes, retain, release, destroy, create, equal,
}
use emex_foundation.Object.Describe.{Describers, copy_description, copy_description-not_null}
use emex_foundation.Object.Counts.{Counted}
use emex_foundation.Object.Balance.{retained, released, run, run_balanced}
use emex_foundation.Object.Equality.{equal_comm, equal-get_type_id}
use emex_foundation.Object.Lifetime.{
  header, placed, create-release, run_static, release-abort, retain-allocate_bytes,
}

-- The class 1 asks the handler at 500; the allocator at 50 gives out the block at 300.
abbrev point_class : Class
point_class = record {
  version = 4;
  type_id = 1;
  name = some 7;
  handlers = record {
    init = none;
    deinit = some 400;
    equal = some 500;
    hash = none;
    copy_description = none;
    copy_debug_description = none;
  };
}

abbrev point : ℕ → Object
point n = record { root_type = RootType.root_object; type_id = 1; allocator = 50; refcount = n }

abbrev literal : Object
literal = record {
  root_type = RootType.root_static_object;
  type_id = 1;
  allocator = 0;
  refcount = 0;
}

abbrev malloc : AllocatorObject
malloc = record { name = 60; info = 0; allocate = 700; deallocate = 701; reallocate = 702 }

abbrev cells : Ref → Option Cell
cells p =
    if p == 50
    then some (Cell.allocator malloc)
    else if p == 100
    then some (Cell.object (point 2))
    else if p == 110
    then some (Cell.object (point 0))
    else if p == 200
    then some (Cell.object literal)
    else none

abbrev world : World
world = record {
  cells = cells;
  classes = record {
    cells = some (some none ∷ some (some point_class) ∷ []);
    next = 1;
    capacity = 2;
  };
  default_allocator = 50;
}

abbrev code : Code
code = record {
  init = λ h p w. ok w;
  deinit = λ h p w. ok w;
  equal = λ h p q w. ok (true, w);
  allocate = λ h a n w. if h == 700 then ok (300, w) else fault;
  deallocate = λ h a b w. if h == 701 then ok (record w { cells = put w.cells b none }) else fault;
}

abbrev two_references : Counted world 100 2
two_references = record {
  not_null = refl;
  cell = Cell.object (point 2);
  is = refl;
  not_static = refl;
  count = refl;
}

run_balanced_example :
    (◌≡◌ {A = ℕ} 1 2
      → run code megabyte [] (retained ∷ released ∷ released ∷ []) 100 world ≡ ok world)
    × (◌≡◌ {A = ℕ} 1 1
        → run code megabyte [] (retained ∷ released ∷ released ∷ released ∷ []) 100 world
          ≡ destroy code megabyte [] 100 (store_refcount world 100 0))
run_balanced_example =
    run_balanced code megabyte [] (retained ∷ released ∷ released ∷ []) two_references (omega arith)
      refl

equal_comm_example : equal code megabyte [] 100 110 world ≡ equal code megabyte [] 110 100 world
equal_comm_example = equal_comm code megabyte [] (λ h p q w. refl) 100 110 world

asked_equal : equal code megabyte [] 100 110 world ≡ ok (true, world)
unfolding equal get_by_id
asked_equal = refl

equal_types :
    ((100 == 0) ≡ false) × ((110 == 0) ≡ false) × (get_type_id world 100 ≡ get_type_id world 110)
equal_types = equal-get_type_id code megabyte [] 100 110 world world asked_equal

abbrev made : World
made = placed world 300 (header point_class 50)

dying_header :
    (store_refcount made 300 0).cells 300
    ≡ some (Cell.object (record (header point_class 50) { refcount = 0 }))
unfolding store_refcount
dying_header = refl

found : get_by_id megabyte [] world.classes 1 ≡ ok (some point_class, world.classes)
unfolding get_by_id
found = refl

allocated : allocate_bytes code 50 48 world ≡ ok (300, world)
unfolding allocate_bytes
allocated = refl

create-release_example :
    (create code megabyte [] 50 1 48 world ≡ ok (300, made))
    × Counted made 300 1
    × (release code megabyte [] 300 made ≡ deallocate_bytes code 50 300 (store_refcount made 300 0))
create-release_example =
    create-release code megabyte [] world world made (store_refcount made 300 0) point_class 50 48
      300 found (omega arith) allocated refl refl refl refl refl dying_header

static_unchanged : run code megabyte [] (retained ∷ released ∷ released ∷ []) 200 world ≡ ok world
static_unchanged =
    run_static code megabyte [] (retained ∷ released ∷ released ∷ []) 200 world literal refl refl
      refl

abbrev no_references : Counted world 110 0
no_references = record {
  not_null = refl;
  cell = Cell.object (point 0);
  is = refl;
  not_static = refl;
  count = refl;
}

released_once_more : release code megabyte [] 110 world ≡ abort
released_once_more = release-abort code megabyte [] no_references (inl refl) (omega arith)

retained_allocator_called : (retain 50 world >>= allocate_bytes code 50 48) ≡ fault
retained_allocator_called =
    retain-allocate_bytes code megabyte [] world 50 malloc 48 refl refl (omega arith)

-- Every handler and every format fails.
abbrev failing : Describers
failing = record {
  nil_string = 900;
  unknown_string = 901;
  describe = λ h p w. ok (0, w);
  format_allocator = λ a n p w. ok (0, w);
  format_object = λ a n p w. ok (0, w);
}

described : copy_description failing code megabyte [] 100 world ≡ ok (900, world)
unfolding copy_description get_by_id
described = refl

described_not_null : (900 == 0) ≡ false
described_not_null =
    copy_description-not_null failing refl refl code megabyte [] 100 world world 900 (inl described)
