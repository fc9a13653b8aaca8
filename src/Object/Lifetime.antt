-- ===== src/Object/Lifetime.antt =====
-- From EFObjectCreate to the last EFRelease, and the objects that are not counted.
use emex_foundation.Base.{
  ℕ, ◌+◌, ◌^◌, ◌≤◌, ◌<◌, false, Option, some, List, [], ◌∷◌, ◌==◌, ◌≡◌, ◌⊎◌, inl, inr, refl, ap,
  ◌∙◌, arith, ok, abort, ◌>>=◌, le→leb,
}
use emex_foundation.Allocator.{Allocator}
use emex_foundation.Class.{Class, get_by_id}
use emex_foundation.Object.{
  Ref, RootType, Object, AllocatorObject, Cell, World, Code, put, counted, store_refcount,
  load_object, run_handler, allocate_bytes, deallocate_bytes, retain, release, destroy, create,
  load_allocator,
}
use emex_foundation.Object.Counts.{Counted, release-store_refcount, retain-store_refcount, put_self}
use emex_foundation.Object.Balance.{Step, retained, released, run, release_at_one}

-- The header of a new object.
abbrev pub header : Class → Ref → Object
header class from = record {
  root_type = RootType.root_object;
  type_id = class.type_id;
  allocator = from;
  refcount = 1;
}

abbrev pub placed : World → Ref → Object → World
placed w p o = record w { cells = put w.cells p (some (Cell.object o)) }

module _ (code : Code) (al : Allocator) (library : List (Option (Option Class))) where
  header-Counted :
      (w : World) (p : Ref) (class : Class) (from : Ref)
      → (p == 0) ≡ false
      → w.cells p ≡ some (Cell.object (header class from))
      → Counted w p 1
  header-Counted w p class from h e = record {
    not_null = h;
    cell = Cell.object (header class from);
    is = e;
    not_static = refl;
    count = refl;
  }

  -- The destruction of an object of a class that is found and whose deinit handler leaves its header.
  destroy-deallocate_bytes :
      (w w' : World) (p : Ref) (o : Object) (class : Class)
      → w.cells p ≡ some (Cell.object o)
      → get_by_id al library w.classes o.type_id ≡ ok (some class, w.classes)
      → run_handler code al library class.handlers.deinit code.deinit p w ≡ ok w'
      → w'.cells p ≡ some (Cell.object o)
      → destroy code al library p w ≡ deallocate_bytes code o.allocator p w'
  unfolding destroy
  destroy-deallocate_bytes w w' p o class e f d e' = rw (load_object, e, f, d, e') refl

  -- EFObjectCreate, of a registered class and with a block of memory, makes an object with one
  -- reference, and after its init handler releasing it runs the deinit handler and gives the block
  -- back to the allocator it came from, if the handlers leave its header and the table of classes.
  pub create-release :
      (w w₁ w₂ w₃ : World) (class : Class) (from size b : ℕ)
      → get_by_id al library w.classes class.type_id ≡ ok (some class, w.classes)
      → 32 ≤ size
      → allocate_bytes code from size w ≡ ok (b, w₁)
      → (b == 0) ≡ false
      → run_handler code al library class.handlers.init code.init b
          (placed w₁ b (header class from))
        ≡ ok w₂
      → w₂.cells b ≡ some (Cell.object (header class from))
      → w₂.classes ≡ w.classes
      → run_handler code al library class.handlers.deinit code.deinit b (store_refcount w₂ b 0)
        ≡ ok w₃
      → w₃.cells b ≡ some (Cell.object (record (header class from) { refcount = 0 }))
      → (create code al library from class.type_id size w ≡ ok (b, w₂))
        × Counted w₂ b 1
        × (release code al library b w₂ ≡ deallocate_bytes code from b w₃)
  unfolding create store_refcount
  create-release w w₁ w₂ w₃ class from size b f s a n h e k d e' = (
    rw (f, le→leb 32 size s, a, n, h) refl,
    header-Counted w₂ b class from n e,
    release_at_one code al library (header-Counted w₂ b class from n e)
        ∙ destroy-deallocate_bytes (store_refcount w₂ b 0) w₃ b _ class
            (put_self w₂.cells b _ ∙ ap (counted 0) e) (rw k f) d e',
  )

  -- Retaining and releasing a static object changes nothing.
  pub run_static :
      (steps : List Step) (p : Ref) (w : World) (o : Object)
      → (p == 0) ≡ false
      → w.cells p ≡ some (Cell.object o)
      → o.root_type ≡ RootType.root_static_object
      → run code al library steps p w ≡ ok w
  unfolding retain release
  run_static [] p w o n e r = refl
  run_static (retained ∷ steps) p w o n e r =
      rw (n, e, load_object, r) (run_static steps p w o n e r)
  run_static (released ∷ steps) p w o n e r =
      rw (n, e, load_object, r) (run_static steps p w o n e r)

  -- Releasing what has no references, or more than an EFIndex counts, aborts.
  pub release-abort :
      {w : World} {p : Ref} {n : ℕ}
      → Counted w p n
      → (n ≡ 0) ⊎ (2 ^ 63 ≤ n)
      → n < 2 ^ 64
      → release code al library p w ≡ abort
  release-abort c (inl h) k = release-store_refcount code al library c k ∙ ground arith
  release-abort c (inr h) k = release-store_refcount code al library c k ∙ ground arith

  -- After EFRetain of an allocator its allocate handler is called at the next address.
  pub retain-allocate_bytes :
      (w : World) (p : Ref) (a : AllocatorObject) (size : ℕ)
      → (p == 0) ≡ false
      → w.cells p ≡ some (Cell.allocator a)
      → a.allocate + 1 < 2 ^ 64
      → (retain p w >>= allocate_bytes code p size)
        ≡ code.allocate (a.allocate + 1) p size (store_refcount w p (a.allocate + 1))
  unfolding allocate_bytes store_refcount
  retain-allocate_bytes w p a size n e h =
      let c : Counted w p a.allocate = record {
        not_null = n;
        cell = Cell.allocator a;
        is = e;
        not_static = refl;
        count = refl;
      } in
      rw (retain-store_refcount c h, load_allocator, n, put_self w.cells p _, e) (ground arith)
