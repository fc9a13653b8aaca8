-- ===== src/Class/Tests.antt =====
-- Runs of the class table of src/EFRuntime/EFClass.c.
use emex_foundation.Base.{
  ℕ, ◌≤◌, ◌<◌, Option, none, some, List, [], ◌∷◌, ◌≡◌, refl, arith, replicate, ok, fault, Returns,
  length-replicate,
}
use emex_foundation.Allocator.{megabyte}
use emex_foundation.Class.{
  Class, v4, ClassTable, Handlers, initial, built_in, copy_safely, register, get_by_id,
  extend_if_needed, v3,
}
use emex_foundation.Class.Growth.{IsReady, register_all, register_all-initial}
use emex_foundation.Class.Lookup.{get_by_id-register}

abbrev no_handlers : Handlers
no_handlers = record {
  init = none;
  deinit = some 100;
  equal = none;
  hash = none;
  copy_description = none;
  copy_debug_description = none;
}

abbrev user_class : Class
user_class = record { version = 4; type_id = 0; name = some 7; handlers = no_handlers }

abbrev two_classes : ClassTable
two_classes = record {
  cells = some (some none ∷ some (some user_class) ∷ none ∷ none ∷ []);
  next = 1;
  capacity = 4;
}

abbrev two_classes-IsReady : IsReady two_classes
two_classes-IsReady = record {
  cells = some none ∷ some (some user_class) ∷ none ∷ none ∷ [];
  is = refl;
  sized = refl;
  inside = omega arith;
  small = omega arith;
}

copied_user : copy_safely megabyte [] 0 (λ s. s) (λ s. s) (v4 user_class) ≡ some user_class
unfolding copy_safely
copied_user = refl

get_by_id-register_example :
    (t' : ClassTable) × (register megabyte [] 0 (λ s. s) (λ s. s) two_classes (v4 user_class)
      ≡ ok (2, t'))
    × (get_by_id megabyte [] t' 2 ≡ ok (some (record user_class { type_id = 2 }), t'))
    × ((id : ℕ) (k : Option Class)
        → id ≤ 1
        → get_by_id megabyte [] two_classes id ≡ ok (k, two_classes)
        → get_by_id megabyte [] t' id ≡ ok (k, t'))
    × ((id : ℕ) → 2 < id → get_by_id megabyte [] t' id ≡ ok (none, t'))
get_by_id-register_example =
    get_by_id-register megabyte [] 0 (λ s. s) (λ s. s) two_classes (v4 user_class) user_class
      two_classes-IsReady copied_user (omega arith)

-- The classes of the library.
abbrev fourteen : List (Option (Option Class))
fourteen = replicate 14 (some (some user_class))

register_all-initial_example :
    (2 ≤ 1009
      → Returns
          (λ u. u.next ≡ 16)
          (register_all megabyte fourteen 0
            (λ s. s)
            (λ s. s)
            initial
            (v4 user_class ∷ v3 (some 1) none none none none none ∷ [])))
    × (1009 < 2
        → register_all megabyte fourteen 0
            (λ s. s)
            (λ s. s)
            initial
            (v4 user_class ∷ v3 (some 1) none none none none none ∷ [])
          ≡ fault)
register_all-initial_example =
    register_all-initial megabyte fourteen 0 (λ s. s) (λ s. s)
      (v4 user_class ∷ v3 (some 1) none none none none none ∷ []) refl refl
      (length-replicate {A = Option (Option Class)} 14 (some (some user_class))) (tt, (tt, tt))

-- No cell of the table is found before the table is made.
absent :
    get_by_id megabyte fourteen initial 15
    ≡ ok (none, record initial { cells = some (built_in fourteen); capacity = 1024 })
unfolding get_by_id extend_if_needed
absent = refl
