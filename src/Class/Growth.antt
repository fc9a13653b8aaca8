-- ===== src/Class/Growth.antt =====
-- How many classes the table of src/EFRuntime/EFClass.c takes.
use emex_foundation.Base.{
  ℕ, ◌+◌, ◌^◌, ◌≤◌, ◌<◌, true, Option, none, some, List, [], ◌∷◌, ◌≡◌, refl, ◌∙◌, arith,
  if◌then◌else◌, ltb, length, set, replicate, Run, ok, fault, ◌>>=◌, Returns, returns, Returns-mono,
  length-append, length-replicate, length-set, lt→ltb, ltb→lt, Bool-cases, inl, inr,
}
use emex_foundation.Allocator.{Allocator}
use emex_foundation.Class.{
  Class, Definition, v2, v3, v4, other, ClassTable, initial, table_bytes, class_bytes, built_in,
  extend_if_needed, copied, copy_safely, register,
}

-- The table exists, its block has as many cells as the capacity says, and the last identifier has
-- a cell.
pub record IsReady (t : ClassTable) : Type 0 where
  pub cells : List (Option (Option Class))
  pub is : t.cells ≡ some cells
  pub sized : length cells ≡ t.capacity
  pub inside : t.next < t.capacity
  pub small : t.capacity < 2 ^ 60

-- A definition of a version that the code knows.
abbrev pub IsKnown : Definition → Type 0
IsKnown (other _) = ⊥
IsKnown _ = Unit {0}

abbrev pub AllKnown : List Definition → Type 0
AllKnown [] = Unit {0}
AllKnown (d ∷ ds) = IsKnown d × AllKnown ds

module _ (al : Allocator) (library : List (Option (Option Class))) (unset : ℕ)
    (create_with_c_string create_copy : Option ℕ → Option ℕ) where
  abbrev register' : ClassTable → Definition → Run (ℕ × ClassTable)
  register' = register al library unset create_with_c_string create_copy

  known_copied :
      (d : Definition)
      → al.grants class_bytes ≡ true
      → IsKnown d
      → (c : Class) × (copy_safely al library unset create_with_c_string create_copy d ≡ some c)
  unfolding copy_safely
  known_copied d g k = let (c, e) = made d k in (c, rw g e)
    where
      made :
          (d : Definition)
          → IsKnown d
          → (c : Class) × (copied al library unset create_with_c_string create_copy d ≡ some c)
      made (v2 _ _ _ _ _ _) k = (_, refl)
      made (v3 _ _ _ _ _ _) k = (_, refl)
      made (v4 _) k = (_, refl)
      made (other _) k = elim k [ ]

  -- The table after a registration for which there is a cell.
  abbrev pub grown : ClassTable → List (Option (Option Class)) → Class → ClassTable
  grown t cells c = record t {
    next = t.next + 1;
    cells = some (set cells (t.next + 1) (some (some (record c { type_id = t.next + 1 }))));
  }

  pub register_ready :
      (t : ClassTable) (d : Definition) (c : Class) (cells : List (Option (Option Class)))
      → t.cells ≡ some cells
      → copy_safely al library unset create_with_c_string create_copy d ≡ some c
      → t.next < t.capacity
      → t.capacity < 2 ^ 60
      → length cells ≡ t.capacity
      → register' t d
        ≡ (if ltb (t.next + 1) t.capacity then ok (t.next + 1, grown t cells c) else fault)
  unfolding register extend_if_needed
  register_ready t d c cells e f h k s = ground arith

  pub register_room :
      (t : ClassTable) (d : Definition) (c : Class) (r : IsReady t)
      → copy_safely al library unset create_with_c_string create_copy d ≡ some c
      → t.next + 1 < t.capacity
      → (register' t d ≡ ok (t.next + 1, grown t r.cells c)) × IsReady (grown t r.cells c)
  register_room t d c r e room = (
    register_ready t d c r.cells r.is e r.inside r.small r.sized ∙ rw (lt→ltb _ _ room),
    record {
      cells = set r.cells (t.next + 1) (some (some (record c { type_id = t.next + 1 })));
      is = refl;
      sized = length-set r.cells (t.next + 1) _ ∙ r.sized;
      inside = room;
      small = r.small;
    },
  )

  abbrev pub register_all : ClassTable → List Definition → Run ClassTable
  register_all t [] = ok t
  register_all t (d ∷ ds) = register' t d >>= λ r. register_all r.1 ds

  register_all_ready :
      (ds : List Definition) (t : ClassTable)
      → IsReady t
      → al.grants class_bytes ≡ true
      → AllKnown ds
      → (t.next + length ds < t.capacity
          → Returns (λ u. u.next ≡ t.next + length ds) (register_all t ds))
        × (t.capacity ≤ t.next + length ds → register_all t ds ≡ fault)
  register_all_ready [] t r g k =
      (λ h. returns (omega arith), λ h. absurd (omega (arith, r.inside)))
  register_all_ready (d ∷ ds) t r g k =
      let (c, e) = known_copied d g k.0 in
      elim (Bool-cases (ltb (t.next + 1) t.capacity)) [
        | inl room ↦
            let (done, ready) = register_room t d c r e (ltb→lt _ _ room) in
            let later = register_all_ready ds (grown t r.cells c) ready g k.1 in
            (
              λ h. rw done (Returns-mono (later.0 (omega arith)) λ u q. omega arith),
              λ h. rw done (later.1 (omega arith)),
            )
        | inr full ↦ (
          λ h. absurd (ground arith),
          λ h. rw (register_ready t d c r.cells r.is e r.inside r.small r.sized, full),
        )
      ]

  abbrev created : ClassTable
  created = record initial { cells = some (built_in library); capacity = 1024 }

  register-initial :
      (d : Definition) → al.grants table_bytes ≡ true → register' initial d ≡ register' created d
  unfolding register extend_if_needed
  register-initial d g = ground arith

  -- From the start of the program, with the table and the copies granted and definitions of known
  -- versions: up to 1009 classes are registered, and have the identifiers up to 14 and their number;
  -- a sequence of more writes behind the table, which is never enlarged.
  pub register_all-initial :
      (ds : List Definition)
      → al.grants table_bytes ≡ true
      → al.grants class_bytes ≡ true
      → length library ≡ 14
      → AllKnown ds
      → (length ds ≤ 1009 → Returns (λ u. u.next ≡ 14 + length ds) (register_all initial ds))
        × (1009 < length ds → register_all initial ds ≡ fault)
  register_all-initial [] g g' l k = (λ h. returns refl, λ h. absurd (omega arith))
  register_all-initial (d ∷ ds) g g' l k =
      let ready : IsReady created = record {
        cells = built_in library;
        is = refl;
        sized = omega (
          arith,
          l,
          length-append library (replicate 1009 (some none)),
          length-replicate {A = Option (Option Class)} 1009 (some none),
        );
        inside = omega arith;
        small = omega arith;
      } in
      let all = register_all_ready (d ∷ ds) created ready g' k in
      rw (register-initial d g) (λ h. all.0 (omega arith), λ h. all.1 (omega arith))
