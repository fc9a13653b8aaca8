-- ===== src/Class/Lookup.antt =====
-- What `__EFClassGetByID` finds after `EFClassRegister`.
use emex_foundation.Base.{
  ℕ, ◌+◌, ◌≤◌, ◌<◌, Option, none, some, List, ◌≡◌, refl, ◌∙◌, sym, arith, if◌then◌else◌, ltb, set,
  get_elem?, Run, ok, fault, abort, ◌>>=◌, get_elem?-set_self, get_elem?-set_lt,
}
use emex_foundation.Allocator.{Allocator}
use emex_foundation.Class.{
  Class, Definition, ClassTable, copy_safely, register, get_by_id, load_class,
}
use emex_foundation.Class.Growth.{IsReady, grown, register_room}

-- A lookup in a table that exists, by what the cell holds.
abbrev found_with : ClassTable → ℕ → Run (Option Class) → Run (Option Class × ClassTable)
found_with t id m = if ltb t.next id then ok (none, t) else (m >>= λ c. ok (c, t))

abbrev found : ClassTable → List (Option (Option Class)) → ℕ → Run (Option Class × ClassTable)
found t cells id = found_with t id (load_class cells id)

ok-found_with :
    (t : ClassTable) (id : ℕ) (k : Option Class) (m : Run (Option Class))
    → id ≤ t.next
    → found_with t id m ≡ ok (k, t)
    → m ≡ ok k
ok-found_with t id k (ok c) h e = ground arith
ok-found_with t id k fault h e = ground arith
ok-found_with t id k abort h e = ground arith

-- A new class in the cell after the last identifier leaves the earlier ones as they are.
found-grown :
    (t : ClassTable) (cells : List (Option (Option Class))) (c : Class) (id : ℕ) (k : Option Class)
    → id ≤ t.next
    → found t cells id ≡ ok (k, t)
    → (t' : ClassTable) → t'.next ≡ t.next + 1
    → found t' (set cells (t.next + 1) (some (some c))) id ≡ ok (k, t')
found-grown t cells c id k old h t' e =
    let kept : get_elem? (set cells (t.next + 1) (some (some c))) id ≡ get_elem? cells id =
      get_elem?-set_lt cells (t.next + 1) id _ (omega arith) in
    ground (arith, kept, ok-found_with t id k (load_class cells id) old h)

module _ (al : Allocator) (library : List (Option (Option Class))) where
  lookup-ready :
      (t : ClassTable) (cells : List (Option (Option Class))) (id : ℕ)
      → t.cells ≡ some cells
      → get_by_id al library t id ≡ found t cells id
  unfolding get_by_id
  lookup-ready t cells id e = ground arith

  module _ (unset : ℕ) (create_with_c_string create_copy : Option ℕ → Option ℕ) where
    -- Registering a class in a table with a cell for it hands out the next identifier. In the new
    -- table that identifier finds the copy of the class, with its identifier filled in, every
    -- earlier one finds what it found before, and a later one finds nothing.
    pub get_by_id-register :
        (t : ClassTable) (d : Definition) (c : Class)
        → IsReady t
        → copy_safely al library unset create_with_c_string create_copy d ≡ some c
        → t.next + 1 < t.capacity
        → (t' : ClassTable) × (register al library unset create_with_c_string create_copy t d
            ≡ ok (t.next + 1, t'))
          × (get_by_id al library t' (t.next + 1)
              ≡ ok (some (record c { type_id = t.next + 1 }), t'))
          × ((id : ℕ) (k : Option Class)
              → id ≤ t.next
              → get_by_id al library t id ≡ ok (k, t)
              → get_by_id al library t' id ≡ ok (k, t'))
          × ((id : ℕ) → t.next + 1 < id → get_by_id al library t' id ≡ ok (none, t'))
    get_by_id-register t d c r e room =
        let (done, ready) =
          register_room al library unset create_with_c_string create_copy t d c r e room in
        let t' : ClassTable = grown al library unset create_with_c_string create_copy t r.cells c in
        (
          t',
          done,
          lookup-ready t' _ (t.next + 1) refl
              ∙ ground (
                arith,
                get_elem?-set_self r.cells (t.next + 1)
                    (some (some (record c { type_id = t.next + 1 }))),
                r.sized,
              ),
          λ id k old h.
              lookup-ready t' _ id refl
              ∙ found-grown t r.cells _ id k old (sym (lookup-ready t r.cells id r.is) ∙ h) t' refl,
          λ id late. lookup-ready t' _ id refl ∙ ground arith,
        )
