-- ===== src/Array/Tests.antt =====
-- Runs of src/EFArray.c, and its theorems at concrete arrays. The callbacks keep a log of the
-- pointers that they retain and release.
use emex_foundation.Base.{
  ◌>>=◌, ℕ, ◌+◌, ◌^◌, ◌%◌, ◌↔◌, Bool, true, false, Option, none, some, List, [], ◌∷◌, ◌≡◌, refl,
  arith, length, pos, negsuc, ◌+ℤ◌, ok, fault, Returns, returns, ◌==◌,
}
use emex_foundation.Allocator.{megabyte}
use emex_foundation.Array.Model.{
  Ptr, null, Callbacks, Array, create_mutable, retain_item, release_item, append_value,
  insert_value_at_index, remove_value_at_index, get_value_at_index, resize_if_needed,
}
use emex_foundation.Array.Holds.{Holds}
use emex_foundation.Array.Append.{Became, Added, append_value-Added}
use emex_foundation.Array.Insert.{insert_value_at_index-Added}
use emex_foundation.Array.Remove.{remove_value_at_index-remove_at, get_value_at_index-get_elem?}
use emex_foundation.Array.Range.{release_all, remove_values_in_range-remove_range}
use emex_foundation.Array.Bulk.{
  create, create_copy, append_loop, remove_values_in_range, append_values_of_array, deinit, equal,
}
use emex_foundation.Array.AppendArray.{append_values_of_array-append}
use emex_foundation.Array.Create.{NoNull, Created, create-Created, create_copy-Created}
use emex_foundation.Array.Overrun.{append_values_of_array_overrun}
use emex_foundation.Array.Handlers.{deinit-release_all, Match, equal-Match, equal_without_callback}

abbrev Log : Type 0
Log = List ℕ

abbrev logging : Callbacks Log
logging = record {
  address = 2;
  retain = some (λ p s. ok (true, p ∷ s));
  release = some (λ p s. ok ((100 + p) ∷ s));
  equal = none;
}

abbrev holding : List (Option Ptr) → ℕ → Array Log
holding cells count = record {
  is_mutable = true;
  callbacks = logging;
  items_capacity = pos (length cells);
  items_count = count;
  items = cells;
}

abbrev two : Array Log
two = holding (some 7 ∷ some 8 ∷ none ∷ []) 2

abbrev three : Array Log
three = holding (some 4 ∷ some 5 ∷ some 6 ∷ []) 3

two-Holds : Holds two (7 ∷ 8 ∷ [])
two-Holds = record {
  spare = none ∷ [];
  cells = refl;
  counted = refl;
  capacity = refl;
  small = omega arith;
}

three-Holds : Holds three (4 ∷ 5 ∷ 6 ∷ [])
three-Holds = record {
  spare = [];
  cells = refl;
  counted = refl;
  capacity = refl;
  small = omega arith;
}

created_full :
    create megabyte (some logging) (some (4 ∷ 5 ∷ 6 ∷ [])) (pos 3) []
    ≡ ok (some (record three { is_mutable = false }), 6 ∷ 5 ∷ 4 ∷ [])
unfolding create create_mutable append_loop append_value resize_if_needed retain_item
created_full = refl

-- A capacity of -5 grows to 0 by a request of no bytes, and the item is then stored behind them.
negative_capacity :
    append_value megabyte (create_mutable {S = Log} megabyte none (negsuc 4)) 9 [] ≡ fault
unfolding append_value create_mutable resize_if_needed retain_item ◌+ℤ◌
negative_capacity = refl

-- The 2^61 pointers asked for are 2^64 bytes, which wrap to a request of none.
huge_capacity :
    append_value megabyte (create_mutable {S = Log} megabyte none (pos (2 ^ 61))) 9 [] ≡ fault
unfolding append_value create_mutable resize_if_needed retain_item
huge_capacity = refl

append_value-Added_example :
    Returns
      (Added megabyte two (7 ∷ 8 ∷ []) (7 ∷ 8 ∷ 9 ∷ []) 9 [])
      (append_value megabyte (some two) 9 [])
unfolding retain_item
append_value-Added_example =
    append_value-Added megabyte 9 [] two-Holds refl (omega arith) (returns tt)

insert_value_at_index-Added_example :
    Returns
      (Added megabyte two (7 ∷ 8 ∷ []) (7 ∷ 9 ∷ 8 ∷ []) 9 [])
      (insert_value_at_index megabyte (some two) (pos 1) 9 [])
unfolding retain_item
insert_value_at_index-Added_example =
    insert_value_at_index-Added megabyte 1 9 [] two-Holds refl (omega arith) (omega arith)
      (returns tt)

get_value_at_index-get_elem?_example :
    (get_value_at_index (some two) (pos 1) ≡ ok 8)
    × (get_value_at_index (some two) (negsuc 1) ≡ ok null)
get_value_at_index-get_elem?_example = get_value_at_index-get_elem? 1 two-Holds

remove_value_at_index-remove_at_example :
    Returns
      (λ out. Became three (4 ∷ 6 ∷ []) out.0 × (out.1 ≡ 105 ∷ []))
      (remove_value_at_index (some three) (pos 1) [])
unfolding release_item
remove_value_at_index-remove_at_example =
    remove_value_at_index-remove_at 1 [] three-Holds refl refl refl

remove_values_in_range-remove_range_example :
    Returns
      (λ out. Became three (4 ∷ []) out.0 × (out.1 ≡ 106 ∷ 105 ∷ []))
      (remove_values_in_range (some three) (pos 1) (pos 7) [])
unfolding release_item
remove_values_in_range-remove_range_example =
    remove_values_in_range-remove_range 1 7 [] (omega arith) three-Holds refl refl

abbrev roomy : Array Log
roomy = holding (some 7 ∷ none ∷ none ∷ none ∷ none ∷ []) 1

roomy-Holds : Holds roomy (7 ∷ [])
roomy-Holds = record {
  spare = none ∷ none ∷ none ∷ none ∷ [];
  cells = refl;
  counted = refl;
  capacity = refl;
  small = omega arith;
}

append_values_of_array-append_example :
    Returns
      (λ out. (out.0 ≡ true) × Became roomy (7 ∷ 4 ∷ 5 ∷ 6 ∷ []) out.1 × (out.2 ≡ 6 ∷ 5 ∷ 4 ∷ []))
      (append_values_of_array megabyte (some roomy) (some three) [])
unfolding retain_item
append_values_of_array-append_example =
    append_values_of_array-append megabyte [] (6 ∷ 5 ∷ 4 ∷ []) roomy-Holds three-Holds refl refl
      (omega arith) refl

append_values_of_array_overrun_example :
    append_values_of_array megabyte (some two) (some three) [] ≡ fault
unfolding retain_item
append_values_of_array_overrun_example =
    append_values_of_array_overrun megabyte [] (6 ∷ 5 ∷ 4 ∷ []) two-Holds three-Holds refl refl
      (omega arith) (omega arith) (omega arith) refl

deinit-release_all_example :
    deinit three [] ≡ (release_all logging (4 ∷ 5 ∷ 6 ∷ []) [] >>= λ s. ok (s, three.items))
deinit-release_all_example = deinit-release_all [] three-Holds

-- Pointers of one parity are equal.
abbrev parity : Ptr → Ptr → Bool
parity p q = p % 2 == q % 2

abbrev by_parity : List (Option Ptr) → Array Log
by_parity cells = record {
  is_mutable = true;
  callbacks = record logging { equal = some (λ p q s. ok (parity p q)) };
  items_capacity = pos (length cells);
  items_count = length cells;
  items = cells;
}

by_parity-Holds : (p q : Ptr) → Holds (by_parity (some p ∷ some q ∷ [])) (p ∷ q ∷ [])
by_parity-Holds p q = record {
  spare = [];
  cells = refl;
  counted = refl;
  capacity = refl;
  small = omega arith;
}

equal-Match_example :
    (same : Bool) × (equal (by_parity (some 7 ∷ some 8 ∷ [])) (by_parity (some 7 ∷ some 6 ∷ [])) []
      ≡ ok same)
    × ((same ≡ true) ↔ ((◌≡◌ {A = ℕ} 2 2) × Match parity (7 ∷ 8 ∷ []) (7 ∷ 6 ∷ [])))
equal-Match_example =
    equal-Match (λ p q s. ok (parity p q)) parity [] (by_parity-Holds 7 8) (by_parity-Holds 7 6)
      refl (λ x y. refl)

abbrev other_two : Array Log
other_two = holding (some 1 ∷ some 2 ∷ []) 2

other_two-Holds : Holds other_two (1 ∷ 2 ∷ [])
other_two-Holds = record {
  spare = [];
  cells = refl;
  counted = refl;
  capacity = refl;
  small = omega arith;
}

equal_without_callback_here : equal two other_two [] ≡ ok true
equal_without_callback_here = equal_without_callback [] two-Holds other_two-Holds refl refl refl

three-NoNull : NoNull (4 ∷ 5 ∷ 6 ∷ [])
three-NoNull = (λ e. omega (arith, e), (λ e. omega (arith, e), (λ e. omega (arith, e), tt)))

create_copy-Created_example :
    Returns
      (Created logging true (4 ∷ 5 ∷ 6 ∷ []) (6 ∷ 5 ∷ 4 ∷ []))
      (create_copy megabyte (some three) true [])
unfolding retain_item
create_copy-Created_example =
    create_copy-Created megabyte true [] (6 ∷ 5 ∷ 4 ∷ []) three-Holds three-NoNull refl refl refl

create-Created_example :
    Returns
      (Created logging false (4 ∷ 5 ∷ 6 ∷ []) (6 ∷ 5 ∷ 4 ∷ []))
      (create megabyte (some logging) (some (4 ∷ 5 ∷ 6 ∷ 7 ∷ [])) (pos 3) [])
unfolding retain_item
create-Created_example =
    create-Created megabyte (some logging) (4 ∷ 5 ∷ 6 ∷ []) (7 ∷ []) [] (6 ∷ 5 ∷ 4 ∷ [])
      three-NoNull refl refl refl
