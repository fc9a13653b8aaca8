-- ===== src/Number/Tests.antt =====
-- Runs of src/EFNumber.c, and its theorems at concrete numbers.
use emex_foundation.Base.{
  ◌-◌, ◌^◌, true, false, some, none, [], ◌∷◌, ◌≡◌, ◌↔◌, refl, arith, pos, negsuc, ◌≤ℤ◌, ◌<ℤ◌, ok,
  fault,
}
use emex_foundation.Allocator.{megabyte}
use emex_foundation.Number.{
  overflow, s_int16, s_int64, u_int8, u_int16, Number, create, get_value, compare, equal, less_than,
  equal_to, greater_than, u_int64,
}
use emex_foundation.Number.Roundtrip.{get_value-create, get_value_narrow}
use emex_foundation.Number.Compare.{compare-order, equal-compare}

abbrev minus_two : Number
minus_two = record { type = s_int16; s128 = negsuc 1 }

abbrev big : Number
big = record { type = s_int64; s128 = pos 0x1_0000 }

abbrev five_u8 : Number
five_u8 = record { type = u_int8; s128 = pos 5 }

reads_sign : create megabyte (pos 0) s_int16 (some (0xfe ∷ 0xff ∷ [])) ≡ ok (some minus_two)
unfolding create
reads_sign = refl

null_value : create megabyte (pos 0) s_int16 none ≡ ok none
unfolding create
null_value = refl

overflow_marker :
    create megabyte (pos 0) overflow none ≡ ok (some (record { type = overflow; s128 = pos 0 }))
unfolding create
overflow_marker = refl

-- Unequal by type, though they compare as equal.
same_value : equal five_u8 (record five_u8 { type = u_int16 }) ≡ false
unfolding equal
same_value = refl

get_value-create_example :
    (n : Number) × (create megabyte (pos 0) s_int16 (some (0xfe ∷ 0xff ∷ [])) ≡ ok (some n))
    × (n.type ≡ s_int16)
    × (negsuc (2 ^ 15 - 1) ≤ℤ n.s128)
    × (n.s128 ≤ℤ pos (2 ^ 15 - 1))
    × (get_value (some n) u_int8 (some (1 ∷ 2 ∷ 3 ∷ [])) ≡ ok (true, some (0xfe ∷ 0xff ∷ 3 ∷ [])))
get_value-create_example =
    get_value-create megabyte (pos 0) s_int16 u_int8 (0xfe ∷ 0xff ∷ []) (1 ∷ 2 ∷ 3 ∷ []) refl
      (omega arith) (omega arith) (omega arith) (omega arith)

narrow_buffer : get_value (some big) u_int8 (some (0 ∷ [])) ≡ fault
narrow_buffer = get_value_narrow big u_int8 (0 ∷ []) (omega arith)

compare-order_example :
    ((compare (some minus_two) (some big) ≡ less_than) ↔ (negsuc 1 <ℤ pos 0x1_0000))
    × ((compare (some minus_two) (some big) ≡ equal_to) ↔ (negsuc 1 ≡ pos 0x1_0000))
    × ((compare (some minus_two) (some big) ≡ greater_than) ↔ (pos 0x1_0000 <ℤ negsuc 1))
compare-order_example = compare-order minus_two big refl refl

abbrev small_big : Number
small_big = record { type = u_int64; s128 = pos 0x1_0000 }

equal-compare_example :
    (equal big small_big ≡ true)
    ↔ ((s_int64 ≡ u_int64) × (compare (some big) (some small_big) ≡ equal_to))
equal-compare_example = equal-compare big small_big refl
