-- ===== src/Number.antt =====
-- src/EFNumber.c and include/EmexFoundation/EFNumber.h: boxed integers of eight machine types.
-- A `void *` that the caller passes is the bytes that it points to, `none` for NULL.
pub mod Roundtrip
pub mod Compare
mod Tests
use emex_foundation.Base.{
  ℕ, ◌*◌, ◌^◌, Bool, true, false, not, ◌&&◌, ◌||◌, Option, none, some, List, ◌++◌, if◌then◌else◌,
  leb, ◌==◌, length, take, drop, ℤ, pos, wrap, signed, eqb_ℤ, ltb_ℤ, Run, ok, fault, ◌>>=◌, load_le,
  store_le,
}
use emex_foundation.Allocator.{Allocator}

-- `EFNumberType`; `unknown` is a value that the enumeration does not name.
pub data NumberType : Type 0 where
  overflow s_int8 s_int16 s_int32 s_int64 u_int8 u_int16 u_int32 u_int64 : NumberType
  unknown : ℕ → NumberType

-- `struct __EFNumber` behind its object header.
pub record Number : Type 0 where
  pub type : NumberType
  pub s128 : ℤ

-- `EFComparisonResult`
pub data ComparisonResult : Type 0 where
  less_than equal_to greater_than : ComparisonResult

abbrev pub same_type : NumberType → NumberType → Bool
same_type overflow overflow = true
same_type s_int8 s_int8 = true
same_type s_int16 s_int16 = true
same_type s_int32 s_int32 = true
same_type s_int64 s_int64 = true
same_type u_int8 u_int8 = true
same_type u_int16 u_int16 = true
same_type u_int32 u_int32 = true
same_type u_int64 u_int64 = true
same_type (unknown a) (unknown b) = a == b
same_type _ _ = false

-- `sizeof(struct __EFNumber)`: a header of 32 bytes, the type, and 16 bytes at their alignment.
abbrev pub number_size : ℕ
number_size = 64

abbrev pub is_overflow : NumberType → Bool
is_overflow t = same_type t overflow

abbrev pub is_null {ℓ} : {A : Type ℓ} → Option A → Bool
is_null none = true
is_null (some _) = false

-- `*(const T *)value` for an unsigned T of `n` bytes, its sign bit of weight `half` if signed.
abbrev pub load_unsigned : ℕ → Option (List ℕ) → Run (Option ℤ)
load_unsigned n none = fault
load_unsigned n (some m) = if leb n (length m) then ok (some (pos (load_le (take n m)))) else fault

abbrev pub load_signed : ℕ → ℕ → Option (List ℕ) → Run (Option ℤ)
load_signed n half none = fault
load_signed n half (some m) =
    if leb n (length m) then ok (some (signed half (load_le (take n m)))) else fault

-- The switch of `EFNumberCreate`. The overflow marker leaves the field as the fresh object has
-- it; a type that is not known gives no number.
unfoldable pub read_value : ℤ → NumberType → Option (List ℕ) → Run (Option ℤ)
read_value fresh overflow v = ok (some fresh)
read_value fresh s_int8 v = load_signed 1 (2 ^ 7) v
read_value fresh s_int16 v = load_signed 2 (2 ^ 15) v
read_value fresh s_int32 v = load_signed 4 (2 ^ 31) v
read_value fresh s_int64 v = load_signed 8 (2 ^ 63) v
read_value fresh u_int8 v = load_unsigned 1 v
read_value fresh u_int16 v = load_unsigned 2 v
read_value fresh u_int32 v = load_unsigned 4 v
read_value fresh u_int64 v = load_unsigned 8 v
read_value fresh (unknown _) v = ok none

abbrev boxed : NumberType → Option ℤ → Option Number
boxed t none = none
boxed t (some z) = some (record { type = t; s128 = z })

-- `fresh` is what the `s128` field of a fresh object holds.
unfoldable pub create : Allocator → ℤ → NumberType → Option (List ℕ) → Run (Option Number)
unfolding read_value
create a fresh t v =
    if is_null v && not (is_overflow t)
    then ok none
    else (if not (a.grants number_size)
        then ok none
        else (do z ← read_value fresh t v; ok (boxed t z)))

byte_size : NumberType → ℕ
byte_size overflow = 0
byte_size s_int8 = 1
byte_size u_int8 = 1
byte_size s_int16 = 2
byte_size u_int16 = 2
byte_size s_int32 = 4
byte_size u_int32 = 4
byte_size s_int64 = 8
byte_size u_int64 = 8
byte_size (unknown _) = 0

unfoldable pub get_byte_size : Option Number → ℕ
unfolding byte_size
get_byte_size none = 0
get_byte_size (some n) = byte_size n.type

unfoldable pub get_type : Option Number → NumberType
get_type none = overflow
get_type (some n) = n.type

-- `*(T *)value = (T)z` for a T of `n` bytes.
abbrev pub store : ℕ → ℤ → List ℕ → Run (Bool × Option (List ℕ))
store n z m =
    if leb n (length m)
    then ok (true, some (store_le n (wrap (2 ^ (8 * n)) z) ++ drop n m))
    else fault

-- The switch of `EFNumberGetValue`, on the type that the number has.
write_value : NumberType → ℤ → List ℕ → Run (Bool × Option (List ℕ))
write_value overflow z m = ok (false, some m)
write_value s_int8 z m = store 1 z m
write_value s_int16 z m = store 2 z m
write_value s_int32 z m = store 4 z m
write_value s_int64 z m = store 8 z m
write_value u_int8 z m = store 1 z m
write_value u_int16 z m = store 2 z m
write_value u_int32 z m = store 4 z m
write_value u_int64 z m = store 8 z m
write_value (unknown _) z m = ok (false, some m)

-- The requested type is an argument that the code never reads.
unfoldable pub get_value :
    Option Number → NumberType → Option (List ℕ) → Run (Bool × Option (List ℕ))
unfolding write_value
get_value none t v = ok (false, v)
get_value (some n) t none = ok (false, none)
get_value (some n) t (some m) = write_value n.type n.s128 m

unfoldable pub equal : Number → Number → Bool
equal n m = if not (same_type n.type m.type) then false else eqb_ℤ n.s128 m.s128

unfoldable pub compare : Option Number → Option Number → ComparisonResult
compare none m = equal_to
compare (some n) none = equal_to
compare (some n) (some m) =
    if is_overflow n.type || is_overflow m.type
    then equal_to
    else (if eqb_ℤ n.s128 m.s128
        then equal_to
        else (if ltb_ℤ m.s128 n.s128 then greater_than else less_than))
