-- ===== src/Uuid.antt =====
-- src/EFUUID.c: identifiers of sixteen bytes and their text.
pub mod Text
mod Tests
use emex_foundation.Base.{
  ℕ, zero, suc, ◌+◌, ◌-◌, ◌*◌, ◌/◌, ◌%◌, ◌^◌, Bool, Option, none, some, List, if◌then◌else◌, leb,
  not, set, replicate,
}
use emex_foundation.Allocator.{Allocator}

-- `EFUUIDBytes`, the bytes of `struct __EFUUID`.
pub record UuidBytes : Type 0 where
  pub byte0 : ℕ
  pub byte1 : ℕ
  pub byte2 : ℕ
  pub byte3 : ℕ
  pub byte4 : ℕ
  pub byte5 : ℕ
  pub byte6 : ℕ
  pub byte7 : ℕ
  pub byte8 : ℕ
  pub byte9 : ℕ
  pub byte10 : ℕ
  pub byte11 : ℕ
  pub byte12 : ℕ
  pub byte13 : ℕ
  pub byte14 : ℕ
  pub byte15 : ℕ

-- `(char)'0' + d`, or `(char)'A' + (d - 10)`
abbrev pub hex_char : ℕ → ℕ
hex_char d = if leb d 9 then 48 + d else 65 + (d - 10)

-- `_intToHexChars`: the digits of `n`, the highest first, from index `out` of the buffer on.
unfoldable pub int_to_hex_chars : ℕ → ℕ → ℕ → List ℕ → List ℕ
int_to_hex_chars n out zero buf = buf
int_to_hex_chars n out (suc digits) buf =
    int_to_hex_chars n (out + 1) digits (set buf out (hex_char (n / 2 ^ (4 * digits) % 16)))

-- The buffer of `EFUUIDCreateString`, 37 characters of which the last is the terminator.
unfoldable pub fill_text : UuidBytes → List ℕ
fill_text u =
    let buf = int_to_hex_chars u.byte0 0 2 (replicate 37 48) in
    let buf = int_to_hex_chars u.byte1 2 2 buf in
    let buf = int_to_hex_chars u.byte2 4 2 buf in
    let buf = int_to_hex_chars u.byte3 6 2 buf in
    let buf = set buf 8 45 in
    let buf = int_to_hex_chars u.byte4 9 2 buf in
    let buf = int_to_hex_chars u.byte5 11 2 buf in
    let buf = set buf 13 45 in
    let buf = int_to_hex_chars u.byte6 14 2 buf in
    let buf = int_to_hex_chars u.byte7 16 2 buf in
    let buf = set buf 18 45 in
    let buf = int_to_hex_chars u.byte8 19 2 buf in
    let buf = int_to_hex_chars u.byte9 21 2 buf in
    let buf = set buf 23 45 in
    let buf = int_to_hex_chars u.byte10 24 2 buf in
    let buf = int_to_hex_chars u.byte11 26 2 buf in
    let buf = int_to_hex_chars u.byte12 28 2 buf in
    let buf = int_to_hex_chars u.byte13 30 2 buf in
    let buf = int_to_hex_chars u.byte14 32 2 buf in
    let buf = int_to_hex_chars u.byte15 34 2 buf in set buf 36 0

-- `EFUUIDCreateString`; the string is made of the buffer by EFString.
abbrev pub create_string : {A : Type 0} → (List ℕ → Option A) → Option UuidBytes → Option A
create_string create_with_c_string none = none
create_string create_with_c_string (some u) = create_with_c_string (fill_text u)

-- `sizeof(struct __EFUUID)`
abbrev pub uuid_size : ℕ
uuid_size = 48

-- `EFUUIDCreateWithUUIDBytes`, by way of `EFUUIDCreateWithBytes`.
abbrev pub create_with_bytes : Allocator → UuidBytes → Option UuidBytes
create_with_bytes al bytes = if not (al.grants uuid_size) then none else some bytes

-- `EFUUIDCreate`, with the bytes that `arc4random_buf` gives.
abbrev pub create : Allocator → UuidBytes → Option UuidBytes
create al random = if not (al.grants uuid_size) then none else some random

-- `EFUUIDGetBytes`: zeros for NULL.
abbrev pub get_bytes : Option UuidBytes → UuidBytes
get_bytes none = record {
  byte0 = 0;
  byte1 = 0;
  byte2 = 0;
  byte3 = 0;
  byte4 = 0;
  byte5 = 0;
  byte6 = 0;
  byte7 = 0;
  byte8 = 0;
  byte9 = 0;
  byte10 = 0;
  byte11 = 0;
  byte12 = 0;
  byte13 = 0;
  byte14 = 0;
  byte15 = 0;
}
get_bytes (some u) = u
