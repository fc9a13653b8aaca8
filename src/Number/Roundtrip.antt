-- ===== src/Number/Roundtrip.antt =====
-- What a number is made from comes back from it: `EFNumberCreate` and `EFNumberGetValue`.
use emex_foundation.Base.{
  ℕ, ◌-◌, ◌*◌, ◌^◌, ◌≤◌, ◌<◌, true, some, List, ◌++◌, ◌≡◌, refl, arith, length, take, drop, ℤ, pos,
  negsuc, ◌≤ℤ◌, wrap, signed, ok, fault, load_le, store_le, IsBytes, take-IsBytes, length-take,
  load_le-lt, store_le-load_le, ◌∙◌, le→leb, Bool-cases, inl, inr, ltb, leb, if◌then◌else◌,
}
use native.Mathlib.Nat.{mod-eq_of_lt}
use emex_foundation.Allocator.{Allocator}
use emex_foundation.Number.{
  NumberType, overflow, s_int8, s_int16, s_int32, s_int64, u_int8, u_int16, u_int32, u_int64,
  unknown, Number, number_size, create, get_value, read_value, write_value, store, get_byte_size,
  byte_size,
}

-- The types that hold an integer, with the least and the greatest.
abbrev pub lowest : NumberType → ℤ
lowest s_int8 = negsuc (2 ^ 7 - 1)
lowest s_int16 = negsuc (2 ^ 15 - 1)
lowest s_int32 = negsuc (2 ^ 31 - 1)
lowest s_int64 = negsuc (2 ^ 63 - 1)
lowest _ = pos 0

abbrev pub highest : NumberType → ℤ
highest s_int8 = pos (2 ^ 7 - 1)
highest s_int16 = pos (2 ^ 15 - 1)
highest s_int32 = pos (2 ^ 31 - 1)
highest s_int64 = pos (2 ^ 63 - 1)
highest u_int8 = pos (2 ^ 8 - 1)
highest u_int16 = pos (2 ^ 16 - 1)
highest u_int32 = pos (2 ^ 32 - 1)
highest u_int64 = pos (2 ^ 64 - 1)
highest _ = pos 0

abbrev pub width : NumberType → ℕ
width s_int8 = 1
width u_int8 = 1
width s_int16 = 2
width u_int16 = 2
width s_int32 = 4
width u_int32 = 4
width s_int64 = 8
width u_int64 = 8
width _ = 0

-- The bytes that `EFNumberCreate` reads, as an integer in the type's range that is stored back as
-- the same bytes.
record Reads (fresh : ℤ) (t : NumberType) (m out : List ℕ) : Type 0 where
  value : ℤ
  read : read_value fresh t (some m) ≡ ok (some value)
  low : lowest t ≤ℤ value
  high : value ≤ℤ highest t
  written : write_value t value out ≡ ok (true, some (take (width t) m ++ drop (width t) out))

-- A pattern of a type with sign bit `half` reads as an integer in range, and wraps back to itself.
record InRange (modulus : ℕ) (lo hi : ℤ) (p : ℕ) (z : ℤ) : Type 0 where
  low : lo ≤ℤ z
  high : z ≤ℤ hi
  same : wrap modulus z ≡ p

signed-InRange :
    (half p : ℕ)
    → 0 < half
    → p < 2 * half
    → InRange (2 * half) (negsuc (half - 1)) (pos (half - 1)) p (signed half p)
signed-InRange half p h k = elim (Bool-cases (ltb p half)) [
  | inl small ↦ record { low = ground arith; high = ground arith; same = rw small (mod-eq_of_lt k) }
  | inr large ↦ record {
    low = ground arith;
    high = ground arith;
    same =
        rw (large, mod-eq_of_lt {n = 2 * half - 1 - p} {m = 2 * half} (omega arith)) (ground arith);
  }
]

pos-InRange : (n p : ℕ) → p < n → InRange n (pos 0) (pos (n - 1)) p (pos p)
pos-InRange n p h = record { low = omega arith; high = omega arith; same = mod-eq_of_lt h }

module _ (fresh : ℤ) (m out : List ℕ) (bytes : IsBytes m) where
  restored : (n v : ℕ) → v ≡ load_le (take n m) → n ≤ length m → store_le n v ≡ take n m
  restored n v e h =
      rw e (store_le-load_le n (take n m) (omega (arith, length-take n m)) (take-IsBytes n m bytes))

  below : (n : ℕ) → n ≤ length m → load_le (take n m) < 256 ^ n
  below n h =
      let e : length (take n m) ≡ n = omega (arith, length-take n m) in
      rw e at (load_le-lt (take n m) (take-IsBytes n m bytes))

  -- One case of the two switches.
  reads :
      (t : NumberType)
      → width t ≤ length m
      → width t ≤ length out
      → (z : ℤ)
      → read_value fresh t (some m) ≡ (if leb (width t) (length m) then ok (some z) else fault)
      → write_value t z out ≡ store (width t) z out
      → InRange (2 ^ (8 * width t)) (lowest t) (highest t) (load_le (take (width t) m)) z
      → Reads fresh t m out
  reads t fits room z r e i = record {
    value = z;
    read = r ∙ rw (le→leb _ _ fits);
    low = i.low;
    high = i.high;
    written = e ∙ rw (le→leb _ _ room, restored (width t) _ i.same fits);
  }

  s_range :
      (half n : ℕ)
      → n ≤ length m
      → 0 < half
      → 2 * half ≡ 256 ^ n
      → InRange
          (2 * half)
          (negsuc (half - 1))
          (pos (half - 1))
          (load_le (take n m))
          (signed half (load_le (take n m)))
  s_range half n f h e = signed-InRange half _ h (rw e (below n f))

  Reads-all :
      (t : NumberType)
      → 0 < width t
      → width t ≤ length m
      → width t ≤ length out
      → Reads fresh t m out
  unfolding read_value write_value
  Reads-all overflow p f r = absurd (omega arith)
  Reads-all (unknown _) p f r = absurd (omega arith)
  Reads-all s_int8 p f r = reads s_int8 f r _ refl refl (s_range (2 ^ 7) 1 f (omega arith) refl)
  Reads-all s_int16 p f r = reads s_int16 f r _ refl refl (s_range (2 ^ 15) 2 f (omega arith) refl)
  Reads-all s_int32 p f r = reads s_int32 f r _ refl refl (s_range (2 ^ 31) 4 f (omega arith) refl)
  Reads-all s_int64 p f r = reads s_int64 f r _ refl refl (s_range (2 ^ 63) 8 f (omega arith) refl)
  Reads-all u_int8 p f r = reads u_int8 f r _ refl refl (pos-InRange (2 ^ 8) _ (below 1 f))
  Reads-all u_int16 p f r = reads u_int16 f r _ refl refl (pos-InRange (2 ^ 16) _ (below 2 f))
  Reads-all u_int32 p f r = reads u_int32 f r _ refl refl (pos-InRange (2 ^ 32) _ (below 4 f))
  Reads-all u_int64 p f r = reads u_int64 f r _ refl refl (pos-InRange (2 ^ 64) _ (below 8 f))

write_value_narrow :
    (t : NumberType) (z : ℤ) (out : List ℕ) → length out < width t → write_value t z out ≡ fault
unfolding write_value
write_value_narrow overflow z out h = absurd (omega arith)
write_value_narrow (unknown _) z out h = absurd (omega arith)
write_value_narrow _ z out h = ground arith

byte_size-width : (t : NumberType) → byte_size t ≡ width t
unfolding byte_size
byte_size-width overflow = refl
byte_size-width _ = refl

-- A number made from a C integer holds a value in the range of its type, and `EFNumberGetValue`
-- writes the very bytes that it was made from to the start of a buffer that has room for them,
-- and changes no byte behind them, whatever type is asked for. The request for memory has to be
-- granted, and both buffers have to hold an integer of the number's type.
pub get_value-create :
    (a : Allocator) (fresh : ℤ) (t asked : NumberType) (m out : List ℕ)
    → a.grants number_size ≡ true
    → IsBytes m
    → 0 < width t
    → width t ≤ length m
    → width t ≤ length out
    → (n : Number) × (create a fresh t (some m) ≡ ok (some n))
      × (n.type ≡ t)
      × (lowest t ≤ℤ n.s128)
      × (n.s128 ≤ℤ highest t)
      × (get_value (some n) asked (some out)
          ≡ ok (true, some (take (width t) m ++ drop (width t) out)))
unfolding create get_value
get_value-create a fresh t asked m out g b p f r =
    let c = Reads-all fresh m out b t p f r in
    (record { type = t; s128 = c.value }, rw (g, c.read), refl, c.low, c.high, c.written)

-- `EFNumberGetValue` does not look at the type asked for: if the buffer is shorter than the
-- number's own type it writes past the buffer's end, also where the type asked for would fit.
pub get_value_narrow :
    (n : Number) (asked : NumberType) (out : List ℕ)
    → length out < width n.type
    → get_value (some n) asked (some out) ≡ fault
unfolding get_value
get_value_narrow n asked out h = write_value_narrow n.type n.s128 out h

-- `EFNumberGetByteSize` is the width of the type, and 0 for what holds no integer.
get_byte_size-width : (n : Number) → get_byte_size (some n) ≡ width n.type
unfolding get_byte_size
get_byte_size-width n = byte_size-width n.type
