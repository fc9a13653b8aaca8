-- ===== src/BitWalker.antt =====
-- src/EFBitWalker.c and include/EmexFoundation/EFRuntime/EFEndian.h: fields of bits in a file.
pub mod Swap
pub mod Roundtrip
mod Tests
use emex_foundation.Base.{
  negsuc, ℕ, zero, suc, ◌+◌, ◌-◌, ◌*◌, ◌/◌, ◌%◌, ◌^◌, bit_and, bit_or, Option, none, some, Bool,
  true, false, not, ◌&&◌, ◌||◌, List, [], ◌∷◌, ◌++◌, Option, none, some, if◌then◌else◌, leb, ltb,
  ◌==◌, length, replicate, ℤ, pos, negsuc, ltb_ℤ, eqb_ℤ, add_index, load_le, store_le, Run, ok,
  fault, ◌>>=◌,
}

-- The functions of a file handle, over the state `F` of the file and its offset: EFFileHandleSeek to
-- an offset from the start, EFFileHandleRead, which gives its answer and the bytes that it read, and
-- EFFileHandleWrite. They are calls of lseek, read and write.
pub record Handle (F : Type 0) : Type 0 where
  pub seek : ℤ → F → F
  pub read : ℤ → F → ℤ × List ℕ × F
  pub write : List ℕ → F → ℤ × F
  pub sync : F → F

-- `struct __EFBitWalker`, with the file behind its handle.
pub record BitWalker (F : Type 0) : Type 0 where
  pub file : F
  pub byte_pos : ℤ
  pub bit_index : ℕ
  pub endian : ℕ

-- `EFBitWalkerPosition`
pub record Position : Type 0 where
  pub position_byte : ℤ
  pub position_bit : ℕ

abbrev pub reverse_onto : List ℕ → List ℕ → List ℕ
reverse_onto [] ys = ys
reverse_onto (x ∷ xs) ys = reverse_onto xs (x ∷ ys)

-- `__builtin_bswap16`, `32` and `64`, of as many bytes.
abbrev pub bswap : ℕ → ℕ → ℕ
bswap n v = load_le (reverse_onto (store_le n v) [])

-- `EFEndianBSwapN`
unfoldable pub bswap_n : ℕ → ℕ → ℕ
bswap_n v n =
    if n == 2
    then bswap 2 v
    else if n == 3
    then bit_or (bit_or (v / 2 ^ 16 % 256) (bit_and v 65280)) (v % 256 * 2 ^ 16)
    else if n == 4
    then bswap 4 v
    else if leb 5 n && leb n 8
    then bswap 8 v / 2 ^ ((8 - n) * 8)
    else v

-- A value of more than a byte, for a file of the other byte order.
abbrev pub to_endian : ℕ → ℕ → ℕ → ℕ
to_endian endian bits v = if ltb 8 bits && (endian == 1) then bswap_n v ((bits + 7) / 8) else v

-- What `read` leaves in a window of nine zeroed bytes.
abbrev pub window : List ℕ → List ℕ
window bytes = bytes ++ replicate (9 - length bytes) 0

-- `EFEndianStoreWindowLE` and `EFEndianLoadWindowLE`, of nine bytes.
unfoldable pub store_window : ℕ → List ℕ
store_window v = store_le 9 v

unfoldable pub load_window : List ℕ → ℕ
load_window win = load_le win

-- A shift of 128 bits or more is undefined.
abbrev pub shift : ℕ → ℕ → Run ℕ
shift v k = if leb 128 k then fault else ok (v * 2 ^ k % 2 ^ 128)

-- `tmp >> 3` and `tmp & 7`
abbrev pub byte_part : ℤ → ℤ
byte_part (pos n) = pos (n / 8)
byte_part (negsuc n) = negsuc (n / 8)

abbrev pub bit_part : ℤ → ℕ
bit_part (pos n) = n % 8
bit_part (negsuc n) = 7 - n % 8

abbrev pub bad_width : ℕ → Bool
bad_width bits = (bits == 0) || ltb 64 bits

module _ {F : Type 0} (h : Handle F) where
  -- The cursor moved on by a number of bits.
  abbrev pub advance : ℕ → BitWalker F → BitWalker F
  advance bits w = record w {
    byte_pos = add_index w.byte_pos (pos ((w.bit_index + bits) / 8));
    bit_index = (w.bit_index + bits) % 8;
  }

  -- The second half of `EFBitWalkerWrite`: the new window is written.
  abbrev pub write_window : List ℕ → ℕ → BitWalker F → Bool × Option (BitWalker F)
  write_window win bits w =
      let (written, f) = h.write win (h.seek w.byte_pos w.file) in
      if not (eqb_ℤ written (pos 9))
      then (false, some (record w { file = f }))
      else (true, some (advance bits (record w { file = f })))

  -- `EFBitWalkerWrite`
  unfoldable pub write : ℕ → ℕ → Option (BitWalker F) → Run (Bool × Option (BitWalker F))
  write value bits none = ok (false, none)
  write value bits (some w) =
      if bad_width bits
      then ok (false, some w)
      else (let v = to_endian w.endian bits (value % 2 ^ bits) in
          let (count, bytes, f) = h.read (pos 9) (h.seek w.byte_pos w.file) in
          if ltb_ℤ count (pos 0)
          then ok (false, some (record w { file = f }))
          else (shift v w.bit_index >>= λ shifted. ok (
              write_window (store_window (bit_or (load_window (window bytes)) shifted)) bits
                (record w { file = f }))))

  -- `EFBitWalkerRead`, which leaves the cursor where it is.
  unfoldable pub read : ℕ → Option (BitWalker F) → Run (ℕ × Option (BitWalker F))
  read bits none = ok (0, none)
  read bits (some w) =
      if bad_width bits
      then ok (0, some w)
      else (let (count, bytes, f) = h.read (pos 9) (h.seek w.byte_pos w.file) in
          if ltb_ℤ count (pos 0)
          then ok (0, some (record w { file = f }))
          else if leb 128 w.bit_index
          then fault
          else ok (
            to_endian w.endian bits (load_window (window bytes) / 2 ^ w.bit_index % 2 ^ bits),
            some (record w { file = f }),
          ))

  -- `EFBitWalkerReset`
  abbrev pub reset : Option (BitWalker F) → Option (BitWalker F)
  reset none = none
  reset (some w) = some (record w { byte_pos = pos 0; bit_index = 0 })

  -- The cursor at the start of a byte.
  abbrev pub aligned : BitWalker F → BitWalker F
  aligned w =
      if not (w.bit_index == 0)
      then record w { bit_index = 0; byte_pos = add_index w.byte_pos (pos 1) }
      else w

  -- `EFBitWalkerAlignByte`
  abbrev pub align_byte : Option (BitWalker F) → Option (BitWalker F)
  align_byte none = none
  align_byte (some w) = some (aligned w)

  -- `EFBitWalkerWriteBuffer`
  abbrev pub write_buffer : List ℕ → Option (BitWalker F) → ℤ × Option (BitWalker F)
  write_buffer buffer none = (negsuc 0, none)
  write_buffer buffer (some w) =
      let w' = aligned w in
      let (written, f) = h.write buffer (h.seek w'.byte_pos w'.file) in
      (written, some (record w' { file = f; byte_pos = add_index w'.byte_pos written }))

  -- `EFBitWalkerReadBuffer`
  abbrev pub read_buffer : ℤ → Option (BitWalker F) → ℤ × List ℕ × Option (BitWalker F)
  read_buffer length none = (negsuc 0, [], none)
  read_buffer length (some w) =
      let w' = aligned w in
      let (count, bytes, f) = h.read length (h.seek w'.byte_pos w'.file) in
      (count, bytes, some (record w' { file = f; byte_pos = add_index w'.byte_pos count }))

  -- `EFBitWalkerSeek`
  abbrev pub seek : ℤ → ℕ → Option (BitWalker F) → Option (BitWalker F)
  seek byte_pos bit_index none = none
  seek byte_pos bit_index (some w) = some (record w { byte_pos = byte_pos; bit_index = bit_index })

  -- `EFBitWalkerSkip`
  abbrev pub skip : ℤ → Option (BitWalker F) → Option (BitWalker F)
  skip bits none = none
  skip bits (some w) =
      let cursor = add_index (pos w.bit_index) bits in
      some (record w {
        byte_pos = add_index w.byte_pos (byte_part cursor);
        bit_index = bit_part cursor;
      })

  -- `EFBitWalkerBytesUsed`
  abbrev pub bytes_used : Option (BitWalker F) → ℤ
  bytes_used none = negsuc 0
  bytes_used (some w) = add_index w.byte_pos (pos (if w.bit_index == 0 then 0 else 1))

  -- `EFBitWalkerGetPosition`
  abbrev pub get_position : Option (BitWalker F) → Position
  get_position none = record { position_byte = pos 0; position_bit = 0 }
  get_position (some w) = record { position_byte = w.byte_pos; position_bit = w.bit_index }

  -- `EFBitWalkerSetPosition`
  abbrev pub set_position : Position → Option (BitWalker F) → Option (BitWalker F)
  set_position p none = none
  set_position p (some w) =
      some (record w { byte_pos = p.position_byte; bit_index = p.position_bit })

  -- `EFBitWalkerSync`
  abbrev pub sync_file : Option (BitWalker F) → Option (BitWalker F)
  sync_file none = none
  sync_file (some w) = some (record w { file = h.sync w.file })
