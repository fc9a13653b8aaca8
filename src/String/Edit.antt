-- ===== src/String/Edit.antt =====
-- Operations on mutable strings (src/EFString.c): trimming, appending, deleting.
use emex_foundation.Base.{
  ℕ, zero, suc, ◌+◌, ◌-◌, Bool, true, false, not, ◌&&◌, ◌||◌, Option, none, some, [], ◌∷◌, ◌++◌,
  if◌then◌else◌, leb, ltb, ◌==◌, length, take, drop, get_elem?, ℤ, pos, negsuc, ltb_ℤ, add_index,
  Run, ok, fault, ◌>>=◌,
}
use emex_foundation.Allocator.{Allocator}
use emex_foundation.Data.{Block, load_block, memcpy, realloc}
use emex_foundation.String.Encoding.{validate_encoding}
use emex_foundation.String.Model.{String, store_byte}

-- `__EFIsWhitespace`
unfoldable pub is_whitespace : ℕ → Bool
is_whitespace c =
    (c == b' ') || ((c == b'\t') || ((c == b'\n') || ((c == b'\r') || ((c == 11) || (c == 12)))))

abbrev pub byte_of : Option (Option ℕ) → Run ℕ
byte_of none = fault
byte_of (some none) = fault
byte_of (some (some c)) = ok c

-- `buffer[i]`
abbrev pub load_byte : Block → ℕ → Run ℕ
load_byte block i = byte_of (get_elem? block i)

-- `memmove(&block[at], &block[from], n)`
abbrev pub move_bytes : Block → ℕ → ℕ → ℕ → Run Block
move_bytes block at from n =
    if n == 0
    then ok block
    else if leb (at + n) (length block) && leb (from + n) (length block)
    then ok (take at block ++ (take n (drop from block) ++ drop (at + n) block))
    else fault

-- The first loop of `EFStringTrimWhitespace`, with `left` bytes to look at: where it stops.
unfoldable pub trim_start : ℕ → ℕ → Block → Run ℕ
trim_start zero start block = ok start
trim_start (suc left) start [] = fault
trim_start (suc left) start (none ∷ block) = fault
trim_start (suc left) start (some c ∷ block) =
    let next = trim_start left (start + 1) block in if is_whitespace c then next else ok start

-- The second loop, which goes down from `start + left`.
unfoldable pub trim_end : ℕ → ℕ → Block → Run ℕ
trim_end zero start block = ok start
trim_end (suc left) start block =
    let next = trim_end left start block in
    load_byte block (start + suc left) >>= λ c.
    if is_whitespace c then next else ok (start + suc left)

-- The writes of `EFStringTrimWhitespace`, for the characters from `start` to `end`.
abbrev pub trim_between : String → Block → ℕ → ℕ → Run (Bool × Option String)
trim_between s block start end =
    let n = end - start + 1 in
    (if start == 0 then ok block else move_bytes block 0 start n) >>= λ moved.
    store_byte moved n 0 >>= λ closed.
    ok (true, some (record s { buffer = some closed; length = n }))

abbrev pub trim_from : String → Block → ℕ → Run (Bool × Option String)
trim_from s block start =
    if start == s.length
    then (store_byte block 0 0 >>= λ closed.
        ok (true, some (record s { buffer = some closed; length = 0 })))
    else (trim_end (s.length - 1 - start) start block >>= trim_between s block start)

-- `EFStringTrimWhitespace`
unfoldable pub trim_whitespace : Option String → Run (Bool × Option String)
trim_whitespace none = ok (false, none)
trim_whitespace (some s) =
    if not s.is_mutable
    then ok (false, some s)
    else (load_block s.buffer >>= λ block. trim_start s.length 0 block >>= trim_from s block)

-- What `EFStringAppendString` appends: another string, or the mutable string itself, whose buffer is
-- then the reallocated one.
pub data Operand : Type 0 where
  itself : Operand
  other : Option String → Operand

abbrev pub append_bytes : String → Block → Block → ℕ → Run (Bool × Option String)
append_bytes s new source n = memcpy new s.length source n >>= λ copied.
    store_byte copied (s.length + n) 0 >>= λ closed.
    ok (true, some (record s { buffer = some closed; length = s.length + n }))

module _ (al : Allocator) where
  -- The end of `EFStringAppendString`, with the text of the appended string and its length.
  abbrev pub append_text : String → Block → ℕ → (Block → Block) → Run (Bool × Option String)
  append_text s source n source' = validate_encoding s.encoding source n >>= λ valid.
      if not valid
      then ok (false, some s)
      else (load_block s.buffer >>= λ block.
          if not (al.grants (s.length + n + 1))
          then ok (false, some s)
          else (let new = realloc (s.length + n + 1) block in append_bytes s new (source' new) n))

  -- `EFStringAppendString`. A total length that wraps is a request that no allocator serves.
  unfoldable pub append_string : Option String → Operand → Run (Bool × Option String)
  append_string none operand = ok (false, none)
  append_string (some s) (other none) = ok (false, some s)
  append_string (some s) (other (some t)) =
      if not s.is_mutable
      then ok (false, some s)
      else (load_block t.buffer >>= λ source. append_text s source t.length (λ new. source))
  append_string (some s) itself =
      if not s.is_mutable
      then ok (false, some s)
      else (load_block s.buffer >>= λ source. append_text s source s.length (λ new. new))

-- `EFStringDeleteRange`. A sum that wraps is below zero, and the addresses of the move are then
-- outside the block.
unfoldable pub delete_range : Option String → ℤ → ℤ → Run (Bool × Option String)
delete_range none location n = ok (false, none)
delete_range (some s) (negsuc _) n = ok (false, some s)
delete_range (some s) (pos at) (negsuc _) = ok (false, some s)
delete_range (some s) (pos at) (pos n) =
    if not s.is_mutable || ltb_ℤ (pos s.length) (add_index (pos at) (pos n))
    then ok (false, some s)
    else (load_block s.buffer >>= λ block.
        if ltb s.length (at + n)
        then fault
        else (move_bytes block at (at + n) (s.length - (at + n) + 1) >>= λ moved.
            ok (true, some (record s { buffer = some moved; length = s.length - n }))))
