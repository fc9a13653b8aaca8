-- ===== src/Data.antt =====
-- src/EFData.c: byte buffers, fixed and growing.
pub mod Holds
pub mod Blocks
pub mod Grow
pub mod Range
mod Tests
use emex_foundation.Base.{
  ℕ, ◌+◌, ◌-◌, ◌*◌, ◌%◌, ◌^◌, Bool, true, false, not, ◌&&◌, ◌||◌, Option, none, some, List, [], ◌∷◌,
  ◌++◌, if◌then◌else◌, leb, ltb, ◌==◌, length, take, drop, replicate, ℤ, pos, negsuc, ◌-ℤ◌, ltb_ℤ,
  add_index, Run, ok, fault, ◌>>=◌,
}
use emex_foundation.Allocator.{Allocator}

-- The bytes from a pointer to the end of its block; one that was never written is `none`.
abbrev pub Block : Type 0
Block = List (Option ℕ)

-- `struct __EFData`. The buffer is `none` once its block is freed.
pub record Data : Type 0 where
  pub is_mutable : Bool
  pub is_inlined : Bool
  pub buffer : Option Block
  pub length : ℕ

abbrev pub load_block : Option Block → Run Block
load_block none = fault
load_block (some block) = ok block

-- `memcpy(block + at, source, n)`; of no bytes it does nothing.
abbrev pub memcpy : Block → ℕ → Block → ℕ → Run Block
memcpy block at source n =
    if n == 0
    then ok block
    else if leb (at + n) (length block) && leb n (length source)
    then ok (take at block ++ (take n source ++ drop (at + n) block))
    else fault

-- `sizeof(struct __EFData)`
abbrev pub data_bytes : ℕ
data_bytes = 56

abbrev pub source_of : Option Block → Block
source_of none = []
source_of (some block) = block

abbrev pub null_source : Option Block → Bool
null_source none = true
null_source (some _) = false

-- The block of a new object and its bytes: a copy in a block of its own or behind the header, or
-- the caller's block. The memory is zeroed by `calloc`.
unfoldable pub create_buffer : Option Block → ℕ → Bool → Bool → Run Block
create_buffer source n inlined is_mutable =
    if is_mutable
    then (if null_source source
        then ok (replicate n (some 0))
        else memcpy (replicate n (some 0)) 0 (source_of source) n)
    else if inlined
    then memcpy (replicate n (some 0)) 0 (source_of source) n
    else ok (source_of source)

module _ (al : Allocator) where
  -- `__EFDataCreate`
  unfoldable pub create : Option Block → ℤ → Bool → Bool → Run (Option Data)
  create source (negsuc _) inlined is_mutable = ok none
  create source (pos n) inlined is_mutable =
      if (null_source source && not is_mutable)
        || (not (al.grants ((data_bytes + (if inlined then n else 0)) % 2 ^ 64))
            || (is_mutable && not (al.grants n)))
      then ok none
      else (create_buffer source n inlined is_mutable >>= λ block. ok (
          some (record {
            is_mutable = is_mutable;
            is_inlined = not is_mutable && inlined;
            buffer = some block;
            length = n;
          })))

  -- `EFDataCreateWithBuffer`
  abbrev pub create_with_buffer : Option Block → ℤ → Run (Option Data)
  create_with_buffer none n = ok none
  create_with_buffer (some bs) n = create (some bs) n true false

  -- `EFDataCreateWithBufferNoCopy`
  abbrev pub create_with_buffer_no_copy : Option Block → ℤ → Run (Option Data)
  create_with_buffer_no_copy none n = ok none
  create_with_buffer_no_copy (some bs) n = create (some bs) n false false

  -- `EFDataCreateMutable`
  abbrev pub create_mutable : ℤ → Run (Option Data)
  create_mutable capacity = create none capacity true true

  -- `EFDataCreateCopy` and `EFDataCreateMutableCopy`
  abbrev pub create_copy : Option Data → Bool → Run (Option Data)
  create_copy none is_mutable = ok none
  create_copy (some d) is_mutable =
      load_block d.buffer >>= λ block. create (some block) (pos d.length) true is_mutable

-- `EFDataGetLength`
abbrev pub get_length : Option Data → ℕ
get_length none = 0
get_length (some d) = d.length

-- `EFDataGetMutablePtr`: the block that the caller may write.
abbrev pub get_mutable_ptr : Option Data → Option Block
get_mutable_ptr none = none
get_mutable_ptr (some d) = if not d.is_mutable then none else d.buffer

-- `EFDataCopyRangeToBuffer`, into a block of the caller: a negative location or length becomes an
-- address or a size that no block has.
abbrev pub copy_range : Data → ℤ → ℤ → Block → Run (Bool × Block)
copy_range d (pos at) (pos n) target = load_block d.buffer >>= λ block.
    (if ltb (length block) at then fault else memcpy target 0 (drop at block) n) >>= λ target'.
    ok (true, target')
copy_range d (pos at) (negsuc n) target = fault
copy_range d (negsuc at) n target = fault

unfoldable pub copy_range_to_buffer : Option Data → ℤ → ℤ → Block → Run (Bool × Block)
copy_range_to_buffer none location n target = ok (false, target)
copy_range_to_buffer (some d) location n target =
    if ltb_ℤ (pos d.length) location || ltb_ℤ (pos d.length) (add_index location n)
    then ok (false, target)
    else copy_range d location n target

-- `realloc(p, n)` of a block that it serves: the old bytes as far as they fit.
abbrev pub realloc : ℕ → Block → Block
realloc n block = take n block ++ replicate (n - length block) none

-- `bzero(block + at, n)`
abbrev pub bzero : Block → ℕ → ℕ → Run Block
bzero block at n = memcpy block at (replicate n (some 0)) n

-- `__EFDataDeinit`
unfoldable pub deinit : Data → Run (Unit {0})
deinit d = if d.is_mutable then (load_block d.buffer >>= λ block. ok tt) else ok tt

-- The end of `EFDataSetLength`, with the new block.
abbrev pub set_block : Data → ℕ → Block → Run (Bool × Option Data)
set_block d n block =
    (if ltb d.length n then bzero block d.length (n - d.length) else ok block) >>= λ block'.
    ok (true, some (record d { buffer = some block'; length = n }))

-- The end of `EFDataAppendBuffer`.
abbrev pub append_increased : Bool × Option Data → Block → ℕ → Run (Bool × Option Data)
append_increased (false, d) source n = ok (false, d)
append_increased (true, none) source n = fault
append_increased (true, some d) source n = load_block d.buffer >>= λ block.
    memcpy block (d.length - n) source n >>= λ block'.
    ok (true, some (record d { buffer = some block' }))

module _ (al : Allocator) where
  -- `EFDataSetLength`. A `realloc` to no bytes that returns NULL has freed the block.
  unfoldable pub set_length : Option Data → ℤ → Run (Bool × Option Data)
  set_length none n = ok (false, none)
  set_length (some d) (negsuc _) = ok (false, some d)
  set_length (some d) (pos n) =
      if not d.is_mutable
      then ok (false, some d)
      else if d.length == n
      then ok (true, some d)
      else (load_block d.buffer >>= λ block.
          if not (al.grants n)
          then ok (false, some (record d { buffer = if n == 0 then none else some block }))
          else set_block d n (realloc n block))

  -- `EFDataIncreaseLength`
  unfoldable pub increase_length : Option Data → ℤ → Run (Bool × Option Data)
  increase_length none extra = ok (false, none)
  increase_length (some d) extra =
      let n = add_index (pos d.length) extra in
      if not d.is_mutable || (ltb_ℤ extra (pos 0) || ltb_ℤ n (pos d.length))
      then ok (false, some d)
      else set_length (some d) n

  -- `EFDataAppendBuffer`. A negative length is refused with the longer block.
  unfoldable pub append_buffer : Option Data → Option Block → ℤ → Run (Bool × Option Data)
  append_buffer none source n = ok (false, none)
  append_buffer (some d) source (negsuc _) = ok (false, some d)
  append_buffer (some d) source (pos n) =
      if not d.is_mutable
      then ok (false, some d)
      else (increase_length (some d) (pos n) >>= λ r. append_increased r (source_of source) n)
