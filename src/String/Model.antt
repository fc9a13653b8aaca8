-- ===== src/String/Model.antt =====
-- The data of src/EFString.c, how strings are made, and how they are read.
use emex_foundation.Base.{
  ℕ, zero, suc, ◌+◌, ◌%◌, ◌^◌, Bool, true, false, not, ◌&&◌, ◌||◌, Option, none, some, [], ◌∷◌,
  if◌then◌else◌, leb, ltb, ◌==◌, length, drop, set, replicate, ℤ, pos, negsuc, ltb_ℤ, add_index,
  Run, ok, fault, ◌>>=◌,
}
use emex_foundation.Allocator.{Allocator}
use emex_foundation.Data.{Block, Data, load_block, memcpy, create_with_buffer}
use emex_foundation.String.Encoding.{Encoding, validate_encoding}

-- `struct __EFString`. The buffer is the block from the pointer on.
pub record String : Type 0 where
  pub encoding : Encoding
  pub is_mutable : Bool
  pub is_inlined : Bool
  pub buffer : Option Block
  pub length : ℕ

-- `strnlen(p, n)`
unfoldable pub strnlen : ℕ → Block → Run ℕ
strnlen zero block = ok 0
strnlen (suc n) [] = fault
strnlen (suc n) (none ∷ block) = fault
strnlen (suc n) (some c ∷ block) =
    let rest = strnlen n block in if c == 0 then ok 0 else (rest >>= λ k. ok (suc k))

-- `strlen(p)`, within the block.
unfoldable pub strlen : Block → Run ℕ
strlen [] = fault
strlen (none ∷ block) = fault
strlen (some c ∷ block) =
    let rest = strlen block in if c == 0 then ok 0 else (rest >>= λ k. ok (suc k))

-- `block[at] = c`
abbrev pub store_byte : Block → ℕ → ℕ → Run Block
store_byte block at c = if ltb at (length block) then ok (set block at (some c)) else fault

-- `sizeof(struct __EFString)`
abbrev pub string_bytes : ℕ
string_bytes = 56

-- The block of a new string: a copy with a terminator, or the caller's block.
unfoldable pub string_buffer : Block → ℕ → Bool → Bool → Run Block
string_buffer source n inlined is_mutable =
    if is_mutable || inlined
    then (memcpy (replicate (n + 1) (some 0)) 0 source n >>= λ block. store_byte block n 0)
    else ok source

-- `p + i`, which stays in the block or points to its end.
abbrev pub advance : Block → ℕ → Run Block
advance block i = if leb i (length block) then ok (drop i block) else fault

module _ (al : Allocator) where
  -- The rest of `__EFStringCreate`, when the encoding is right.
  abbrev pub create_valid : Block → ℕ → Encoding → Bool → Bool → Run (Option String)
  create_valid source n encoding inlined is_mutable =
      if not (al.grants ((string_bytes + (if inlined then n + 1 else 0)) % 2 ^ 64))
        || (is_mutable && not (al.grants (n + 1)))
      then ok none
      else (string_buffer source n inlined is_mutable >>= λ block. ok (
          some (record {
            encoding = encoding;
            is_mutable = is_mutable;
            is_inlined = not is_mutable && inlined;
            buffer = some block;
            length = n;
          })))

  -- `__EFStringCreate`
  unfoldable pub create_string : Option Block → ℤ → Encoding → Bool → Bool → Run (Option String)
  create_string none n encoding inlined is_mutable = ok none
  create_string (some source) (negsuc _) encoding inlined is_mutable = ok none
  create_string (some source) (pos most) encoding inlined is_mutable = strnlen most source >>= λ n.
      validate_encoding encoding source n >>= λ valid.
      if not valid then ok none else create_valid source n encoding inlined is_mutable

  -- `EFStringCreateWithBuffer`
  abbrev pub create_string_with_buffer : Option Block → ℤ → Encoding → Run (Option String)
  create_string_with_buffer source n encoding = create_string source n encoding true false

  -- `EFStringCreateWithBufferNoCopy`
  abbrev pub create_string_with_buffer_no_copy : Option Block → ℤ → Encoding → Run (Option String)
  create_string_with_buffer_no_copy source n encoding = create_string source n encoding false false

  -- `__EFStringCreateWithCString`, of which `EFStringCreateWithCString` and
  -- `EFStringCreateWithCStringNoCopy` are the two cases.
  unfoldable pub create_with_c_string : Option Block → Encoding → Bool → Run (Option String)
  create_with_c_string none encoding inlined = ok none
  create_with_c_string (some text) encoding inlined =
      strlen text >>= λ n. create_string (some text) (pos n) encoding inlined false

  -- `__EFStringCreateCopy`, of which `EFStringCreateCopy` and `EFStringCreateMutableCopy` are the
  -- two cases.
  unfoldable pub create_string_copy : Option String → Bool → Run (Option String)
  create_string_copy none is_mutable = ok none
  create_string_copy (some s) is_mutable = load_block s.buffer >>= λ block.
      create_string (some block) (pos s.length) s.encoding true is_mutable

  -- The copy of a range that is in the string. A location below zero points in front of the buffer.
  abbrev pub copy_string_range : String → ℤ → ℤ → Bool → Run (Option String)
  copy_string_range s location n is_mutable = elim location [
    | negsuc _ ↦ fault
    | pos i ↦ load_block s.buffer >>= λ block.
        advance block i >>= λ source. create_string (some source) n s.encoding true is_mutable
  ]

  -- `EFStringCreateCopyWithRange`
  unfoldable pub create_copy_with_range : Option String → ℤ → ℤ → Run (Option String)
  create_copy_with_range none location n = ok none
  create_copy_with_range (some s) location n =
      if ltb_ℤ (pos s.length) location || ltb_ℤ (pos s.length) (add_index location n)
      then ok none
      else copy_string_range s location n false

  -- `EFStringCreateMutableCopyWithRange`
  unfoldable pub create_mutable_copy_with_range : Option String → ℤ → ℤ → Run (Option String)
  create_mutable_copy_with_range none location n = ok none
  create_mutable_copy_with_range (some s) location n =
      if ltb_ℤ (pos s.length) location || ltb_ℤ (pos s.length) (add_index location n)
      then ok none
      else copy_string_range s location n true

  -- `EFStringCreateWithCString`
  abbrev pub create_string_with_c_string : Option Block → Encoding → Run (Option String)
  create_string_with_c_string text encoding = create_with_c_string text encoding true

  -- `EFStringCreateWithCStringNoCopy`
  abbrev pub create_string_with_c_string_no_copy : Option Block → Encoding → Run (Option String)
  create_string_with_c_string_no_copy text encoding = create_with_c_string text encoding false

  -- `EFStringCreateCopy`
  abbrev pub create_immutable_string_copy : Option String → Run (Option String)
  create_immutable_string_copy s = create_string_copy s false

  -- `EFStringCreateMutableCopy`
  abbrev pub create_mutable_string_copy : Option String → Run (Option String)
  create_mutable_string_copy s = create_string_copy s true

  -- `EFStringCreateExternalRepresentation`
  unfoldable pub create_external_representation : Option String → Encoding → Run (Option Data)
  create_external_representation none encoding = ok none
  create_external_representation (some s) encoding = load_block s.buffer >>= λ block.
      validate_encoding encoding block s.length >>= λ valid.
      if not valid then ok none else create_with_buffer al (some block) (pos s.length)

  -- `EFStringCreateFromExternalRepresentation`
  unfoldable pub create_from_external_representation : Option Data → Encoding → Run (Option String)
  create_from_external_representation none encoding = ok none
  create_from_external_representation (some d) encoding =
      load_block d.buffer >>= λ block. create_string (some block) (pos d.length) encoding true false

-- `EFStringGetLength`
abbrev pub get_string_length : Option String → ℕ
get_string_length none = 0
get_string_length (some s) = s.length

-- `EFStringGetCStringPtr`
unfoldable pub get_c_string_ptr : Option String → Encoding → Run (Option Block)
get_c_string_ptr none encoding = ok none
get_c_string_ptr (some s) encoding = load_block s.buffer >>= λ block.
    validate_encoding encoding block s.length >>= λ valid.
    if not valid then ok none else ok (some block)

-- The copy at the end of `EFStringGetCString`.
abbrev pub copy_c_string : Block → Block → ℕ → Run (Bool × Block)
copy_c_string target source n =
    memcpy target 0 source n >>= λ block. store_byte block n 0 >>= λ block'. ok (true, block')

-- `EFStringGetCString`, into a block of the caller.
unfoldable pub get_c_string : Option String → Block → ℤ → Encoding → Run (Bool × Block)
get_c_string s target room encoding = get_c_string_ptr s encoding >>= λ text. elim text [
  | none ↦ ok (false, target)
  | some source ↦
      if ltb_ℤ room (pos 0) || ltb_ℤ room (pos (get_string_length s + 1))
      then ok (false, target)
      else copy_c_string target source (get_string_length s)
]

-- `__EFStringDeinit`: what it frees is the buffer of a mutable string.
unfoldable pub deinit_string : String → Run (Unit {0})
deinit_string s = if s.is_mutable then (load_block s.buffer >>= λ block. ok tt) else ok tt
