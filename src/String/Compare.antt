-- ===== src/String/Compare.antt =====
-- Comparing strings (src/EFString.c): prefix, suffix, equality, hash.
use emex_foundation.Base.{
  ℕ, zero, suc, ◌-◌, ◌*◌, ◌%◌, ◌^◌, bit_xor, Bool, true, false, not, ◌&&◌, ◌||◌, Option, none, some,
  [], ◌∷◌, if◌then◌else◌, ltb, ◌==◌, ℤ, pos, negsuc, ltb_ℤ, ◌-ℤ◌, wrap, signed, Run, ok, fault,
  ◌>>=◌,
}
use emex_foundation.Data.{Block, load_block}
use emex_foundation.String.Encoding.{Encoding, code, validate_encoding}
use emex_foundation.String.Model.{String, advance}

-- `strncmp(p, q, n) == 0`
unfoldable pub strncmp : ℕ → Block → Block → Run Bool
strncmp zero p q = ok true
strncmp (suc n) [] q = fault
strncmp (suc n) (none ∷ p) q = fault
strncmp (suc n) (some c ∷ p) [] = fault
strncmp (suc n) (some c ∷ p) (none ∷ q) = fault
strncmp (suc n) (some c ∷ p) (some d ∷ q) =
    let rest = strncmp n p q in if not (c == d) then ok false else if c == 0 then ok true else rest

-- The bytes of a comparison that `memcmp` makes.
unfoldable pub compare_bytes : ℕ → Block → Block → Run Bool
compare_bytes zero p q = ok true
compare_bytes (suc n) (some c ∷ p) (some d ∷ q) =
    compare_bytes n p q >>= λ rest. ok ((c == d) && rest)
compare_bytes (suc n) p q = fault

-- `memcmp(p, q, n) == 0`: all the bytes of both have to be there.
abbrev pub memcmp : Block → Block → ℕ → Run Bool
memcmp p q n = compare_bytes n p q

-- The bytes of both strings in the encoding of the other, if these differ.
abbrev pub compliant : Encoding → Block → ℕ → Encoding → Block → ℕ → Run Bool
compliant e p m f q n =
    if not (code e == code f)
    then (validate_encoding f p m >>= λ first.
        validate_encoding e q n >>= λ second. ok (first && second))
    else ok true

-- `EFStringHasPrefix`; `same` says that the references are one.
unfoldable pub has_prefix : Bool → Option String → Option String → Run Bool
has_prefix same none prefix = ok false
has_prefix same (some s) none = ok false
has_prefix same (some s) (some prefix) =
    if same
    then ok true
    else if ltb s.length prefix.length
    then ok false
    else (load_block s.buffer >>= λ text. load_block prefix.buffer >>= λ front.
        compliant prefix.encoding front prefix.length s.encoding text prefix.length >>= λ complies.
        if not complies then ok false else strncmp prefix.length front text)

-- `EFStringHasSuffix`
unfoldable pub has_suffix : Bool → Option String → Option String → Run Bool
has_suffix same none suffix = ok false
has_suffix same (some s) none = ok false
has_suffix same (some s) (some suffix) =
    if same
    then ok true
    else if ltb s.length suffix.length
    then ok false
    else (load_block s.buffer >>= λ text. load_block suffix.buffer >>= λ back.
        compliant suffix.encoding back suffix.length s.encoding text suffix.length >>= λ complies.
        if not complies
        then ok false
        else (advance text (s.length - suffix.length) >>= λ end. strncmp suffix.length back end))

-- `EFStringEqual`
unfoldable pub string_equal : Option String → Option String → Run Bool
string_equal none b = ok false
string_equal (some a) none = ok false
string_equal (some a) (some b) =
    if not (a.length == b.length)
    then ok false
    else (load_block a.buffer >>= λ p. load_block b.buffer >>= λ q.
        compliant a.encoding p a.length b.encoding q a.length >>= λ complies.
        if not complies then ok false else memcmp p q a.length)

-- The end of `EFStringEqualRange`, for a range that is not negative.
abbrev pub equal_at : String → String → ℕ → ℕ → Run Bool
equal_at s part at n = load_block s.buffer >>= λ text. advance text at >>= λ p.
    load_block part.buffer >>= λ q. compliant s.encoding p n part.encoding q n >>= λ complies.
    if not complies then ok false else memcmp p q n

-- An `EFIndex` difference, wrapping in 64 bits.
abbrev pub sub_index : ℤ → ℤ → ℤ
sub_index a b = signed (2 ^ 63) (wrap (2 ^ 64) (a -ℤ b))

-- `EFStringEqualRange`. A negative location is an address in front of the buffer; a negative length
-- is a size that no buffer has.
unfoldable pub string_equal_range : Option String → Option String → ℤ → ℤ → Run Bool
string_equal_range none part location n = ok false
string_equal_range (some s) none location n = ok false
string_equal_range (some s) (some part) location n =
    if ltb_ℤ (sub_index (pos s.length) location) n || ltb_ℤ n (pos part.length)
    then ok false
    else elim location [
      | negsuc _ ↦ fault
      | pos at ↦ elim n [ negsuc _ ↦ fault | pos k ↦ equal_at s part at k ]
    ]

-- The loop of `__EFStringHash`.
unfoldable pub hash_loop : ℕ → Block → ℕ → Run ℕ
hash_loop zero block h = ok h
hash_loop (suc n) (some c ∷ block) h = hash_loop n block (bit_xor h c * 0x100000001b3 % 2 ^ 64)
hash_loop (suc n) block h = fault

-- `__EFStringHash`
unfoldable pub string_hash : Option String → Run ℕ
string_hash none = ok 0
string_hash (some s) = load_block s.buffer >>= λ block.
    hash_loop s.length block 0xcbf29ce484222325 >>= λ h. ok (bit_xor h s.length)
