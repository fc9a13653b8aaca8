-- ===== src/String/Numbers.antt =====
-- Reading numbers from strings (src/EFString.c).
use emex_foundation.Base.{
  ℕ, ◌+◌, ◌-◌, ◌*◌, ◌^◌, Bool, true, false, not, ◌&&◌, ◌||◌, Option, none, some, [], ◌∷◌,
  if◌then◌else◌, leb, ltb, ◌==◌, drop, ℤ, Run, ok, fault, ◌>>=◌, store_le,
}
use emex_foundation.Allocator.{Allocator}
use emex_foundation.Number.{Number, overflow, s_int64, u_int64, create}
use emex_foundation.Data.{Block}
use emex_foundation.String.Encoding.{ascii}
use emex_foundation.String.Model.{String, strlen, get_c_string_ptr}
use emex_foundation.String.Edit.{load_byte}

-- `strtoull(p, NULL, base)` of characters that are digits of the base up to the zero, as the callers
-- have checked, so that no space, sign or prefix stands there; `none` is ERANGE.
abbrev pub digit_value : ℕ → ℕ
digit_value c = if leb c b'9' then c - b'0' else if leb b'a' c then c - b'a' + 10 else c - b'A' + 10

unfoldable pub strtoull : ℕ → ℕ → Block → Run (Option ℕ)
strtoull base v [] = fault
strtoull base v (none ∷ block) = fault
strtoull base v (some c ∷ block) =
    let next = strtoull base (v * base + digit_value c) block in
    if c == 0
    then ok (some v)
    else if leb (2 ^ 64) (v * base + digit_value c)
    then ok none
    else next

-- What an extraction comes to; `jump` is the `longjmp` on an overflow.
pub data Extracted : Type 0 where
  no_match jump : Extracted
  number : ℕ → Extracted

-- `__EFStringExtractNumberParseBase`, and what its callers make of the answer.
abbrev pub parsed : Option ℕ → Run Extracted
parsed none = ok jump
parsed (some v) = ok (number v)

abbrev pub parse_base : Block → ℕ → Run Extracted
parse_base digits base = strtoull base 0 digits >>= parsed

-- The loop of the extractions: all characters up to the zero pass the test.
unfoldable pub check_digits : (ℕ → Bool) → Block → Run Bool
check_digits is_digit [] = fault
check_digits is_digit (none ∷ block) = fault
check_digits is_digit (some c ∷ block) =
    let rest = check_digits is_digit block in
    if c == 0 then ok true else if not (is_digit c) then ok false else rest

abbrev pub is_hexadecimal : ℕ → Bool
is_hexadecimal c =
    not ((ltb c b'0' || ltb b'9' c) && ((ltb c b'a' || ltb b'f' c) && (ltb c b'A' || ltb b'F' c)))

abbrev pub is_binary : ℕ → Bool
is_binary c = not (ltb c b'0' || ltb b'1' c)

abbrev pub is_decimal : ℕ → Bool
is_decimal c = not (ltb c b'0' || ltb b'9' c)

abbrev pub extract_digits : (ℕ → Bool) → ℕ → Block → Run Extracted
extract_digits is_digit base digits =
    check_digits is_digit digits >>= λ all. if all then parse_base digits base else ok no_match

-- `line[0] == '0'` and `line[1]` one of two letters.
abbrev pub has_marker : Block → ℕ → ℕ → Run Bool
has_marker line lower upper = load_byte line 0 >>= λ c.
    if not (c == b'0')
    then ok false
    else (load_byte line 1 >>= λ d. ok ((d == lower) || (d == upper)))

abbrev pub extract_marked : Block → ℕ → ℕ → (ℕ → Bool) → ℕ → Run Extracted
extract_marked line lower upper is_digit base = has_marker line lower upper >>= λ marked.
    if not marked then ok no_match else extract_digits is_digit base (drop 2 line)

-- `__EFStringExtractNumberHexadecimal`
unfoldable pub extract_hexadecimal : Block → Run Extracted
extract_hexadecimal line = extract_marked line b'x' b'X' is_hexadecimal 16

-- `__EFStringExtractNumberBinary`
unfoldable pub extract_binary : Block → Run Extracted
extract_binary line = extract_marked line b'b' b'B' is_binary 2

-- `__EFStringExtractNumberDecimal`
unfoldable pub extract_decimal : Block → Run Extracted
extract_decimal line = extract_digits is_decimal 10 line

-- The character behind a backslash.
abbrev pub escaped : ℕ → Extracted
escaped c =
    if c == b'n'
    then number 10
    else if c == b't'
    then number 9
    else if c == b'r'
    then number 13
    else if c == b'b'
    then number 8
    else if c == b'0'
    then number 0
    else if c == b'\\'
    then number 92
    else if c == b'\''
    then number 39
    else no_match

-- The character between the quotes of a line of `len` characters.
abbrev pub quoted : Block → ℕ → Run Extracted
quoted line len = load_byte line 1 >>= λ c.
    if c == b'\\'
    then (load_byte line 2 >>= λ d. ok (escaped d))
    else if not (len == 3)
    then ok no_match
    else ok (number c)

abbrev pub closing_quote : Block → ℕ → Run Bool
closing_quote line len =
    if ltb len 3 then ok false else (load_byte line (len - 1) >>= λ c. ok (c == b'\''))

-- `line[0] == '\'' && line[2] != '\0'`: the third character is read also behind the end.
abbrev pub opening_quote : Block → Run Bool
opening_quote line = load_byte line 0 >>= λ c.
    if not (c == b'\'') then ok false else (load_byte line 2 >>= λ d. ok (not (d == 0)))

-- `__EFStringExtractNumberCharacter`
unfoldable pub extract_character : Block → Run Extracted
extract_character line = opening_quote line >>= λ opens.
    if not opens
    then ok no_match
    else (strlen line >>= λ len.
        closing_quote line len >>= λ closes. if not closes then ok no_match else quoted line len)

-- `a || b` of two extractions.
abbrev pub or_else : Extracted → Run Extracted → Run Extracted
or_else no_match next = next
or_else jump next = ok jump
or_else (number v) next = ok (number v)

-- The four extractions in the order in which `EFStringIsNumber` and `EFStringCreateNumber` try them.
unfoldable pub extract_number : Block → Run Extracted
extract_number line = extract_hexadecimal line >>= λ a. or_else a (
    extract_binary line >>= λ b.
    or_else b (extract_decimal line >>= λ c. or_else c (extract_character line)))

abbrev pub counts_as_number : Extracted → Bool
counts_as_number no_match = false
counts_as_number jump = true
counts_as_number (number _) = true

-- `EFStringIsNumber`
unfoldable pub is_number : Option String → Run Bool
is_number s = get_c_string_ptr s ascii >>= λ text. elim text [
  | none ↦ ok false
  | some line ↦ extract_number line >>= λ r. ok (counts_as_number r)
]

module _ (al : Allocator) (fresh : ℤ) where
  -- The number object of an extraction.
  abbrev pub number_object : Extracted → Run (Option Number)
  number_object no_match = ok none
  number_object jump = create al fresh overflow none
  number_object (number v) =
      if ltb v (2 ^ 63)
      then create al fresh s_int64 (some (store_le 8 v))
      else create al fresh u_int64 (some (store_le 8 v))

  -- `EFStringCreateNumber`
  unfoldable pub create_number : Option String → Run (Option Number)
  create_number none = ok none
  create_number (some s) =
      if s.length == 0
      then ok none
      else (get_c_string_ptr (some s) ascii >>= λ text. elim text [
        | none ↦ create al fresh overflow none
        | some line ↦ extract_number line >>= number_object
      ])
