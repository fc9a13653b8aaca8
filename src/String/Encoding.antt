-- ===== src/String/Encoding.antt =====
-- `__EFStringValidateEncoding` of src/EFString.c: which bytes are text in an encoding.

use emex_foundation.Base.{
  ℕ, zero, suc, ◌+◌, ◌-◌, ◌*◌, ◌%◌, ◌^◌, bit_and, bit_or, Bool, true, false, not, ◌&&◌, ◌||◌,
  Option, none, some, List, [], ◌∷◌, if◌then◌else◌, leb, ltb, ◌==◌, drop, replicate, get_or, ℤ, pos,
  pos_part, ltb_ℤ, Run, ok, fault, ◌>>=◌,
}
use emex_foundation.Data.{Block}

-- `EFStringEncoding`; `other` is a value of the byte that the enumeration does not name.
pub data Encoding : Type 0 where
  utf7 ascii utf8 : Encoding
  other : ℕ → Encoding

abbrev pub code : Encoding → ℕ
code utf7 = 0
code ascii = 1
code utf8 = 2
code (other n) = 3 + n

-- Bytes are read as `unsigned char`; the pointer moves with the count of bytes that are left.
unfoldable pub validate_ascii : ℕ → Block → Run Bool
validate_ascii zero block = ok true
validate_ascii (suc n) [] = fault
validate_ascii (suc n) (none ∷ block) = fault
validate_ascii (suc n) (some c ∷ block) =
    let rest = validate_ascii n block in if ltb 0x7f c then ok false else rest

-- `b64`, which has no initialisers.
abbrev pub b64 : List ℤ
b64 = replicate 256 (pos 0)

-- Where the loop over the characters of a shift sequence stops.
pub record Shifted : Type 0 where
  pub bits : ℕ
  pub acc : ℕ
  pub left : ℕ
  pub rest : Block

-- That loop; `none` is `return false`.
unfoldable pub shift_loop : ℕ → ℕ → ℕ → Block → Run (Option Shifted)
shift_loop bits acc zero block =
    ok (some (record { bits = bits; acc = acc; left = 0; rest = block }))
shift_loop bits acc (suc n) [] = fault
shift_loop bits acc (suc n) (none ∷ block) = fault
shift_loop bits acc (suc n) (some d ∷ block) =
    let next =
      shift_loop ((bits + 6) % 2 ^ 64)
        (bit_or (acc * 2 ^ 6 % 2 ^ 32) (pos_part (get_or b64 d (pos 0)))) n block in
    if ltb 0x7f d
    then ok none
    else (if ltb_ℤ (get_or b64 d (pos 0)) (pos 0)
        then ok (some (record { bits = bits; acc = acc; left = suc n; rest = some d ∷ block }))
        else next)

abbrev pub shift_padded : Shifted → Bool
shift_padded s =
    let width = s.bits % 16 in
    width == 0 || (not (leb 6 width) && bit_and s.acc (2 ^ width - 1) == 0)

-- `buffer[i] == '-'`
abbrev pub dash_at : ℕ → Block → Run Bool
dash_at zero block = ok false
dash_at (suc n) [] = fault
dash_at (suc n) (none ∷ block) = fault
dash_at (suc n) (some c ∷ block) = ok (c == b'-')

-- How many characters after a `+` belong to it; `none` is `return false`.
abbrev pub shift_end : Option Shifted → Run (Option ℕ)
shift_end none = ok none
shift_end (some s) =
    if not (shift_padded s)
    then ok none
    else (dash_at s.left s.rest >>= λ dash. ok (some (if dash then s.left - 1 else s.left)))

-- What is left of `n` bytes behind a `+`.
unfoldable pub after_plus : ℕ → Block → Run (Option ℕ)
after_plus n block = dash_at n block >>= λ dash.
    if dash then ok (some (n - 1)) else (shift_loop 0 0 n block >>= shift_end)

-- One round of the outer loop for UTF-7: what is left of the bytes.
abbrev pub utf7_char : ℕ → Block → Run (Option ℕ)
utf7_char n (some c ∷ block) =
    if ltb 0x7f c then ok none else (if not (c == b'+') then ok (some n) else after_plus n block)
utf7_char n _ = fault

-- The outer loops for UTF-7 and UTF-8 are given the length as fuel.
unfoldable pub validate_utf7 : ℕ → ℕ → Block → Run Bool
validate_utf7 fuel zero block = ok true
validate_utf7 zero (suc n) block = fault
validate_utf7 (suc fuel) (suc n) block = utf7_char n block >>= λ r. elim r [
  | none ↦ ok false
  | some left ↦ validate_utf7 fuel left (drop (suc n - left) block)
]

-- The length of a sequence and the bits of its first byte.
unfoldable pub utf8_lead : ℕ → Option (ℕ × ℕ)
utf8_lead c =
    if ltb c 0x80
    then some (1, c)
    else if bit_and c 0xe0 == 0xc0
    then some (2, bit_and c 0x1f)
    else if bit_and c 0xf0 == 0xe0
    then some (3, bit_and c 0x0f)
    else if bit_and c 0xf8 == 0xf0
    then some (4, bit_and c 0x07)
    else none

-- The bytes behind the first one.
unfoldable pub utf8_tail : ℕ → ℕ → Block → Run (Option ℕ)
utf8_tail zero cp block = ok (some cp)
utf8_tail (suc k) cp [] = fault
utf8_tail (suc k) cp (none ∷ block) = fault
utf8_tail (suc k) cp (some c ∷ block) =
    let next = utf8_tail k (bit_or (cp * 2 ^ 6 % 2 ^ 32) (bit_and c 0x3f)) block in
    if not (bit_and c 0xc0 == 0x80) then ok none else next

abbrev pub min_cp : ℕ → ℕ
min_cp k = get_or (0 ∷ 0 ∷ 0x80 ∷ 0x800 ∷ 0x10000 ∷ []) k 0

unfoldable pub code_point_allowed : ℕ → ℕ → Bool
code_point_allowed k cp =
    not (ltb cp (min_cp k)) && (not (ltb 0x10ffff cp) && not (leb 0xd800 cp && leb cp 0xdfff))

abbrev pub utf8_checked : ℕ → Option ℕ → Run (Option ℕ)
utf8_checked k none = ok none
utf8_checked k (some cp) = ok (if code_point_allowed k cp then some k else none)

abbrev pub utf8_sequence : ℕ → Block → Option (ℕ × ℕ) → Run (Option ℕ)
utf8_sequence n block none = ok none
utf8_sequence n block (some (k, cp)) =
    if ltb n k then ok none else (utf8_tail (k - 1) cp block >>= utf8_checked k)

-- One round of the loop for UTF-8, with `n` bytes left: the length of the sequence there.
unfoldable pub utf8_char : ℕ → Block → Run (Option ℕ)
utf8_char n (some c ∷ block) = utf8_sequence n block (utf8_lead c)
utf8_char n _ = fault

unfoldable pub validate_utf8 : ℕ → ℕ → Block → Run Bool
validate_utf8 fuel zero block = ok true
validate_utf8 zero (suc n) block = fault
validate_utf8 (suc fuel) (suc n) block = utf8_char (suc n) block >>= λ r. elim r [
  | none ↦ ok false
  | some k ↦ validate_utf8 fuel (suc n - k) (drop k block)
]

-- `__EFStringValidateEncoding`
unfoldable pub validate_encoding : Encoding → Block → ℕ → Run Bool
validate_encoding ascii block n = validate_ascii n block
validate_encoding utf7 block n = validate_utf7 n n block
validate_encoding utf8 block n = validate_utf8 n n block
validate_encoding (other _) block n = ok false
