-- ===== src/String/NumberObjects.antt =====
-- Number objects from number literals (src/EFString.c).
use emex_foundation.Base.{
  ℕ, ◌^◌, ◌<◌, true, false, some, List, [], ◌∷◌, ◌++◌, ◌≡◌, ◌≢◌, refl, ap, ◌∙◌, inl, inr, arith,
  if◌then◌else◌, leb, ltb, ◌==◌, Bool-cases, length, take, take_all, ℤ, pos, Run, ok, store_le,
  load_le, load_le-store_le, length-store_le,
}
use emex_foundation.Allocator.{Allocator}
use emex_foundation.Number.{Number, overflow, s_int64, u_int64, create, number_size}
use emex_foundation.Data.{Block}
use emex_foundation.Data.Holds.{written}
use emex_foundation.String.Encoding.{ascii, validate_ascii, validate_encoding}
use emex_foundation.String.Model.{String, get_c_string_ptr}
use emex_foundation.String.Holds.{Holds, IsText}
use emex_foundation.String.Numbers.{
  Extracted, no_match, jump, number, is_decimal, has_marker, extract_hexadecimal, extract_binary,
  extract_decimal, extract_number, extract_digits, or_else, number_object, create_number, is_number,
}
use emex_foundation.String.Literals.{
  Notation, decimal, hexadecimal, hexadecimal_upper, binary, binary_upper, marker, base, is_digit,
  all_digits, value_from, literal, and_left, and_right, extract_digits-written,
}

-- Decimal digits do not begin with the marker of another base.
unmarked :
    (ds : List ℕ) (X : Block) (lower upper : ℕ)
    → IsText ds
    → all_digits decimal ds ≡ true
    → b'9' < lower
    → b'9' < upper
    → has_marker (written ds ++ some 0 ∷ X) lower upper ≡ ok false
unmarked [] X lower upper t h l u = refl
unmarked (c ∷ []) X lower upper t h l u = ground arith
unmarked (c ∷ d ∷ ds) X lower upper t h l u = ground arith

matched : (e : Extracted) (next : Run Extracted) → e ≢ no_match → or_else e next ≡ ok e
matched no_match next h = absurd (h refl)
matched jump next h = refl
matched (number v) next h = refl

extract_number-decimal :
    (ds : List ℕ) (X : Block) {e : Extracted}
    → IsText ds
    → all_digits decimal ds ≡ true
    → extract_digits is_decimal 10 (written ds ++ some 0 ∷ X) ≡ ok e
    → e ≢ no_match
    → extract_number (written ds ++ some 0 ∷ X) ≡ ok e
unfolding extract_number extract_hexadecimal extract_binary extract_decimal
extract_number-decimal ds X {e} t h r match =
    let hex = unmarked ds X b'x' b'X' t h (omega arith) (omega arith) in
    let bin = unmarked ds X b'b' b'B' t h (omega arith) (omega arith) in
    rw (hex, bin, r) (matched e _ match)

literal-matches : (v : ℕ) → literal v ≢ no_match
literal-matches v = ground arith

extract_number-literal :
    (n : Notation) (ds : List ℕ) (X : Block)
    → IsText ds
    → all_digits n ds ≡ true
    → extract_number (written (marker n ++ ds) ++ some 0 ∷ X)
      ≡ ok (literal (value_from (base n) 0 ds))
unfolding extract_number extract_hexadecimal extract_binary extract_decimal
extract_number-literal decimal ds X t h =
    extract_number-decimal ds X t h (extract_digits-written decimal ds X t h) (literal-matches _)
extract_number-literal hexadecimal ds X t h =
    rw (extract_digits-written hexadecimal ds X t h) (matched _ _ (literal-matches _))
extract_number-literal hexadecimal_upper ds X t h =
    rw (extract_digits-written hexadecimal_upper ds X t h) (matched _ _ (literal-matches _))
extract_number-literal binary ds X t h =
    rw (extract_digits-written binary ds X t h) (matched _ _ (literal-matches _))
extract_number-literal binary_upper ds X t h =
    rw (extract_digits-written binary_upper ds X t h) (matched _ _ (literal-matches _))

digit_ascii : (n : Notation) (c : ℕ) → is_digit n c ≡ true → ltb 0x7f c ≡ false
digit_ascii decimal c h = ground arith
digit_ascii hexadecimal c h = ground arith
digit_ascii hexadecimal_upper c h = ground arith
digit_ascii binary c h = ground arith
digit_ascii binary_upper c h = ground arith

digits_ascii :
    (n : Notation) (ds : List ℕ) (X : Block)
    → all_digits n ds ≡ true
    → validate_ascii (length ds) (written ds ++ X) ≡ ok true
unfolding validate_ascii
digits_ascii n [] X h = refl
digits_ascii n (c ∷ ds) X h =
    let small : ltb 0x7f c ≡ false = digit_ascii n c (and_left _ _ h) in
    rw small (digits_ascii n ds X (and_right _ _ h))

literal_ascii :
    (n : Notation) (ds : List ℕ) (X : Block)
    → all_digits n ds ≡ true
    → validate_encoding ascii (written (marker n ++ ds) ++ X) (length (marker n ++ ds)) ≡ ok true
unfolding validate_encoding validate_ascii
literal_ascii decimal ds X h = digits_ascii decimal ds X h
literal_ascii hexadecimal ds X h = digits_ascii hexadecimal ds X h
literal_ascii hexadecimal_upper ds X h = digits_ascii hexadecimal_upper ds X h
literal_ascii binary ds X h = digits_ascii binary ds X h
literal_ascii binary_upper ds X h = digits_ascii binary_upper ds X h

IsText-behind : (n : Notation) (ds : List ℕ) → IsText (marker n ++ ds) → IsText ds
IsText-behind decimal ds h = h
IsText-behind hexadecimal ds h = h.1.1
IsText-behind hexadecimal_upper ds h = h.1.1
IsText-behind binary ds h = h.1.1
IsText-behind binary_upper ds h = h.1.1

-- The number object of a value: signed if it fits, then unsigned, then the overflow marker.
abbrev pub number_of : ℤ → ℕ → Number
number_of fresh v =
    if ltb v (2 ^ 63)
    then record { type = s_int64; s128 = pos v }
    else if ltb v (2 ^ 64)
    then record { type = u_int64; s128 = pos v }
    else record { type = overflow; s128 = fresh }

stored : ℕ → List ℕ
stored v = store_le 8 v

stored_bytes : (v : ℕ) → v < 2 ^ 64 → (length (stored v) ≡ 8) × (load_le (take 8 (stored v)) ≡ v)
unfolding stored
stored_bytes v h =
    let size = length-store_le 8 v in
    (
      size,
      ap load_le (take_all 8 (store_le 8 v) (omega (arith, size)))
          ∙ load_le-store_le 8 v (omega arith),
    )

create-stored :
    (al : Allocator) (fresh : ℤ) (v : ℕ)
    → al.grants number_size ≡ true
    → v < 2 ^ 64
    → (v < 2 ^ 63
        → create al fresh s_int64 (some (stored v))
          ≡ ok (some (record { type = s_int64; s128 = pos v })))
      × (create al fresh u_int64 (some (stored v))
          ≡ ok (some (record { type = u_int64; s128 = pos v })))
unfolding create
create-stored al fresh v g h =
    let (size, loads) = stored_bytes v h in
    let room : leb 8 (length (stored v)) ≡ true = ground (arith, size) in
    (
      λ small.
          let positive : ltb v (2 ^ 63) ≡ true = ground arith in rw (g, room, loads, positive) refl,
      rw (g, room, loads) refl,
    )

number_object-literal :
    (al : Allocator) (fresh : ℤ) (v : ℕ)
    → al.grants number_size ≡ true
    → number_object al fresh (literal v) ≡ ok (some (number_of fresh v))
number_object-literal al fresh v g = elim (Bool-cases (leb (2 ^ 64) v)) [
  | inl big ↦
      let not_signed : ltb v (2 ^ 63) ≡ false = ground arith in
      let not_unsigned : ltb v (2 ^ 64) ≡ false = ground arith in
      rw (big, not_signed, not_unsigned) (unfold create in rw g refl)
  | inr fits ↦
      let (signed_, unsigned_) = create-stored al fresh v g (ground arith) in
      let inside : ltb v (2 ^ 64) ≡ true = ground arith in
      elim (Bool-cases (ltb v (2 ^ 63))) [
        | inl small ↦ rw (fits, small) (unfold stored in signed_ (ground arith))
        | inr large ↦ rw (fits, large, inside) (unfold stored in unsigned_)
      ]
]

-- `EFStringCreateNumber` of a string whose text is not empty and is a number literal, in decimal, or in
-- hexadecimal behind 0x or 0X, or in binary behind 0b or 0B, with the memory for a number: it returns the
-- value of the digits, as a signed number of 64 bits if it fits, else as an unsigned one if it fits, else
-- the overflow marker.
pub create_number-literal :
    (al : Allocator) (fresh : ℤ) (n : Notation) (ds : List ℕ) (s : String)
    → Holds s (marker n ++ ds)
    → 0 < length (marker n ++ ds)
    → all_digits n ds ≡ true
    → al.grants number_size ≡ true
    → create_number al fresh (some s) ≡ ok (some (number_of fresh (value_from (base n) 0 ds)))
unfolding create_number get_c_string_ptr
create_number-literal al fresh n ds s h nonempty digits g =
    let some_left : (length (marker n ++ ds) == 0) ≡ false = ground arith in
    let valid = literal_ascii n ds (some 0 ∷ h.behind) digits in
    let found = extract_number-literal n ds h.behind (IsText-behind n ds h.text) digits in
    rw (h.counted, h.block, some_left, valid, found)
      (number_object-literal al fresh (value_from (base n) 0 ds) g)

-- `EFStringIsNumber` calls every such literal a number, also one that overflows and also the empty text.
pub is_number-literal :
    (n : Notation) (ds : List ℕ) (s : String)
    → Holds s (marker n ++ ds)
    → all_digits n ds ≡ true
    → is_number (some s) ≡ ok true
unfolding is_number get_c_string_ptr
is_number-literal n ds s h digits =
    let valid = literal_ascii n ds (some 0 ∷ h.behind) digits in
    let found = extract_number-literal n ds h.behind (IsText-behind n ds h.text) digits in
    rw (h.block, h.counted, valid, found) (ground arith)
