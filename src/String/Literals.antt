-- ===== src/String/Literals.antt =====
-- What the number extraction of src/EFString.c makes of number literals.
use emex_foundation.Base.{
  ℕ, ◌+◌, ◌*◌, ◌^◌, ◌<◌, ◌≤◌, Bool, true, false, ◌&&◌, Option, none, some, List, [], ◌∷◌, ◌++◌, ◌≡◌,
  refl, inl, inr, arith, if◌then◌else◌, leb, ◌==◌, Bool-cases, ok,
}
use emex_foundation.Data.{Block}
use emex_foundation.Data.Holds.{written}
use emex_foundation.String.Holds.{IsText}
use emex_foundation.String.Numbers.{
  digit_value, strtoull, Extracted, jump, number, check_digits, is_hexadecimal, is_binary,
  is_decimal, extract_digits,
}

-- The notations that the extractions know, with the letters in both cases.
pub data Notation : Type 0 where
  decimal hexadecimal hexadecimal_upper binary binary_upper : Notation

abbrev pub marker : Notation → List ℕ
marker decimal = []
marker hexadecimal = b'0' ∷ b'x' ∷ []
marker hexadecimal_upper = b'0' ∷ b'X' ∷ []
marker binary = b'0' ∷ b'b' ∷ []
marker binary_upper = b'0' ∷ b'B' ∷ []

abbrev pub base : Notation → ℕ
base decimal = 10
base hexadecimal = 16
base hexadecimal_upper = 16
base binary = 2
base binary_upper = 2

abbrev pub is_digit : Notation → ℕ → Bool
is_digit decimal c = is_decimal c
is_digit hexadecimal c = is_hexadecimal c
is_digit hexadecimal_upper c = is_hexadecimal c
is_digit binary c = is_binary c
is_digit binary_upper c = is_binary c

abbrev pub all_digits : Notation → List ℕ → Bool
all_digits n [] = true
all_digits n (c ∷ cs) = is_digit n c && all_digits n cs

-- The number that the digits spell behind `v`, with no bound.
abbrev pub value_from : ℕ → ℕ → List ℕ → ℕ
value_from b v [] = v
value_from b v (c ∷ cs) = value_from b (v * b + digit_value c) cs

pub and_left : (a b : Bool) → (a && b) ≡ true → a ≡ true
and_left a b h = ground arith

pub and_right : (a b : Bool) → (a && b) ≡ true → b ≡ true
and_right a b h = ground arith

base_pos : (n : Notation) (v : ℕ) → v ≤ v * base n
base_pos decimal v = omega arith
base_pos hexadecimal v = omega arith
base_pos hexadecimal_upper v = omega arith
base_pos binary v = omega arith
base_pos binary_upper v = omega arith

le-value_from : (n : Notation) (v : ℕ) (ds : List ℕ) → v ≤ value_from (base n) v ds
le-value_from n v [] = omega arith
le-value_from n v (c ∷ ds) =
    omega (arith, base_pos n v, le-value_from n (v * base n + digit_value c) ds)

abbrev pub in_range : ℕ → Option ℕ
in_range v = if leb (2 ^ 64) v then none else some v

strtoull-written :
    (n : Notation) (v : ℕ) (ds : List ℕ) (X : Block)
    → IsText ds
    → v < 2 ^ 64
    → strtoull (base n) v (written ds ++ some 0 ∷ X) ≡ ok (in_range (value_from (base n) v ds))
unfolding strtoull
strtoull-written n v [] X t h = ground arith
strtoull-written n v (c ∷ ds) X t h =
    let w = v * base n + digit_value c in
    let more : (c == 0) ≡ false = ground arith in
    elim (Bool-cases (leb (2 ^ 64) w)) [
      | inl big ↦
          let past : leb (2 ^ 64) (value_from (base n) w ds) ≡ true =
            ground (arith, le-value_from n w ds) in
          rw (more, big, past) refl
      | inr fits ↦ rw (more, fits) (strtoull-written n w ds X t.1 (ground arith))
    ]

check_digits-written :
    (n : Notation) (ds : List ℕ) (X : Block)
    → IsText ds
    → all_digits n ds ≡ true
    → check_digits (is_digit n) (written ds ++ some 0 ∷ X) ≡ ok true
unfolding check_digits
check_digits-written n [] X t h = refl
check_digits-written n (c ∷ ds) X t h =
    let more : (c == 0) ≡ false = ground arith in
    let digit : is_digit n c ≡ true = and_left _ _ h in
    rw (more, digit) (check_digits-written n ds X t.1 (and_right _ _ h))

-- What a literal of that value comes to.
abbrev pub literal : ℕ → Extracted
literal v = if leb (2 ^ 64) v then jump else number v

pub extract_digits-written :
    (n : Notation) (ds : List ℕ) (X : Block)
    → IsText ds
    → all_digits n ds ≡ true
    → extract_digits (is_digit n) (base n) (written ds ++ some 0 ∷ X)
      ≡ ok (literal (value_from (base n) 0 ds))
extract_digits-written n ds X t h =
    rw (check_digits-written n ds X t h, strtoull-written n 0 ds X t (omega arith)) (ground arith)
