-- ===== src/String/Utf8.antt =====
-- UTF-8 sequences: the bit patterns of the validation in src/EFString.c as ranges of numbers.
use emex_foundation.Base.{
  ℕ, suc, ◌+◌, ◌-◌, ◌*◌, ◌/◌, ◌%◌, ◌^◌, ◌≤◌, ◌<◌, bit_and, bit_or, ◌≡◌, refl, ◌⊎◌, inl, inr, Bool,
  true, false, ◌&&◌, Option, none, some, List, [], ◌∷◌, arith, if◌then◌else◌, leb, ltb, ◌==◌,
  Bool-cases, ok,
}
use emex_foundation.Base.Bits.{bit_or_shifted, all_below, all_below_sound}
use emex_foundation.Data.{Block}
use emex_foundation.String.Encoding.{utf8_lead, utf8_tail}

-- The code points that text may hold.
abbrev pub IsScalar : ℕ → Type 0
IsScalar cp = (cp ≤ 0x10ffff) × ((cp < 0xd800) ⊎ (0xdfff < cp))

-- The UTF-8 form of a code point (RFC 3629).
unfoldable pub encode : ℕ → List ℕ
encode cp =
    if ltb cp 0x80
    then cp ∷ []
    else if ltb cp 0x800
    then (0xc0 + cp / 64) ∷ (0x80 + cp % 64) ∷ []
    else if ltb cp 0x10000
    then (0xe0 + cp / 4096) ∷ (0x80 + cp / 64 % 64) ∷ (0x80 + cp % 64) ∷ []
    else (0xf0 + cp / 262144)
      ∷ (0x80 + cp / 4096 % 64)
      ∷ (0x80 + cp / 64 % 64)
      ∷ (0x80 + cp % 64)
      ∷ []

-- The first byte by its range.
abbrev pub lead : ℕ → Option (ℕ × ℕ)
lead c =
    if ltb c 128
    then some (1, c)
    else if ltb c 192
    then none
    else if ltb c 224
    then some (2, c - 192)
    else if ltb c 240
    then some (3, c - 224)
    else if ltb c 248
    then some (4, c - 240)
    else none

abbrev same : Option (ℕ × ℕ) → Option (ℕ × ℕ) → Bool
same none none = true
same (some (a, b)) (some (c, d)) = (a == c) && (b == d)
same none (some _) = false
same (some _) none = false

same→eq : (x y : Option (ℕ × ℕ)) → same x y ≡ true → x ≡ y
same→eq none none h = refl
same→eq none (some b) h = cc
same→eq (some a) none h = cc
same→eq (some a) (some b) h = ground arith

abbrev lead_test : ℕ → Bool
lead_test c = same (utf8_lead c) (lead c)

lead_table : all_below 256 lead_test ≡ true
unfolding utf8_lead
lead_table = refl

pub utf8_lead-ranges : (c : ℕ) → c < 256 → utf8_lead c ≡ lead c
utf8_lead-ranges c h = same→eq _ _ (all_below_sound 256 lead_test c lead_table h)

-- A continuation byte, and its bits.
abbrev pub continues : ℕ → Bool
continues c = leb 128 c && ltb c 192

abbrev flag : Bool → ℕ
flag b = if b then 1 else 0

abbrev mask_test : ℕ → Bool
mask_test c = (flag (bit_and c 0xc0 == 0x80) == flag (continues c)) && (bit_and c 0x3f == c % 64)

mask_table : all_below 256 mask_test ≡ true
mask_table = refl

bit_and-continues :
    (c : ℕ) → c < 256 → ((bit_and c 0xc0 == 0x80) ≡ continues c) × (bit_and c 0x3f ≡ c % 64)
bit_and-continues c h = ground (arith, all_below_sound 256 mask_test c mask_table h)

pub utf8_tail-suc :
    (k c cp : ℕ) (block : Block)
    → c < 256
    → cp < 2 ^ 20
    → utf8_tail (suc k) cp (some c ∷ block)
      ≡ (if continues c then utf8_tail k (cp * 64 + (c - 128)) block else ok none)
unfolding utf8_tail
utf8_tail-suc k c cp block hc hcp =
    let (range, low) = bit_and-continues c hc in
    let wide : cp * 2 ^ 6 % 2 ^ 32 ≡ cp * 2 ^ 6 = omega arith in
    let sum : bit_or (cp * 2 ^ 6) (c % 64) ≡ cp * 2 ^ 6 + c % 64 =
      bit_or_shifted cp 6 (c % 64) (omega arith) in
    rw (range, low, wide, sum)
      (elim (Bool-cases (continues c)) [
        | inl e ↦ let b : cp * 2 ^ 6 + c % 64 ≡ cp * 64 + (c - 128) = ground arith in rw (e, b) refl
        | inr e ↦ rw e refl
      ])
