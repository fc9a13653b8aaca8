-- ===== src/Uuid/Text.antt =====
-- The text of an identifier determines it.
use emex_foundation.Base.{
  ℕ, ◌+◌, ◌-◌, ◌*◌, ◌/◌, ◌%◌, ◌^◌, ◌<◌, List, [], ◌∷◌, if◌then◌else◌, leb, get_or, length, ◌≡◌,
  refl, arith,
}
use emex_foundation.Uuid.{UuidBytes, hex_char, int_to_hex_chars, fill_text}

-- The value of a hexadecimal digit.
abbrev pub digit_value : ℕ → ℕ
digit_value c = if leb 65 c then c - 55 else c - 48

-- The byte whose two digits stand at `i`.
abbrev pub byte_at : List ℕ → ℕ → ℕ
byte_at text i = 16 * digit_value (get_or text i 0) + digit_value (get_or text (i + 1) 0)

-- The bytes of a text 8-4-4-4-12.
abbrev pub read_text : List ℕ → UuidBytes
read_text t = record {
  byte0 = byte_at t 0;
  byte1 = byte_at t 2;
  byte2 = byte_at t 4;
  byte3 = byte_at t 6;
  byte4 = byte_at t 9;
  byte5 = byte_at t 11;
  byte6 = byte_at t 14;
  byte7 = byte_at t 16;
  byte8 = byte_at t 19;
  byte9 = byte_at t 21;
  byte10 = byte_at t 24;
  byte11 = byte_at t 26;
  byte12 = byte_at t 28;
  byte13 = byte_at t 30;
  byte14 = byte_at t 32;
  byte15 = byte_at t 34;
}

pub record AreBytes (u : UuidBytes) : Type 0 where
  pub small0 : u.byte0 < 256
  pub small1 : u.byte1 < 256
  pub small2 : u.byte2 < 256
  pub small3 : u.byte3 < 256
  pub small4 : u.byte4 < 256
  pub small5 : u.byte5 < 256
  pub small6 : u.byte6 < 256
  pub small7 : u.byte7 < 256
  pub small8 : u.byte8 < 256
  pub small9 : u.byte9 < 256
  pub small10 : u.byte10 < 256
  pub small11 : u.byte11 < 256
  pub small12 : u.byte12 < 256
  pub small13 : u.byte13 < 256
  pub small14 : u.byte14 < 256
  pub small15 : u.byte15 < 256

abbrev hex : ℕ → ℕ → ℕ
hex b digit = hex_char (b / 2 ^ (4 * digit) % 16)

digits_lem : (b : ℕ) → b < 256 → 16 * digit_value (hex b 1) + digit_value (hex b 0) ≡ b
digits_lem b h = ground arith

text_lem :
    (u : UuidBytes)
    → fill_text u
      ≡ hex u.byte0 1
        ∷ hex u.byte0 0
        ∷ hex u.byte1 1
        ∷ hex u.byte1 0
        ∷ hex u.byte2 1
        ∷ hex u.byte2 0
        ∷ hex u.byte3 1
        ∷ hex u.byte3 0
        ∷ 45
        ∷ hex u.byte4 1
        ∷ hex u.byte4 0
        ∷ hex u.byte5 1
        ∷ hex u.byte5 0
        ∷ 45
        ∷ hex u.byte6 1
        ∷ hex u.byte6 0
        ∷ hex u.byte7 1
        ∷ hex u.byte7 0
        ∷ 45
        ∷ hex u.byte8 1
        ∷ hex u.byte8 0
        ∷ hex u.byte9 1
        ∷ hex u.byte9 0
        ∷ 45
        ∷ hex u.byte10 1
        ∷ hex u.byte10 0
        ∷ hex u.byte11 1
        ∷ hex u.byte11 0
        ∷ hex u.byte12 1
        ∷ hex u.byte12 0
        ∷ hex u.byte13 1
        ∷ hex u.byte13 0
        ∷ hex u.byte14 1
        ∷ hex u.byte14 0
        ∷ hex u.byte15 1
        ∷ hex u.byte15 0
        ∷ 0
        ∷ []
unfolding fill_text int_to_hex_chars
text_lem u = refl

-- The text that EFUUIDCreateString makes of bytes has 36 characters and a terminator, dashes in the
-- form 8-4-4-4-12, and reading its digits in that form gives the bytes back.
pub read_text-fill_text :
    (u : UuidBytes)
    → AreBytes u
    → (read_text (fill_text u) ≡ u)
      × (length (fill_text u) ≡ 37)
      × (get_or (fill_text u) 8 0 ≡ 45)
      × (get_or (fill_text u) 13 0 ≡ 45)
      × (get_or (fill_text u) 18 0 ≡ 45)
      × (get_or (fill_text u) 23 0 ≡ 45)
      × (get_or (fill_text u) 36 1 ≡ 0)
read_text-fill_text u a = rw (text_lem u) (
  rw
      (
        digits_lem u.byte0 a.small0,
        digits_lem u.byte1 a.small1,
        digits_lem u.byte2 a.small2,
        digits_lem u.byte3 a.small3,
        digits_lem u.byte4 a.small4,
        digits_lem u.byte5 a.small5,
        digits_lem u.byte6 a.small6,
        digits_lem u.byte7 a.small7,
        digits_lem u.byte8 a.small8,
        digits_lem u.byte9 a.small9,
        digits_lem u.byte10 a.small10,
        digits_lem u.byte11 a.small11,
        digits_lem u.byte12 a.small12,
        digits_lem u.byte13 a.small13,
        digits_lem u.byte14 a.small14,
        digits_lem u.byte15 a.small15,
      )
      refl,
  refl,
  refl,
  refl,
  refl,
  refl,
  refl,
)
