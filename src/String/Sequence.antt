-- ===== src/String/Sequence.antt =====
-- One round of the UTF-8 loop of src/EFString.c on bytes that are there.
use emex_foundation.Base.{
  ℕ, ◌+◌, ◌-◌, ◌*◌, ◌/◌, ◌%◌, ◌≤◌, ◌<◌, ◌≡◌, refl, ◌∙◌, inl, inr, Bool, true, false, ◌&&◌, Option,
  none, some, List, [], ◌∷◌, ◌++◌, arith, if◌then◌else◌, ltb, Bool-cases, length, IsBytes, Run, ok,
}
use emex_foundation.Data.{Block}
use emex_foundation.Data.Holds.{written}
use emex_foundation.String.Encoding.{utf8_tail, utf8_char, utf8_sequence, code_point_allowed}
use emex_foundation.String.Utf8.{IsScalar, encode, lead, utf8_lead-ranges, continues, utf8_tail-suc}

abbrev when : Bool → ℕ → Run (Option ℕ)
when b k = ok (if b then some k else none)

utf8_char-lead :
    (n c : ℕ) (X : Block) {r : Option (ℕ × ℕ)}
    → c < 256
    → lead c ≡ r
    → utf8_char n (some c ∷ X) ≡ utf8_sequence n X r
unfolding utf8_char
utf8_char-lead n c X hc e = rw (utf8_lead-ranges c hc, e) refl

one_byte : (n c : ℕ) (X : Block) → c < 128 → 1 ≤ n → utf8_char n (some c ∷ X) ≡ ok (some 1)
unfolding utf8_tail code_point_allowed
one_byte n c X hc hn = ground (arith, utf8_char-lead n c X {r = some (1, c)})

two_bytes :
    (n c c1 : ℕ) (X : Block)
    → 192 ≤ c
    → c < 224
    → c1 < 256
    → 2 ≤ n
    → utf8_char n (some c ∷ some c1 ∷ X)
      ≡ when (continues c1 && code_point_allowed 2 ((c - 192) * 64 + (c1 - 128))) 2
unfolding utf8_tail
two_bytes n c c1 X lo hi h1 hn =
    let start =
      utf8_char-lead n c (some c1 ∷ X) {r = some (2, c - 192)} (omega arith) (ground arith) in
    let fits : ltb n 2 ≡ false = ground arith in
    let first = utf8_tail-suc 0 c1 (c - 192) X h1 (omega arith) in
    rw (start, fits, first) (ground arith)

three_bytes :
    (n c c1 c2 : ℕ) (X : Block)
    → 224 ≤ c
    → c < 240
    → c1 < 256
    → c2 < 256
    → 3 ≤ n
    → utf8_char n (some c ∷ some c1 ∷ some c2 ∷ X)
      ≡ when
          (continues c1
            && (continues c2
                && code_point_allowed 3 (((c - 224) * 64 + (c1 - 128)) * 64 + (c2 - 128))))
          3
unfolding utf8_tail
three_bytes n c c1 c2 X lo hi h1 h2 hn =
    let start =
      utf8_char-lead n c (some c1 ∷ some c2 ∷ X) {r = some (3, c - 224)} (omega arith)
        (ground arith) in
    let fits : ltb n 3 ≡ false = ground arith in
    let first = utf8_tail-suc 1 c1 (c - 224) (some c2 ∷ X) h1 (omega arith) in
    let second = utf8_tail-suc 0 c2 ((c - 224) * 64 + (c1 - 128)) X h2 (omega arith) in
    rw (start, fits, first, second) (ground arith)

four_bytes :
    (n c c1 c2 c3 : ℕ) (X : Block)
    → 240 ≤ c
    → c < 248
    → c1 < 256
    → c2 < 256
    → c3 < 256
    → 4 ≤ n
    → utf8_char n (some c ∷ some c1 ∷ some c2 ∷ some c3 ∷ X)
      ≡ when
          (continues c1
            && (continues c2
                && (continues c3
                    && code_point_allowed 4
                        ((((c - 240) * 64 + (c1 - 128)) * 64 + (c2 - 128)) * 64 + (c3 - 128)))))
          4
unfolding utf8_tail
four_bytes n c c1 c2 c3 X lo hi h1 h2 h3 hn =
    let start =
      utf8_char-lead n c (some c1 ∷ some c2 ∷ some c3 ∷ X) {r = some (4, c - 240)} (omega arith)
        (ground arith) in
    let fits : ltb n 4 ≡ false = ground arith in
    let v = (c - 240) * 64 + (c1 - 128) in
    let first = utf8_tail-suc 2 c1 (c - 240) (some c2 ∷ some c3 ∷ X) h1 (omega arith) in
    let second = utf8_tail-suc 1 c2 v (some c3 ∷ X) h2 (omega arith) in
    let third = utf8_tail-suc 0 c3 (v * 64 + (c2 - 128)) X h3 (omega arith) in
    rw (start, fits, first, second, third) (ground arith)

-- What a sequence of that length at the front of the bytes is.
abbrev pub Decoded : List ℕ → Option ℕ → Type 0
Decoded bs none = Unit {0}
Decoded bs (some k) =
    (cp : ℕ) × IsScalar cp × (k ≡ length (encode cp)) × ((rest : List ℕ) × (bs ≡ encode cp ++ rest))

-- A round on the bytes `bs`, whatever stands behind them.
pub record Round (bs : List ℕ) : Type 0 where
  pub result : Option ℕ
  pub runs : (X : Block) → utf8_char (length bs) (written bs ++ X) ≡ ok result
  pub decoded : Decoded bs result

module _ {bs : List ℕ} where
  -- The round refuses the bytes.
  refused : ((X : Block) → utf8_char (length bs) (written bs ++ X) ≡ ok none) → Round bs
  refused runs = record { result = none; runs = runs; decoded = tt }

  -- A test decides the round.
  tested :
      (b : Bool) (k : ℕ)
      → ((X : Block) → utf8_char (length bs) (written bs ++ X) ≡ when b k)
      → (b ≡ true → Decoded bs (some k))
      → Round bs
  tested true k runs decoded = record { result = some k; runs = runs; decoded = decoded refl }
  tested false k runs decoded = refused runs

abbrev cp_two : ℕ → ℕ → ℕ
cp_two c c1 = (c - 192) * 64 + (c1 - 128)

abbrev cp_three : ℕ → ℕ → ℕ → ℕ
cp_three c c1 c2 = ((c - 224) * 64 + (c1 - 128)) * 64 + (c2 - 128)

abbrev cp_four : ℕ → ℕ → ℕ → ℕ → ℕ
cp_four c c1 c2 c3 = (((c - 240) * 64 + (c1 - 128)) * 64 + (c2 - 128)) * 64 + (c3 - 128)

Round-two : (c : ℕ) (bs : List ℕ) → 192 ≤ c → c < 224 → IsBytes (c ∷ bs) → Round (c ∷ bs)
unfolding encode code_point_allowed
Round-two c [] lo hi h =
    refused λ X. utf8_char-lead 1 c X {r = some (2, c - 192)} h.0 (ground arith)
Round-two c (c1 ∷ bs) lo hi h =
    tested _ 2 (λ X. two_bytes _ c c1 (written bs ++ X) lo hi h.1.0 (omega arith))
      λ e. (cp_two c c1, ground arith, ground arith, (bs, ground arith))

Round-three : (c : ℕ) (bs : List ℕ) → 224 ≤ c → c < 240 → IsBytes (c ∷ bs) → Round (c ∷ bs)
unfolding encode code_point_allowed
Round-three c [] lo hi h =
    refused λ X. utf8_char-lead 1 c X {r = some (3, c - 224)} h.0 (ground arith)
Round-three c (c1 ∷ []) lo hi h =
    refused λ X. utf8_char-lead 2 c (some c1 ∷ X) {r = some (3, c - 224)} h.0 (ground arith)
Round-three c (c1 ∷ c2 ∷ bs) lo hi h =
    tested _ 3 (λ X. three_bytes _ c c1 c2 (written bs ++ X) lo hi h.1.0 h.1.1.0 (omega arith))
      λ e. (cp_three c c1 c2, ground arith, ground arith, (bs, ground arith))

Round-four : (c : ℕ) (bs : List ℕ) → 240 ≤ c → c < 248 → IsBytes (c ∷ bs) → Round (c ∷ bs)
unfolding encode code_point_allowed
Round-four c [] lo hi h =
    refused λ X. utf8_char-lead 1 c X {r = some (4, c - 240)} h.0 (ground arith)
Round-four c (c1 ∷ []) lo hi h =
    refused λ X. utf8_char-lead 2 c (some c1 ∷ X) {r = some (4, c - 240)} h.0 (ground arith)
Round-four c (c1 ∷ c2 ∷ []) lo hi h =
    refused
      λ X. utf8_char-lead 3 c (some c1 ∷ some c2 ∷ X) {r = some (4, c - 240)} h.0 (ground arith)
Round-four c (c1 ∷ c2 ∷ c3 ∷ bs) lo hi h =
    tested _ 4
      (λ X. four_bytes _ c c1 c2 c3 (written bs ++ X) lo hi h.1.0 h.1.1.0 h.1.1.1.0 (omega arith))
      λ e. (cp_four c c1 c2 c3, ground arith, ground arith, (bs, ground arith))

-- Every round on bytes that are there decides whether a code point stands in front.
pub round : (c : ℕ) (bs : List ℕ) → IsBytes (c ∷ bs) → Round (c ∷ bs)
unfolding encode
round c bs h = elim (Bool-cases (ltb c 128)) [
  | inl a ↦ record {
    result = some 1;
    runs = λ X. one_byte _ c (written bs ++ X) (ground arith) (omega arith);
    decoded = (c, ground arith, ground arith, (bs, ground arith));
  }
  | inr a ↦ elim (Bool-cases (ltb c 192)) [
    | inl b ↦ refused λ X. utf8_char-lead _ c (written bs ++ X) {r = none} h.0 (ground arith)
    | inr b ↦ elim (Bool-cases (ltb c 224)) [
      | inl d ↦ Round-two c bs (ground arith) (ground arith) h
      | inr d ↦ elim (Bool-cases (ltb c 240)) [
        | inl e ↦ Round-three c bs (ground arith) (ground arith) h
        | inr e ↦ elim (Bool-cases (ltb c 248)) [
          | inl f ↦ Round-four c bs (ground arith) (ground arith) h
          | inr f ↦ refused λ X. utf8_char-lead _ c (written bs ++ X) {r = none} h.0 (ground arith)
        ]
      ]
    ]
  ]
]

-- The round accepts the form of every code point.
pub utf8_char-encode :
    (cp n : ℕ) (X : Block)
    → IsScalar cp
    → length (encode cp) ≤ n
    → utf8_char n (written (encode cp) ++ X) ≡ ok (some (length (encode cp)))
unfolding encode code_point_allowed
utf8_char-encode cp n X h hn = elim (Bool-cases (ltb cp 0x80)) [
  | inl a ↦ rw a (one_byte n cp X (ground arith) (ground arith))
  | inr a ↦ elim (Bool-cases (ltb cp 0x800)) [
    | inl b ↦
        rw (a, b)
          (two_bytes n (0xc0 + cp / 64) (0x80 + cp % 64) X (omega arith) (ground arith)
              (omega arith) (ground arith)
            ∙ ground arith)
    | inr b ↦ elim (Bool-cases (ltb cp 0x10000)) [
      | inl d ↦
          rw (a, b, d)
            (three_bytes n (0xe0 + cp / 4096) (0x80 + cp / 64 % 64) (0x80 + cp % 64) X (omega arith)
                (ground arith) (omega arith) (omega arith) (ground arith)
              ∙ ground arith)
      | inr d ↦
          rw (a, b, d)
            (four_bytes n (0xf0 + cp / 262144) (0x80 + cp / 4096 % 64) (0x80 + cp / 64 % 64)
                (0x80 + cp % 64) X (omega arith) (ground arith) (omega arith) (omega arith)
                (omega arith) (ground arith)
              ∙ ground arith)
    ]
  ]
]
