-- ===== src/String/Utf7.antt =====
-- The UTF-7 loop of src/EFString.c: it ends, whatever the bytes, and reads none behind them.
use emex_foundation.Base.{
  ℕ, zero, suc, ◌+◌, ◌-◌, ◌*◌, ◌%◌, ◌^◌, ◌≤◌, bit_or, ◌≡◌, refl, ◌⊎◌, inl, inr, Bool, true, false,
  Option, none, some, List, [], ◌∷◌, ◌++◌, arith, ltb, ◌==◌, Bool-cases, Option-cases, length,
  length-drop, drop, replicate, get_or, pos, Run, ok,
}
use emex_foundation.Data.{Block}
use emex_foundation.Data.Holds.{written}
use emex_foundation.String.Encoding.{
  b64, Shifted, shift_loop, shift_padded, dash_at, after_plus, utf7_char, validate_utf7,
}

get_or-replicate {ℓ} : {A : Type ℓ} (n i : ℕ) (a : A) → get_or (replicate n a) i a ≡ a
get_or-replicate zero i a = refl
get_or-replicate (suc n) zero a = refl
get_or-replicate (suc n) (suc i) a = get_or-replicate n i a

pub drop-written-append :
    (k : ℕ) (bs : List ℕ) (X : Block)
    → k ≤ length bs
    → drop k (written bs ++ X) ≡ written (drop k bs) ++ X
drop-written-append zero bs X h = refl
drop-written-append (suc k) [] X h = absurd (omega arith)
drop-written-append (suc k) (b ∷ bs) X h = drop-written-append k bs X (omega arith)

dash_at-written :
    (bs : List ℕ) → (b : Bool) × ((X : Block) → dash_at (length bs) (written bs ++ X) ≡ ok b)
dash_at-written [] = (false, λ X. refl)
dash_at-written (c ∷ bs) = (c == b'-', λ X. refl)

-- The table sends every character to zero: a shift sequence runs to the end of the bytes.
shift_loop-written :
    (bits acc : ℕ) (bs : List ℕ)
    → ((X : Block) → shift_loop bits acc (length bs) (written bs ++ X) ≡ ok none)
      ⊎ ((b a : ℕ) × ((X : Block)
            → shift_loop bits acc (length bs) (written bs ++ X)
              ≡ ok (some (record { bits = b; acc = a; left = 0; rest = X }))))
unfolding shift_loop
shift_loop-written bits acc [] = inr (bits, acc, λ X. refl)
shift_loop-written bits acc (d ∷ bs) = elim (Bool-cases (ltb 0x7f d)) [
  | inl e ↦ inl λ X. rw e refl
  | inr e ↦
      let zeroes : get_or b64 d (pos 0) ≡ pos 0 = get_or-replicate 256 d (pos 0) in
      elim (shift_loop-written ((bits + 6) % 2 ^ 64) (bit_or (acc * 2 ^ 6 % 2 ^ 32) 0) bs) [
        | inl h ↦ inl λ X. rw (zeroes, e) (h X)
        | inr (b, a, h) ↦ inr (b, a, λ X. rw (zeroes, e) (h X))
      ]
]

-- What one round leaves, whatever stands behind the bytes.
abbrev Leaves : (Block → Run (Option ℕ)) → ℕ → Type 0
Leaves run n =
    (r : Option ℕ) × ((X : Block) → run X ≡ ok r) × ((left : ℕ) → r ≡ some left → left ≤ n)

after_plus-Leaves :
    (bs : List ℕ) → Leaves (λ X. after_plus (length bs) (written bs ++ X)) (length bs)
unfolding after_plus
after_plus-Leaves bs =
    let (dash, reads) = dash_at-written bs in
    elim (Bool-cases dash) [
      | inl e ↦ (some (length bs - 1), λ X. rw (reads X, e) refl, λ left h. ground arith)
      | inr e ↦ elim (shift_loop-written 0 0 bs) [
        | inl h ↦ (none, λ X. rw (reads X, e, h X) refl, λ left k. cc)
        | inr (b, a, h) ↦
            let s : Block → Shifted = λ X. record { bits = b; acc = a; left = 0; rest = X } in
            elim (Bool-cases (shift_padded (s []))) [
              | inl p ↦ (some 0, λ X. rw (reads X, e, h X, p) refl, λ left k. ground arith)
              | inr p ↦ (none, λ X. rw (reads X, e, h X, p) refl, λ left k. cc)
            ]
      ]
    ]

utf7_char-Leaves :
    (c : ℕ) (bs : List ℕ)
    → Leaves (λ X. utf7_char (length bs) (some c ∷ (written bs ++ X))) (length bs)
utf7_char-Leaves c bs = elim (Bool-cases (ltb 0x7f c)) [
  | inl a ↦ (none, λ X. rw a refl, λ left h. cc)
  | inr a ↦ elim (Bool-cases (c == b'+')) [
    | inr p ↦ (some (length bs), λ X. rw (a, p) refl, λ left h. ground arith)
    | inl p ↦ let (r, runs, less) = after_plus-Leaves bs in (r, λ X. rw (a, p) (runs X), less)
  ]
]

pub length-drop_to : (n : ℕ) (bs : List ℕ) → n ≤ length bs → length (drop (length bs - n) bs) ≡ n
length-drop_to n bs h = omega (arith, length-drop (length bs - n) bs)

-- With as much fuel as there are bytes the loop ends with an answer.
pub validate_utf7-ends :
    (fuel : ℕ) (bs : List ℕ)
    → length bs ≤ fuel
    → (b : Bool) × ((X : Block) → validate_utf7 fuel (length bs) (written bs ++ X) ≡ ok b)
unfolding validate_utf7
validate_utf7-ends fuel [] h = (true, λ X. refl)
validate_utf7-ends zero (c ∷ bs) h = absurd (omega arith)
validate_utf7-ends (suc fuel) (c ∷ bs) h =
    let (r, runs, less) = utf7_char-Leaves c bs in
    elim (Option-cases r) [
      | inl e ↦ (false, λ X. rw (runs X, e) refl)
      | inr (left, e) ↦
          let fits : left ≤ length (c ∷ bs) = omega (arith, less left e) in
          let behind = length (c ∷ bs) - left in
          let (b, rest) =
            validate_utf7-ends fuel (drop behind (c ∷ bs))
              (omega (arith, length-drop_to left (c ∷ bs) fits, less left e)) in
          let count = length-drop_to left (c ∷ bs) fits in
          (
            b,
            λ X.
                let moved = drop-written-append behind (c ∷ bs) X (omega arith) in
                let run = rest X in rw (runs X, e, moved) (rw count at run),
          )
    ]
