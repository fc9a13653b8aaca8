-- ===== src/BitWalker/Swap.antt =====
-- Swapping bytes twice.
use emex_foundation.Base.{
  ℕ, ◌+◌, ◌/◌, ◌^◌, ◌<◌, false, ◌&&◌, List, [], ◌∷◌, ◌++◌, append-nil, ◌≡◌, Bool-cases, ◌⊎◌, inl,
  inr, refl, ap, ◌∙◌, arith, ltb, ◌==◌, length, load_le, store_le, IsBytes, length-store_le,
  store_le-IsBytes, load_le-store_le, store_le-load_le, load_le-lt,
}
use emex_foundation.BitWalker.{reverse_onto, bswap, bswap_n, to_endian}

reverse_onto-IsBytes : (xs ys : List ℕ) → IsBytes xs → IsBytes ys → IsBytes (reverse_onto xs ys)
reverse_onto-IsBytes [] ys h k = k
reverse_onto-IsBytes (x ∷ xs) ys h k = reverse_onto-IsBytes xs (x ∷ ys) h.1 (h.0, k)

length-reverse_onto : (xs ys : List ℕ) → length (reverse_onto xs ys) ≡ length xs + length ys
length-reverse_onto [] ys = omega arith
length-reverse_onto (x ∷ xs) ys = omega (arith, length-reverse_onto xs (x ∷ ys))

reverse_onto-reverse_onto :
    (xs ys zs : List ℕ) → reverse_onto (reverse_onto xs ys) zs ≡ reverse_onto ys (xs ++ zs)
reverse_onto-reverse_onto [] ys zs = refl
reverse_onto-reverse_onto (x ∷ xs) ys zs = reverse_onto-reverse_onto xs (x ∷ ys) zs

bswap-lt : (n v : ℕ) → bswap n v < 256 ^ n
bswap-lt n v =
    let bytes = reverse_onto-IsBytes (store_le n v) [] (store_le-IsBytes n v) tt in
    let size : length (reverse_onto (store_le n v) []) ≡ n =
      omega (arith, length-reverse_onto (store_le n v) [], length-store_le n v) in
    rw size at (load_le-lt (reverse_onto (store_le n v) []) bytes)

pub bswap-bswap : (n v : ℕ) → v < 256 ^ n → bswap n (bswap n v) ≡ v
bswap-bswap n v h =
    let bytes = reverse_onto-IsBytes (store_le n v) [] (store_le-IsBytes n v) tt in
    let size : length (reverse_onto (store_le n v) []) ≡ n =
      omega (arith, length-reverse_onto (store_le n v) [], length-store_le n v) in
    ap (λ xs. load_le (reverse_onto xs []))
      (store_le-load_le n (reverse_onto (store_le n v) []) size bytes)
    ∙ (ap load_le (reverse_onto-reverse_onto (store_le n v) [] [] ∙ append-nil (store_le n v))
        ∙ load_le-store_le n v h)

-- A width that the byte order of a file leaves whole: the order is the host's, or the width is that
-- of one byte or less, or of 2, 4 or 8 bytes.
abbrev pub IsWhole : ℕ → ℕ → Type 0
IsWhole endian bits =
    ((ltb 8 bits && (endian == 1)) ≡ false) ⊎ ((bits ≡ 16) ⊎ ((bits ≡ 32) ⊎ (bits ≡ 64)))

whole_width :
    (endian bits n v : ℕ)
    → ((u : ℕ) → bswap_n u ((bits + 7) / 8) ≡ bswap n u)
    → 256 ^ n ≡ 2 ^ bits
    → v < 2 ^ bits
    → (to_endian endian bits v < 2 ^ bits) × (to_endian endian bits (to_endian endian bits v) ≡ v)
whole_width endian bits n v swaps size h = elim (Bool-cases (ltb 8 bits && (endian == 1))) [
  | inl e ↦
      rw (e, swaps v, swaps (bswap n v)) (rw size at (bswap-lt n v), bswap-bswap n v (rw size h))
  | inr e ↦ rw e (h, refl)
]

swap_two : (u : ℕ) → bswap_n u 2 ≡ bswap 2 u
unfolding bswap_n
swap_two u = refl

swap_four : (u : ℕ) → bswap_n u 4 ≡ bswap 4 u
unfolding bswap_n
swap_four u = refl

over_one : (n : ℕ) → n / 1 ≡ n
over_one n = omega arith

swap_eight : (u : ℕ) → bswap_n u 8 ≡ bswap 8 u
unfolding bswap_n
swap_eight u = over_one (bswap 8 u)

pub to_endian-to_endian :
    (endian bits v : ℕ)
    → IsWhole endian bits
    → v < 2 ^ bits
    → (to_endian endian bits v < 2 ^ bits) × (to_endian endian bits (to_endian endian bits v) ≡ v)
to_endian-to_endian endian bits v (inl e) h = rw e (h, refl)
to_endian-to_endian endian bits v (inr (inl e)) h =
    rw e (whole_width endian 16 2 v swap_two refl (rw e at h))
to_endian-to_endian endian bits v (inr (inr (inl e))) h =
    rw e (whole_width endian 32 4 v swap_four refl (rw e at h))
to_endian-to_endian endian bits v (inr (inr (inr e))) h =
    rw e (whole_width endian 64 8 v swap_eight refl (rw e at h))
