-- ===== src/Data/Holds.antt =====
-- What a data object stands for: the bytes in it.
use emex_foundation.Base.{
  ℕ, zero, suc, ◌^◌, ◌<◌, true, some, List, [], ◌∷◌, ◌++◌, ◌≡◌, refl, ap, length, take, drop,
  replicate,
}
use emex_foundation.Data.{Data, Block}

-- The bytes of a block that are all written.
abbrev pub written : List ℕ → Block
written [] = []
written (b ∷ bs) = some b ∷ written bs

-- A mutable object holds the bytes `bs`, in a block of its own.
pub record Holds (d : Data) (bs : List ℕ) : Type 0 where
  pub is_mutable : d.is_mutable ≡ true
  pub block : d.buffer ≡ some (written bs)
  pub counted : d.length ≡ length bs
  pub small : length bs < 2 ^ 63

pub length-written : (bs : List ℕ) → length (written bs) ≡ length bs
length-written [] = refl
length-written (b ∷ bs) = ap suc (length-written bs)

pub written-append : (xs ys : List ℕ) → written (xs ++ ys) ≡ written xs ++ written ys
written-append [] ys = refl
written-append (x ∷ xs) ys = ap (◌∷◌ (some x)) (written-append xs ys)

pub take-written : (n : ℕ) (bs : List ℕ) → take n (written bs) ≡ written (take n bs)
take-written zero bs = refl
take-written (suc n) [] = refl
take-written (suc n) (b ∷ bs) = ap (◌∷◌ (some b)) (take-written n bs)

pub drop-written : (n : ℕ) (bs : List ℕ) → drop n (written bs) ≡ written (drop n bs)
drop-written zero bs = refl
drop-written (suc n) [] = refl
drop-written (suc n) (b ∷ bs) = drop-written n bs

pub replicate-written : (n : ℕ) → replicate n (some 0) ≡ written (replicate n 0)
replicate-written zero = refl
replicate-written (suc n) = ap (◌∷◌ (some 0)) (replicate-written n)
