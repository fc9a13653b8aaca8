-- ===== src/Base/Bytes.antt =====
-- Integers in memory: little-endian byte lists, as a little-endian host lays them out.
use Prim.Native.Nat.{ℕ, zero, suc, ◌+◌, ◌*◌, ◌/◌, ◌%◌, ◌^◌, ◌<◌}
use native.Mathlib.Nat.{pow-suc}
use mathlib.Core.Path.{◌≡◌, refl, ap, ap₂}
use mathlib.Core.List.{List, [], ◌∷◌, ◌++◌}
use native.Mathlib.Omega.{arith}
use emex_foundation.Base.Lists.{length, take, drop, replicate}

abbrev pub IsBytes : List ℕ → Type 0
IsBytes [] = Unit {0}
IsBytes (b ∷ bs) = (b < 256) × IsBytes bs

abbrev pub load_le : List ℕ → ℕ
load_le [] = 0
load_le (b ∷ bs) = b + 256 * load_le bs

abbrev pub store_le : ℕ → ℕ → List ℕ
store_le zero v = []
store_le (suc n) v = (v % 256) ∷ store_le n (v / 256)

pub length-store_le : (n v : ℕ) → length (store_le n v) ≡ n
length-store_le zero v = refl
length-store_le (suc n) v = ap suc (length-store_le n (v / 256))

pub store_le-IsBytes : (n v : ℕ) → IsBytes (store_le n v)
store_le-IsBytes zero v = tt
store_le-IsBytes (suc n) v = (omega arith, store_le-IsBytes n (v / 256))

pub take-IsBytes : (n : ℕ) (bs : List ℕ) → IsBytes bs → IsBytes (take n bs)
take-IsBytes zero bs h = tt
take-IsBytes (suc n) [] h = tt
take-IsBytes (suc n) (b ∷ bs) h = (h.0, take-IsBytes n bs h.1)

pub drop-IsBytes : (n : ℕ) (bs : List ℕ) → IsBytes bs → IsBytes (drop n bs)
drop-IsBytes zero bs h = h
drop-IsBytes (suc n) [] h = tt
drop-IsBytes (suc n) (b ∷ bs) h = drop-IsBytes n bs h.1

pub append-IsBytes : (xs ys : List ℕ) → IsBytes xs → IsBytes ys → IsBytes (xs ++ ys)
append-IsBytes [] ys h k = k
append-IsBytes (x ∷ xs) ys h k = (h.0, append-IsBytes xs ys h.1 k)

pub zeros-IsBytes : (n : ℕ) → IsBytes (replicate n 0)
zeros-IsBytes zero = tt
zeros-IsBytes (suc n) = (omega arith, zeros-IsBytes n)

-- Loading what was stored gives the low bytes of the value.
pub load_le-store_le : (n v : ℕ) → v < 256 ^ n → load_le (store_le n v) ≡ v
load_le-store_le zero v h = omega arith
load_le-store_le (suc n) v h =
    omega (arith, pow-suc 256 n, load_le-store_le n (v / 256) (omega (arith, pow-suc 256 n)))

pub store_le-load_le :
    (n : ℕ) (bs : List ℕ) → length bs ≡ n → IsBytes bs → store_le n (load_le bs) ≡ bs
store_le-load_le zero [] e h = refl
store_le-load_le zero (b ∷ bs) e h = absurd (omega arith)
store_le-load_le (suc n) [] e h = absurd (omega arith)
store_le-load_le (suc n) (b ∷ bs) e h =
    let rest : (b + 256 * load_le bs) / 256 ≡ load_le bs = omega arith in
    ap₂ ◌∷◌ (omega arith) (rw rest (store_le-load_le n bs (omega arith) h.1))

pub load_le-lt : (bs : List ℕ) → IsBytes bs → load_le bs < 256 ^ length bs
load_le-lt [] h = omega arith
load_le-lt (b ∷ bs) h = omega (arith, pow-suc 256 (length bs), load_le-lt bs h.1)
