-- ===== src/Base/Bits.antt =====
-- Numbers whose binary digits do not meet.
use Prim.Native.Nat.{digits, bit_or-bitwise}
use native.Mathlib.Nat.{pow-suc, mul_comm, mul_left_comm}
use Prim.Native.Nat.{ℕ, zero, suc, ◌+◌, ◌*◌, ◌/◌, ◌%◌, ◌^◌, ◌≤◌, ◌<◌, max, bit_or}
use mathlib.Core.Path.{◌≡◌, refl, ap, ◌∙◌}
use mathlib.Core.Bool.{Bool, true, ◌&&◌}
use native.Mathlib.Omega.{arith}

double : (v k : ℕ) → v * 2 ^ suc k ≡ 2 * (v * 2 ^ k)
double v k = ap (◌*◌ v) (pow-suc 2 k ∙ mul_comm (2 ^ k) 2) ∙ mul_left_comm v 2 (2 ^ k)

digits_disjoint :
    (n a v k : ℕ) → a ≤ n → a < 2 ^ k → digits (λ b. b) max n a (v * 2 ^ k) ≡ a + v * 2 ^ k
digits_disjoint zero a v k h l = omega arith
digits_disjoint (suc n) zero v k h l = omega arith
digits_disjoint (suc n) (suc a) v zero h l = absurd (omega arith)
digits_disjoint (suc n) (suc a) v (suc k) h l =
    let doubled : v * 2 ^ suc k ≡ 2 * (v * 2 ^ k) = double v k in
    let half : v * 2 ^ suc k / 2 ≡ v * 2 ^ k = omega (arith, doubled) in
    let even : v * 2 ^ suc k % 2 ≡ 0 = omega (arith, doubled) in
    let rest = digits_disjoint n (suc a / 2) v k (omega arith) (omega (arith, pow-suc 2 k)) in
    rw (half, even, rest) (omega (arith, doubled))

-- Bits below the k-th and bits from the k-th on are put together by a sum.
pub bit_or_disjoint : (a v k : ℕ) → a < 2 ^ k → bit_or a (v * 2 ^ k) ≡ a + v * 2 ^ k
bit_or_disjoint a v k h = bit_or-bitwise a (v * 2 ^ k) ∙ digits_disjoint a a v k (omega arith) h

digits_zero : (n a : ℕ) → a ≤ n → digits (λ b. b) max n a 0 ≡ a
digits_zero zero a h = omega arith
digits_zero (suc n) zero h = refl
digits_zero (suc n) (suc a) h = omega (arith, digits_zero n (suc a / 2) (omega arith))

digits_shifted :
    (n m a v k : ℕ) → m ≡ v * 2 ^ k → m ≤ n → a < 2 ^ k → digits (λ b. b) max n m a ≡ m + a
digits_shifted n m zero v k e h l = digits_zero n m h ∙ omega arith
digits_shifted zero m (suc a) v k e h l = omega arith
digits_shifted (suc n) zero (suc a) v k e h l = omega arith
digits_shifted (suc n) (suc m) (suc a) v zero e h l = absurd (omega arith)
digits_shifted (suc n) (suc m) (suc a) v (suc k) e h l =
    let doubled : v * 2 ^ suc k ≡ 2 * (v * 2 ^ k) = double v k in
    omega (
      arith,
      doubled,
      digits_shifted n (suc m / 2) (suc a / 2) v k (omega (arith, doubled)) (omega arith)
          (omega (arith, pow-suc 2 k)),
    )

-- The same with the bits from the k-th on written first.
pub bit_or_shifted : (v k a : ℕ) → a < 2 ^ k → bit_or (v * 2 ^ k) a ≡ v * 2 ^ k + a
bit_or_shifted v k a h =
    bit_or-bitwise (v * 2 ^ k) a ∙ digits_shifted _ _ a v k refl (omega arith) h

-- A test that holds of every number below a bound is checked by running it.
abbrev pub all_below : ℕ → (ℕ → Bool) → Bool
all_below zero p = true
all_below (suc n) p = p n && all_below n p

pub all_below_sound : (n : ℕ) (p : ℕ → Bool) (x : ℕ) → all_below n p ≡ true → x < n → p x ≡ true
all_below_sound zero p x h lt = absurd (omega arith)
all_below_sound (suc n) p x h lt = ground (arith, all_below_sound n p x)
