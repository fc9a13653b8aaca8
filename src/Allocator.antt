-- ===== src/Allocator.antt =====
-- The allocator callbacks (include/EmexFoundation/EFRuntime/EFAllocator.h), seen from a client.
-- `calloc` and `realloc` are not of this repository: whether a request is served is a parameter.
use emex_foundation.Base.{ℕ, Bool, true, ◌≡◌, ◌<◌, ◌^◌, leb, leb→le, arith}

-- `grants n`: a request of `n` bytes is served. `calloc` and `realloc` serve no request above
-- PTRDIFF_MAX bytes.
pub record Allocator : Type 0 where
  pub grants : ℕ → Bool
  pub grants_small : (n : ℕ) → grants n ≡ true → n < 2 ^ 63

-- An allocator that serves every request up to a megabyte.
pub megabyte_small : (n : ℕ) → leb n (2 ^ 20) ≡ true → n < 2 ^ 63
megabyte_small n h = omega (arith, leb→le n (2 ^ 20) h)

abbrev pub megabyte : Allocator
megabyte = record { grants = λ n. leb n (2 ^ 20); grants_small = megabyte_small }
