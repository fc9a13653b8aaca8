-- ===== src/Data/Tests.antt =====
-- Runs of the data objects of src/EFData.c.
use emex_foundation.Base.{
  ℕ, ◌<◌, ◌^◌, ◌≢◌, true, false, none, some, [], ◌∷◌, ◌≡◌, refl, arith, pos, negsuc, ok, fault,
  ◌>>=◌, Returns,
}
use emex_foundation.Allocator.{Allocator, megabyte}
use emex_foundation.Data.{
  Data, create_with_buffer, copy_range_to_buffer, set_length, deinit, append_buffer,
}
use emex_foundation.Data.Holds.{written, Holds}
use emex_foundation.Data.Blocks.{Answer}
use emex_foundation.Data.Grow.{set_length-resized, append_buffer-append}
use emex_foundation.Data.Range.{
  create-copy_range_to_buffer, copy_range_to_buffer_before, set_length-deinit,
}

abbrev three : Data
three = record {
  is_mutable = true;
  is_inlined = false;
  buffer = some (written (1 ∷ 2 ∷ 3 ∷ []));
  length = 3;
}

abbrev three-Holds : Holds three (1 ∷ 2 ∷ 3 ∷ [])
three-Holds = record { is_mutable = refl; block = refl; counted = refl; small = omega arith }

refuses_small : (n : ℕ) → false ≡ true → n < 2 ^ 63
refuses_small n h = cc

-- `realloc` of no bytes frees.
abbrev frugal : Allocator
frugal = record { grants = λ n. false; grants_small = refuses_small }

set_length-resized_example :
    (megabyte.grants 5 ≡ true
      → Returns (Answer true (1 ∷ 2 ∷ 3 ∷ 0 ∷ 0 ∷ [])) (set_length megabyte (some three) (pos 5)))
    × (megabyte.grants 5 ≡ false
        → ◌≢◌ {A = ℕ} 5 3
        → 0 < 5
        → set_length megabyte (some three) (pos 5) ≡ ok (false, some three))
set_length-resized_example = set_length-resized megabyte three (1 ∷ 2 ∷ 3 ∷ []) 5 three-Holds

append_buffer-append_example :
    (megabyte.grants 5 ≡ true
      → Returns
          (Answer true (1 ∷ 2 ∷ 3 ∷ 8 ∷ 9 ∷ []))
          (append_buffer megabyte (some three) (some (written (8 ∷ 9 ∷ 10 ∷ []))) (pos 2)))
    × (megabyte.grants 5 ≡ false
        → 0 < 2
        → append_buffer megabyte (some three) (some (written (8 ∷ 9 ∷ 10 ∷ []))) (pos 2)
          ≡ ok (false, some three))
append_buffer-append_example =
    append_buffer-append megabyte three (1 ∷ 2 ∷ 3 ∷ []) (8 ∷ 9 ∷ 10 ∷ []) 2 three-Holds
      (omega arith) (omega arith)

create-copy_range_to_buffer_example :
    (create_with_buffer megabyte (some (written (7 ∷ 8 ∷ 9 ∷ []))) (pos 3) >>= λ d.
    copy_range_to_buffer d (pos 1) (pos 2) (none ∷ none ∷ none ∷ []))
    ≡ ok (true, some 8 ∷ some 9 ∷ none ∷ [])
create-copy_range_to_buffer_example =
    create-copy_range_to_buffer megabyte (7 ∷ 8 ∷ 9 ∷ []) 3 1 2 (none ∷ none ∷ none ∷ [])
      (omega arith) (omega arith) refl (omega arith) (omega arith)

copied_before : copy_range_to_buffer (some three) (negsuc 0) (pos 2) (none ∷ none ∷ []) ≡ fault
copied_before =
    copy_range_to_buffer_before three 0 2 (none ∷ none ∷ []) (omega arith) (omega arith)
      (omega arith) (omega arith)

set_length_zero_here :
    (d' : Data) × (set_length frugal (some three) (pos 0) ≡ ok (false, some d'))
    × (d'.length ≡ 3)
    × (deinit d' ≡ fault)
set_length_zero_here =
    set_length-deinit frugal three (1 ∷ 2 ∷ 3 ∷ []) three-Holds (omega arith) refl
