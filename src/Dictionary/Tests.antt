-- ===== src/Dictionary/Tests.antt =====
-- The buckets of src/EFDictionary.c at a concrete capacity.
use emex_foundation.Base.{ℕ, ◌≤◌, ◌<◌, some, ◌≡◌, refl, pos}
use emex_foundation.Dictionary.{capacity_for_index, choose_buckets, buckets_index}
use emex_foundation.Dictionary.Buckets.{buckets_index-least}

hundred : buckets_index (pos 100) ≡ some 7
unfolding buckets_index choose_buckets capacity_for_index
hundred = refl

buckets_index-least_example :
    (7 ≤ 29)
    × ((j : ℕ) → j < 7 → capacity_for_index j < 100)
    × (100 ≤ capacity_for_index 29 → 100 ≤ capacity_for_index 7)
buckets_index-least_example = buckets_index-least 100 7 hundred
