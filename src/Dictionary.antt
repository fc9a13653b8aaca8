-- ===== src/Dictionary.antt =====
-- src/EFDictionary.c: the number of buckets of a new dictionary.
pub mod Buckets
mod Tests
use emex_foundation.Base.{
  ℕ, zero, suc, ◌+◌, ◌*◌, ◌/◌, List, [], ◌∷◌, if◌then◌else◌, ltb, get_or, ℤ, pos, negsuc, Option,
  none, some,
}

-- `__EFDictionaryBucketSizes`
abbrev pub bucket_sizes : List ℕ
bucket_sizes =
    3 ∷ 7 ∷ 13 ∷ 23 ∷ 41 ∷ 71 ∷ 127 ∷ 191 ∷ 251 ∷ 383 ∷ 631 ∷ 1087 ∷ 1723 ∷ 2803 ∷ 4523 ∷ 7351
    ∷ 11959 ∷ 19447 ∷ 31391 ∷ 50839 ∷ 82261 ∷ 133099 ∷ 215353 ∷ 348457 ∷ 563791 ∷ 912249 ∷ 1476041
    ∷ 2388277 ∷ 3864551 ∷ 6252751 ∷ []

-- `__EFDictionaryCapacityForIndex`
unfoldable pub capacity_for_index : ℕ → ℕ
capacity_for_index index = get_or bucket_sizes index 0 * 3 / 4

-- The loop of `__EFDictionaryCreate`, with as many rounds left as there are sizes behind the index.
unfoldable pub choose_buckets : ℕ → ℕ → ℕ → ℕ
choose_buckets zero index capacity = index
choose_buckets (suc left) index capacity =
    if ltb (capacity_for_index index) capacity
    then choose_buckets left (index + 1) capacity
    else index

-- The index of the size that `__EFDictionaryCreate` takes; a negative capacity is refused.
unfoldable pub buckets_index : ℤ → Option ℕ
buckets_index (negsuc _) = none
buckets_index (pos capacity) = some (choose_buckets 29 0 capacity)
