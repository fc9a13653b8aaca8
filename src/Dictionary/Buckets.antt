-- ===== src/Dictionary/Buckets.antt =====
-- The number of buckets that a new dictionary has is the least that is enough.
use emex_foundation.Base.{
  ℕ, zero, suc, ◌+◌, ◌≤◌, ◌<◌, some, ◌≡◌, arith, ltb, ltb→lt, Bool-cases, inl, inr, pos, some_inj,
}
use emex_foundation.Dictionary.{capacity_for_index, choose_buckets, buckets_index}

-- The index `r` was chosen from `i` on, with `n` more to choose from.
pub record Chosen (n i capacity r : ℕ) : Type 0 where
  pub from : i ≤ r
  pub to : r ≤ i + n
  pub too_small : (j : ℕ) → i ≤ j → j < r → capacity_for_index j < capacity
  pub enough : r < i + n → capacity ≤ capacity_for_index r

choose_buckets-Chosen : (n i capacity : ℕ) → Chosen n i capacity (choose_buckets n i capacity)
unfolding choose_buckets
choose_buckets-Chosen zero i capacity = record {
  from = omega arith;
  to = omega arith;
  too_small = λ j h k. absurd (omega arith);
  enough = λ h. absurd (omega arith);
}
choose_buckets-Chosen (suc n) i capacity = elim (Bool-cases (ltb (capacity_for_index i) capacity)) [
  | inl small ↦
      let later = choose_buckets-Chosen n (i + 1) capacity in
      rw small (record {
        from = omega (arith, later.from);
        to = omega (arith, later.to);
        too_small = λ j h k. elim (Bool-cases (ltb i j)) [
          | inl past ↦ later.too_small j (omega (arith, ltb→lt i j past)) k
          | inr here ↦
              let same : j ≡ i = ground arith in
              rw same (ltb→lt (capacity_for_index i) capacity small)
        ];
        enough = λ h. later.enough (omega arith);
      })
  | inr large ↦ rw large (record {
    from = omega arith;
    to = omega arith;
    too_small = λ j h k. absurd (omega arith);
    enough = λ h. ground arith;
  })
]

-- A new dictionary has one of the thirty numbers of buckets: no smaller one has room for the
-- capacity that is asked for, at three items in four buckets, and if the largest has room for it,
-- so has the one that is taken.
pub buckets_index-least :
    (capacity index : ℕ)
    → buckets_index (pos capacity) ≡ some index
    → (index ≤ 29)
      × ((j : ℕ) → j < index → capacity_for_index j < capacity)
      × (capacity ≤ capacity_for_index 29 → capacity ≤ capacity_for_index index)
unfolding buckets_index
buckets_index-least capacity index h =
    let chosen : Chosen 29 0 capacity index =
      rw (← some_inj h) (choose_buckets-Chosen 29 0 capacity) in
    (
      chosen.to,
      λ j k. chosen.too_small j (omega arith) k,
      λ fits. elim (Bool-cases (ltb index 29)) [
        | inl less ↦ chosen.enough (ltb→lt index 29 less)
        | inr last ↦ let same : index ≡ 29 = ground (arith, chosen.to) in rw same fits
      ],
    )
