-- ===== src/Data/Range.antt =====
-- Copying a range out of a data object, and the copy that creating one makes.
use emex_foundation.Base.{
  ℕ, zero, suc, ◌+◌, ◌%◌, ◌^◌, ◌≤◌, ◌<◌, true, false, Option, none, some, List, ◌++◌, ◌≡◌, refl, ap,
  ap₂, ◌∙◌, arith, if◌then◌else◌, leb, ltb, ◌==◌, length, take, drop, replicate, pos, negsuc, ◌+ℤ◌,
  ok, fault, ◌>>=◌, length-replicate, length-take, length-drop, append-nil, drop_past_end, le→leb,
  leb→le, Bool-cases, inl, inr,
}
use emex_foundation.Allocator.{Allocator}
use emex_foundation.Data.{
  Data, Block, memcpy, create_buffer, create, create_with_buffer, copy_range_to_buffer, set_length,
  deinit,
}
use emex_foundation.Data.Holds.{written, Holds, length-written, take-written, drop-written}
use emex_foundation.Data.Blocks.{add_index_fits}

pub memcpy-front :
    (block source : Block) (n : ℕ)
    → n ≤ length block
    → n ≤ length source
    → memcpy block 0 source n ≡ ok (take n source ++ drop n block)
memcpy-front block source zero h k = refl
memcpy-front block source (suc n) h k =
    let room : leb (0 + suc n) (length block) ≡ true = le→leb _ _ (omega arith) in
    let enough : leb (suc n) (length source) ≡ true = le→leb _ _ k in ground (arith, room, enough)

-- An object that EFDataCreateWithBuffer makes of `bs`.
abbrev pub copy_of : List ℕ → Data
copy_of bs = record {
  is_mutable = false;
  is_inlined = true;
  buffer = some (written bs);
  length = length bs;
}

create-copy_of :
    (al : Allocator) (bs : List ℕ) (n : ℕ)
    → n ≤ length bs
    → al.grants ((56 + n) % 2 ^ 64) ≡ true
    → create_with_buffer al (some (written bs)) (pos n) ≡ ok (some (copy_of (take n bs)))
unfolding create create_buffer
create-copy_of al bs n h g =
    let copied : memcpy (replicate n (some 0)) 0 (written bs) n ≡ ok (written (take n bs)) =
      memcpy-front (replicate n (some 0)) (written bs) n
        (omega (arith, length-replicate {A = Option ℕ} n (some 0)))
        (omega (arith, length-written bs))
      ∙ ap ok (
          ap₂ ◌++◌ (take-written n bs) (
            drop_past_end n (replicate n (some 0))
              (omega (arith, length-replicate {A = Option ℕ} n (some 0))))
          ∙ append-nil (written (take n bs))) in
    let counted : length (take n bs) ≡ n = omega (arith, length-take n bs) in
    rw (g, copied, counted) refl

copy_range_to_buffer-slice :
    (d : Data) (bs : List ℕ) (at n : ℕ) (target : Block)
    → d.buffer ≡ some (written bs)
    → d.length ≡ length bs
    → length bs < 2 ^ 63
    → at + n < 2 ^ 63
    → n ≤ length target
    → copy_range_to_buffer (some d) (pos at) (pos n) target ≡ (
        if leb (at + n) (length bs)
        then ok (true, written (take n (drop at bs)) ++ drop n target)
        else ok (false, target))
unfolding copy_range_to_buffer
copy_range_to_buffer-slice d bs at n target b l s h k =
    elim (Bool-cases (leb (at + n) (length bs))) [
      | inl inside ↦
          let le : at + n ≤ length bs = leb→le _ _ inside in
          let copied : memcpy target 0 (drop at (written bs)) n
              ≡ ok (written (take n (drop at bs)) ++ drop n target) =
            memcpy-front target (drop at (written bs)) n k
              (omega (arith, length-drop at (written bs), length-written bs))
            ∙ ap (λ c. ok (c ++ drop n target))
                (ap (take n) (drop-written at bs) ∙ take-written n (drop at bs)) in
          let reaches : ltb (length (written bs)) at ≡ false = ground (arith, length-written bs) in
          rw (l, inside, add_index_fits at n h, b, reaches, copied) (ground arith)
      | inr outside ↦ rw (l, outside, add_index_fits at n h) (ground arith)
    ]

-- An object made with EFDataCreateWithBuffer of the first `n` bytes of `bs`, where there is memory
-- for it, gives back through EFDataCopyRangeToBuffer each range that is not negative and whose end
-- is an EFIndex, into a buffer with room for it; a range that does not lie in those bytes is refused.
pub create-copy_range_to_buffer :
    (al : Allocator) (bs : List ℕ) (n at k : ℕ) (target : Block)
    → n ≤ length bs
    → n < 2 ^ 63
    → al.grants ((56 + n) % 2 ^ 64) ≡ true
    → at + k < 2 ^ 63
    → k ≤ length target
    → (create_with_buffer al (some (written bs)) (pos n) >>= λ d.
        copy_range_to_buffer d (pos at) (pos k) target)
      ≡ (if leb (at + k) n
          then ok (true, written (take k (drop at (take n bs))) ++ drop k target)
          else ok (false, target))
create-copy_range_to_buffer al bs n at k target h s g e room =
    let counted : length (take n bs) ≡ n = omega (arith, length-take n bs) in
    rw (create-copy_of al bs n h g) (
      copy_range_to_buffer-slice (copy_of (take n bs)) (take n bs) at k target refl refl
        (omega (arith, counted)) e room
      ∙ rw counted refl)

-- EFDataCopyRangeToBuffer of a range that starts before the buffer and ends in it reads memory
-- that is not the buffer's.
pub copy_range_to_buffer_before :
    (d : Data) (before n : ℕ) (target : Block)
    → n < 2 ^ 63
    → before < n
    → d.length < 2 ^ 63
    → n ≤ d.length + before + 1
    → copy_range_to_buffer (some d) (negsuc before) (pos n) target ≡ fault
unfolding copy_range_to_buffer ◌+ℤ◌
copy_range_to_buffer_before d before n target s h l e = ground arith

-- EFDataSetLength of a mutable object with bytes in it to no bytes, where `realloc` of no bytes
-- returns NULL, answers false and leaves a pointer to a freed block, which the deinit handler frees
-- again.
pub set_length-deinit :
    (al : Allocator) (d : Data) (bs : List ℕ)
    → Holds d bs
    → 0 < length bs
    → al.grants 0 ≡ false
    → (d' : Data) × (set_length al (some d) (pos 0) ≡ ok (false, some d'))
      × (d'.length ≡ length bs)
      × (deinit d' ≡ fault)
unfolding set_length deinit
set_length-deinit al d bs h k g =
    let some_bytes : (d.length == 0) ≡ false = ground (arith, h.counted) in
    (
      record d { buffer = none },
      ground (arith, h.is_mutable, h.block),
      h.counted,
      rw h.is_mutable refl,
    )
