-- ===== src/Data/Grow.antt =====
-- Setting the length of a mutable data object, and appending to it.
use emex_foundation.Base.{
  ℕ, ◌+◌, ◌-◌, ◌^◌, ◌≤◌, ◌<◌, Bool, true, false, Option, some, List, ◌++◌, ◌≡◌, ◌≢◌, refl, ap, ap₂,
  ◌∙◌, sym, arith, ltb, ◌==◌, length, take, replicate, pos, ok, ◌>>=◌, Returns, returns,
  Returns-bind, length-append, length-replicate, length-take, take_all, ltb→lt, Bool-cases, inl,
  inr, ==→eq,
}
use emex_foundation.Allocator.{Allocator}
use emex_foundation.Data.{
  Data, Block, memcpy, realloc, set_block, set_length, increase_length, append_increased,
  append_buffer,
}
use emex_foundation.Data.Holds.{written, Holds, length-written, written-append, take-written}
use emex_foundation.Data.Blocks.{
  resized, Answer, memcpy-tail, length-resized, set_block-Answer, resized_same, Holds-resp,
  add_index_fits, add_index_wraps, back,
}

module _ (al : Allocator) where
  -- EFDataSetLength of a mutable object that holds `bs` to `n` bytes: where the memory is there,
  -- or the length is the old one, the object holds the first `n` bytes with zeros behind them;
  -- where it is not, and `n` is neither the old length nor zero, nothing changes.
  pub set_length-resized :
      (d : Data) (bs : List ℕ) (n : ℕ)
      → Holds d bs
      → (al.grants n ≡ true → Returns (Answer true (resized n bs)) (set_length al (some d) (pos n)))
        × (al.grants n ≡ false
            → n ≢ length bs
            → 0 < n
            → set_length al (some d) (pos n) ≡ ok (false, some d))
  unfolding set_length
  set_length-resized d bs n h = (
    λ g. elim (Bool-cases (d.length == n)) [
      | inl e ↦
          let kept : set_length al (some d) (pos n) ≡ ok (true, some d) =
            ground (arith, h.is_mutable) in
          rw kept (returns (same (==→eq d.length n e)))
      | inr e ↦
          let moved : set_length al (some d) (pos n) ≡ set_block d n (realloc n (written bs)) =
            ground (arith, h.is_mutable, h.block) in
          rw moved (set_block-Answer d bs n h (al.grants_small n g))
    ],
    λ g e k.
        (let different : (d.length == n) ≡ false = ground (arith, h.counted) in
          let some_bytes : (n == 0) ≡ false = ground arith in
          rw (h.is_mutable, different, h.block, g, some_bytes) refl),
  )
    where
      same : d.length ≡ n → Answer true (resized n bs) (true, some d)
      same e = record {
        answer = refl;
        left = d;
        is = refl;
        holds = Holds-resp (sym (resized_same n bs (sym e ∙ h.counted))) h;
      }

  append_increased-Answer :
      (d : Data) (bs xs : List ℕ) (n : ℕ)
      → Holds d (resized (length bs + n) bs)
      → n ≤ length xs
      → Returns (Answer true (bs ++ take n xs)) (append_increased (true, some d) (written xs) n)
  append_increased-Answer d bs xs n h k =
      let left : resized (length bs + n) bs ≡ bs ++ replicate n 0 =
        ap₂ ◌++◌ (take_all (length bs + n) bs (omega arith))
          (ap (λ k. replicate k 0) (back n (length bs))) in
      let at : d.length - n ≡ length bs =
        omega (arith, h.counted, length-resized (length bs + n) bs) in
      let tail : n ≡ length (written (replicate n 0)) =
        omega (arith, length-written (replicate n 0), length-replicate {A = ℕ} n 0) in
      let copied : memcpy (written (resized (length bs + n) bs)) (d.length - n) (written xs) n
          ≡ ok (written (bs ++ take n xs)) =
        ap₂ (λ b k. memcpy b k (written xs) n) (ap written left ∙ written-append bs (replicate n 0))
          at
        ∙ (memcpy-tail (written bs) (written (replicate n 0)) (written xs) (length bs) n
              (sym (length-written bs)) tail (omega (arith, length-written xs))
            ∙ ap ok (
                ap (◌++◌ (written bs)) (take-written n xs)
                ∙ sym (written-append bs (take n xs)))) in
      rw (h.block, copied)
        (returns (record {
          answer = refl;
          left = _;
          is = refl;
          holds = record {
            is_mutable = h.is_mutable;
            block = refl;
            counted = omega (
              arith,
              h.counted,
              length-resized (length bs + n) bs,
              length-append bs (take n xs),
              length-take n xs,
            );
            small = omega (
              arith,
              h.small,
              length-resized (length bs + n) bs,
              length-append bs (take n xs),
              length-take n xs,
            );
          };
        }))

  append_increased-Answered :
      (bs xs : List ℕ) (n : ℕ) (r : Bool × Option Data)
      → Answer true (resized (length bs + n) bs) r
      → n ≤ length xs
      → Returns (Answer true (bs ++ take n xs)) (append_increased r (written xs) n)
  append_increased-Answered bs xs n r a k =
      rw (a.answer, a.is) (append_increased-Answer a.left bs xs n a.holds k)

  increase_length-set_length :
      (d : Data) (n : ℕ)
      → d.is_mutable ≡ true
      → d.length + n < 2 ^ 63
      → increase_length al (some d) (pos n) ≡ set_length al (some d) (pos (d.length + n))
  unfolding increase_length
  increase_length-set_length d n m h = ground (arith, add_index_fits d.length n h)

  increase_length_refused :
      (d : Data) (n : ℕ)
      → n < 2 ^ 63
      → d.length < 2 ^ 63
      → 2 ^ 63 ≤ d.length + n
      → increase_length al (some d) (pos n) ≡ ok (false, some d)
  unfolding increase_length
  increase_length_refused d n l m h = ground (arith, add_index_wraps d.length n m l h)

  append_buffer-increase_length :
      (d : Data) (source : Block) (n : ℕ)
      → d.is_mutable ≡ true
      → append_buffer al (some d) (some source) (pos n)
        ≡ (increase_length al (some d) (pos n) >>= λ r. append_increased r source n)
  unfolding append_buffer
  append_buffer-increase_length d source n m = ground arith

  -- EFDataAppendBuffer of `n` bytes from `xs` to a mutable object that holds `bs`: where the memory
  -- is there the object holds `bs` and then those bytes, and where it is not, for at least one
  -- byte, nothing changes.
  pub append_buffer-append :
      (d : Data) (bs xs : List ℕ) (n : ℕ)
      → Holds d bs
      → n ≤ length xs
      → n < 2 ^ 63
      → (al.grants (length bs + n) ≡ true
          → Returns
              (Answer true (bs ++ take n xs))
              (append_buffer al (some d) (some (written xs)) (pos n)))
        × (al.grants (length bs + n) ≡ false
            → 0 < n
            → append_buffer al (some d) (some (written xs)) (pos n) ≡ ok (false, some d))
  append_buffer-append d bs xs n h k l = (
    λ g.
        rw
          (
            append_buffer-increase_length d (written xs) n h.is_mutable,
            grown (omega (arith, h.counted, al.grants_small (length bs + n) g)),
          )
          (Returns-bind ((set_length-resized d bs (length bs + n) h).0 g)
            λ r a. append_increased-Answered bs xs n r a k),
    λ g e.
        rw (append_buffer-increase_length d (written xs) n h.is_mutable)
          (elim (Bool-cases (ltb (d.length + n) (2 ^ 63))) [
            | inl fits ↦
                rw
                  (
                    grown (ltb→lt _ _ fits),
                    (set_length-resized d bs (length bs + n) h).1 g (λ q. absurd (omega arith))
                        (omega arith),
                  )
                  refl
            | inr large ↦
                rw
                  (increase_length_refused d n l (omega (arith, h.counted, h.small)) (ground arith))
                  refl
          ]),
  )
    where
      grown :
          d.length + n < 2 ^ 63
          → increase_length al (some d) (pos n) ≡ set_length al (some d) (pos (length bs + n))
      grown fits =
          increase_length-set_length d n h.is_mutable fits
          ∙ ap (λ m. set_length al (some d) (pos (m + n))) h.counted
