-- ===== src/Data/Blocks.antt =====
-- Blocks of bytes that src/EFData.c moves, zeroes and fills.
use emex_foundation.Base.{
  ℕ, zero, suc, ◌+◌, ◌-◌, ◌^◌, ◌≤◌, ◌<◌, Bool, true, Option, none, some, List, [], ◌∷◌, ◌++◌, ◌≡◌,
  refl, ap, ap₂, ◌∙◌, sym, arith, leb, ltb, length, take, drop, replicate, pos, add_index, ◌+ℤ◌,
  ltb_ℤ, ok, Returns, returns, length-append, length-replicate, length-take, append-nil, take_all,
  take-append, drop_past_end, le→leb, ltb→lt, Bool-cases, inl, inr,
}
use emex_foundation.Data.{Data, Block, memcpy, realloc, bzero, set_block}
use emex_foundation.Data.Holds.{
  written, Holds, length-written, written-append, take-written, replicate-written,
}

-- The bytes of an object whose length is set to `n`.
abbrev pub resized : ℕ → List ℕ → List ℕ
resized n bs = take n bs ++ replicate (n - length bs) 0

-- The answer of an operation, with an object that holds `bs`.
pub record Answer (b : Bool) (bs : List ℕ) (r : Bool × Option Data) : Type 0 where
  pub answer : r.0 ≡ b
  pub left : Data
  pub is : r.1 ≡ some left
  pub holds : Holds left bs

pub memcpy-tail :
    (xs ys source : Block) (at n : ℕ)
    → at ≡ length xs
    → n ≡ length ys
    → n ≤ length source
    → memcpy (xs ++ ys) at source n ≡ ok (xs ++ take n source)
memcpy-tail xs [] source at zero e f h = ap ok refl
memcpy-tail xs (y ∷ ys) source at zero e f h = absurd (omega arith)
memcpy-tail xs ys source at (suc n) e f h =
    let room : leb (at + suc n) (length (xs ++ ys)) ≡ true =
      le→leb _ _ (omega (arith, length-append xs ys)) in
    let enough : leb (suc n) (length source) ≡ true = le→leb _ _ h in
    let copied : take at (xs ++ ys) ++ (take (suc n) source ++ drop (at + suc n) (xs ++ ys))
        ≡ xs ++ take (suc n) source =
      ap₂ ◌++◌ (take-append at xs ys e) (
        ap (◌++◌ (take (suc n) source))
          (drop_past_end (at + suc n) (xs ++ ys) (omega (arith, length-append xs ys)))
        ∙ append-nil (take (suc n) source)) in
    rw (room, enough) (ground (arith, copied))

pub resized-written_longer :
    (n : ℕ) (bs : List ℕ)
    → length bs ≤ n
    → written bs ++ take (n - length bs) (replicate (n - length bs) (some 0))
      ≡ written (resized n bs)
resized-written_longer n bs h =
    ap (◌++◌ (written bs)) (
      take_all _ _ (omega (arith, length-replicate {A = Option ℕ} (n - length bs) (some 0)))
      ∙ replicate-written (n - length bs))
    ∙ (sym (written-append bs (replicate (n - length bs) 0))
        ∙ ap (λ xs. written (xs ++ replicate (n - length bs) 0)) (sym (take_all n bs h)))

pub realloc-written_longer :
    (n : ℕ) (bs : List ℕ)
    → length bs ≤ n
    → realloc n (written bs) ≡ written bs ++ replicate (n - length bs) none
realloc-written_longer n bs h =
    ap₂ ◌++◌ (take_all n (written bs) (omega (arith, length-written bs)))
      (ap (λ k. replicate (n - k) none) (length-written bs))

pub realloc-written_shorter :
    (n : ℕ) (bs : List ℕ) → n ≤ length bs → realloc n (written bs) ≡ written (resized n bs)
realloc-written_shorter n bs h =
    let none_left : n - length (written bs) ≡ 0 = omega (arith, length-written bs) in
    let none_new : n - length bs ≡ 0 = omega arith in
    rw (none_left, none_new, take-written n bs)
      (append-nil (written (take n bs)) ∙ ap written (sym (append-nil (take n bs))))

pub length-resized : (n : ℕ) (bs : List ℕ) → length (resized n bs) ≡ n
length-resized n bs = omega (
  arith,
  length-append (take n bs) (replicate (n - length bs) 0),
  length-take n bs,
  length-replicate {A = ℕ} (n - length bs) 0,
)

pub set_block-Answer :
    (d : Data) (bs : List ℕ) (n : ℕ)
    → Holds d bs
    → n < 2 ^ 63
    → Returns (Answer true (resized n bs)) (set_block d n (realloc n (written bs)))
set_block-Answer d bs n h k = elim (Bool-cases (ltb d.length n)) [
  | inl longer ↦
      let le : length bs ≤ n = omega (arith, h.counted, ltb→lt _ _ longer) in
      let zeroed : bzero (realloc n (written bs)) d.length (n - d.length)
          ≡ ok (written (resized n bs)) =
        ap (λ b. bzero b d.length (n - d.length)) (realloc-written_longer n bs le)
        ∙ (ap (λ k. bzero (written bs ++ replicate (n - length bs) none) k (n - k)) h.counted
            ∙ (memcpy-tail (written bs) (replicate (n - length bs) none)
                  (replicate (n - length bs) (some 0)) (length bs) (n - length bs)
                  (sym (length-written bs))
                  (sym (length-replicate {A = Option ℕ} (n - length bs) none))
                  (omega (arith, length-replicate {A = Option ℕ} (n - length bs) (some 0)))
                ∙ ap ok (resized-written_longer n bs le))) in
      rw (longer, zeroed) (returns done)
  | inr shorter ↦
      rw (shorter, realloc-written_shorter n bs (ground (arith, h.counted))) (returns done)
]
  where
    done :
        Answer true
          (resized n bs)
          (true, some (record d { buffer = some (written (resized n bs)); length = n }))
    done = record {
      answer = refl;
      left = _;
      is = refl;
      holds = record {
        is_mutable = h.is_mutable;
        block = refl;
        counted = sym (length-resized n bs);
        small = omega (arith, length-resized n bs);
      };
    }

pub resized_same : (n : ℕ) (bs : List ℕ) → n ≡ length bs → resized n bs ≡ bs
resized_same n bs e =
    let nothing : n - length bs ≡ 0 = omega arith in
    ap₂ ◌++◌ (take_all n bs (omega arith)) (ap (λ k. replicate k 0) nothing) ∙ append-nil bs

pub Holds-resp : {d : Data} {xs ys : List ℕ} → xs ≡ ys → Holds d xs → Holds d ys
Holds-resp e h = record {
  is_mutable = h.is_mutable;
  block = h.block ∙ ap (λ bs. some (written bs)) e;
  counted = h.counted ∙ ap length e;
  small = rw (sym e) h.small;
}

pub add_index_fits : (m n : ℕ) → m + n < 2 ^ 63 → add_index (pos m) (pos n) ≡ pos (m + n)
unfolding ◌+ℤ◌
add_index_fits m n h = ground arith

pub add_index_wraps :
    (m n : ℕ)
    → m < 2 ^ 63
    → n < 2 ^ 63
    → 2 ^ 63 ≤ m + n
    → ltb_ℤ (add_index (pos m) (pos n)) (pos m) ≡ true
unfolding ◌+ℤ◌
add_index_wraps m n h k l = ground arith

pub back : (n m : ℕ) → m + n - m ≡ n
back n m = omega arith
