-- ===== src/String/Trimmed.antt =====
-- `EFStringTrimWhitespace` of src/EFString.c leaves the trimmed text.
use emex_foundation.Base.{
  ℕ, suc, ◌+◌, ◌-◌, ◌<◌, ◌≤◌, true, false, Option, some, List, [], ◌∷◌, ◌++◌, ◌≡◌, refl, sym, ap,
  ltb, ap₂, ◌∙◌, ◌⊎◌, ltb→lt, inl, inr, arith, if◌then◌else◌, ◌==◌, Bool-cases, length,
  length-append, length-take, length-drop, take, drop, get_elem?, get_elem?-lt, lt_of_get_elem?,
  ◌^◌, drop-get_elem?, drop_past_end, take-append-drop, append-nil, ok, Returns, returns,
}
use emex_foundation.Data.{Block}
use emex_foundation.Data.Holds.{written}
use emex_foundation.String.Accepts.{drop-written}
use emex_foundation.String.Prefix.{length_zero}
use emex_foundation.String.Model.{String}
use emex_foundation.String.Memory.{
  store_byte-written, length-written_append, written_split, take-written_front, move_bytes_inside,
}
use emex_foundation.String.Holds.{Edited, Holds, IsText, IsText-take, IsText-drop}
use emex_foundation.String.Edit.{is_whitespace, move_bytes, trim_start, trim_from, trim_whitespace}
use emex_foundation.String.Trim.{
  trim_left, trim_right, all_spaces, trim_end-last, trim_start-written,
}

nonempty_behind :
    (xs : List ℕ) (X : Block)
    → (x : Option ℕ) × ((rest : Block) × (written xs ++ some 0 ∷ X ≡ x ∷ rest))
nonempty_behind [] X = (some 0, (X, refl))
nonempty_behind (a ∷ xs) X = (some a, (written xs ++ some 0 ∷ X, refl))

nonempty-drop :
    (n : ℕ) (block : Block)
    → n < length block
    → (x : Option ℕ) × ((rest : Block) × (drop n block ≡ x ∷ rest))
nonempty-drop n block h =
    let (x, here) = get_elem?-lt block n h in (x, (drop (suc n) block, drop-get_elem? n block here))

-- The characters are moved to the front of the block.
moved_to_front :
    (front cs : List ℕ) (n : ℕ) (X : Block)
    → 0 < n
    → n ≤ length cs
    → (x : Option ℕ) × ((rest : Block) × ((if length front == 0
            then ok (written (front ++ cs) ++ some 0 ∷ X)
            else move_bytes (written (front ++ cs) ++ some 0 ∷ X) 0 (length front) n)
          ≡ ok (written (take n cs) ++ x ∷ rest)))
moved_to_front [] cs n X hn h =
    let (x, (rest, e)) = nonempty_behind (drop n cs) X in
    (x, (rest, ap ok (sym (written_split n cs (some 0 ∷ X)) ∙ ap (◌++◌ (written (take n cs))) e)))
moved_to_front (a ∷ front) cs n X hn h =
    let block : Block = written (a ∷ (front ++ cs)) ++ some 0 ∷ X in
    let size : length block ≡ suc (length front) + length cs + suc (length X) =
      omega
        (arith, length-written_append (a ∷ (front ++ cs)) (some 0 ∷ X), length-append front cs) in
    let (x, (rest, e)) = nonempty-drop n block (omega arith) in
    let source : take n (drop (suc (length front)) block) ≡ written (take n cs) =
      ap (take n) (drop-written front cs (some 0 ∷ X)) ∙ take-written_front n cs (some 0 ∷ X) h in
    let shift : (suc (length front) == 0) ≡ false = ground arith in
    let moved = move_bytes_inside block 0 (suc (length front)) n hn (omega arith) (omega arith) in
    let plain : 0 + n ≡ n = omega arith in
    (x, (rest, rw (shift, moved, plain) (ap₂ (λ l r. ok (l ++ r)) source e)))

trimmed :
    (s : String) (ts : List ℕ) (n : ℕ) (rest : Block)
    → IsText ts
    → n ≡ length ts
    → n < 2 ^ 63 - 1
    → Edited s ts
        (true, some (record s { buffer = some (written ts ++ some 0 ∷ rest); length = n }))
trimmed s ts n rest t e small = record {
  left = _;
  answer = refl;
  encoding = refl;
  is_mutable = refl;
  holds = record { text = t; behind = rest; block = refl; counted = e; small = omega arith };
}

trim_from-nothing :
    (s : String) (front : List ℕ) (X : Block)
    → s.length ≡ length front
    → Returns (Edited s []) (trim_from s (written front ++ some 0 ∷ X) (length front))
trim_from-nothing s front X e =
    let (x, (rest, is)) = nonempty_behind front X in
    let stop : (length front == s.length) ≡ true = ground arith in
    let room : ltb 0 (suc (length rest)) ≡ true = ground arith in
    rw (stop, is, room) (returns (trimmed s [] 0 rest tt refl (omega arith)))

trim_from-text :
    (s : String) (front cs : List ℕ) (X : Block) {c : ℕ}
    → s.length ≡ length front + length cs
    → get_elem? cs 0 ≡ some c
    → is_whitespace c ≡ false
    → IsText cs
    → length cs < 2 ^ 63 - 1
    → Returns
        (Edited s (trim_right cs))
        (trim_from s (written (front ++ cs) ++ some 0 ∷ X) (length front))
trim_from-text s front cs X {c} e at ink t small =
    let some_left : 0 < length cs = lt_of_get_elem? cs 0 at in
    let more : (length front == s.length) ≡ false = ground arith in
    let last : suc (s.length - 1 - length front) ≡ length cs = omega arith in
    let behind : all_spaces (drop (suc (s.length - 1 - length front)) cs) ≡ true =
      rw (last, drop_past_end (length cs) cs (omega arith)) (unfold all_spaces in refl) in
    let (k, runs, inside, is) =
      trim_end-last (s.length - 1 - length front) front cs (some 0 ∷ X) at ink (omega arith)
        behind in
    let count : length front + k - length front + 1 ≡ suc k = omega arith in
    let (x, (rest, moved)) = moved_to_front front cs (suc k) X (omega arith) (omega arith) in
    let closed = store_byte-written (take (suc k) cs) x 0 rest in
    let size : length (take (suc k) cs) ≡ suc k = omega (arith, length-take (suc k) cs) in
    let closed' = rw size at closed in
    rw (more, runs, count, moved, is, closed')
      (returns (
        trimmed s (take (suc k) cs) (suc k) rest (IsText-take (suc k) cs t) (sym size)
          (omega arith)))

trim_from-end :
    (s : String) (front cs : List ℕ) (X : Block)
    → cs ≡ []
    → s.length ≡ length front
    → Returns
        (Edited s (trim_right cs))
        (trim_from s (written (front ++ cs) ++ some 0 ∷ X) (length front))
trim_from-end s front cs X e size =
    rw (e, append-nil front) (unfold trim_right in trim_from-nothing s front X size)

lt_or_ge : (m n : ℕ) → (m < n) ⊎ (n ≤ m)
lt_or_ge m n = elim (Bool-cases (ltb m n)) [
  | inl h ↦ inl (ltb→lt m n h)
  | inr h ↦ inr (ground arith)
]

trim_whitespace-start :
    (s : String) (block : Block) {start : ℕ}
    → s.is_mutable ≡ true
    → s.buffer ≡ some block
    → trim_start s.length 0 block ≡ ok start
    → trim_whitespace (some s) ≡ trim_from s block start
unfolding trim_whitespace
trim_whitespace-start s block m b e = rw (m, b, e) refl

-- `EFStringTrimWhitespace` of a mutable string that holds a text returns true, and the string holds the
-- text without the spaces at its two ends.
pub trim_whitespace-Edited :
    (s : String) (bs : List ℕ)
    → Holds s bs
    → s.is_mutable ≡ true
    → Returns (Edited s (trim_right (trim_left bs))) (trim_whitespace (some s))
trim_whitespace-Edited s bs h m =
    let X = h.behind in
    let block : Block = written bs ++ some 0 ∷ X in
    let (n, runs, inside, is, ink) = trim_start-written bs 0 (some 0 ∷ X) in
    let runs' = ap (λ k. trim_start k 0 block) h.counted ∙ runs in
    let front = take n bs in
    let cs = drop n bs in
    let start : 0 + n ≡ length front = omega (arith, length-take n bs) in
    let size : length cs ≡ length bs - n = length-drop n bs in
    let whole : block ≡ written (front ++ cs) ++ some 0 ∷ X =
      ap (λ l. written l ++ some 0 ∷ X) (sym (take-append-drop n bs)) in
    rw (trim_whitespace-start s block m h.block runs', start, is, whole)
      (elim (lt_or_ge n (length bs)) [
        | inl lt ↦
            let (c, at, no_space) = ink lt in
            trim_from-text s front cs X (omega (arith, h.counted)) at no_space
              (IsText-drop n bs h.text) (omega (arith, h.small))
        | inr ge ↦
            trim_from-end s front cs X (length_zero cs (omega arith)) (omega (arith, h.counted))
      ])
