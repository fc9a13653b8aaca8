-- ===== src/String/Delete.antt =====
-- `EFStringDeleteRange` of src/EFString.c on the text that the string holds.
use emex_foundation.Base.{
  ℕ, zero, suc, ◌+◌, ◌-◌, ◌<◌, ◌≤◌, ◌^◌, Bool, true, false, Option, some, List, [], ◌∷◌, ◌++◌, ◌≡◌,
  refl, sym, ap, ap₂, ◌∙◌, inl, inr, arith, Bool-cases, ltb, length, length-append, length-take,
  length-drop, take, drop, append_assoc, pos, ltb_ℤ, ok, Returns, returns,
}
use emex_foundation.Data.{Block}
use emex_foundation.Data.Holds.{written, written-append}
use emex_foundation.Data.Blocks.{add_index_fits}
use emex_foundation.String.Model.{String}
use emex_foundation.String.Utf7.{drop-written-append}
use emex_foundation.String.Memory.{take-written_front, length-written_append, move_bytes_inside}
use emex_foundation.String.Holds.{Edited, Holds, IsText-take, IsText-drop, IsText-append}
use emex_foundation.String.Edit.{move_bytes, delete_range}

take-written_end :
    (zs : List ℕ) (n : ℕ) (X : Block)
    → n ≡ length zs + 1
    → take n (written zs ++ some 0 ∷ X) ≡ written zs ++ some 0 ∷ []
take-written_end [] zero X e = absurd (omega arith)
take-written_end [] (suc zero) X e = refl
take-written_end [] (suc (suc n)) X e = absurd (omega arith)
take-written_end (z ∷ zs) zero X e = absurd (omega arith)
take-written_end (z ∷ zs) (suc n) X e = ap (◌∷◌ (some z)) (take-written_end zs n X (omega arith))

-- What `EFStringDeleteRange` comes to.
pub data Deleted (s : String) (bs : List ℕ) (at n : ℕ) : Bool × Option String → Type 0 where
  refused : length bs < at + n → Deleted s bs at n (false, some s)
  deleted :
      {r : Bool × Option String}
      → at + n ≤ length bs
      → Edited s (take at bs ++ drop (at + n) bs) r
      → Deleted s bs at n r

delete_range-moved :
    (s : String) (block moved : Block) (at n : ℕ)
    → s.is_mutable ≡ true
    → s.buffer ≡ some block
    → at + n < 2 ^ 63
    → at + n ≤ s.length
    → move_bytes block at (at + n) (s.length - (at + n) + 1) ≡ ok moved
    → delete_range (some s) (pos at) (pos n)
      ≡ ok (true, some (record s { buffer = some moved; length = s.length - n }))
unfolding delete_range
delete_range-moved s block moved at n m b small h e =
    let inside : ltb s.length (at + n) ≡ false = ground arith in
    let allowed : ltb_ℤ (pos s.length) (pos (at + n)) ≡ false = ground arith in
    rw (m, b, add_index_fits at n small, allowed, inside, e) refl

delete_range-refused :
    (s : String) (at n : ℕ)
    → at + n < 2 ^ 63
    → s.length < at + n
    → delete_range (some s) (pos at) (pos n) ≡ ok (false, some s)
unfolding delete_range
delete_range-refused s at n small h = rw (add_index_fits at n small) (ground arith)

deleted_bytes :
    (bs : List ℕ) (at n : ℕ) (X : Block)
    → at + n ≤ length bs
    → (rest : Block) × (move_bytes (written bs ++ some 0 ∷ X) at (at + n) (length bs - (at + n) + 1)
        ≡ ok (written (take at bs ++ drop (at + n) bs) ++ some 0 ∷ rest))
deleted_bytes bs at n X h =
    let block : Block = written bs ++ some 0 ∷ X in
    let m = length bs - (at + n) + 1 in
    let size = length-written_append bs (some 0 ∷ X) in
    let moved =
      move_bytes_inside block at (at + n) m (omega arith) (omega (arith, size))
        (omega (arith, size)) in
    let front = take-written_front at bs (some 0 ∷ X) (omega arith) in
    let behind : take m (drop (at + n) block) ≡ written (drop (at + n) bs) ++ some 0 ∷ [] =
      ap (take m) (drop-written-append (at + n) bs (some 0 ∷ X) h)
      ∙ take-written_end (drop (at + n) bs) m X (omega (arith, length-drop (at + n) bs)) in
    let rest = drop (at + m) block in
    let grouped : written (take at bs) ++ ((written (drop (at + n) bs) ++ some 0 ∷ []) ++ rest)
        ≡ written (take at bs ++ drop (at + n) bs) ++ some 0 ∷ rest =
      ap (◌++◌ (written (take at bs)))
        (append_assoc (written (drop (at + n) bs)) (some 0 ∷ []) rest)
      ∙ sym (append_assoc (written (take at bs)) (written (drop (at + n) bs)) (some 0 ∷ rest))
      ∙ ap (λ l. l ++ some 0 ∷ rest) (sym (written-append (take at bs) (drop (at + n) bs))) in
    (rest, moved ∙ ap₂ (λ l r. ok (l ++ (r ++ rest))) front behind ∙ ap ok grouped)

-- `EFStringDeleteRange` of a range whose end an EFIndex counts, on a mutable string that holds a text:
-- a range that goes past the text is refused and the string left as it was; otherwise the string holds
-- the text without the range.
pub delete_range-Deleted :
    (s : String) (bs : List ℕ) (at n : ℕ)
    → Holds s bs
    → s.is_mutable ≡ true
    → at + n < 2 ^ 63
    → Returns (Deleted s bs at n) (delete_range (some s) (pos at) (pos n))
delete_range-Deleted s bs at n h m small = elim (Bool-cases (ltb (length bs) (at + n))) [
  | inl past ↦
      rw (delete_range-refused s at n small (ground (arith, h.counted)))
        (returns (refused (ground arith)))
  | inr inside ↦
      let fits : at + n ≤ length bs = ground arith in
      let (rest, moved) = deleted_bytes bs at n h.behind fits in
      let count =
        ap (λ k. move_bytes (written bs ++ some 0 ∷ h.behind) at (at + n) (k - (at + n) + 1))
          h.counted in
      rw (delete_range-moved s _ _ at n m h.block small (omega (arith, h.counted)) (count ∙ moved))
        (returns (
          deleted fits (record {
            left = _;
            answer = refl;
            encoding = refl;
            is_mutable = refl;
            holds = record {
              text =
                  IsText-append (take at bs) (drop (at + n) bs) (IsText-take at bs h.text)
                    (IsText-drop (at + n) bs h.text);
              behind = rest;
              block = refl;
              counted = omega (
                arith,
                h.counted,
                length-append (take at bs) (drop (at + n) bs),
                length-take at bs,
                length-drop (at + n) bs,
              );
              small = omega (
                arith,
                h.small,
                length-append (take at bs) (drop (at + n) bs),
                length-take at bs,
                length-drop (at + n) bs,
              );
            };
          })))
]
