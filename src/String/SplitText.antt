-- ===== src/String/SplitText.antt =====
-- `EFStringComponentsSplitBySeparator` of src/EFString.c as a whole.
use emex_foundation.Base.{
  ℕ, zero, suc, ◌+◌, ◌*◌, ◌^◌, ◌<◌, ◌≤◌, true, false, Option, none, some, List, [], ◌∷◌, ◌++◌, ◌≡◌,
  refl, ap, ap₂, ◌∙◌, inl, inr, arith, leb, eq→==, lt→ltb, length, pos, ok, Run,
}
use emex_foundation.Allocator.{Allocator}
use emex_foundation.Array.Model.{Array, create_mutable}
use emex_foundation.Array.Create.{create_mutable-Fresh}
use emex_foundation.Data.{Block}
use emex_foundation.Data.Holds.{written}
use emex_foundation.String.Encoding.{code}
use emex_foundation.String.Model.{String}
use emex_foundation.String.Holds.{Holds}
use emex_foundation.String.Split.{
  Components, Strings, object_callbacks, Scan, separator_at, count_separators, split_loop,
  components_split, split_into, then_last, split_buffers,
}
use emex_foundation.String.Cuts.{separator_at-written}
use emex_foundation.String.Splitting.{components, hits}
use emex_foundation.String.SplitLoop.{split_loop-Ended}
use emex_foundation.String.SplitSteps.{split_loop-empty}
use emex_foundation.String.SplitEnds.{
  Split, no_array, no_items, count_separators-hits, hits-le, new_array, last-Split,
}

components_split-scan :
    (al : Allocator) (fuel : ℕ) (s separator : String) (p q : Block) {k : ℕ}
    {o : Option (Array Strings)}
    → s.buffer ≡ some p
    → separator.buffer ≡ some q
    → code s.encoding ≡ code separator.encoding
    → separator.length < s.length
    → count_separators s.length 0 p q separator.length ≡ ok k
    → create_mutable al (some object_callbacks) (pos k) ≡ o
    → components_split al fuel (some s) (some separator)
      ≡ split_into al s p q separator.length fuel [] o
unfolding components_split
components_split-scan al fuel s separator p q e1 e2 same longer counted made =
    let one = eq→== _ _ same in
    let proper : leb s.length separator.length ≡ false = ground arith in
    ap₂ (split_buffers al fuel s separator) e1 e2 ∙ rw (one, proper, counted, made) refl

-- `EFStringComponentsSplitBySeparator` of a string that holds a text of fewer than 2^60 bytes, by a
-- separator that is not empty, shorter than the text and of the same encoding: the loop ends within one
-- round for each byte and one more. The result is an array of new strings that hold, in order, the
-- pieces of the text between separators that are not empty, all of them valid; or NULL, because the
-- request for the array, for its block of a cell for each separator, for the string of a piece in
-- front of a separator or for five more cells was refused, or such a piece is not valid in the encoding.
-- Where there is no string of a last piece that ends the text, for one of these reasons, it aborts.
pub components_split-Split :
    (al : Allocator) (s separator : String) (xs : List ℕ) (y : ℕ) (ys : List ℕ) (fuel : ℕ)
    → Holds s xs
    → Holds separator (y ∷ ys)
    → code s.encoding ≡ code separator.encoding
    → length (y ∷ ys) < length xs
    → length xs < 2 ^ 60
    → length xs < fuel
    → (r : Run (Option Components)) × (components_split al fuel (some s) (some separator) ≡ some r)
      × Split al s.encoding (y ∷ ys) xs (components (y ∷ ys) xs) r
components_split-Split al s separator xs y ys fuel h hs same shorter small enough =
    let X = h.behind in
    let Y : Block = some 0 ∷ hs.behind in
    let k = hits (y ∷ ys) xs in
    let few = hits-le (y ∷ ys) xs in
    let counted' =
      ap₂ (λ a b. count_separators a 0 (written xs ++ some 0 ∷ X) (written (y ∷ ys) ++ Y) b)
        h.counted hs.counted
      ∙ count_separators-hits [] xs (y ∷ ys) X Y h.text hs.text in
    let scan =
      λ (o : Option (Array Strings)) (made : create_mutable al (some object_callbacks) (pos k) ≡ o).
        components_split-scan al fuel s separator _ _ h.block hs.block same
          (omega (arith, h.counted, hs.counted)) counted' made in
    elim (new_array al k (omega arith)) [
      | inl (made, inl denied) ↦ (ok none, scan none made, no_array denied)
      | inl (made, inr (found, denied)) ↦ (ok none, scan none made, no_items found denied)
      | inr (a, made, parts) ↦
          let start : Scan = record { i = 0; last = 0; components = (a, []) } in
          let (r, ran, ended) =
            split_loop-Ended al s xs X Y y ys h.counted h.text hs.text (omega arith) fuel [] [] xs
              start [] enough refl refl refl (parts s.encoding) in
          (
            _,
            scan (some a) made
                ∙ ap
                    (λ m.
                      split_into al s (written xs ++ some 0 ∷ X) (written (y ∷ ys) ++ Y) m fuel []
                        (some a))
                    hs.counted
                ∙ ap
                    (then_last al s (written xs ++ some 0 ∷ X) (written (y ∷ ys) ++ Y)
                      (length (y ∷ ys)))
                    ran,
            last-Split al s xs X Y y ys h.counted h.text hs.text (omega arith) _ r ended,
          )
    ]

split_loop-hangs :
    (al : Allocator) (s : String) (p q : Block) (c : Components) (fuel : ℕ)
    → 0 < s.length
    → separator_at p 0 q 0 ≡ ok true
    → split_loop al s p q 0 fuel (record { i = 0; last = 0; components = c }) ≡ none
unfolding split_loop
split_loop-hangs al s p q c zero more found = refl
split_loop-hangs al s p q c (suc fuel) more found =
    split_loop-empty al s p q 0 fuel (record { i = 0; last = 0; components = c }) (lt→ltb _ _ more)
      found (ground arith)
    ∙ split_loop-hangs al s p q c fuel more found

-- `EFStringComponentsSplitBySeparator` of a string that holds a text that is not empty, of fewer than
-- 2^60 bytes, by the empty string of the same encoding, where the memory for the array is there, never
-- ends: after every number of rounds the loop is still at the start of the text.
pub components_split-hangs :
    (al : Allocator) (s separator : String) (xs : List ℕ) (fuel : ℕ)
    → Holds s xs
    → Holds separator []
    → code s.encoding ≡ code separator.encoding
    → 0 < length xs
    → length xs < 2 ^ 60
    → ((n : ℕ) → n ≤ length xs * 8 + 72 → al.grants n ≡ true)
    → components_split al fuel (some s) (some separator) ≡ none
components_split-hangs al s separator xs fuel h hs same some_left small granted =
    let X = h.behind in
    let Y : Block = some 0 ∷ hs.behind in
    let k = hits [] xs in
    let few = hits-le [] xs in
    let counted' =
      ap₂ (λ a b. count_separators a 0 (written xs ++ some 0 ∷ X) Y b) h.counted hs.counted
      ∙ count_separators-hits [] xs [] X Y h.text tt in
    let fresh =
      create_mutable-Fresh al object_callbacks k (omega arith) (granted _ (omega arith))
        (granted _ (omega arith)) in
    let scan =
      components_split-scan al fuel s separator _ _ h.block hs.block same
        (omega (arith, h.counted, hs.counted)) counted' fresh.is in
    let found = separator_at-written [] xs [] X Y h.text tt in
    let hangs =
      split_loop-hangs al s (written xs ++ some 0 ∷ X) Y (fresh.array, []) fuel
        (omega (arith, h.counted)) found in
    scan
    ∙ ap (λ m. split_into al s (written xs ++ some 0 ∷ X) Y m fuel [] (some fresh.array)) hs.counted
    ∙ ap (then_last al s (written xs ++ some 0 ∷ X) Y 0) hangs
