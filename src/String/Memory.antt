-- ===== src/String/Memory.antt =====
-- Copies into blocks of bytes (src/EFString.c).
use emex_foundation.Base.{
  ℕ, zero, suc, ◌+◌, ◌≤◌, ◌<◌, some, Option, List, [], ◌∷◌, ◌++◌, ◌≡◌, refl, ap, ap₂, sym, ◌∙◌,
  true, arith, ltb, leb, lt→ltb, le→leb, length, take, drop, set, replicate, length-append,
  take-append, drop-append, ok, append_assoc,
}
use emex_foundation.Data.{Block, memcpy}
use emex_foundation.Data.Holds.{written, length-written}
use emex_foundation.String.Model.{store_byte}
use emex_foundation.String.Edit.{move_bytes}

pub take-written_append :
    (bs : List ℕ) (X : Block) → take (length bs) (written bs ++ X) ≡ written bs
take-written_append [] X = refl
take-written_append (b ∷ bs) X = ap (◌∷◌ (some b)) (take-written_append bs X)

set-written :
    (bs : List ℕ) (x y : Option ℕ) (X : Block)
    → set (written bs ++ x ∷ X) (length bs) y ≡ written bs ++ y ∷ X
set-written [] x y X = refl
set-written (b ∷ bs) x y X = ap (◌∷◌ (some b)) (set-written bs x y X)

pub length-written_append :
    (bs : List ℕ) (X : Block) → length (written bs ++ X) ≡ length bs + length X
length-written_append bs X = omega (arith, length-append (written bs) X, length-written bs)

pub store_byte-written :
    (bs : List ℕ) (x : Option ℕ) (d : ℕ) (X : Block)
    → store_byte (written bs ++ x ∷ X) (length bs) d ≡ ok (written bs ++ some d ∷ X)
store_byte-written bs x d X =
    let inside : ltb (length bs) (length (written bs ++ x ∷ X)) ≡ true =
      lt→ltb _ _ (omega (arith, length-written_append bs (x ∷ X))) in
    rw (inside, set-written bs x (some d) X) refl

-- A copy over the middle of a block.
pub memcpy_middle :
    (xs ys zs source : Block) (at n : ℕ)
    → at ≡ length xs
    → n ≡ length ys
    → n ≤ length source
    → memcpy (xs ++ (ys ++ zs)) at source n ≡ ok (xs ++ (take n source ++ zs))
memcpy_middle xs [] zs source at zero ea en h = refl
memcpy_middle xs (y ∷ ys) zs source at zero ea en h = absurd (omega arith)
memcpy_middle xs ys zs source at (suc n) ea en h =
    let whole = length-append xs (ys ++ zs) in
    let inner = length-append ys zs in
    let front : take at (xs ++ (ys ++ zs)) ≡ xs = take-append at xs (ys ++ zs) ea in
    let back : drop (at + suc n) (xs ++ (ys ++ zs)) ≡ zs =
      ap (drop (at + suc n)) (sym (append_assoc xs ys zs))
      ∙ drop-append (at + suc n) (xs ++ ys) zs (omega (arith, length-append xs ys)) in
    let room : leb (at + suc n) (length (xs ++ (ys ++ zs))) ≡ true =
      le→leb _ _ (omega (arith, whole, inner)) in
    let enough : leb (suc n) (length source) ≡ true = le→leb _ _ h in
    let copied = ap₂ (λ l r. l ++ (take (suc n) source ++ r)) front back in
    rw (room, enough) (ground (arith, copied))

pub replicate_end {ℓ} :
    {A : Type ℓ} (n m : ℕ) (a : A) → m ≡ n + 1 → replicate m a ≡ replicate n a ++ a ∷ []
replicate_end zero zero a h = absurd (omega arith)
replicate_end zero (suc zero) a h = refl
replicate_end zero (suc (suc m)) a h = absurd (omega arith)
replicate_end (suc n) zero a h = absurd (omega arith)
replicate_end (suc n) (suc m) a h = ap (◌∷◌ a) (replicate_end n m a (omega arith))

pub written_split :
    (n : ℕ) (xs : List ℕ) (X : Block)
    → written (take n xs) ++ (written (drop n xs) ++ X) ≡ written xs ++ X
written_split zero xs X = refl
written_split (suc n) [] X = refl
written_split (suc n) (x ∷ xs) X = ap (◌∷◌ (some x)) (written_split n xs X)

pub take-written_front :
    (n : ℕ) (xs : List ℕ) (X : Block)
    → n ≤ length xs
    → take n (written xs ++ X) ≡ written (take n xs)
take-written_front zero xs X h = refl
take-written_front (suc n) [] X h = absurd (omega arith)
take-written_front (suc n) (x ∷ xs) X h =
    ap (◌∷◌ (some x)) (take-written_front n xs X (omega arith))

pub move_bytes_inside :
    (block : Block) (at from n : ℕ)
    → 0 < n
    → at + n ≤ length block
    → from + n ≤ length block
    → move_bytes block at from n
      ≡ ok (take at block ++ (take n (drop from block) ++ drop (at + n) block))
move_bytes_inside block at from n h ha hf = ground arith
