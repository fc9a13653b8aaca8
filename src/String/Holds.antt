-- ===== src/String/Holds.antt =====
-- What a string stands for: its characters, which are bytes other than zero, with a zero behind them.
use emex_foundation.Base.{
  ℕ, zero, suc, ◌-◌, ◌^◌, ◌<◌, Bool, true, Option, some, List, [], ◌∷◌, ◌++◌, ◌≡◌, refl, ◌⊎◌, inl,
  inr, arith, length, take, drop, IsBytes, ok,
}
use emex_foundation.Data.{Block}
use emex_foundation.Data.Holds.{written}
use emex_foundation.String.Model.{String, strnlen, strlen}

abbrev pub IsText : List ℕ → Type 0
IsText [] = Unit {0}
IsText (c ∷ cs) = ((0 < c) × (c < 256)) × IsText cs

pub IsText-IsBytes : (bs : List ℕ) → IsText bs → IsBytes bs
IsText-IsBytes [] h = tt
IsText-IsBytes (c ∷ cs) h = (h.0.1, IsText-IsBytes cs h.1)

pub IsText-take : (n : ℕ) (bs : List ℕ) → IsText bs → IsText (take n bs)
IsText-take zero bs h = tt
IsText-take (suc n) [] h = tt
IsText-take (suc n) (c ∷ cs) h = (h.0, IsText-take n cs h.1)

pub IsText-drop : (n : ℕ) (bs : List ℕ) → IsText bs → IsText (drop n bs)
IsText-drop zero bs h = h
IsText-drop (suc n) [] h = tt
IsText-drop (suc n) (c ∷ cs) h = IsText-drop n cs h.1

pub IsText-append : (xs ys : List ℕ) → IsText xs → IsText ys → IsText (xs ++ ys)
IsText-append [] ys h k = k
IsText-append (x ∷ xs) ys h k = (h.0, IsText-append xs ys h.1 k)

-- The string holds the text `bs`; its block may go on behind the terminator.
pub record Holds (s : String) (bs : List ℕ) : Type 0 where
  pub text : IsText bs
  pub behind : Block
  pub block : s.buffer ≡ some (written bs ++ some 0 ∷ behind)
  pub counted : s.length ≡ length bs
  pub small : length bs < 2 ^ 63 - 1

-- An operation has answered `true` and left the string with the text `bs`.
pub record Edited (s : String) (bs : List ℕ) (r : Bool × Option String) : Type 0 where
  pub left : String
  pub answer : r ≡ (true, some left)
  pub encoding : left.encoding ≡ s.encoding
  pub is_mutable : left.is_mutable ≡ s.is_mutable
  pub holds : Holds left bs

-- The text in the first `n` bytes is `bs`: it fills them, or a zero ends it.
abbrev pub Ends : ℕ → List ℕ → Block → Type 0
Ends n bs X = (n ≡ length bs) ⊎ ((length bs < n) × ((Y : Block) × (X ≡ some 0 ∷ Y)))

pub strnlen-written :
    (n : ℕ) (bs : List ℕ) (X : Block)
    → IsText bs
    → Ends n bs X
    → strnlen n (written bs ++ X) ≡ ok (length bs)
unfolding strnlen
strnlen-written zero [] X h e = refl
strnlen-written zero (c ∷ bs) X h (inl e) = absurd (omega arith)
strnlen-written zero (c ∷ bs) X h (inr e) = absurd (omega arith)
strnlen-written (suc n) [] X h (inl e) = absurd (omega arith)
strnlen-written (suc n) [] X h (inr (lt, (Y, e))) = rw e refl
strnlen-written (suc n) (c ∷ bs) X h (inl e) =
    let rest = strnlen-written n bs X h.1 (inl (omega arith)) in rw rest (ground arith)
strnlen-written (suc n) (c ∷ bs) X h (inr (lt, e)) =
    let rest = strnlen-written n bs X h.1 (inr (omega arith, e)) in rw rest (ground arith)

pub strlen-written :
    (bs : List ℕ) (X : Block) → IsText bs → strlen (written bs ++ some 0 ∷ X) ≡ ok (length bs)
unfolding strlen
strlen-written [] X h = refl
strlen-written (c ∷ bs) X h = let rest = strlen-written bs X h.1 in rw rest (ground arith)
