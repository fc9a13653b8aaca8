-- ===== src/String/Trim.antt =====
-- `EFStringTrimWhitespace` of src/EFString.c against a definition of trimmed text.
use emex_foundation.Base.{
  ℕ, zero, suc, ◌+◌, ◌<◌, ◌≤◌, Bool, true, false, ◌&&◌, some, List, [], ◌∷◌, ◌++◌, ◌≡◌, refl, sym,
  ap, ◌∙◌, inl, inr, arith, if◌then◌else◌, Bool-cases, length, take, drop, get_elem?, get_elem?-lt,
  drop-get_elem?, take-append-drop, ok,
}
use emex_foundation.Data.{Block}
use emex_foundation.Data.Holds.{written}
use emex_foundation.String.Edit.{byte_of, is_whitespace, load_byte, trim_start, trim_end}

-- The text from its first character that is no space.
unfoldable pub trim_left : List ℕ → List ℕ
trim_left [] = []
trim_left (c ∷ cs) = let rest = trim_left cs in if is_whitespace c then rest else c ∷ cs

abbrev keep : ℕ → List ℕ → List ℕ
keep c [] = if is_whitespace c then [] else c ∷ []
keep c (d ∷ ds) = c ∷ d ∷ ds

-- The text up to its last character that is no space.
unfoldable pub trim_right : List ℕ → List ℕ
trim_right [] = []
trim_right (c ∷ cs) = keep c (trim_right cs)

unfoldable pub all_spaces : List ℕ → Bool
all_spaces [] = true
all_spaces (c ∷ cs) = is_whitespace c && all_spaces cs

trim_right-spaces : (ws : List ℕ) → all_spaces ws ≡ true → trim_right ws ≡ []
unfolding trim_right all_spaces
trim_right-spaces [] h = refl
trim_right-spaces (c ∷ ws) h = rw (trim_right-spaces ws (ground arith)) (ground arith)

trim_right-append : (xs ws : List ℕ) → all_spaces ws ≡ true → trim_right (xs ++ ws) ≡ trim_right xs
unfolding trim_right
trim_right-append [] ws h = trim_right-spaces ws h
trim_right-append (x ∷ xs) ws h = ap (keep x) (trim_right-append xs ws h)

trim_right-end :
    (xs : List ℕ) (c : ℕ) → is_whitespace c ≡ false → trim_right (xs ++ c ∷ []) ≡ xs ++ c ∷ []
unfolding trim_right
trim_right-end [] c h = rw h refl
trim_right-end (x ∷ []) c h = rw h refl
trim_right-end (x ∷ y ∷ xs) c h = ap (keep x) (trim_right-end (y ∷ xs) c h)

take-suc :
    (n : ℕ) (xs : List ℕ) {c : ℕ} → get_elem? xs n ≡ some c → take (suc n) xs ≡ take n xs ++ c ∷ []
take-suc n [] h = cc
take-suc zero (x ∷ xs) h = cc
take-suc (suc n) (x ∷ xs) h = ap (◌∷◌ x) (take-suc n xs h)

-- Where the text ends, behind which there are spaces only.
trim_right_at :
    (n : ℕ) (xs : List ℕ) {c : ℕ}
    → get_elem? xs n ≡ some c
    → is_whitespace c ≡ false
    → all_spaces (drop (suc n) xs) ≡ true
    → trim_right xs ≡ take (suc n) xs
trim_right_at n xs {c} at ink spaces =
    ap trim_right (sym (take-append-drop (suc n) xs))
    ∙ trim_right-append (take (suc n) xs) (drop (suc n) xs) spaces
    ∙ ap trim_right (take-suc n xs at)
    ∙ trim_right-end (take n xs) c ink
    ∙ sym (take-suc n xs at)

get_elem?-written :
    (front cs : List ℕ) (i j : ℕ) (X : Block) {c : ℕ}
    → j ≡ length front + i
    → get_elem? cs i ≡ some c
    → get_elem? (written (front ++ cs) ++ X) j ≡ some (some c)
get_elem?-written [] [] i j X e h = cc
get_elem?-written [] (d ∷ cs) zero zero X e h = ap some h
get_elem?-written [] (d ∷ cs) zero (suc j) X e h = absurd (omega arith)
get_elem?-written [] (d ∷ cs) (suc i) zero X e h = absurd (omega arith)
get_elem?-written [] (d ∷ cs) (suc i) (suc j) X e h = get_elem?-written [] cs i j X (omega arith) h
get_elem?-written (a ∷ front) cs i zero X e h = absurd (omega arith)
get_elem?-written (a ∷ front) cs i (suc j) X e h = get_elem?-written front cs i j X (omega arith) h

load_byte-written :
    (front cs : List ℕ) (i : ℕ) (X : Block) {c : ℕ}
    → get_elem? cs i ≡ some c
    → load_byte (written (front ++ cs) ++ X) (length front + i) ≡ ok c
load_byte-written front cs i X h =
    ap byte_of (get_elem?-written front cs i (length front + i) X refl h)

-- The second loop finds the last character that is no space.
pub trim_end-last :
    (left : ℕ) (front cs : List ℕ) (X : Block) {c : ℕ}
    → get_elem? cs 0 ≡ some c
    → is_whitespace c ≡ false
    → left < length cs
    → all_spaces (drop (suc left) cs) ≡ true
    → (k : ℕ) × (trim_end left (length front) (written (front ++ cs) ++ X) ≡ ok (length front + k))
      × (k < length cs)
      × (trim_right cs ≡ take (suc k) cs)
unfolding trim_end all_spaces
trim_end-last zero front cs X at ink h spaces =
    (0, ap ok (omega arith), h, trim_right_at 0 cs at ink spaces)
trim_end-last (suc left) front cs X at ink h spaces =
    let (c, here) = get_elem?-lt cs (suc left) h in
    let loaded = load_byte-written front cs (suc left) X here in
    elim (Bool-cases (is_whitespace c)) [
      | inr stop ↦
          (suc left, rw (loaded, stop) refl, h, trim_right_at (suc left) cs here stop spaces)
      | inl more ↦
          let spaces' : all_spaces (drop (suc left) cs) ≡ true =
            rw (drop-get_elem? (suc left) cs here, more) spaces in
          let (k, runs, inside, is) = trim_end-last left front cs X at ink (omega arith) spaces' in
          (k, rw (loaded, more) runs, inside, is)
    ]

-- The first loop stops where the trimmed text starts.
pub trim_start-written :
    (bs : List ℕ) (start : ℕ) (X : Block)
    → (n : ℕ) × (trim_start (length bs) start (written bs ++ X) ≡ ok (start + n))
      × (n ≤ length bs)
      × (trim_left bs ≡ drop n bs)
      × (n < length bs → (c : ℕ) × (get_elem? (drop n bs) 0 ≡ some c) × (is_whitespace c ≡ false))
unfolding trim_start trim_left
trim_start-written [] start X =
    (0, ap ok (omega arith), omega arith, refl, λ h. absurd (omega arith))
trim_start-written (c ∷ bs) start X = elim (Bool-cases (is_whitespace c)) [
  | inr stop ↦ (0, rw stop (ap ok (omega arith)), omega arith, rw stop refl, λ h. (c, refl, stop))
  | inl more ↦
      let (n, runs, inside, is, ink) = trim_start-written bs (start + 1) X in
      (suc n, rw more (runs ∙ ap ok (omega arith)), omega arith, rw more is, λ h. ink (omega arith))
]
