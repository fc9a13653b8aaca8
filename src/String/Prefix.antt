-- ===== src/String/Prefix.antt =====
-- Prefixes and suffixes (src/EFString.c).
use emex_foundation.Base.{
  ℕ, zero, suc, ◌-◌, ◌≤◌, Bool, true, false, ◌&&◌, ◌||◌, none, some, List, [], ◌∷◌, ◌++◌, ◌≡◌, ◌↔◌,
  refl, sym, ap, ap₂, ◌∙◌, inl, inr, arith, ◌==◌, eq→==, ltb, leb, le→leb, Bool-cases, length,
  length-append, length-take, length-drop, take, drop, drop-append, take-append-drop, append-nil,
  ok,
}
use emex_foundation.Data.{Block}
use emex_foundation.Data.Holds.{written}
use emex_foundation.String.Encoding.{Encoding, code, validate_encoding}
use emex_foundation.String.Accepts.{accepts, validate_encoding-accepts}
use emex_foundation.String.Utf7.{drop-written-append}
use emex_foundation.String.Memory.{length-written_append, written_split}
use emex_foundation.String.Model.{String}
use emex_foundation.String.Holds.{Holds, IsText, IsText-IsBytes, IsText-take, IsText-drop}
use emex_foundation.String.Compare.{strncmp, compliant, has_prefix, has_suffix}

abbrev pub starts_with : List ℕ → List ℕ → Bool
starts_with [] xs = true
starts_with (y ∷ ys) [] = false
starts_with (y ∷ ys) (x ∷ xs) = (y == x) && starts_with ys xs

pub starts_with_iff :
    (ys xs : List ℕ) → (starts_with ys xs ≡ true) ↔ ((rest : List ℕ) × (xs ≡ ys ++ rest))
starts_with_iff [] xs = (λ _. (xs, refl), λ _. refl)
starts_with_iff (y ∷ ys) [] = (λ h. cc, λ (rest, e). cc)
starts_with_iff (y ∷ ys) (x ∷ xs) =
    let inner = starts_with_iff ys xs in
    (
      λ h. let (rest, e) = inner.0 (ground arith) in (rest, ground (arith, e)),
      λ (rest, e). ground (arith, inner.1 (rest, cc)),
    )

-- `strncmp` over the length of the first text.
pub strncmp-written :
    (ys xs : List ℕ) (X Y : Block)
    → IsText ys
    → IsText xs
    → strncmp (length ys) (written ys ++ X) (written xs ++ some 0 ∷ Y) ≡ ok (starts_with ys xs)
unfolding strncmp
strncmp-written [] xs X Y ty tx = refl
strncmp-written (y ∷ ys) [] X Y ty tx = ground arith
strncmp-written (y ∷ ys) (x ∷ xs) X Y ty tx =
    rw (strncmp-written ys xs X Y ty.1 tx.1) (ground arith)

pub strncmp_comm : (n : ℕ) (p q : Block) → strncmp n p q ≡ strncmp n q p
unfolding strncmp
strncmp_comm zero p q = refl
strncmp_comm (suc n) [] [] = refl
strncmp_comm (suc n) [] (none ∷ q) = refl
strncmp_comm (suc n) [] (some d ∷ q) = refl
strncmp_comm (suc n) (none ∷ p) [] = refl
strncmp_comm (suc n) (none ∷ p) (none ∷ q) = refl
strncmp_comm (suc n) (none ∷ p) (some d ∷ q) = refl
strncmp_comm (suc n) (some c ∷ p) [] = refl
strncmp_comm (suc n) (some c ∷ p) (none ∷ q) = refl
strncmp_comm (suc n) (some c ∷ p) (some d ∷ q) = ground (arith, strncmp_comm n p q)

pub length_zero : (xs : List ℕ) → length xs ≡ 0 → xs ≡ []
length_zero [] h = refl
length_zero (x ∷ xs) h = absurd (omega arith)

-- What the encodings of a part and of the whole, from its start on, allow.
abbrev allows : String → List ℕ → String → List ℕ → Bool
allows s xs part ys =
    (code part.encoding == code s.encoding)
    || (accepts s.encoding ys && accepts part.encoding (take (length ys) xs))

validate-front :
    (e : Encoding) (xs : List ℕ) (n : ℕ) (X : Block)
    → IsText xs
    → n ≤ length xs
    → validate_encoding e (written xs ++ X) n ≡ ok (accepts e (take n xs))
validate-front e xs n X t h =
    let split : written (take n xs) ++ (written (drop n xs) ++ X) ≡ written xs ++ X =
      written_split n xs X in
    let count : length (take n xs) ≡ n = omega (arith, length-take n xs) in
    let run =
      validate_encoding-accepts e (take n xs) (written (drop n xs) ++ X)
        (IsText-IsBytes _ (IsText-take n xs t)) in
    sym (ap₂ (validate_encoding e) split count) ∙ run

-- What starts at a distance from the end ends the text.
ends_lem :
    (xs ys rest : List ℕ)
    → length ys ≤ length xs
    → drop (length xs - length ys) xs ≡ ys ++ rest
    → xs ≡ take (length xs - length ys) xs ++ ys
ends_lem xs ys rest h is =
    let at = length xs - length ys in
    let nothing : rest ≡ [] =
      length_zero rest (omega (arith, length-drop at xs, ap length is, length-append ys rest)) in
    sym (take-append-drop at xs)
    ∙ ap (◌++◌ (take at xs)) (is ∙ ap (◌++◌ ys) nothing ∙ append-nil ys)

drop_front : (front xs ys : List ℕ) → xs ≡ front ++ ys → drop (length xs - length ys) xs ≡ ys
drop_front front xs ys is =
    let at : length xs - length ys ≡ length front =
      omega (arith, length-append front ys, ap length is) in
    ap₂ drop at is ∙ drop-append (length front) front ys refl

module _ {s part : String} {xs ys : List ℕ} (hs : Holds s xs) (hp : Holds part ys) where
  compliant-front :
      length ys ≤ length xs
      → compliant part.encoding
          (written ys ++ some 0 ∷ hp.behind)
          (length ys)
          s.encoding
          (written xs ++ some 0 ∷ hs.behind)
          (length ys)
        ≡ ok (allows s xs part ys)
  compliant-front h =
      let first =
        validate_encoding-accepts s.encoding ys (some 0 ∷ hp.behind) (IsText-IsBytes ys hp.text) in
      let second = validate-front part.encoding xs (length ys) (some 0 ∷ hs.behind) hs.text h in
      elim (Bool-cases (code part.encoding == code s.encoding)) [
        | inl e ↦ rw e refl
        | inr e ↦ rw (e, first, second) refl
      ]

  has_prefix-lem :
      has_prefix false (some s) (some part)
      ≡ ok (leb (length ys) (length xs) && (allows s xs part ys && starts_with ys xs))
  unfolding has_prefix
  has_prefix-lem =
      rw (hs.counted, hp.counted)
        (elim (Bool-cases (ltb (length xs) (length ys))) [
          | inl h ↦
              let shut : leb (length ys) (length xs) ≡ false = ground arith in rw (h, shut) refl
          | inr h ↦
              let shorter : leb (length ys) (length xs) ≡ true = ground arith in
              let checked = compliant-front (ground arith) in
              let compared = strncmp-written ys xs (some 0 ∷ hp.behind) hs.behind hp.text hs.text in
              rw (h, shorter, hs.block, hp.block, checked, compared) (ground arith)
        ])

  -- EFStringHasPrefix of two different strings that hold texts returns; true is said only of a text
  -- that begins with the other, and of every such text if the strings have one encoding.
  pub has_prefix-texts :
      (r : Bool) × (has_prefix false (some s) (some part) ≡ ok r)
      × (r ≡ true → (rest : List ℕ) × (xs ≡ ys ++ rest))
      × (code part.encoding ≡ code s.encoding → (rest : List ℕ) × (xs ≡ ys ++ rest) → r ≡ true)
  has_prefix-texts = (
    _,
    has_prefix-lem,
    λ h. (starts_with_iff ys xs).0 (ground arith),
    λ e (rest, is).
        let found = (starts_with_iff ys xs).1 (rest, is) in
        let shorter : leb (length ys) (length xs) ≡ true =
          le→leb _ _ (omega (arith, length-append ys rest, ap length is)) in
        let one = eq→== _ _ e in rw (found, shorter, one) refl,
  )

  ends_with : Bool
  ends_with =
      leb (length ys) (length xs)
      && (allows s xs part ys && starts_with ys (drop (length xs - length ys) xs))

  has_suffix-lem : has_suffix false (some s) (some part) ≡ ok ends_with
  unfolding has_suffix ends_with
  has_suffix-lem =
      rw (hs.counted, hp.counted)
        (elim (Bool-cases (ltb (length xs) (length ys))) [
          | inl h ↦
              let shut : leb (length ys) (length xs) ≡ false = ground arith in rw (h, shut) refl
          | inr h ↦
              let shorter : leb (length ys) (length xs) ≡ true = ground arith in
              let checked = compliant-front (ground arith) in
              let at = length xs - length ys in
              let X : Block = some 0 ∷ hs.behind in
              let inside : leb at (length (written xs ++ X)) ≡ true =
                le→leb _ _ (omega (arith, length-written_append xs X)) in
              let moved = drop-written-append at xs X (omega arith) in
              let compared =
                strncmp-written ys (drop at xs) (some 0 ∷ hp.behind) hs.behind hp.text
                  (IsText-drop at xs hs.text) in
              rw (h, shorter, hs.block, hp.block, checked, inside, moved, compared) (ground arith)
        ])

  -- EFStringHasSuffix of two different strings that hold texts returns; true is said only of a text
  -- that ends with the other, and of every such text if the strings have one encoding.
  pub has_suffix-texts :
      (r : Bool) × (has_suffix false (some s) (some part) ≡ ok r)
      × (r ≡ true → (front : List ℕ) × (xs ≡ front ++ ys))
      × (code part.encoding ≡ code s.encoding → (front : List ℕ) × (xs ≡ front ++ ys) → r ≡ true)
  unfolding ends_with
  has_suffix-texts = (
    _,
    has_suffix-lem,
    λ h.
        let at = length xs - length ys in
        let (rest, is) = (starts_with_iff ys (drop at xs)).0 (ground arith) in
        (take at xs, ends_lem xs ys rest (ground arith) is),
    λ e (front, is).
        let shorter : leb (length ys) (length xs) ≡ true =
          le→leb _ _ (omega (arith, length-append front ys, ap length is)) in
        let one = eq→== _ _ e in
        let back = drop_front front xs ys is in
        let found =
          (starts_with_iff ys (drop (length xs - length ys) xs)).1
            ([], back ∙ sym (append-nil ys)) in
        rw (shorter, one, found) refl,
  )
