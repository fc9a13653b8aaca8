-- ===== src/String/Equality.antt =====
-- Equal strings and their hashes (src/EFString.c).
use emex_foundation.Base.{
  ℕ, ◌*◌, ◌%◌, ◌^◌, bit_xor, Bool, true, false, ◌&&◌, ◌||◌, some, List, [], ◌∷◌, ◌++◌, ◌≡◌, ◌↔◌,
  refl, sym, ap, ◌∙◌, inl, inr, arith, ◌==◌, ==→eq, eq→==, Bool-cases, length, ok,
}
use emex_foundation.Data.{Block}
use emex_foundation.Data.Holds.{written}
use emex_foundation.String.Encoding.{Encoding, code, utf7, ascii, utf8, other}
use emex_foundation.String.Accepts.{accepts, ok_inj, validate_encoding-accepts}
use emex_foundation.String.Model.{String}
use emex_foundation.String.Holds.{Holds, IsText, IsText-IsBytes}
use emex_foundation.String.Compare.{compare_bytes, compliant, string_equal, hash_loop, string_hash}

pub code_inj : (e f : Encoding) → code e ≡ code f → e ≡ f
code_inj utf7 utf7 h = refl
code_inj utf7 ascii h = absurd (omega arith)
code_inj utf7 utf8 h = absurd (omega arith)
code_inj utf7 (other n) h = absurd (omega arith)
code_inj ascii utf7 h = absurd (omega arith)
code_inj ascii ascii h = refl
code_inj ascii utf8 h = absurd (omega arith)
code_inj ascii (other n) h = absurd (omega arith)
code_inj utf8 utf7 h = absurd (omega arith)
code_inj utf8 ascii h = absurd (omega arith)
code_inj utf8 utf8 h = refl
code_inj utf8 (other n) h = absurd (omega arith)
code_inj (other m) utf7 h = absurd (omega arith)
code_inj (other m) ascii h = absurd (omega arith)
code_inj (other m) utf8 h = absurd (omega arith)
code_inj (other m) (other n) h = ap other (omega arith)

abbrev same_bytes : List ℕ → List ℕ → Bool
same_bytes [] [] = true
same_bytes [] (y ∷ ys) = false
same_bytes (x ∷ xs) [] = false
same_bytes (x ∷ xs) (y ∷ ys) = (x == y) && same_bytes xs ys

same_bytes_iff : (xs ys : List ℕ) → (same_bytes xs ys ≡ true) ↔ (xs ≡ ys)
same_bytes_iff [] [] = (λ _. refl, λ _. refl)
same_bytes_iff [] (y ∷ ys) = (λ h. cc, λ h. cc)
same_bytes_iff (x ∷ xs) [] = (λ h. cc, λ h. cc)
same_bytes_iff (x ∷ xs) (y ∷ ys) =
    let rest = same_bytes_iff xs ys in (λ h. ground (arith, rest.0), λ h. ground (arith, rest.1))

compare_bytes-written :
    (xs ys : List ℕ) (X Y : Block)
    → length xs ≡ length ys
    → compare_bytes (length xs) (written xs ++ X) (written ys ++ Y) ≡ ok (same_bytes xs ys)
unfolding compare_bytes
compare_bytes-written [] [] X Y h = refl
compare_bytes-written [] (y ∷ ys) X Y h = absurd (omega arith)
compare_bytes-written (x ∷ xs) [] X Y h = absurd (omega arith)
compare_bytes-written (x ∷ xs) (y ∷ ys) X Y h =
    rw (compare_bytes-written xs ys X Y (omega arith)) refl

abbrev pub complies : Encoding → List ℕ → Encoding → List ℕ → Bool
complies e xs f ys = (code e == code f) || (accepts f xs && accepts e ys)

pub compliant-written :
    (e f : Encoding) (xs ys : List ℕ) (X Y : Block)
    → IsText xs
    → IsText ys
    → compliant e (written xs ++ X) (length xs) f (written ys ++ Y) (length ys)
      ≡ ok (complies e xs f ys)
compliant-written e f xs ys X Y tx ty =
    let first = validate_encoding-accepts f xs X (IsText-IsBytes xs tx) in
    let second = validate_encoding-accepts e ys Y (IsText-IsBytes ys ty) in
    elim (Bool-cases (code e == code f)) [ inl h ↦ rw h refl | inr h ↦ rw (h, first, second) refl ]

-- Texts that are valid in their encodings comply, if they are the same.
complies_same :
    (e f : Encoding) (xs ys : List ℕ)
    → accepts e xs ≡ true
    → accepts f ys ≡ true
    → xs ≡ ys
    → complies e xs f ys ≡ true
complies_same e f xs ys ve vf h =
    let ve' : accepts e ys ≡ true = ap (accepts e) (sym h) ∙ ve in
    let vf' : accepts f xs ≡ true = ap (accepts f) h ∙ vf in rw (ve', vf') (ground arith)

module _ {a b : String} {xs ys : List ℕ} (ha : Holds a xs) (hb : Holds b ys) where
  string_equal-lem :
      string_equal (some a) (some b)
      ≡ ok ((length xs == length ys) && (complies a.encoding xs b.encoding ys && same_bytes xs ys))
  unfolding string_equal
  string_equal-lem =
      rw (ha.counted, hb.counted)
        (elim (Bool-cases (length xs == length ys)) [
          | inr h ↦ rw h refl
          | inl h ↦
              let checked =
                compliant-written a.encoding b.encoding xs ys (some 0 ∷ ha.behind)
                  (some 0 ∷ hb.behind) ha.text hb.text in
              let compared =
                compare_bytes-written xs ys (some 0 ∷ ha.behind) (some 0 ∷ hb.behind)
                  (==→eq _ _ h) in
              let checked' = rw (← ==→eq _ _ h) at checked in
              rw (h, ha.block, hb.block, checked', compared) (ground arith)
        ])

  -- EFStringEqual of two strings that hold texts, each valid in the encoding of its string, returns,
  -- and returns true exactly when the texts are the same, whatever the encodings are.
  pub string_equal-texts :
      accepts a.encoding xs ≡ true
      → accepts b.encoding ys ≡ true
      → (r : Bool) × (string_equal (some a) (some b) ≡ ok r) × ((r ≡ true) ↔ (xs ≡ ys))
  string_equal-texts va vb = (
    _,
    string_equal-lem,
    (
      λ h. (same_bytes_iff xs ys).0 (ground arith),
      λ h.
          let same = (same_bytes_iff xs ys).1 h in
          let lengths = eq→== _ _ (ap length h) in
          rw (lengths, complies_same a.encoding b.encoding xs ys va vb h, same) refl,
    ),
  )

hash_loop-written :
    (xs : List ℕ) (h : ℕ)
    → (v : ℕ) × ((X : Block) → hash_loop (length xs) (written xs ++ X) h ≡ ok v)
unfolding hash_loop
hash_loop-written [] h = (h, λ X. refl)
hash_loop-written (x ∷ xs) h = hash_loop-written xs (bit_xor h x * 0x100000001b3 % 2 ^ 64)

hash_of : List ℕ → ℕ
hash_of xs = bit_xor (hash_loop-written xs 0xcbf29ce484222325).0 (length xs)

string_hash-text : {s : String} {xs : List ℕ} → Holds s xs → string_hash (some s) ≡ ok (hash_of xs)
unfolding string_hash hash_of
string_hash-text {s} {xs} h =
    let run = (hash_loop-written xs 0xcbf29ce484222325).1 (some 0 ∷ h.behind) in
    rw (h.counted, h.block, run) refl

-- Two strings that hold texts and that EFStringEqual calls equal have one hash, also if their
-- encodings differ.
pub string_equal-string_hash :
    {a b : String} {xs ys : List ℕ}
    → Holds a xs
    → Holds b ys
    → string_equal (some a) (some b) ≡ ok true
    → (v : ℕ) × (string_hash (some a) ≡ ok v) × (string_hash (some b) ≡ ok v)
string_equal-string_hash {a} {b} {xs} {ys} ha hb e =
    let decided = sym (string_equal-lem ha hb) ∙ e in
    let same : xs ≡ ys = (same_bytes_iff xs ys).0 (ground (arith, ok_inj decided)) in
    (hash_of xs, string_hash-text ha, string_hash-text hb ∙ ap (λ l. ok (hash_of l)) (sym same))
