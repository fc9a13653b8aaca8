-- ===== src/String/Accepts.antt =====
-- What `__EFStringValidateEncoding` of src/EFString.c accepts.
use emex_foundation.Base.{
  ℕ, zero, suc, ◌-◌, ◌≤◌, ◌≡◌, refl, sym, ap, ◌∙◌, ◌↔◌, ap₂, inl, inr, Bool, true, false, some,
  List, [], ◌∷◌, ◌++◌, append_assoc, append-nil, arith, ltb, Bool-cases, Option-cases, length,
  length-append, drop, IsBytes, Run, ok, fault, abort,
}
use emex_foundation.Data.{Block}
use emex_foundation.Data.Holds.{written, written-append}
use emex_foundation.String.Encoding.{
  Encoding, utf7, ascii, utf8, other, validate_ascii, validate_utf8, validate_encoding, utf8_char,
}
use emex_foundation.String.Utf8.{IsScalar, encode}
use emex_foundation.String.Sequence.{round, utf8_char-encode}
use emex_foundation.String.Utf7.{validate_utf7-ends}

abbrev pub AllScalar : List ℕ → Type 0
AllScalar [] = Unit {0}
AllScalar (cp ∷ cps) = IsScalar cp × AllScalar cps

-- The UTF-8 form of a text.
unfoldable pub encode_all : List ℕ → List ℕ
encode_all [] = []
encode_all (cp ∷ cps) = encode cp ++ encode_all cps

-- The bytes are the UTF-8 form of a text of scalar values.
abbrev pub IsUtf8 : List ℕ → Type 0
IsUtf8 bs = (cps : List ℕ) × AllScalar cps × (bs ≡ encode_all cps)

pub ok_inj : {A : Type 0} {a b : A} → ok a ≡ ok b → a ≡ b
ok_inj h = cc

validate_ascii-ends :
    (bs : List ℕ) → (b : Bool) × ((X : Block) → validate_ascii (length bs) (written bs ++ X) ≡ ok b)
unfolding validate_ascii
validate_ascii-ends [] = (true, λ X. refl)
validate_ascii-ends (c ∷ bs) = elim (Bool-cases (ltb 0x7f c)) [
  | inl e ↦ (false, λ X. rw e refl)
  | inr e ↦ let (b, rest) = validate_ascii-ends bs in (b, λ X. rw e (rest X))
]

length-encode_pos : (cp : ℕ) → 1 ≤ length (encode cp)
unfolding encode
length-encode_pos cp = ground arith

append-IsBytes_right : (xs ys : List ℕ) → IsBytes (xs ++ ys) → IsBytes ys
append-IsBytes_right [] ys h = h
append-IsBytes_right (x ∷ xs) ys h = append-IsBytes_right xs ys h.1

IsBytes-behind : (bs xs ys : List ℕ) → bs ≡ xs ++ ys → IsBytes bs → IsBytes ys
IsBytes-behind bs xs ys e h = append-IsBytes_right xs ys (rw (← e) h)

pub drop-written :
    (xs ys : List ℕ) (X : Block) → drop (length xs) (written (xs ++ ys) ++ X) ≡ written ys ++ X
drop-written [] ys X = refl
drop-written (x ∷ xs) ys X = drop-written xs ys X

length-append_left : (xs ys : List ℕ) → length (xs ++ ys) - length xs ≡ length ys
length-append_left xs ys = omega (arith, length-append xs ys)

-- With as much fuel as there are bytes the loop ends with an answer, and `true` is said of UTF-8 only.
record Verdict (fuel : ℕ) (bs : List ℕ) : Type 0 where
  accepted : Bool
  runs : (X : Block) → validate_utf8 fuel (length bs) (written bs ++ X) ≡ ok accepted
  sound : accepted ≡ true → IsUtf8 bs

validate_utf8-round :
    (fuel n k : ℕ) (block : Block)
    → 1 ≤ n
    → utf8_char n block ≡ ok (some k)
    → validate_utf8 (suc fuel) n block ≡ validate_utf8 fuel (n - k) (drop k block)
unfolding validate_utf8
validate_utf8-round fuel zero k block h e = absurd (omega arith)
validate_utf8-round fuel (suc n) k block h e = rw e refl

-- A code point in front takes one round.
validate_utf8-encode :
    (fuel cp : ℕ) (rest : List ℕ) (X : Block)
    → let bs = encode cp ++ rest in
      utf8_char (length bs) (written bs ++ X) ≡ ok (some (length (encode cp)))
      → validate_utf8 (suc fuel) (length bs) (written bs ++ X)
        ≡ validate_utf8 fuel (length rest) (written rest ++ X)
validate_utf8-encode fuel cp rest X e =
    let nonempty : 1 ≤ length (encode cp ++ rest) =
      omega (arith, length-encode_pos cp, length-append (encode cp) rest) in
    validate_utf8-round fuel _ _ _ nonempty e
    ∙ ap₂ (validate_utf8 fuel) (length-append_left (encode cp) rest)
        (drop-written (encode cp) rest X)

verdict : (fuel : ℕ) (bs : List ℕ) → length bs ≤ fuel → IsBytes bs → Verdict fuel bs
unfolding validate_utf8 encode_all
verdict fuel [] h bytes = record { accepted = true; runs = λ X. refl; sound = λ _. ([], tt, refl) }
verdict zero (c ∷ bs) h bytes = absurd (omega arith)
verdict (suc fuel) (c ∷ bs) h bytes =
    let step = round c bs bytes in
    elim (Option-cases step.result) [
      | inl e ↦ record { accepted = false; runs = λ X. rw (step.runs X, e) refl; sound = λ k. cc }
      | inr (k, e) ↦
          let (cp, scalar, size, (rest, spelled)) = rw e at step.decoded in
          let shorter : length rest ≤ fuel =
            omega
              (arith, length-encode_pos cp, length-append (encode cp) rest, ap length spelled) in
          let inner =
            verdict fuel rest shorter (IsBytes-behind (c ∷ bs) (encode cp) rest spelled bytes) in
          record {
            accepted = inner.accepted;
            runs = λ X.
                let first = step.runs X ∙ ap ok (e ∙ ap some size) in
                let at = λ (l : List ℕ). validate_utf8 (suc fuel) (length l) (written l ++ X) in
                let first' =
                  sym (ap (λ l. utf8_char (length l) (written l ++ X)) spelled) ∙ first in
                ap at spelled ∙ validate_utf8-encode fuel cp rest X first' ∙ inner.runs X;
            sound = λ k.
                let (cps, scalars, text) = inner.sound k in
                (cp ∷ cps, (scalar, scalars), spelled ∙ ap (◌++◌ (encode cp)) text);
          }
    ]

validate_utf8-encode_all :
    (fuel : ℕ) (cps : List ℕ) (X : Block)
    → length (encode_all cps) ≤ fuel
    → AllScalar cps
    → validate_utf8 fuel (length (encode_all cps)) (written (encode_all cps) ++ X) ≡ ok true
unfolding validate_utf8 encode_all
validate_utf8-encode_all fuel [] X h s = refl
validate_utf8-encode_all zero (cp ∷ cps) X h s =
    absurd (omega (arith, length-encode_pos cp, length-append (encode cp) (encode_all cps)))
validate_utf8-encode_all (suc fuel) (cp ∷ cps) X h s =
    let bs = encode cp ++ encode_all cps in
    let split = length-append (encode cp) (encode_all cps) in
    let grouped : written bs ++ X ≡ written (encode cp) ++ (written (encode_all cps) ++ X) =
      ap (λ l. l ++ X) (written-append (encode cp) (encode_all cps))
      ∙ append_assoc (written (encode cp)) (written (encode_all cps)) X in
    let first =
      ap (utf8_char (length bs)) grouped
      ∙ utf8_char-encode cp (length bs) (written (encode_all cps) ++ X) s.0
          (omega (arith, split)) in
    validate_utf8-encode fuel cp (encode_all cps) X first
    ∙ validate_utf8-encode_all fuel cps X (omega (arith, split, length-encode_pos cp)) s.1

-- `__EFStringValidateEncoding`, in every encoding and on bytes that are there, ends with an answer
-- that does not depend on what stands behind the bytes.
pub validate_encoding-ends :
    (e : Encoding) (bs : List ℕ)
    → IsBytes bs
    → (b : Bool) × ((X : Block) → validate_encoding e (written bs ++ X) (length bs) ≡ ok b)
unfolding validate_encoding
validate_encoding-ends utf7 bs h = validate_utf7-ends (length bs) bs (omega arith)
validate_encoding-ends ascii bs h = validate_ascii-ends bs
validate_encoding-ends utf8 bs h =
    let v = verdict (length bs) bs (omega arith) h in (v.accepted, v.runs)
validate_encoding-ends (other n) bs h = (false, λ X. refl)

-- For UTF-8, `__EFStringValidateEncoding` accepts some bytes, whatever stands behind them, exactly
-- when they are the UTF-8 form of a list of code points up to 0x10ffff that are no surrogates.
pub validate_encoding-IsUtf8 :
    (bs : List ℕ) (X : Block)
    → IsBytes bs
    → (validate_encoding utf8 (written bs ++ X) (length bs) ≡ ok true) ↔ IsUtf8 bs
unfolding validate_encoding
validate_encoding-IsUtf8 bs X h =
    let v = verdict (length bs) bs (omega arith) h in
    (
      λ e. v.sound (ok_inj (sym (v.runs X) ∙ e)),
      λ (cps, scalars, text).
          ap (λ l. validate_utf8 (length l) (length l) (written l ++ X)) text
          ∙ validate_utf8-encode_all (length (encode_all cps)) cps X (omega arith) scalars,
    )

abbrev answer : Run Bool → Bool
answer (ok b) = b
answer fault = false
answer abort = false

-- The answer, as a test on the bytes.
unfoldable pub accepts : Encoding → List ℕ → Bool
accepts e bs = answer (validate_encoding e (written bs) (length bs))

pub validate_encoding-accepts :
    (e : Encoding) (bs : List ℕ) (X : Block)
    → IsBytes bs
    → validate_encoding e (written bs ++ X) (length bs) ≡ ok (accepts e bs)
unfolding accepts
validate_encoding-accepts e bs X h =
    let (b, runs) = validate_encoding-ends e bs h in
    let alone : validate_encoding e (written bs) (length bs) ≡ ok b =
      ap (λ l. validate_encoding e l (length bs)) (sym (append-nil (written bs))) ∙ runs [] in
    runs X ∙ ap (λ r. ok (answer r)) (sym alone)
