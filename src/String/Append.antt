-- ===== src/String/Append.antt =====
-- `EFStringAppendString` of src/EFString.c on the texts that the strings hold.
use emex_foundation.Base.{
  ℕ, zero, suc, ◌+◌, ◌-◌, ◌≤◌, Bool, true, false, Option, none, some, List, [], ◌∷◌, ◌++◌, ◌≡◌,
  refl, sym, ap, ap₂, ◌∙◌, inl, inr, arith, Bool-cases, length, length-append, length-take,
  length-replicate, take, drop, replicate, take-append-drop, append_assoc, ok, Returns, returns,
}
use emex_foundation.Allocator.{Allocator}
use emex_foundation.Data.{Block, load_block, realloc}
use emex_foundation.Data.Holds.{written, written-append, length-written}
use emex_foundation.String.Encoding.{validate_encoding}
use emex_foundation.String.Accepts.{accepts, validate_encoding-accepts}
use emex_foundation.String.Model.{String, store_byte}
use emex_foundation.String.Memory.{
  store_byte-written, memcpy_middle, take-written_append, length-written_append,
}
use emex_foundation.String.Holds.{Edited, Holds, IsText, IsText-IsBytes, IsText-append}
use emex_foundation.String.Edit.{itself, other, append_bytes, append_text, append_string}

take-written_more :
    (xs : List ℕ) (n : ℕ) (R : Block)
    → length xs ≤ n
    → take n (written xs ++ R) ≡ written xs ++ take (n - length xs) R
take-written_more [] n R h = let e : n - 0 ≡ n = omega arith in ap (λ k. take k R) (sym e)
take-written_more (x ∷ xs) zero R h = absurd (omega arith)
take-written_more (x ∷ xs) (suc n) R h =
    let e : suc n - suc (length xs) ≡ n - length xs = omega arith in
    ap (◌∷◌ (some x))
      (take-written_more xs n R (omega arith) ∙ ap (λ k. written xs ++ take k R) (sym e))

-- A longer block keeps the text, with room behind it.
realloc-written_text :
    (xs : List ℕ) (n : ℕ) (R : Block)
    → length xs ≤ n
    → (T : Block) × (realloc n (written xs ++ R) ≡ written xs ++ T) × (length T ≡ n - length xs)
realloc-written_text xs n R h =
    let fill : Block = replicate (n - length (written xs ++ R)) none in
    (
      take (n - length xs) R ++ fill,
      ap (λ l. l ++ fill) (take-written_more xs n R h) ∙ append_assoc (written xs) _ _,
      omega (
        arith,
        length-append (take (n - length xs) R) fill,
        length-take (n - length xs) R,
        length-replicate {A = Option ℕ} (n - length (written xs ++ R)) none,
        length-written_append xs R,
      ),
    )

last_cell : (T : Block) (n : ℕ) → length T ≡ n + 1 → (x : Option ℕ) × (drop n T ≡ x ∷ [])
last_cell [] n h = absurd (omega arith)
last_cell (x ∷ []) zero h = (x, refl)
last_cell (x ∷ y ∷ T) zero h = absurd (omega arith)
last_cell (x ∷ T) (suc n) h = last_cell T n (omega arith)

append_bytes-written :
    (s : String) (xs ys : List ℕ) (T source : Block)
    → s.length ≡ length xs
    → length T ≡ length ys + 1
    → take (length ys) source ≡ written ys
    → length ys ≤ length source
    → append_bytes s (written xs ++ T) source (length ys)
      ≡ ok (
        true,
        some (record s {
          buffer = some (written (xs ++ ys) ++ some 0 ∷ []);
          length = s.length + length ys;
        }),
      )
append_bytes-written s xs ys T source e room front h =
    let n = length ys in
    let (x, end) = last_cell T n room in
    let split : written xs ++ T ≡ written xs ++ (take n T ++ drop n T) =
      ap (◌++◌ (written xs)) (sym (take-append-drop n T)) in
    let copied =
      memcpy_middle (written xs) (take n T) (drop n T) source s.length n
        (omega (arith, length-written xs)) (omega (arith, length-take n T)) h in
    let joined : written xs ++ (take n source ++ drop n T) ≡ written (xs ++ ys) ++ x ∷ [] =
      ap₂ (λ l r. written xs ++ (l ++ r)) front end
      ∙ sym (append_assoc (written xs) (written ys) (x ∷ []))
      ∙ ap (λ l. l ++ x ∷ []) (sym (written-append xs ys)) in
    let at : s.length + n ≡ length (xs ++ ys) = omega (arith, length-append xs ys) in
    let closed : store_byte (written (xs ++ ys) ++ x ∷ []) (s.length + n) 0
        ≡ ok (written (xs ++ ys) ++ some 0 ∷ []) =
      ap (λ k. store_byte (written (xs ++ ys) ++ x ∷ []) k 0) at
      ∙ store_byte-written (xs ++ ys) x 0 [] in
    rw (split, copied, joined, closed) refl

-- What `EFStringAppendString` comes to: a failure leaves the string as it was.
pub data Appended (al : Allocator) (s : String) (xs ys : List ℕ)
    : Bool × Option String → Type 0 where
  refused : accepts s.encoding ys ≡ false → Appended al s xs ys (false, some s)
  out_of_memory :
      al.grants (length xs + length ys + 1) ≡ false → Appended al s xs ys (false, some s)
  appended :
      {r : Bool × Option String}
      → accepts s.encoding ys ≡ true
      → al.grants (length xs + length ys + 1) ≡ true
      → Edited s (xs ++ ys) r
      → Appended al s xs ys r

append_text-refused :
    (al : Allocator) (s : String) (source : Block) (n : ℕ) (source' : Block → Block)
    → validate_encoding s.encoding source n ≡ ok false
    → append_text al s source n source' ≡ ok (false, some s)
append_text-refused al s source n source' e = rw e refl

append_text-denied :
    (al : Allocator) (s : String) (source block : Block) (n : ℕ) (source' : Block → Block)
    → validate_encoding s.encoding source n ≡ ok true
    → load_block s.buffer ≡ ok block
    → al.grants (s.length + n + 1) ≡ false
    → append_text al s source n source' ≡ ok (false, some s)
append_text-denied al s source block n source' e b g = rw (e, b, g) refl

append_text-granted :
    (al : Allocator) (s : String) (source block : Block) (n : ℕ) (source' : Block → Block)
    → validate_encoding s.encoding source n ≡ ok true
    → load_block s.buffer ≡ ok block
    → al.grants (s.length + n + 1) ≡ true
    → let new = realloc (s.length + n + 1) block in
      append_text al s source n source' ≡ append_bytes s new (source' new) n
append_text-granted al s source block n source' e b g = rw (e, b, g) refl

module _ (al : Allocator) (s : String) (xs ys : List ℕ) (h : Holds s xs) (ty : IsText ys) where
  -- The text is found in `source`, before and after the reallocation.
  append_text-Appended :
      (Y : Block) (source' : Block → Block)
      → ((T : Block) → take (length ys) (source' (written xs ++ T)) ≡ written ys)
      → ((T : Block) → length ys ≤ length (source' (written xs ++ T)))
      → Returns (Appended al s xs ys) (append_text al s (written ys ++ Y) (length ys) source')
  append_text-Appended Y source' front enough =
      let n = length ys in
      let source : Block = written ys ++ Y in
      let block : Block = written xs ++ some 0 ∷ h.behind in
      let checked = validate_encoding-accepts s.encoding ys Y (IsText-IsBytes ys ty) in
      let loaded : load_block s.buffer ≡ ok block = ap load_block h.block in
      let total = s.length + n + 1 in
      elim (Bool-cases (accepts s.encoding ys)) [
        | inr invalid ↦
            rw (append_text-refused al s source n source' (checked ∙ ap ok invalid))
              (returns (refused invalid))
        | inl valid ↦ elim (Bool-cases (al.grants total)) [
          | inr denied ↦
              let denied' = ap (λ k. al.grants (k + n + 1)) (sym h.counted) ∙ denied in
              rw
                (append_text-denied al s source block n source' (checked ∙ ap ok valid) loaded
                  denied)
                (returns (out_of_memory denied'))
          | inl granted ↦
              let (T, grown, room) =
                realloc-written_text xs total (some 0 ∷ h.behind) (omega (arith, h.counted)) in
              let added =
                append_bytes-written s xs ys T (source' (written xs ++ T)) h.counted
                  (omega (arith, h.counted)) (front T) (enough T) in
              let asked : al.grants (length xs + length ys + 1) ≡ al.grants total =
                ap (λ k. al.grants (k + n + 1)) (sym h.counted) in
              let run =
                append_text-granted al s source block n source' (checked ∙ ap ok valid) loaded
                  granted
                ∙ ap (λ new. append_bytes s new (source' new) n) grown
                ∙ added in
              rw run (returns (appended valid (asked ∙ granted) (edited granted)))
        ]
      ]
    where
      edited :
          al.grants (s.length + length ys + 1) ≡ true
          → Edited s (xs ++ ys) (
            true,
            some (record s {
              buffer = some (written (xs ++ ys) ++ some 0 ∷ []);
              length = s.length + length ys;
            }),
          )
      edited granted = record {
        left = _;
        answer = refl;
        encoding = refl;
        is_mutable = refl;
        holds = record {
          text = IsText-append xs ys h.text ty;
          behind = [];
          block = refl;
          counted = omega (arith, h.counted, length-append xs ys);
          small = omega (arith, h.counted, length-append xs ys, al.grants_small _ granted);
        };
      }

append_string-other :
    (al : Allocator) (s t : String) (source : Block) {n : ℕ}
    → s.is_mutable ≡ true
    → t.buffer ≡ some source
    → t.length ≡ n
    → append_string al (some s) (other (some t)) ≡ append_text al s source n (λ _. source)
unfolding append_string
append_string-other al s t source m b e = rw (m, b, e) refl

append_string-same :
    (al : Allocator) (s : String) (source : Block) {n : ℕ}
    → s.is_mutable ≡ true
    → s.buffer ≡ some source
    → s.length ≡ n
    → append_string al (some s) itself ≡ append_text al s source n (λ new. new)
unfolding append_string
append_string-same al s source m b e = rw (m, b, e) refl

-- `EFStringAppendString` of a string that holds a text to a mutable string that holds one: it refuses a
-- text that is not valid in the encoding of the mutable string, fails when there is no memory, each
-- time leaving the string as it was; it returns true only of a valid text with the memory there, and
-- then the string holds the one text and then the other.
pub append_string-Appended :
    (al : Allocator) (s t : String) (xs ys : List ℕ)
    → Holds s xs
    → Holds t ys
    → s.is_mutable ≡ true
    → Returns (Appended al s xs ys) (append_string al (some s) (other (some t)))
append_string-Appended al s t xs ys h ht m =
    let source : Block = written ys ++ some 0 ∷ ht.behind in
    let run =
      append_text-Appended al s xs ys h ht.text (some 0 ∷ ht.behind) (λ _. source)
        (λ T. take-written_append ys (some 0 ∷ ht.behind))
        (λ T. omega (arith, length-written_append ys (some 0 ∷ ht.behind))) in
    rw (append_string-other al s t source m ht.block ht.counted) run

-- `EFStringAppendString` of a string to itself, whose buffer the reallocation moves: the string then
-- holds its text twice, if its text is valid and the memory is there.
pub append_string-itself :
    (al : Allocator) (s : String) (xs : List ℕ)
    → Holds s xs
    → s.is_mutable ≡ true
    → Returns (Appended al s xs xs) (append_string al (some s) itself)
append_string-itself al s xs h m =
    let run =
      append_text-Appended al s xs xs h h.text (some 0 ∷ h.behind) (λ new. new)
        (λ T. take-written_append xs T) (λ T. omega (arith, length-written_append xs T)) in
    rw (append_string-same al s _ m h.block h.counted) run
