-- ===== src/String/Create.antt =====
-- Making strings (src/EFString.c): what the new string holds.
use emex_foundation.Base.{
  ℕ, ◌+◌, ◌%◌, ◌^◌, ◌<◌, some, none, Option, List, [], ◌∷◌, ◌++◌, ◌≡◌, refl, ap, sym, ◌⊎◌, inl, inr,
  Bool, true, false, not, ◌&&◌, ◌||◌, arith, Bool-cases, length, replicate, length-replicate, pos,
  ok, Returns, returns,
}
use emex_foundation.Allocator.{Allocator}
use emex_foundation.Data.{Block}
use emex_foundation.Data.Holds.{written}
use emex_foundation.String.Encoding.{Encoding}
use emex_foundation.String.Accepts.{accepts, validate_encoding-accepts}
use emex_foundation.String.Memory.{
  take-written_append, length-written_append, store_byte-written, memcpy_middle, replicate_end,
}
use emex_foundation.String.Model.{
  String, string_bytes, string_buffer, create_valid, create_string, create_string_copy,
}
use emex_foundation.String.Holds.{IsText, IsText-IsBytes, Holds, Ends, strnlen-written}

-- The block of a new string that is a copy.
string_buffer-written :
    (bs : List ℕ) (X : Block) (inlined is_mutable : Bool)
    → (is_mutable || inlined) ≡ true
    → string_buffer (written bs ++ X) (length bs) inlined is_mutable
      ≡ ok (written bs ++ some 0 ∷ [])
unfolding string_buffer
string_buffer-written bs X inlined is_mutable e =
    let n = length bs in
    let zeros : Block = replicate n (some 0) in
    let room : replicate (n + 1) (some 0) ≡ zeros ++ some 0 ∷ [] =
      replicate_end n (n + 1) (some 0) refl in
    let copied =
      memcpy_middle [] zeros (some 0 ∷ []) (written bs ++ X) 0 n refl
        (sym (length-replicate n (some 0))) (omega (arith, length-written_append bs X)) in
    rw (e, room, copied, take-written_append bs X) (store_byte-written bs (some 0) 0 [])

-- What comes of making a string: the answer NULL says which condition failed.
pub data Created (al : Allocator) (e : Encoding) (bs : List ℕ) (is_mutable : Bool)
    : Option String → Type 0 where
  refused : accepts e bs ≡ false → Created al e bs is_mutable none
  out_of_memory :
      al.grants ((string_bytes + (length bs + 1)) % 2 ^ 64) ≡ false
        ⊎ ((is_mutable ≡ true) × (al.grants (length bs + 1) ≡ false))
      → Created al e bs is_mutable none
  made :
      {s : String}
      → accepts e bs ≡ true
      → s.encoding ≡ e
      → s.is_mutable ≡ is_mutable
      → Holds s bs
      → Created al e bs is_mutable (some s)

made_string :
    (al : Allocator) (bs : List ℕ) (e : Encoding) (is_mutable : Bool) {s : String}
    → IsText bs
    → length bs < 2 ^ 63
    → accepts e bs ≡ true
    → al.grants ((string_bytes + (length bs + 1)) % 2 ^ 64) ≡ true
    → s ≡ record {
      encoding = e;
      is_mutable = is_mutable;
      is_inlined = not is_mutable && true;
      buffer = some (written bs ++ some 0 ∷ []);
      length = length bs;
    }
    → Created al e bs is_mutable (some s)
made_string al bs e is_mutable t small valid granted is =
    made valid (ap (λ r. r.encoding) is) (ap (λ r. r.is_mutable) is) (record {
      text = t;
      behind = [];
      block = ap (λ r. r.buffer) is;
      counted = ap (λ r. r.length) is;
      small = omega (arith, al.grants_small _ granted);
    })

create_valid-Created :
    (al : Allocator) (bs : List ℕ) (X : Block) (e : Encoding) (is_mutable : Bool)
    → IsText bs
    → length bs < 2 ^ 63
    → accepts e bs ≡ true
    → Returns
        (Created al e bs is_mutable)
        (create_valid al (written bs ++ X) (length bs) e true is_mutable)
create_valid-Created al bs X e false t small valid =
    elim (Bool-cases (al.grants ((string_bytes + (length bs + 1)) % 2 ^ 64))) [
      | inr denied ↦ rw denied (returns (out_of_memory (inl denied)))
      | inl granted ↦
          rw (granted, string_buffer-written bs X true false refl)
            (returns (made_string al bs e false t small valid granted refl))
    ]
create_valid-Created al bs X e true t small valid =
    elim (Bool-cases (al.grants ((string_bytes + (length bs + 1)) % 2 ^ 64))) [
      | inr denied ↦ rw denied (returns (out_of_memory (inl denied)))
      | inl granted ↦ elim (Bool-cases (al.grants (length bs + 1))) [
        | inl own ↦
            rw (granted, own, string_buffer-written bs X true true refl)
              (returns (made_string al bs e true t small valid granted refl))
        | inr denied ↦ rw (granted, denied) (returns (out_of_memory (inr (refl, denied))))
      ]
    ]

-- `__EFStringCreate` with a copy.
pub create_string-Created :
    (al : Allocator) (bs : List ℕ) (X : Block) (n : ℕ) (e : Encoding) (is_mutable : Bool)
    → IsText bs
    → n < 2 ^ 63
    → Ends n bs X
    → Returns
        (Created al e bs is_mutable)
        (create_string al (some (written bs ++ X)) (pos n) e true is_mutable)
unfolding create_string
create_string-Created al bs X n e is_mutable t small ends =
    let counted = strnlen-written n bs X t ends in
    let checked = validate_encoding-accepts e bs X (IsText-IsBytes bs t) in
    rw (counted, checked)
      (elim (Bool-cases (accepts e bs)) [
        | inl valid ↦ rw valid (create_valid-Created al bs X e is_mutable t (ground arith) valid)
        | inr invalid ↦ rw invalid (returns (refused invalid))
      ])

-- `EFStringCreateCopy` and `EFStringCreateMutableCopy` of a string that holds a text: the copy holds
-- it too, in the same encoding, or there is none, for the want of memory or of a valid text.
pub create_string_copy-Created :
    (al : Allocator) (s : String) (bs : List ℕ) (is_mutable : Bool)
    → Holds s bs
    → Returns (Created al s.encoding bs is_mutable) (create_string_copy al (some s) is_mutable)
unfolding create_string_copy
create_string_copy-Created al s bs is_mutable h =
    rw (h.block, h.counted)
      (create_string-Created al bs (some 0 ∷ h.behind) (length bs) s.encoding is_mutable h.text
        (omega (arith, h.small)) (inl refl))
