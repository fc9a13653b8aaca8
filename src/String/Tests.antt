-- ===== src/String/Tests.antt =====
-- Strings that run (src/EFString.c), and the theorems about them at these strings.
use emex_foundation.Base.{
  ℕ, Bool, true, false, not, Option, none, some, List, [], ◌∷◌, ◌++◌, ◌≡◌, ◌↔◌, refl, arith, length,
  pos, negsuc, ◌+ℤ◌, ◌-ℤ◌, ◌-◌, ◌^◌, Run, ok, fault, abort, Returns,
}
use emex_foundation.Allocator.{megabyte}
use emex_foundation.Number.{s_int64, create}
use emex_foundation.Data.{Block}
use emex_foundation.Data.Holds.{written}
use emex_foundation.String.Encoding.{
  Encoding, utf7, ascii, utf8, code, validate_encoding, validate_ascii, validate_utf7,
  validate_utf8, utf8_char, utf8_lead, utf8_tail, code_point_allowed, shift_loop, after_plus,
}
use emex_foundation.String.Accepts.{
  IsUtf8, accepts, validate_encoding-ends, validate_encoding-IsUtf8,
}
use emex_foundation.String.Model.{
  String, create_string_copy, create_copy_with_range, get_c_string_ptr, strlen,
}
use emex_foundation.String.Holds.{Holds, Edited}
use emex_foundation.String.Create.{Created, create_string_copy-Created}
use emex_foundation.String.Compare.{
  has_prefix, string_equal, string_equal_range, string_hash, compare_bytes,
}
use emex_foundation.String.Equality.{string_equal-texts, string_equal-string_hash}
use emex_foundation.String.Prefix.{has_prefix-texts}
use emex_foundation.String.Edit.{other, trim_whitespace, append_string, delete_range}
use emex_foundation.String.Trim.{trim_left, trim_right}
use emex_foundation.String.Trimmed.{trim_whitespace-Edited}
use emex_foundation.String.Append.{Appended, append_string-Appended}
use emex_foundation.String.Delete.{Deleted, delete_range-Deleted}
use emex_foundation.String.Numbers.{
  create_number, is_number, extract_number, extract_hexadecimal, extract_binary, extract_decimal,
  extract_character, check_digits, strtoull,
}
use emex_foundation.String.Literals.{hexadecimal, marker, value_from}
use emex_foundation.String.Split.{Components, components_split}
use emex_foundation.Array.Model.{create_mutable, append_value}
use emex_foundation.String.Split.{count_separators, split_loop, split_round, last_component}
use emex_foundation.String.Model.{create_string, strnlen}
use emex_foundation.String.Compare.{strncmp}
use emex_foundation.String.Splitting.{cut, components}
use emex_foundation.String.SplitEnds.{Split}
use emex_foundation.String.SplitText.{components_split-Split, components_split-hangs}
use emex_foundation.String.NumberObjects.{number_of, create_number-literal}

abbrev euro : List ℕ
euro = 0xe2 ∷ 0x82 ∷ 0xac ∷ []

abbrev word : List ℕ
word = b' ' ∷ b'a' ∷ b'b' ∷ b' ' ∷ []

abbrev terminated : Encoding → Bool → List ℕ → String
terminated e is_mutable bs = record {
  encoding = e;
  is_mutable = is_mutable;
  is_inlined = not is_mutable;
  buffer = some (written bs ++ some 0 ∷ []);
  length = length bs;
}

abbrev note : String
note = terminated utf8 true word

note-Holds : Holds note word
note-Holds = record {
  text = omega arith;
  behind = [];
  block = refl;
  counted = refl;
  small = omega arith;
}

abbrev label : String
label = terminated ascii false (b' ' ∷ b'a' ∷ [])

label-Holds : Holds label (b' ' ∷ b'a' ∷ [])
label-Holds = record {
  text = omega arith;
  behind = [];
  block = refl;
  counted = refl;
  small = omega arith;
}

euro_accepted : validate_encoding utf8 (written euro) 3 ≡ ok true
unfolding validate_encoding validate_utf8 utf8_char utf8_lead utf8_tail code_point_allowed
euro_accepted = refl

-- A surrogate, an overlong form and a cut sequence.
surrogate_refused : validate_encoding utf8 (written (0xed ∷ 0xa0 ∷ 0x80 ∷ [])) 3 ≡ ok false
unfolding validate_encoding validate_utf8 utf8_char utf8_lead utf8_tail code_point_allowed
surrogate_refused = refl

overlong_refused : validate_encoding utf8 (written (0xc0 ∷ 0xaf ∷ [])) 2 ≡ ok false
unfolding validate_encoding validate_utf8 utf8_char utf8_lead utf8_tail code_point_allowed
overlong_refused = refl

cut_refused : validate_encoding utf8 (written euro) 2 ≡ ok false
unfolding validate_encoding validate_utf8 utf8_char utf8_lead utf8_tail code_point_allowed
cut_refused = refl

validate_encoding-IsUtf8_example :
    (validate_encoding utf8 (written euro ++ []) 3 ≡ ok true) ↔ IsUtf8 euro
validate_encoding-IsUtf8_example = validate_encoding-IsUtf8 euro [] (omega arith)

validate_encoding-ends_example :
    (b : Bool) × ((X : Block) → validate_encoding utf7 (written (b'+' ∷ b'A' ∷ []) ++ X) 2 ≡ ok b)
validate_encoding-ends_example = validate_encoding-ends utf7 (b'+' ∷ b'A' ∷ []) (omega arith)

create_string_copy-Created_example :
    Returns (Created megabyte utf8 word false) (create_string_copy megabyte (some note) false)
create_string_copy-Created_example = create_string_copy-Created megabyte note word false note-Holds

label_valid : accepts ascii (b' ' ∷ b'a' ∷ []) ≡ true
unfolding accepts validate_encoding validate_ascii
label_valid = refl

note_valid : accepts utf8 word ≡ true
unfolding accepts validate_encoding validate_utf8 utf8_char utf8_lead utf8_tail code_point_allowed
note_valid = refl

string_equal-texts_example :
    (r : Bool) × (string_equal (some note) (some label) ≡ ok r)
    × ((r ≡ true) ↔ (word ≡ b' ' ∷ b'a' ∷ []))
string_equal-texts_example = string_equal-texts note-Holds label-Holds note_valid label_valid

twin : String
twin = terminated ascii false word

twin_equal : string_equal (some note) (some twin) ≡ ok true
unfolding string_equal compare_bytes validate_encoding validate_ascii validate_utf8 utf8_char
    utf8_lead utf8_tail code_point_allowed twin
twin_equal = refl

twin-Holds : Holds twin word
unfolding twin
twin-Holds = record {
  text = omega arith;
  behind = [];
  block = refl;
  counted = refl;
  small = omega arith;
}

string_equal-string_hash_example :
    (v : ℕ) × (string_hash (some note) ≡ ok v) × (string_hash (some twin) ≡ ok v)
string_equal-string_hash_example = string_equal-string_hash note-Holds twin-Holds twin_equal

has_prefix-texts_example :
    (r : Bool) × (has_prefix false (some note) (some label) ≡ ok r)
    × (r ≡ true → (rest : List ℕ) × (word ≡ (b' ' ∷ b'a' ∷ []) ++ rest))
    × (code ascii ≡ code utf8 → (rest : List ℕ) × (word ≡ (b' ' ∷ b'a' ∷ []) ++ rest) → r ≡ true)
has_prefix-texts_example = has_prefix-texts note-Holds label-Holds

trim_whitespace-Edited_example :
    Returns (Edited note (trim_right (trim_left word))) (trim_whitespace (some note))
trim_whitespace-Edited_example = trim_whitespace-Edited note word note-Holds refl

append_string-Appended_example :
    Returns
      (Appended megabyte note word (b' ' ∷ b'a' ∷ []))
      (append_string megabyte (some note) (other (some label)))
append_string-Appended_example =
    append_string-Appended megabyte note label word (b' ' ∷ b'a' ∷ []) note-Holds label-Holds refl

delete_range-Deleted_example :
    Returns (Deleted note word 1 2) (delete_range (some note) (pos 1) (pos 2))
delete_range-Deleted_example = delete_range-Deleted note word 1 2 note-Holds refl (omega arith)

-- A range whose end wraps passes the check.
delete_wraps : delete_range (some note) (pos (2 ^ 63 - 1)) (pos (2 ^ 63 - 1)) ≡ fault
unfolding delete_range ◌+ℤ◌
delete_wraps = refl

abbrev literal_text : List ℕ
literal_text = marker hexadecimal ++ b'f' ∷ b'F' ∷ []

abbrev literal_string : String
literal_string = terminated utf8 false literal_text

literal_string-Holds : Holds literal_string literal_text
literal_string-Holds = record {
  text = omega arith;
  behind = [];
  block = refl;
  counted = refl;
  small = omega arith;
}

create_number-literal_example :
    create_number megabyte (pos 0) (some literal_string)
    ≡ ok (some (number_of (pos 0) (value_from 16 0 (b'f' ∷ b'F' ∷ []))))
create_number-literal_example =
    create_number-literal megabyte (pos 0) hexadecimal (b'f' ∷ b'F' ∷ []) literal_string
      literal_string-Holds (omega arith) refl refl

literal_is_255 : value_from 16 0 (b'f' ∷ b'F' ∷ []) ≡ 255
literal_is_255 = refl

-- The empty text counts as a number, of which there is no object.
empty_is_number : is_number (some (terminated ascii false [])) ≡ ok true
unfolding is_number get_c_string_ptr validate_encoding validate_ascii extract_number
    extract_hexadecimal extract_binary extract_decimal check_digits strtoull
empty_is_number = refl

empty_number : create_number megabyte (pos 0) (some (terminated ascii false [])) ≡ ok none
unfolding create_number
empty_number = refl

-- A text of one quote is read past its end.
quote_overrun : is_number (some (terminated ascii false (b'\'' ∷ []))) ≡ fault
unfolding is_number get_c_string_ptr validate_encoding validate_ascii extract_number
    extract_hexadecimal extract_binary extract_decimal extract_character check_digits
quote_overrun = refl

-- Nothing is asked of the characters behind an escaped one but a closing quote.
long_character :
    create_number megabyte
      (pos 0)
      (some (terminated ascii false (b'\'' ∷ b'\\' ∷ b'n' ∷ b'x' ∷ b'\'' ∷ [])))
    ≡ ok (some (record { type = s_int64; s128 = pos 10 }))
unfolding create_number get_c_string_ptr validate_encoding validate_ascii extract_number
    extract_hexadecimal extract_binary extract_decimal extract_character check_digits strlen create
long_character = refl

-- A range that is longer than the other string is compared behind that string's end.
range_overrun : string_equal_range (some twin) (some label) (pos 0) (pos 4) ≡ fault
unfolding string_equal_range ◌-ℤ◌ compare_bytes twin
range_overrun = refl

-- A copy from in front of the buffer.
copy_before : create_copy_with_range megabyte (some note) (negsuc 0) (pos 2) ≡ fault
unfolding create_copy_with_range ◌+ℤ◌
copy_before = refl

-- An `a` in a shift sequence is valid UTF-7, and is refused.
shifted_refused :
    validate_encoding utf7 (written (b'+' ∷ b'A' ∷ b'G' ∷ b'E' ∷ b'-' ∷ [])) 5 ≡ ok false
unfolding validate_encoding validate_utf7 after_plus shift_loop
shifted_refused = refl

abbrev csv_text : List ℕ
csv_text = b'a' ∷ b',' ∷ b',' ∷ b'b' ∷ b'c' ∷ []

abbrev csv : String
csv = terminated ascii false csv_text

csv-Holds : Holds csv csv_text
csv-Holds = record {
  text = omega arith;
  behind = [];
  block = refl;
  counted = refl;
  small = omega arith;
}

abbrev comma : String
comma = terminated ascii false (b',' ∷ [])

comma-Holds : Holds comma (b',' ∷ [])
comma-Holds = record {
  text = omega arith;
  behind = [];
  block = refl;
  counted = refl;
  small = omega arith;
}

abbrev blank : String
blank = terminated ascii false []

blank-Holds : Holds blank []
blank-Holds = record { text = tt; behind = []; block = refl; counted = refl; small = omega arith }

csv_parts : components (b',' ∷ []) csv_text ≡ (b'a' ∷ []) ∷ (b'b' ∷ b'c' ∷ []) ∷ []
unfolding cut
csv_parts = refl

components_split-Split_example :
    (r : Run (Option Components)) × (components_split megabyte 6 (some csv) (some comma) ≡ some r)
    × Split megabyte ascii (b',' ∷ []) csv_text (components (b',' ∷ []) csv_text) r
components_split-Split_example =
    components_split-Split megabyte csv comma csv_text b',' [] 6 csv-Holds comma-Holds refl
      (omega arith) (omega arith) (omega arith)

-- The last piece, cut off inside a character, is not valid, and the NULL for it is released.
split_aborts :
    components_split megabyte 4
      (some (terminated utf8 false euro))
      (some (terminated utf8 false (0xe2 ∷ [])))
    ≡ some abort
unfolding components_split count_separators strncmp create_mutable split_loop split_round
    last_component create_string strnlen validate_encoding validate_utf8 utf8_char utf8_lead
    append_value
split_aborts = refl

components_split-hangs_example : components_split megabyte 1000 (some csv) (some blank) ≡ none
components_split-hangs_example =
    components_split-hangs megabyte csv blank csv_text 1000 csv-Holds blank-Holds refl (omega arith)
      (omega arith) (λ n h. ground arith)
