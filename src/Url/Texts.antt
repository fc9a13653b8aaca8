-- ===== src/Url/Texts.antt =====
-- The texts that the path of a URL (src/EFURL.c) is made of.
use emex_foundation.Base.{
  ◌+◌, ◌%◌, ℕ, zero, suc, ◌-◌, ◌<◌, ◌^◌, Bool, true, false, Option, none, some, List, [], ◌∷◌, ◌++◌,
  ◌≡◌, refl, sym, ap, ◌∙◌, ◌⊎◌, inl, inr, arith, ltb, ◌==◌, length, drop, get_elem?, ok, Run,
  Returns, returns, append-nil, Bool-cases,
}
use emex_foundation.Allocator.{Allocator}
use emex_foundation.Array.Model.{null}
use emex_foundation.String.Accepts.{accepts}
use emex_foundation.String.Cuts.{length-addresses, HoldEach, addresses, nothing, more}
use emex_foundation.String.Encoding.{
  utf8, validate_encoding, validate_utf8, utf8_char, utf8_lead, utf8_tail, code_point_allowed,
}
use emex_foundation.String.Holds.{Holds, IsText}
use emex_foundation.String.Model.{String, string_bytes}
use emex_foundation.String.Split.{Strings}
use emex_foundation.String.Splitting.{join}
use emex_foundation.Url.{UrlType, posix, http, https, literal, slash, url_prefix, string_at}

get_elem?-front :
    {A : Type 0} (xs ys : List A) (i : ℕ) → i < length xs → get_elem? (xs ++ ys) i ≡ get_elem? xs i
get_elem?-front [] ys i h = absurd (omega arith)
get_elem?-front (x ∷ xs) ys zero h = refl
get_elem?-front (x ∷ xs) ys (suc i) h = get_elem?-front xs ys i (omega arith)

get_elem?-end : {A : Type 0} (xs : List A) (y : A) → get_elem? (xs ++ y ∷ []) (length xs) ≡ some y
get_elem?-end [] y = refl
get_elem?-end (x ∷ xs) y = get_elem?-end xs y

pub get_elem?-addresses : (n i : ℕ) → i < n → get_elem? (addresses n) i ≡ some (suc i)
get_elem?-addresses zero i h = absurd (omega arith)
get_elem?-addresses (suc n) i h = elim (Bool-cases (ltb i n)) [
  | inl below ↦
      let inside : i < n = ground arith in
      get_elem?-front (addresses n) (suc n ∷ []) i (omega (arith, length-addresses n))
      ∙ get_elem?-addresses n i inside
  | inr last ↦
      let is : i ≡ n = ground arith in
      ap (get_elem? (addresses (suc n))) (is ∙ sym (length-addresses n))
      ∙ get_elem?-end (addresses n) (suc n)
      ∙ ap (λ k. some (suc k)) (sym is)
]

-- The string and the text at an index.
pub HoldEach-at :
    {cs : List String} {ps : List (List ℕ)} (i : ℕ)
    → HoldEach Holds cs ps
    → i < length ps
    → (c : String) × (p : List ℕ) × (get_elem? cs i ≡ some c)
      × Holds c p
      × (get_elem? ps i ≡ some p)
      × (drop i ps ≡ p ∷ drop (suc i) ps)
HoldEach-at i nothing h = absurd (omega arith)
HoldEach-at zero (more hc hs) h = (_, _, refl, hc, refl, refl)
HoldEach-at (suc i) (more hc hs) h = HoldEach-at i hs (omega arith)

pub string_at-suc :
    (strings : Strings) (i : ℕ) {c : String}
    → get_elem? strings i ≡ some c
    → string_at strings (suc i) ≡ ok (some c)
string_at-suc strings i e =
    let past : (suc i == null) ≡ false = ground arith in
    let minus : suc i - 1 ≡ i = omega arith in rw (past, minus, e) refl

pub literal-Holds : (bs : List ℕ) → IsText bs → length bs < 2 ^ 63 - 1 → Holds (literal bs) bs
literal-Holds bs t small = record {
  text = t;
  behind = [];
  block = refl;
  counted = refl;
  small = small;
}

-- The rest of a path: each part, with a slash in front of it.
abbrev pub slashed : List (List ℕ) → List ℕ
slashed [] = []
slashed (p ∷ ps) = slash ++ (p ++ slashed ps)

join-slashed : (p : List ℕ) (ps : List (List ℕ)) → join slash (p ∷ ps) ≡ p ++ slashed ps
join-slashed p [] = sym (append-nil p)
join-slashed p (q ∷ ps) = ap (λ l. p ++ (slash ++ l)) (join-slashed q ps)

pub empty_accepted : accepts utf8 [] ≡ true
unfolding accepts validate_encoding validate_utf8 utf8_char utf8_lead utf8_tail code_point_allowed
empty_accepted = refl

pub url_prefix-valid :
    (t : UrlType)
    → IsText (url_prefix t)
      × (length (url_prefix t) < 2 ^ 63 - 1)
      × (accepts utf8 (url_prefix t) ≡ true)
unfolding accepts validate_encoding validate_utf8 utf8_char utf8_lead utf8_tail code_point_allowed
url_prefix-valid posix = (omega arith, omega arith, refl)
url_prefix-valid http = (omega arith, omega arith, refl)
url_prefix-valid https = (omega arith, omega arith, refl)

pub slash_accepted : accepts utf8 slash ≡ true
unfolding accepts validate_encoding validate_utf8 utf8_char utf8_lead utf8_tail code_point_allowed
slash_accepted = refl

-- The parts are all valid UTF-8.
abbrev pub Valid : List (List ℕ) → Type 0
Valid [] = Unit {0}
Valid (p ∷ ps) = (accepts utf8 p ≡ true) × Valid ps

-- Why there is no string of `text`, which is made of the parts: a part is not valid UTF-8, or the
-- request for the characters of a beginning of the text and a zero is refused.
abbrev pub Failed : Allocator → List (List ℕ) → List ℕ → Type 0
Failed al parts text =
    ((i : ℕ) × (part : List ℕ) × (get_elem? parts i ≡ some part) × (accepts utf8 part ≡ false))
    ⊎ ((front : List ℕ) × (rest : List ℕ) × (text ≡ front ++ rest)
        × (al.grants (length front + 1) ≡ false))

-- A mutable UTF-8 string holds the text `xs`.
pub record Mutable (s : String) (xs : List ℕ) : Type 0 where
  pub encoding : s.encoding ≡ utf8
  pub is_mutable : s.is_mutable ≡ true
  pub holds : Holds s xs

-- What the appending of the parts comes to, from a string on that held the front of the text.
pub data Filled (al : Allocator) (parts : List (List ℕ)) (text : List ℕ)
    : Option String → Type 0 where
  failed : Failed al parts text → Filled al parts text none
  filled : {s : String} → Valid parts → Mutable s text → Filled al parts text (some s)

-- What a copy of a path comes to: NULL, where the request for the object of a string of `prefix` is
-- refused or there is no string of the text, or a new mutable string of the text, whose parts are
-- valid.
pub data Copied (al : Allocator) (prefix : List ℕ) (parts : List (List ℕ)) (text : List ℕ)
    : Option String → Type 0 where
  no_object :
      al.grants ((string_bytes + (length prefix + 1)) % 2 ^ 64) ≡ false
      → Copied al prefix parts text none
  made_of : {o : Option String} → Filled al parts text o → Copied al prefix parts text o

-- What a step of the appending comes to, towards `text`: it stops, or a string holds `ys` and `V` is
-- true of what was appended.
pub data Step (al : Allocator) (parts : List (List ℕ)) (text : List ℕ) (V : Type 0) (ys : List ℕ)
    : Bool × Option String → Type 0 where
  stopped : {o : Option String} → Failed al parts text → Step al parts text V ys (false, o)
  went_on : {s : String} → V → Mutable s ys → Step al parts text V ys (true, some s)

abbrev pub separated : Bool → List ℕ
separated true = slash
separated false = []

abbrev pub rest_text : Bool → List (List ℕ) → List ℕ
rest_text b [] = []
rest_text b (p ∷ ps) = separated b ++ (p ++ slashed ps)

pub rest_text-slashed : (ps : List (List ℕ)) → rest_text true ps ≡ slashed ps
rest_text-slashed [] = refl
rest_text-slashed (p ∷ ps) = refl

pub rest_text-join : (ps : List (List ℕ)) → rest_text false ps ≡ join slash ps
rest_text-join [] = refl
rest_text-join (p ∷ ps) = sym (join-slashed p ps)

pub Returns-is : {A : Type 0} {x : A} {r : Run A} → Returns (λ y. y ≡ x) r → r ≡ ok x
Returns-is (returns e) = ap ok e
