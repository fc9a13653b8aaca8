-- ===== src/Url/Parts.antt =====
-- What the functions of src/EFURL.c that make a URL of another one come to.
use emex_foundation.Base.{
  ℕ, suc, true, false, Option, none, some, List, [], ◌∷◌, ◌++◌, ◌≡◌, ◌≢◌, refl, sym, ap, ◌∙◌, inl,
  inr, arith, length, get_elem?, pos, ok, ◌-ℤ◌, Returns, returns, Returns-mono, Bool-cases,
}
use emex_foundation.Allocator.{Allocator}
use emex_foundation.Array.Model.{
  Array, Ptr, null, remove_value_at_index, release_item, get_count, retain_item,
}
use emex_foundation.Array.Holds
use emex_foundation.Array.Append.{Became}
use emex_foundation.Array.AppendArray.{retain_all}
use emex_foundation.Array.Cells.{remove_at}
use emex_foundation.Array.Create
use emex_foundation.Array.Remove.{remove_value_at_index-remove_at}
use emex_foundation.String.Split.{Strings, object_callbacks}
use emex_foundation.String.Cuts.{NoRoom}
use emex_foundation.Url.{Url, url_with, url_bytes}

-- The components of a URL: an array of objects that are not NULL.
pub record HasPath (url : Url) (xs : List Ptr) : Type 0 where
  pub array : Array Strings
  pub is : url.path_components ≡ some array
  pub callbacks : array.callbacks ≡ object_callbacks
  pub holds : emex_foundation.Array.Holds.Holds array xs
  pub real : emex_foundation.Array.Create.NoNull xs

-- What makes a URL of another one: NULL, because the request for the object is refused, or because the
-- array of `n` components, where `asked` is `n`, cannot grow; or a new URL of the same type and with the
-- components `ys`. The strings stay as they are.
pub data Derived (al : Allocator) (url : Url) (asked : Option ℕ) (ys : List Ptr) (strings : Strings)
    : Option Url × Strings → Type 0 where
  no_object : al.grants url_bytes ≡ false → Derived al url asked ys strings (none, strings)
  no_room : {n : ℕ} → asked ≡ some n → NoRoom al n → Derived al url asked ys strings (none, strings)
  derived :
      {u : Url}
      → al.grants url_bytes ≡ true
      → u.type ≡ url.type
      → u.path_string ≡ none
      → HasPath u ys
      → Derived al url asked ys strings (some u, strings)

-- All but the last.
abbrev pub without_last : List Ptr → List Ptr
without_last [] = []
without_last (x ∷ []) = []
without_last (x ∷ y ∷ xs) = x ∷ without_last (y ∷ xs)

released : (z : Ptr) (strings : Strings) → release_item object_callbacks z strings ≡ ok strings
unfolding release_item
released z strings = refl

pub retains_all :
    (xs : List Ptr) (strings : Strings)
    → retain_all object_callbacks xs strings ≡ ok (true, strings)
unfolding retain_item
retains_all [] strings = refl
retains_all (x ∷ xs) strings = retains_all xs strings

pub NoNull-append :
    (xs : List Ptr) (p : Ptr)
    → emex_foundation.Array.Create.NoNull xs
    → p ≢ null
    → emex_foundation.Array.Create.NoNull (xs ++ p ∷ [])
NoNull-append [] p h n = (n, tt)
NoNull-append (x ∷ xs) p h n = (h.0, NoNull-append xs p h.1 n)

pub NoNull-without_last :
    (xs : List Ptr)
    → emex_foundation.Array.Create.NoNull xs
    → emex_foundation.Array.Create.NoNull (without_last xs)
NoNull-without_last [] h = tt
NoNull-without_last (x ∷ []) h = tt
NoNull-without_last (x ∷ y ∷ xs) h = (h.0, NoNull-without_last (y ∷ xs) h.1)

remove_at-last : (x : Ptr) (xs : List Ptr) → remove_at (length xs) (x ∷ xs) ≡ without_last (x ∷ xs)
remove_at-last x [] = refl
remove_at-last x (y ∷ xs) = ap (◌∷◌ x) (remove_at-last y xs)

last-get_elem? : (x : Ptr) (xs : List Ptr) → (z : Ptr) × (get_elem? (x ∷ xs) (length xs) ≡ some z)
last-get_elem? x [] = (x, refl)
last-get_elem? x (y ∷ xs) = last-get_elem? y xs

pub url_with-Derived :
    (al : Allocator) (url : Url) (asked : Option ℕ) (a : Array Strings) (ys : List Ptr)
    (strings : Strings)
    → a.callbacks ≡ object_callbacks
    → emex_foundation.Array.Holds.Holds a ys
    → emex_foundation.Array.Create.NoNull ys
    → Derived al url asked ys strings (url_with al url (some a), strings)
url_with-Derived al url asked a ys strings cb h nn = elim (Bool-cases (al.grants url_bytes)) [
  | inl granted ↦ rw granted (
      derived granted refl refl
        (record { array = a; is = refl; callbacks = cb; holds = h; real = nn }))
  | inr refused ↦ rw refused (no_object refused)
]

minus_one : (n : ℕ) → pos (suc n) -ℤ pos 1 ≡ pos n
unfolding ◌-ℤ◌
minus_one n = ground arith

pub counted :
    {b : Array Strings} {xs : List Ptr}
    → emex_foundation.Array.Holds.Holds b xs
    → get_count (some b) ≡ length xs
unfolding get_count
counted h = h.counted

removal_of_none :
    (b : Array Strings) (strings : Strings)
    → remove_value_at_index (some b) (pos 0 -ℤ pos 1) strings ≡ ok (some b, strings)
unfolding remove_value_at_index ◌-ℤ◌
removal_of_none b strings = refl

pub remove_last :
    (b : Array Strings) (xs : List Ptr) (strings : Strings)
    → b.callbacks ≡ object_callbacks
    → emex_foundation.Array.Holds.Holds b xs
    → b.is_mutable ≡ true
    → Returns
        (λ out. Became b (without_last xs) out.0 × (out.1 ≡ strings))
        (remove_value_at_index (some b) (pos (length xs) -ℤ pos 1) strings)
remove_last b [] strings cb h m = rw (removal_of_none b strings) (
    returns (
      record { array = b; is = refl; same_mutable = refl; same_callbacks = refl; holds = h },
      refl,
    ))
remove_last b (x ∷ xs) strings cb h m =
    let (z, at) = last-get_elem? x xs in
    let release : release_item b.callbacks z strings ≡ ok strings =
      ap (λ c. release_item c z strings) cb ∙ released z strings in
    rw (minus_one (length xs)) (
      Returns-mono (remove_value_at_index-remove_at (length xs) strings h m at release)
        (λ out k. (rw (sym (remove_at-last x xs)) k.0, k.1)))
