-- ===== src/Url/Changes.antt =====
-- The functions of src/EFURL.c that make a URL of another one, on the lists of its components.
use emex_foundation.Base.{
  ℕ, ◌*◌, ◌==◌, Bool, true, false, Option, none, some, List, [], ◌∷◌, ◌++◌, ◌≡◌, ◌≢◌, refl, sym, ap,
  ◌∙◌, inl, inr, arith, length, ok, ◌>>=◌, Returns, returns, Returns-bind, Returns-mono, Bool-cases,
}
use emex_foundation.Allocator.{Allocator}
use emex_foundation.Array.Model.{Array, Ptr, null, append_value, get_count, retain_item}
use emex_foundation.Array.Append.{Added, append_value-Added, has_room, Became}
use emex_foundation.Array.AppendArray.{retain_all}
use emex_foundation.Array.Bulk
use emex_foundation.Array.Create
use emex_foundation.String.Split.{Strings, object_callbacks}
use emex_foundation.String.Cuts.{full_NoRoom, retains}
use emex_foundation.Url.{
  Url, url_with, url_appended, url_deleted, append_path_component, delete_last_path_component,
  replace_last_path_component,
}
use emex_foundation.Url.Parts.{
  Derived, HasPath, NoNull-append, NoNull-without_last, counted, no_object, no_room, derived,
  remove_last, retains_all, url_with-Derived, without_last,
}

module _ (al : Allocator) (url : Url) (strings : Strings) (xs : List Ptr) (h : HasPath url xs)
    (block : al.grants (length xs * 8) ≡ true) (header : al.grants 72 ≡ true) where
  copied :
      Returns
        (emex_foundation.Array.Create.Created object_callbacks true xs strings)
        (emex_foundation.Array.Bulk.create_copy al url.path_components true strings)
  copied =
      let kept = ap (λ c. retain_all c xs strings) h.callbacks ∙ retains_all xs strings in
      rw h.is (
        Returns-mono
          (emex_foundation.Array.Create.create_copy-Created al true strings strings h.holds h.real
            block header kept)
          (λ out (b, is, m, cb, hb, st). (b, is, m, cb ∙ h.callbacks, hb, st)))

  appended-Derived :
      (b : Array Strings) (p : Ptr) (r : Bool × Option (Array Strings) × Strings)
      → b.callbacks ≡ object_callbacks
      → emex_foundation.Array.Holds.Holds b xs
      → p ≢ null
      → Added al b xs (xs ++ p ∷ []) p strings r
      → Returns (Derived al url (some (length xs)) (xs ++ p ∷ []) strings) (url_appended al url r)
  appended-Derived b p (false, o, strings') cb hb n m = elim (Bool-cases (has_room al b)) [
    | inl room ↦ let same = sym (m.kept room) ∙ retains b p strings cb in absurd (cc)
    | inr full ↦ rw (m.refused full).1 (returns (no_room refl (full_NoRoom al hb full)))
  ]
  appended-Derived b p (true, o, strings') cb hb n m = elim (Bool-cases (has_room al b)) [
    | inl room ↦
        let same = sym (m.kept room) ∙ retains b p strings cb in
        let left : strings' ≡ strings = cc in
        rw (m.became.is, left)
          (returns (
            url_with-Derived al url (some (length xs)) m.became.array (xs ++ p ∷ []) strings
              (m.became.same_callbacks ∙ cb) m.became.holds (NoNull-append xs p h.real n)))
    | inr full ↦ let (t, _) = m.refused full in absurd (cc)
  ]

  append_path_component-Derived :
      (p : Ptr)
      → p ≢ null
      → Returns
          (Derived al url (some (length xs)) (xs ++ p ∷ []) strings)
          (append_path_component al (some url) p strings)
  unfolding append_path_component
  append_path_component-Derived p n =
      let off : (p == null) ≡ false = ground arith in rw off (Returns-bind copied go)
    where
      go :
          (out : Option (Array Strings) × Strings)
          → emex_foundation.Array.Create.Created object_callbacks true xs strings out
          → Returns
              (Derived al url (some (length xs)) (xs ++ p ∷ []) strings)
              (append_value al out.0 p out.1 >>= url_appended al url)
      go (o, strings') (b, is, m, cb, hb, st) =
          let keeps : Returns (λ _. Unit {0}) (retain_item b.callbacks p strings) =
            rw (retains b p strings cb) (returns tt) in
          rw (is, st)
            (Returns-bind (append_value-Added al p strings hb m n keeps)
              (λ r a. appended-Derived b p r cb hb n a))

  deleted :
      (b : Array Strings) (r : Option (Array Strings) × Strings)
      → b.callbacks ≡ object_callbacks
      → Became b (without_last xs) r.0 × (r.1 ≡ strings)
      → Returns (Derived al url none (without_last xs) strings) (ok (url_with al url r.0, r.1))
  deleted b r cb (k, same) =
      rw (k.is, same)
        (returns (
          url_with-Derived al url none k.array (without_last xs) strings (k.same_callbacks ∙ cb)
            k.holds (NoNull-without_last xs h.real)))

  delete_last_path_component-Derived :
      Returns
        (Derived al url none (without_last xs) strings)
        (delete_last_path_component al (some url) strings)
  unfolding delete_last_path_component
  delete_last_path_component-Derived = Returns-bind copied go
    where
      go :
          (out : Option (Array Strings) × Strings)
          → emex_foundation.Array.Create.Created object_callbacks true xs strings out
          → Returns (Derived al url none (without_last xs) strings) (url_deleted al url out)
      go (o, strings') (b, is, m, cb, hb, st) =
          let count : get_count (some b) ≡ length xs = counted hb in
          rw (is, st, count)
            (Returns-bind (remove_last b xs strings cb hb m) (λ r k. deleted b r cb k))

append_none :
    (al : Allocator) (p : Ptr) (strings : Strings)
    → append_path_component al none p strings ≡ ok (none, strings)
unfolding append_path_component
append_none al p strings = refl

-- A URL derived from a derived one.
Derived-again :
    {al : Allocator} {u url : Url} {asked : Option ℕ} {ys : List Ptr} {strings : Strings}
    {r : Option Url × Strings}
    → u.type ≡ url.type
    → Derived al u asked ys strings r
    → Derived al url asked ys strings r
Derived-again e (no_object g) = no_object g
Derived-again e (no_room is g) = no_room is g
Derived-again e (derived g t s h) = derived g (t ∙ e) s h

replaced :
    (al : Allocator) (url : Url) (strings : Strings) (ys : List Ptr) (p : Ptr)
    → al.grants (length ys * 8) ≡ true
    → al.grants 72 ≡ true
    → p ≢ null
    → (r : Option Url × Strings) → Derived al url none ys strings r
    → Returns
        (Derived al url (some (length ys)) (ys ++ p ∷ []) strings)
        (append_path_component al r.0 p r.1)
replaced al url strings ys p block header n r (no_object g) =
    rw (append_none al p strings) (returns (no_object g))
replaced al url strings ys p block header n r (no_room is g) = cc is
replaced al url strings ys p block header n r (derived {u} g t s h) =
    Returns-mono (append_path_component-Derived al u strings ys h block header p n)
      (λ r. Derived-again t)

-- For a URL whose components are the objects `xs`, with the memory for a copy of the components, the
-- three functions that make a URL of it return a new URL of the same type: with an object that is not
-- NULL appended; without the last component, and with none where there was none; and with the last
-- component replaced, with the memory for the copy that this makes in between. They return NULL only
-- where the request for the object of the URL, or, but in the second, for five more cells of the array
-- that is appended to, is refused.
pub changes-Derived :
    (al : Allocator) (url : Url) (strings : Strings) (xs : List Ptr) (p : Ptr)
    → HasPath url xs
    → al.grants (length xs * 8) ≡ true
    → al.grants (length (without_last xs) * 8) ≡ true
    → al.grants 72 ≡ true
    → p ≢ null
    → Returns
        (Derived al url (some (length xs)) (xs ++ p ∷ []) strings)
        (append_path_component al (some url) p strings)
      × Returns
          (Derived al url none (without_last xs) strings)
          (delete_last_path_component al (some url) strings)
      × Returns
          (Derived al url (some (length (without_last xs))) (without_last xs ++ p ∷ []) strings)
          (replace_last_path_component al (some url) p strings)
unfolding replace_last_path_component
changes-Derived al url strings xs p h block smaller header n =
    let shorter = delete_last_path_component-Derived al url strings xs h block header in
    (
      append_path_component-Derived al url strings xs h block header p n,
      shorter,
      Returns-bind shorter (replaced al url strings (without_last xs) p smaller header n),
    )
