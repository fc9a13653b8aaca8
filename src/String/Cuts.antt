-- ===== src/String/Cuts.antt =====
-- One component of a split (src/EFString.c) made and appended.
use emex_foundation.Base.{
  ℕ, zero, suc, ◌^◌, ◌<◌, Bool, true, false, ◌||◌, Option, none, some, List, [], ◌∷◌, ◌++◌, ◌≡◌,
  refl, sym, ap, ◌∙◌, ◌⊎◌, inl, inr, arith, leb, le→leb, Bool-cases, length, length-append, ok,
  ◌>>=◌, Run, Returns, returns, Returns-value, ◌%◌, ◌*◌, ◌+◌, append_assoc, some_inj,
}
use emex_foundation.Allocator.{Allocator}
use emex_foundation.Array.Model.{Array, Ptr, append_value, retain_item}
use emex_foundation.Array.Holds
use emex_foundation.Array.Holds.{length-items}
use emex_foundation.Array.Append.{Added, append_value-Added, has_room}
use emex_foundation.Data.{Block}
use emex_foundation.Data.Holds.{written, written-append}
use emex_foundation.String.Accepts.{accepts, drop-written}
use emex_foundation.String.Encoding.{Encoding}
use emex_foundation.String.Memory.{length-written_append}
use emex_foundation.String.Model.{String, advance, string_bytes}
use emex_foundation.String.Holds.{Holds, IsText}
use emex_foundation.String.Create.{Created, create_string-Created, refused, out_of_memory, made}
use emex_foundation.String.Prefix.{starts_with, strncmp-written, strncmp_comm}
use emex_foundation.String.Split.{
  Components, Strings, object_callbacks, separator_at, append_component, appended_component,
}

-- The addresses of the first strings that are made.
abbrev pub addresses : ℕ → List Ptr
addresses zero = []
addresses (suc n) = addresses n ++ suc n ∷ []

pub length-addresses : (n : ℕ) → length (addresses n) ≡ n
length-addresses zero = refl
length-addresses (suc n) =
    omega (arith, length-append (addresses n) (suc n ∷ []), length-addresses n)

-- Each string stands for its text in the sense of `P`.
pub data HoldEach (P : String → List ℕ → Type 0) : List String → List (List ℕ) → Type 0 where
  nothing : HoldEach P [] []
  more :
      {c : String} {cs : List String} {p : List ℕ} {ps : List (List ℕ)}
      → P c p
      → HoldEach P cs ps
      → HoldEach P (c ∷ cs) (p ∷ ps)

HoldEach-append :
    {P : String → List ℕ → Type 0} {cs ds : List String} {ps qs : List (List ℕ)}
    → HoldEach P cs ps
    → HoldEach P ds qs
    → HoldEach P (cs ++ ds) (ps ++ qs)
HoldEach-append nothing k = k
HoldEach-append (more h hs) k = more h (HoldEach-append hs k)

pub HoldEach-length :
    {P : String → List ℕ → Type 0} {cs : List String} {ps : List (List ℕ)}
    → HoldEach P cs ps
    → length cs ≡ length ps
HoldEach-length nothing = refl
HoldEach-length (more hc hs) = ap suc (HoldEach-length hs)

-- An array of strings that stand for the parts of a text, in order.
pub record HoldsParts (P : String → List ℕ → Type 0) (c : Components) (parts : List (List ℕ))
    : Type 0 where
  pub array : emex_foundation.Array.Holds.Holds c.0 (addresses (length c.1))
  pub is_mutable : c.0.is_mutable ≡ true
  pub callbacks : c.0.callbacks ≡ object_callbacks
  pub texts : HoldEach P c.1 parts

-- A string of the encoding that holds a text that is valid in it.
pub record Piece (e : Encoding) (c : String) (p : List ℕ) : Type 0 where
  pub encoding : c.encoding ≡ e
  pub valid : accepts e p ≡ true
  pub holds : Holds c p

abbrev pub Pieces : Encoding → Components → List (List ℕ) → Type 0
Pieces e c parts = HoldsParts (Piece e) c parts

-- Why there is no string of a part: it is not valid, or the request for the string is refused.
abbrev pub Unmade : Allocator → Encoding → List ℕ → Type 0
Unmade al e part =
    (accepts e part ≡ false) ⊎ (al.grants ((string_bytes + (length part + 1)) % 2 ^ 64) ≡ false)

-- Why an array of `n` items cannot take one more: the request for five more cells is refused.
abbrev pub NoRoom : Allocator → ℕ → Type 0
NoRoom al n = al.grants ((n + 5) * 8) ≡ false

-- What making and appending a component comes to; `unmade` is what is done without a string.
pub data Component (al : Allocator) (e : Encoding) (unmade : Run (Option Components))
    (parts : List (List ℕ)) (part : List ℕ) : Run (Option Components) → Type 0 where
  not_made : Unmade al e part → Component al e unmade parts part unmade
  no_room : NoRoom al (length parts) → Component al e unmade parts part (ok none)
  added :
      {c : Components}
      → Pieces e c (parts ++ part ∷ [])
      → Component al e unmade parts part (ok (some c))

pub advance-written :
    (front rest : List ℕ) (X : Block)
    → advance (written (front ++ rest) ++ X) (length front) ≡ ok (written rest ++ X)
advance-written front rest X =
    let inside : leb (length front) (length (written (front ++ rest) ++ X)) ≡ true =
      le→leb _ _
        (omega (arith, length-written_append (front ++ rest) X, length-append front rest)) in
    rw (inside, drop-written front rest X) refl

pub separator_at-written :
    (front rest ys : List ℕ) (X Y : Block)
    → IsText rest
    → IsText ys
    → separator_at
        (written (front ++ rest) ++ some 0 ∷ X)
        (length front)
        (written ys ++ Y)
        (length ys)
      ≡ ok (starts_with ys rest)
separator_at-written front rest ys X Y tr ty =
    rw (advance-written front rest (some 0 ∷ X), strncmp_comm (length ys))
      (strncmp-written ys rest Y X ty tr)

pub or_right : (a b : Bool) → (a || b) ≡ false → b ≡ false
or_right a b h = ground arith

pub retains :
    (a : Array Strings) (p : Ptr) (strings : Strings)
    → a.callbacks ≡ object_callbacks
    → retain_item a.callbacks p strings ≡ ok (true, strings)
unfolding retain_item
retains a p strings h = ap (λ c. retain_item c p strings) h

-- A full array asks for five cells more than it has items.
pub full_NoRoom :
    (al : Allocator) {a : Array Strings} {xs : List Ptr}
    → emex_foundation.Array.Holds.Holds a xs
    → has_room al a ≡ false
    → NoRoom al (length xs)
full_NoRoom al {a} {xs} h full =
    let filled : length a.items ≡ length xs = ground (arith, length-items h, h.counted) in
    ap (λ n. al.grants ((n + 5) * 8)) (sym filled) ∙ or_right _ _ full

module _ (al : Allocator) (e : Encoding) (a : Array Strings) (strings : Strings) (c : String)
    (unmade : Run (Option Components)) (parts : List (List ℕ)) (part : List ℕ)
    (h : Pieces e (a, strings) parts) (hc : Piece e c part) where
  new : Strings
  new = strings ++ c ∷ []

  size : length (strings ++ c ∷ []) ≡ suc (length strings)
  size = omega (arith, length-append strings (c ∷ []))

  abbrev Out : Bool × Option (Array Strings) × Strings → Type 0
  Out =
      Added al a (addresses (length strings)) (addresses (suc (length strings)))
        (suc (length strings)) (strings ++ c ∷ [])

  kept_true :
      (out : Bool × Option (Array Strings) × Strings)
      → Out out
      → has_room al a ≡ true
      → (out.0 ≡ true) × (out.2 ≡ strings ++ c ∷ [])
  kept_true out m room =
      let same =
        sym (m.kept room) ∙ retains a (suc (length strings)) (strings ++ c ∷ []) h.callbacks in
      (cc, cc)

  grown :
      (b : Array Strings) (strings' : Strings)
      → Out (true, some b, strings')
      → has_room al a ≡ true
      → Pieces e (b, strings') (parts ++ part ∷ [])
  grown b strings' m room =
      let (_, same) = kept_true _ m room in
      let is : b ≡ m.became.array = some_inj m.became.is in
      let count : length strings' ≡ suc (length strings) = ap length same ∙ size in
      record {
        array = rw (is, count) m.became.holds;
        is_mutable = ap (λ x. x.is_mutable) is ∙ m.became.same_mutable ∙ h.is_mutable;
        callbacks = ap (λ x. x.callbacks) is ∙ m.became.same_callbacks ∙ h.callbacks;
        texts = rw same (HoldEach-append h.texts (more hc nothing));
      }

  after_append :
      (out : Bool × Option (Array Strings) × Strings)
      → Out out
      → Component al e unmade parts part (appended_component out)
  after_append (false, o, strings') m = elim (Bool-cases (has_room al a)) [
    | inl room ↦ let (t, _) = kept_true _ m room in absurd (cc)
    | inr full ↦
        let size : length (addresses (length strings)) ≡ length parts =
          length-addresses (length strings) ∙ HoldEach-length h.texts in
        no_room (rw (sym size) (full_NoRoom al h.array full))
  ]
  after_append (true, none, strings') m = let is = m.became.is in absurd (cc)
  after_append (true, some b, strings') m = elim (Bool-cases (has_room al a)) [
    | inl room ↦ added (grown b strings' m room)
    | inr full ↦ let (t, _) = m.refused full in absurd (cc)
  ]

  appended-Component : Component al e unmade parts part (
      append_value al (some a) (length (strings ++ c ∷ [])) (strings ++ c ∷ [])
      >>= appended_component)
  appended-Component =
      let keeps : Returns (λ _. Unit {0})
          (retain_item a.callbacks (suc (length strings)) (strings ++ c ∷ [])) =
        rw (retains a (suc (length strings)) (strings ++ c ∷ []) h.callbacks) (returns tt) in
      let (out, run, m) = Returns-value (
        append_value-Added al (suc (length strings)) (strings ++ c ∷ []) h.array h.is_mutable
          (ground arith) keeps) in
      rw (size, run) (after_append out m)

-- The component made of the string that was created, or not.
after_create :
    (al : Allocator) (s : String) (a : Array Strings) (strings : Strings)
    (unmade : Run (Option Components)) (parts : List (List ℕ)) (part : List ℕ) (o : Option String)
    → Pieces s.encoding (a, strings) parts
    → Created al s.encoding part false o
    → Component al s.encoding unmade parts part (elim o [
      | none ↦ unmade
      | some c ↦
          append_value al (some a) (length (strings ++ c ∷ [])) (strings ++ c ∷ [])
          >>= appended_component
    ])
after_create al s a strings unmade parts part none h (refused invalid) = not_made (inl invalid)
after_create al s a strings unmade parts part none h (out_of_memory (inl denied)) =
    not_made (inr denied)
after_create al s a strings unmade parts part none h (out_of_memory (inr denied)) = cc denied.0
after_create al s a strings unmade parts part (some c) h (made valid e m hc) =
    appended-Component al s.encoding a strings c unmade parts part h
      (record { encoding = e; valid = valid; holds = hc })

pub append_component-Component :
    (al : Allocator) (s : String) (pre part rest : List ℕ) (X separator : Block) (m : ℕ)
    (unmade : Run (Option Components)) (c : Components) (parts : List (List ℕ))
    → IsText part
    → length part < 2 ^ 63
    → Pieces s.encoding c parts
    → Component al s.encoding unmade parts part (
        append_component al s
          (written (pre ++ (part ++ rest)) ++ some 0 ∷ X)
          separator
          m
          unmade
          (length pre)
          (length part)
          c)
append_component-Component al s pre part rest X separator m unmade (a, strings) parts t small h =
    let from : advance (written (pre ++ (part ++ rest)) ++ some 0 ∷ X) (length pre)
        ≡ ok (written part ++ (written rest ++ some 0 ∷ X)) =
      advance-written pre (part ++ rest) (some 0 ∷ X)
      ∙ ap ok (
          ap (λ l. l ++ some 0 ∷ X) (written-append part rest)
          ∙ append_assoc (written part) (written rest) (some 0 ∷ X)) in
    let (o, run, created) = Returns-value (
      create_string-Created al part (written rest ++ some 0 ∷ X) (length part) s.encoding false t
        small (inl refl)) in
    rw (from, run) (after_create al s a strings unmade parts part o h created)
