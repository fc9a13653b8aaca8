-- ===== src/String/SplitEnds.antt =====
-- The start and the end of the split of src/EFString.c.
use emex_foundation.Base.{
  ℕ, zero, suc, ◌+◌, ◌-◌, ◌*◌, ◌^◌, ◌<◌, ◌≤◌, true, false, Option, none, some, List, [], ◌∷◌, ◌++◌,
  ◌≡◌, refl, sym, ap, ap₂, ◌∙◌, ◌⊎◌, inl, inr, arith, leb, ltb, Bool-cases, length, length-append,
  pos, Run, ok, abort, append_assoc, append-nil,
}
use emex_foundation.Allocator.{Allocator}
use emex_foundation.Array.Model.{Array, append_value, create_mutable, pointer_bytes}
use emex_foundation.Array.Create.{create_mutable-Fresh}
use emex_foundation.Data.{Block}
use emex_foundation.Data.Holds.{written}
use emex_foundation.String.Encoding.{Encoding}
use emex_foundation.String.Model.{String}
use emex_foundation.String.Holds.{IsText}
use emex_foundation.String.Prefix.{starts_with}
use emex_foundation.String.Splitting.{hits}
use emex_foundation.String.Split.{
  Components, Strings, object_callbacks, Scan, count_separators, append_component, last_component,
  release_null,
}
use emex_foundation.String.Cuts.{
  Pieces, nothing, Unmade, NoRoom, Component, not_made, no_room, added, separator_at-written,
  append_component-Component,
}
use emex_foundation.String.SplitLoop.{Looped, stopped, looped, IsText-right, IsText-resp}

-- What the split of `xs` by `ys` comes to, of which `all` are the pieces. NULL says that the request for
-- the array or its block was refused, or that there is no string of a piece with a separator behind it,
-- or that the array cannot grow for a piece; without a string of a last piece that ends the text, the
-- call aborts.
pub data Split (al : Allocator) (e : Encoding) (ys xs : List ℕ) (all : List (List ℕ))
    : Run (Option Components) → Type 0 where
  no_array : al.grants 72 ≡ false → Split al e ys xs all (ok none)
  no_items : 0 < hits ys xs → al.grants (hits ys xs * 8) ≡ false → Split al e ys xs all (ok none)
  stopped_at :
      (before : List (List ℕ)) (pre part behind : List ℕ) (after : List (List ℕ))
      → xs ≡ pre ++ (part ++ (ys ++ behind))
      → all ≡ before ++ part ∷ after
      → Unmade al e part ⊎ NoRoom al (length before)
      → Split al e ys xs all (ok none)
  last_left_out :
      (before : List (List ℕ)) (pre part : List ℕ)
      → xs ≡ pre ++ part
      → all ≡ before ++ part ∷ []
      → NoRoom al (length before)
      → Split al e ys xs all (ok none)
  last_aborts :
      (before : List (List ℕ)) (pre part : List ℕ)
      → xs ≡ pre ++ part
      → all ≡ before ++ part ∷ []
      → Unmade al e part
      → Split al e ys xs all abort
  split : {c : Components} → Pieces e c all → Split al e ys xs all (ok (some c))

pub count_separators-hits :
    (front rest ys : List ℕ) (X Y : Block)
    → IsText rest
    → IsText ys
    → count_separators
        (length rest)
        (length front)
        (written (front ++ rest) ++ some 0 ∷ X)
        (written ys ++ Y)
        (length ys)
      ≡ ok (hits ys rest)
unfolding count_separators
count_separators-hits front [] ys X Y tr ty = refl
count_separators-hits front (c ∷ cs) ys X Y tr ty =
    let found = separator_at-written front (c ∷ cs) ys X Y tr ty in
    let runs = count_separators-hits (front ++ c ∷ []) cs ys X Y tr.1 ty in
    let place : length (front ++ c ∷ []) ≡ length front + 1 =
      omega (arith, length-append front (c ∷ [])) in
    let runs' =
      ap₂
        (λ i l.
          count_separators (length cs) i (written l ++ some 0 ∷ X) (written ys ++ Y) (length ys))
        (sym place) (sym (append_assoc front (c ∷ []) cs))
      ∙ runs in
    rw (found, runs') refl

pub hits-le : (ys xs : List ℕ) → hits ys xs ≤ length xs
hits-le ys [] = omega arith
hits-le ys (c ∷ cs) =
    let rest = hits-le ys cs in
    elim (Bool-cases (starts_with ys (c ∷ cs))) [
      | inl h ↦ rw h (omega arith)
      | inr h ↦ rw h (omega arith)
    ]

release_null-abort :
    (al : Allocator) (s : String) (text sep : Block) (m : ℕ) (c : Components)
    → release_null al s text sep m c ≡ abort
unfolding append_value
release_null-abort al s text sep m (a, strings) = ground arith

-- A new array for so many components.
pub new_array :
    (al : Allocator) (k : ℕ)
    → k * 8 < 2 ^ 63
    → ((create_mutable al (some object_callbacks) (pos k) ≡ none)
        × ((al.grants 72 ≡ false) ⊎ ((0 < k) × (al.grants (k * 8) ≡ false))))
      ⊎ ((a : Array Strings) × (create_mutable al (some object_callbacks) (pos k) ≡ some a)
          × ((e : Encoding) → Pieces e (a, []) []))
unfolding create_mutable
new_array al zero small = elim (Bool-cases (al.grants 72)) [
  | inl g ↦ inr (
    _,
    rw g refl,
    λ e. record {
      array = record {
        spare = [];
        cells = refl;
        counted = refl;
        capacity = refl;
        small = omega arith;
      };
      is_mutable = refl;
      callbacks = refl;
      texts = nothing;
    },
  )
  | inr g ↦ inl (rw g refl, inl g)
]
new_array al (suc k) small =
    let bytes : pointer_bytes (pos (suc k)) ≡ suc k * 8 = omega arith in
    let some_room : ltb 0 (suc k + 0) ≡ true = ground arith in
    elim (Bool-cases (al.grants (suc k * 8))) [
      | inr g ↦ inl (rw (some_room, bytes, g) refl, inr (omega arith, g))
      | inl room ↦ elim (Bool-cases (al.grants 72)) [
        | inr g ↦ inl (rw (some_room, bytes, room, g) refl, inl g)
        | inl g ↦
            let fresh = create_mutable-Fresh al object_callbacks (suc k) small room g in
            inr (
              fresh.array,
              fresh.is,
              λ e. record {
                array = fresh.holds;
                is_mutable = fresh.mutable;
                callbacks = fresh.callbacks;
                texts = nothing;
              },
            )
      ]
    ]

module _ (al : Allocator) (s : String) (total : List ℕ) (X Y : Block) (y : ℕ) (ys : List ℕ)
    (size : s.length ≡ length total) (t : IsText total) (ty : IsText (y ∷ ys))
    (small : length total < 2 ^ 63) where
  abbrev text : Block
  text = written total ++ some 0 ∷ X

  abbrev sep : Block
  sep = written (y ∷ ys) ++ Y

  abbrev whole : Option Scan → Run (Option Components)
  whole r = last_component al s text sep (length (y ∷ ys)) r

  -- The last component of a text that does not end with a separator.
  last-Component :
      (pre : List ℕ) (d : ℕ) (ds : List ℕ) (scan : Scan) (parts : List (List ℕ))
      → total ≡ pre ++ d ∷ ds
      → leb s.length scan.last ≡ false
      → Component al s.encoding
          (release_null al s text sep (length (y ∷ ys)) scan.components)
          parts
          (d ∷ ds)
          (append_component al s text sep
            (length (y ∷ ys))
            (release_null al s text sep (length (y ∷ ys)) scan.components)
            scan.last
            (s.length - scan.last)
            scan.components)
      → Split al s.encoding (y ∷ ys) total (parts ++ (d ∷ ds) ∷ []) (whole (some scan))
  unfolding last_component
  last-Component pre d ds scan parts is more c = rw more (go _ c)
    where
      go :
          (r : Run (Option Components))
          → Component al s.encoding
              (release_null al s text sep (length (y ∷ ys)) scan.components)
              parts
              (d ∷ ds)
              r
          → Split al s.encoding (y ∷ ys) total (parts ++ (d ∷ ds) ∷ []) r
      go r (not_made why) =
          rw (release_null-abort al s text sep (length (y ∷ ys)) scan.components)
            (last_aborts parts pre (d ∷ ds) is refl why)
      go r (no_room why) = last_left_out parts pre (d ∷ ds) is refl why
      go r (added h) = split h

  Component-last :
      (unmade : Run (Option Components)) (pre : List ℕ) (d : ℕ) (ds : List ℕ) (scan : Scan)
      (parts : List (List ℕ))
      → total ≡ pre ++ d ∷ ds
      → scan.last ≡ length pre
      → s.length - scan.last ≡ length (d ∷ ds)
      → Pieces s.encoding scan.components parts
      → Component al s.encoding unmade parts (d ∷ ds) (
          append_component al s text sep
            (length (y ∷ ys))
            unmade
            scan.last
            (s.length - scan.last)
            scan.components)
  Component-last unmade pre d ds scan parts is last count h =
      let total' : total ≡ pre ++ ((d ∷ ds) ++ []) =
        is ∙ ap (◌++◌ pre) (sym (append-nil (d ∷ ds))) in
      let t' = IsText-right pre (d ∷ ds) (IsText-resp is t) in
      let made =
        append_component-Component al s pre (d ∷ ds) [] X sep (length (y ∷ ys)) unmade
          scan.components parts t' (omega (arith, ap length is, length-append pre (d ∷ ds))) h in
      rw (count, last, total') made

  pub last-Split :
      (all : List (List ℕ)) (r : Option Scan)
      → Looped al s.encoding (y ∷ ys) total all r
      → Split al s.encoding (y ∷ ys) total all (whole r)
  unfolding last_component
  last-Split all none (stopped before pre part behind after is e why) =
      stopped_at before pre part behind after is e why
  last-Split all (some scan) (looped pre [] parts is last h e) =
      let past : leb s.length scan.last ≡ true =
        ground (arith, size, ap length is, length-append pre []) in
      rw (past, e, append-nil parts) (split h)
  last-Split all (some scan) (looped pre (d ∷ ds) parts is last h e) =
      let count : s.length - scan.last ≡ length (d ∷ ds) =
        omega (arith, size, ap length is, length-append pre (d ∷ ds)) in
      let more : leb s.length scan.last ≡ false =
        ground (arith, size, ap length is, length-append pre (d ∷ ds)) in
      let unmade = release_null al s text sep (length (y ∷ ys)) scan.components in
      let made = Component-last unmade pre d ds scan parts is last count h in
      rw e (last-Component pre d ds scan parts is more made)
