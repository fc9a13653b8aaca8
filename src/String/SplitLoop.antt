-- ===== src/String/SplitLoop.antt =====
-- The loop of the split in src/EFString.c: it ends, with the pieces that are not empty.
use emex_foundation.Base.{
  ℕ, zero, suc, ◌+◌, ◌-◌, ◌^◌, ◌<◌, true, false, Option, none, some, List, [], ◌∷◌, ◌++◌, ◌≡◌, refl,
  sym, ap, ap₂, ◌∙◌, ◌⊎◌, inl, inr, arith, leb, ltb, lt→ltb, Bool-cases, length, length-append, Run,
  ok, append_assoc, append-nil,
}
use emex_foundation.Allocator.{Allocator}
use emex_foundation.Data.{Block}
use emex_foundation.Data.Holds.{written}
use emex_foundation.String.Encoding.{Encoding}
use emex_foundation.String.Model.{String}
use emex_foundation.String.Holds.{IsText}
use emex_foundation.String.Prefix.{starts_with, starts_with_iff}
use emex_foundation.String.Split.{Components, Scan, split_loop, append_component, separator_at}
use emex_foundation.String.Cuts.{
  Pieces, Unmade, NoRoom, Component, not_made, no_room, added, separator_at-written,
  append_component-Component,
}
use emex_foundation.String.Splitting.{cut, nonempty, cut-separator, cut-other}
use emex_foundation.String.SplitSteps.{
  split_loop-end, split_loop-other, split_loop-empty, split_loop-null, split_loop-added,
}

pub IsText-right : (xs ys : List ℕ) → IsText (xs ++ ys) → IsText ys
IsText-right [] ys h = h
IsText-right (x ∷ xs) ys h = IsText-right xs ys h.1

pub IsText-left : (xs ys : List ℕ) → IsText (xs ++ ys) → IsText xs
IsText-left [] ys h = tt
IsText-left (x ∷ xs) ys h = (h.0, IsText-left xs ys h.1)

pub IsText-resp : {xs ys : List ℕ} → xs ≡ ys → IsText xs → IsText ys
IsText-resp e h = rw (← e) h

-- What the loop comes to on the text `total`, of which `all` are the components and `sep` the separator.
pub data Looped (al : Allocator) (e : Encoding) (sep total : List ℕ) (all : List (List ℕ))
    : Option Scan → Type 0 where
  stopped :
      (before : List (List ℕ)) (pre part behind : List ℕ) (after : List (List ℕ))
      → total ≡ pre ++ (part ++ (sep ++ behind))
      → all ≡ before ++ part ∷ after
      → Unmade al e part ⊎ NoRoom al (length before)
      → Looped al e sep total all none
  looped :
      {scan : Scan} (pre cur : List ℕ) (parts : List (List ℕ))
      → total ≡ pre ++ cur
      → scan.last ≡ length pre
      → Pieces e scan.components parts
      → all ≡ parts ++ nonempty (cur ∷ [])
      → Looped al e sep total all (some scan)

-- The loop ends, and what it comes to.
abbrev pub Ended :
    Allocator → Encoding → List ℕ → List ℕ → List (List ℕ) → Option (Run (Option Scan)) → Type 0
Ended al e sep total all run = (r : Option Scan) × (run ≡ some (ok r)) × Looped al e sep total all r

Ended-resp :
    {al : Allocator} {e : Encoding} {sep total : List ℕ} {all all' : List (List ℕ)}
    {run run' : Option (Run (Option Scan))}
    → run ≡ run'
    → all ≡ all'
    → Ended al e sep total all' run'
    → Ended al e sep total all run
Ended-resp {al} {e} {sep} {total} e1 e2 (r, is, l) = (r, e1 ∙ is, rw e2 l)

module _ (al : Allocator) (s : String) (total : List ℕ) (X Y : Block) (y : ℕ) (ys : List ℕ)
    (size : s.length ≡ length total) (t : IsText total) (ty : IsText (y ∷ ys))
    (small : length total < 2 ^ 63) where
  abbrev text : Block
  text = written total ++ some 0 ∷ X

  abbrev sep : List ℕ
  sep = y ∷ ys

  abbrev separator : Block
  separator = written (y ∷ ys) ++ Y

  abbrev m : ℕ
  m = length (y ∷ ys)

  -- What is found at a place of the text.
  found_at :
      (pre cur rest : List ℕ) (i : ℕ)
      → total ≡ pre ++ (cur ++ rest)
      → i ≡ length pre + length cur
      → separator_at text i separator m ≡ ok (starts_with sep rest)
  found_at pre cur rest i is at =
      let whole : total ≡ (pre ++ cur) ++ rest = is ∙ sym (append_assoc pre cur rest) in
      let place : i ≡ length (pre ++ cur) = omega (arith, length-append pre cur) in
      let t' = IsText-right (pre ++ cur) rest (IsText-resp whole t) in
      ap₂ (λ l k. separator_at (written l ++ some 0 ∷ X) k separator m) whole place
      ∙ separator_at-written (pre ++ cur) rest sep X Y t' ty

  inside :
      (pre cur rest : List ℕ) (i : ℕ)
      → total ≡ pre ++ (cur ++ rest)
      → i ≡ length pre + length cur
      → 0 < length rest
      → ltb i s.length ≡ true
  inside pre cur rest i is at some_left =
      lt→ltb _ _
        (omega (arith, size, ap length is, length-append pre (cur ++ rest), length-append cur rest))

  Component-append :
      (pre cur rest : List ℕ) (scan : Scan) (parts : List (List ℕ))
      → total ≡ pre ++ (cur ++ rest)
      → scan.i ≡ length pre + length cur
      → scan.last ≡ length pre
      → Pieces s.encoding scan.components parts
      → Component al s.encoding (ok none) parts cur (
          append_component al s text separator m
            (ok none)
            scan.last
            (scan.i - scan.last)
            scan.components)
  Component-append pre cur rest scan parts is at last h =
      let count : scan.i - scan.last ≡ length cur = omega arith in
      let t' = IsText-left cur rest (IsText-right pre (cur ++ rest) (IsText-resp is t)) in
      let fits : length cur < 2 ^ 63 =
        omega (arith, ap length is, length-append pre (cur ++ rest), length-append cur rest) in
      rw (count, last, is)
        (append_component-Component al s pre cur rest X separator m (ok none) scan.components parts
          t' fits h)

  abbrev run : ℕ → Scan → Option (Run (Option Scan))
  run fuel scan = split_loop al s text separator m fuel scan

  -- The rest of the loop, from behind a separator.
  abbrev Again : ℕ → List ℕ → Type 0
  Again fuel behind =
      (pre : List ℕ) (scan : Scan) (parts : List (List ℕ))
      → total ≡ pre ++ behind
      → scan.i ≡ length pre + 0
      → scan.last ≡ length pre
      → Pieces s.encoding scan.components parts
      → Ended al s.encoding sep total (parts ++ nonempty (cut sep 0 [] behind)) (run fuel scan)

  Component-Ended :
      (fuel : ℕ) (pre cur behind : List ℕ) (scan : Scan) (parts : List (List ℕ))
      {o : Run (Option Components)}
      → total ≡ pre ++ (cur ++ (sep ++ behind))
      → scan.i ≡ length pre + length cur
      → ltb scan.i s.length ≡ true
      → separator_at text scan.i separator m ≡ ok true
      → leb scan.i scan.last ≡ false
      → append_component al s text separator m
          (ok none)
          scan.last
          (scan.i - scan.last)
          scan.components
        ≡ o
      → Component al s.encoding (ok none) parts cur o
      → Again fuel behind
      → Ended al s.encoding sep total
          (parts ++ cur ∷ nonempty (cut sep 0 [] behind))
          (run (suc fuel) scan)
  Component-Ended fuel pre cur behind scan parts is at more found apart e (not_made why) again = (
    none,
    split_loop-null al s text separator m fuel scan more found apart e,
    stopped parts pre cur behind (nonempty (cut sep 0 [] behind)) is refl (inl why),
  )
  Component-Ended fuel pre cur behind scan parts is at more found apart e (no_room why) again = (
    none,
    split_loop-null al s text separator m fuel scan more found apart e,
    stopped parts pre cur behind (nonempty (cut sep 0 [] behind)) is refl (inr why),
  )
  Component-Ended fuel pre cur behind scan parts is at more found apart e (added {c} h) again =
      let next : Scan = record { i = scan.i + m; last = scan.i + m; components = c } in
      let place : scan.i + m ≡ length (pre ++ (cur ++ sep)) =
        omega (arith, length-append pre (cur ++ sep), length-append cur sep) in
      let whole : total ≡ (pre ++ (cur ++ sep)) ++ behind =
        is
        ∙ ap (◌++◌ pre) (sym (append_assoc cur sep behind))
        ∙ sym (append_assoc pre (cur ++ sep) behind) in
      Ended-resp (split_loop-added al s text separator m fuel scan more found apart e)
        (sym (append_assoc parts (cur ∷ []) (nonempty (cut sep 0 [] behind))))
        (again (pre ++ (cur ++ sep)) next (parts ++ cur ∷ []) whole (omega arith) place h)

  hit_Ended :
      (fuel : ℕ) (pre cur behind : List ℕ) (scan : Scan) (parts : List (List ℕ))
      → total ≡ pre ++ (cur ++ (sep ++ behind))
      → scan.i ≡ length pre + length cur
      → scan.last ≡ length pre
      → Pieces s.encoding scan.components parts
      → ltb scan.i s.length ≡ true
      → separator_at text scan.i separator m ≡ ok true
      → Again fuel behind
      → Ended al s.encoding sep total
          (parts ++ nonempty (cur ∷ cut sep 0 [] behind))
          (run (suc fuel) scan)
  hit_Ended fuel pre [] behind scan parts is at last h more found again =
      let together : leb scan.i scan.last ≡ true = ground arith in
      let next = record scan { i = scan.i + m; last = scan.i + m } in
      let place : scan.i + m ≡ length (pre ++ sep) = omega (arith, length-append pre sep) in
      Ended-resp (split_loop-empty al s text separator m fuel scan more found together) refl (
        again (pre ++ sep) next parts (is ∙ sym (append_assoc pre sep behind)) (omega arith) place
          h)
  hit_Ended fuel pre (d ∷ ds) behind scan parts is at last h more found again =
      let apart : leb scan.i scan.last ≡ false = ground arith in
      let made = Component-append pre (d ∷ ds) (sep ++ behind) scan parts is at last h in
      Component-Ended fuel pre (d ∷ ds) behind scan parts is at more found apart refl made again

  pub split_loop-Ended :
      (fuel : ℕ) (pre cur rest : List ℕ) (scan : Scan) (parts : List (List ℕ))
      → length rest < fuel
      → total ≡ pre ++ (cur ++ rest)
      → scan.i ≡ length pre + length cur
      → scan.last ≡ length pre
      → Pieces s.encoding scan.components parts
      → Ended al s.encoding sep total (parts ++ nonempty (cut sep 0 cur rest)) (run fuel scan)
  unfolding cut
  split_loop-Ended zero pre cur rest scan parts f is at last h = absurd (omega arith)
  split_loop-Ended (suc fuel) pre cur [] scan parts f is at last h =
      let past : ltb scan.i s.length ≡ false =
        ground (arith, size, ap length is, length-append pre (cur ++ []), length-append cur []) in
      (
        some scan,
        split_loop-end al s text separator m fuel scan past,
        looped pre cur parts (is ∙ ap (◌++◌ pre) (append-nil cur)) last h refl,
      )
  split_loop-Ended (suc fuel) pre cur (c ∷ cs) scan parts f is at last h =
      let found = found_at pre cur (c ∷ cs) scan.i is at in
      let more = inside pre cur (c ∷ cs) scan.i is at (omega arith) in
      elim (Bool-cases (starts_with sep (c ∷ cs))) [
        | inr other ↦
            let same = cut-other sep cur c cs other in
            let step =
              split_loop-other al s text separator m fuel scan more (found ∙ ap ok other) in
            Ended-resp step (ap (λ l. parts ++ nonempty l) same) (
              split_loop-Ended fuel pre (cur ++ c ∷ []) cs (record scan { i = scan.i + 1 }) parts
                (omega arith) (is ∙ ap (◌++◌ pre) (sym (append_assoc cur (c ∷ []) cs)))
                (omega (arith, length-append cur (c ∷ []))) last h)
        | inl hit ↦
            let (behind, split) = (starts_with_iff sep (c ∷ cs)).0 hit in
            let shorter : length behind < fuel =
              omega (arith, ap length split, length-append sep behind) in
            let again : Again fuel behind = λ pre' scan' parts' is' at' last' h'.
              split_loop-Ended fuel pre' [] behind scan' parts' shorter is' at' last' h' in
            let same = ap (cut sep 0 cur) split ∙ cut-separator y ys cur behind in
            Ended-resp refl (ap (λ l. parts ++ nonempty l) same) (
              hit_Ended fuel pre cur behind scan parts (is ∙ ap (λ l. pre ++ (cur ++ l)) split) at
                last h more (found ∙ ap ok hit) again)
      ]
