-- ===== src/Url/Appends.antt =====
-- The loops of src/EFURL.c that append the parts of a path.
use emex_foundation.Base.{
  ℕ, zero, suc, ◌-◌, ◌<◌, ◌≤◌, Bool, true, false, Option, none, some, List, [], ◌∷◌, ◌++◌, ◌≡◌,
  refl, sym, ap, ◌∙◌, inl, inr, arith, ltb, length, length-append, ◌+◌, drop, get_elem?, pos, ok,
  ◌>>=◌, Returns, returns, Returns-bind, Returns-mono, drop_past_end, append_assoc, append-nil,
}
use emex_foundation.Allocator.{Allocator}
use emex_foundation.Array.Model.{Array, get_value_at_index}
use emex_foundation.Array.Remove.{get_value_at_index-get_elem?}
use emex_foundation.String.Accepts.{accepts}
use emex_foundation.String.Append.{
  Appended, append_string-Appended, refused, out_of_memory, appended,
}
use emex_foundation.String.Cuts.{HoldsParts, HoldEach-length}
use emex_foundation.String.Edit.{append_string}
use emex_foundation.String.Encoding.{utf8}
use emex_foundation.String.Holds.{Holds}
use emex_foundation.String.Model.{String}
use emex_foundation.String.Split.{Strings}
use emex_foundation.Url.{
  literal, slash, string_at, append_separated, append_path_part, kept_path, copy_parts,
}
use emex_foundation.Url.Texts.{
  Filled, filled, Mutable, Failed, HoldEach-at, Returns-is, Step, failed, get_elem?-addresses,
  literal-Holds, rest_text, rest_text-slashed, separated, slash_accepted, slashed, stopped,
  string_at-suc, went_on,
}

forget :
    {al : Allocator} {parts : List (List ℕ)} {text ys : List ℕ} {V : Type 0}
    {r : Bool × Option String}
    → Step al parts text V ys r
    → Step al parts text (Unit {0}) ys r
forget (stopped bad) = stopped bad
forget (went_on v m) = went_on tt m

Appended-Step :
    {al : Allocator} {parts : List (List ℕ)} {text : List ℕ} (s : String) (xs ys rest : List ℕ)
    (r : Bool × Option String)
    → Mutable s xs
    → text ≡ (xs ++ ys) ++ rest
    → (accepts utf8 ys ≡ false → Failed al parts text)
    → Appended al s xs ys r
    → Step al parts text (accepts utf8 ys ≡ true) (xs ++ ys) r
Appended-Step s xs ys rest r m is bad (refused invalid) =
    stopped (bad (ap (λ k. accepts k ys) (sym m.encoding) ∙ invalid))
Appended-Step {al} s xs ys rest r m is bad (out_of_memory denied) =
    let size = ap (λ n. al.grants (n + 1)) (length-append xs ys) in
    stopped (inr (xs ++ ys, rest, is, size ∙ denied))
Appended-Step s xs ys rest r m is bad (appended valid granted done) = rw done.answer (
    went_on (ap (λ k. accepts k ys) (sym m.encoding) ∙ valid) (record {
      encoding = done.encoding ∙ m.encoding;
      is_mutable = done.is_mutable ∙ m.is_mutable;
      holds = done.holds;
    }))

module _ (al : Allocator) (a : Array Strings) (strings : Strings) (parts : List (List ℕ))
    (h : HoldsParts Holds (a, strings) parts) where
  append_separated-Step :
      {ps : List (List ℕ)} {text : List ℕ} (b : Bool) (s : String) (xs rest : List ℕ)
      → Mutable s xs
      → text ≡ (xs ++ separated b) ++ rest
      → Returns
          (Step al ps text (Unit {0}) (xs ++ separated b))
          (append_separated al (some a) strings b (some s))
  append_separated-Step true s xs rest m is =
      Returns-mono
        (append_string-Appended al s (literal slash) xs slash m.holds
          (literal-Holds slash (omega arith) (omega arith)) m.is_mutable)
        (λ r out.
          forget (Appended-Step s xs slash rest r m is (λ bad. absurd (cc slash_accepted)) out))
  append_separated-Step false s xs rest m is = returns (went_on tt (rw (append-nil xs) m))

  -- The part at an index below the count.
  record PartAt (i : ℕ) : Type 0 where
    part : String
    text : List ℕ
    value : get_value_at_index (some a) (pos i) ≡ ok (suc i)
    found : string_at strings (suc i) ≡ ok (some part)
    holds : Holds part text
    at : get_elem? parts i ≡ some text
    rest : drop i parts ≡ text ∷ drop (suc i) parts

  part_at : (i : ℕ) → i < length parts → PartAt i
  part_at i lt =
      let (c, p, found, hc, at, rest) = HoldEach-at i h.texts lt in
      let stored =
        get_elem?-addresses (length strings) i (omega (arith, HoldEach-length h.texts)) in
      let value = (get_value_at_index-get_elem? i h.array).0 in
      record {
        part = c;
        text = p;
        value = rw (value, stored) refl;
        found = string_at-suc strings i found;
        holds = hc;
        at = at;
        rest = rest;
      }

  append_path_part-Step :
      {text : List ℕ} (i : ℕ) (xs rest : List ℕ) (r : Bool × Option String) (part : PartAt i)
      → text ≡ (xs ++ part.text) ++ rest
      → Step al (drop i parts) text (Unit {0}) xs r
      → Returns
          (Step al (drop i parts) text (accepts utf8 part.text ≡ true) (xs ++ part.text))
          (append_path_part al (some a) strings i r)
  append_path_part-Step i xs rest r part is (stopped bad) = returns (stopped bad)
  append_path_part-Step i xs rest r part is (went_on {s} _ m) =
      let first : get_elem? (drop i parts) 0 ≡ some part.text = ap (λ l. get_elem? l 0) part.rest in
      rw (part.value, part.found)
        (Returns-mono
          (append_string-Appended al s part.part xs part.text m.holds part.holds m.is_mutable)
          (λ r. Appended-Step s xs part.text rest r m is (λ bad. inl (0, _, first, bad))))

  -- Without a string the loop ends with NULL.
  append_path_part-none :
      (b : Bool) (i : ℕ)
      → PartAt i
      → (append_separated al (some a) strings b none >>= append_path_part al (some a) strings i)
        ≡ ok (false, none)
  unfolding append_string
  append_path_part-none true i part = refl
  append_path_part-none false i part = rw (part.value, part.found) refl

  copy_parts-none :
      (left first i : ℕ)
      → left ≡ length parts - i
      → Returns (λ o. o ≡ none) (copy_parts al (some a) strings left first i none)
  unfolding copy_parts
  copy_parts-none zero first i n = returns refl
  copy_parts-none (suc left) first i n =
      rw (append_path_part-none (ltb first i) i (part_at i (omega arith))) (returns refl)

  rest_text-step :
      (b : Bool) (i : ℕ) (xs : List ℕ) (part : PartAt i)
      → ((xs ++ separated b) ++ part.text) ++ rest_text true (drop (suc i) parts)
        ≡ xs ++ rest_text b (drop i parts)
  rest_text-step b i xs part =
      ap (◌++◌ ((xs ++ separated b) ++ part.text)) (rest_text-slashed (drop (suc i) parts))
      ∙ append_assoc (xs ++ separated b) part.text (slashed (drop (suc i) parts))
      ∙ append_assoc xs (separated b) (part.text ++ slashed (drop (suc i) parts))
      ∙ ap (λ l. xs ++ rest_text b l) (sym part.rest)

  -- The parts behind the first.
  Failed-later :
      (text : List ℕ) (i : ℕ)
      → PartAt i
      → Failed al (drop (suc i) parts) text
      → Failed al (drop i parts) text
  Failed-later text i part (inl (k, p, at, bad)) =
      inl (suc k, p, ap (λ l. get_elem? l (suc k)) part.rest ∙ at, bad)
  Failed-later text i part (inr denied) = inr denied

  Filled-later :
      {text : List ℕ} (i : ℕ) (part : PartAt i) {o : Option String}
      → accepts utf8 part.text ≡ true
      → Filled al (drop (suc i) parts) text o
      → Filled al (drop i parts) text o
  Filled-later i part v (failed bad) = failed (Failed-later _ i part bad)
  Filled-later i part v (filled vs m) = filled (rw part.rest (v, vs)) m

  next_round :
      (left first i : ℕ) (ps : List (List ℕ)) (ys text : List ℕ) (V : Type 0)
      (r : Bool × Option String)
      → Step al ps text V ys r
      → ((s : String)
          → V
          → Mutable s ys
          → Returns (Filled al ps text) (copy_parts al (some a) strings left first i (some s)))
      → Returns (Filled al ps text) (elim (kept_path r) [
        | none ↦ ok none
        | some path ↦ copy_parts al (some a) strings left first i path
      ])
  next_round left first i ps ys text V r (stopped bad) go = returns (failed bad)
  next_round left first i ps ys text V r (went_on v m) go = go _ v m

  pub copy_parts-Filled :
      (left first i : ℕ) (s : String) (xs text : List ℕ)
      → left ≡ length parts - i
      → first ≤ i
      → Mutable s xs
      → text ≡ xs ++ rest_text (ltb first i) (drop i parts)
      → Returns
          (Filled al (drop i parts) text)
          (copy_parts al (some a) strings left first i (some s))
  unfolding copy_parts
  copy_parts-Filled zero first i s xs text n le m is =
      let over : drop i parts ≡ [] = drop_past_end i parts (omega arith) in
      let all : text ≡ xs = is ∙ ap (λ l. xs ++ rest_text (ltb first i) l) over ∙ append-nil xs in
      rw (over, all) (returns (filled tt m))
  copy_parts-Filled (suc left) first i s xs text n le m is =
      let part = part_at i (omega arith) in
      let b = ltb first i in
      let behind = rest_text true (drop (suc i) parts) in
      let whole : text ≡ ((xs ++ separated b) ++ part.text) ++ behind =
        is ∙ sym (rest_text-step b i xs part) in
      let later : ltb first (suc i) ≡ true = ground arith in
      let rest : text
          ≡ ((xs ++ separated b) ++ part.text)
            ++ rest_text (ltb first (suc i)) (drop (suc i) parts) =
        whole
        ∙ ap (λ c. ((xs ++ separated b) ++ part.text) ++ rest_text c (drop (suc i) parts))
            (sym later) in
      Returns-bind
        (Returns-bind
          (append_separated-Step b s xs (part.text ++ behind) m
            (whole ∙ append_assoc (xs ++ separated b) part.text behind))
          (λ r. append_path_part-Step i (xs ++ separated b) behind r part whole))
        (λ r st. next_round left first (suc i) _ _ text _ r st λ s' v m'.
          Returns-mono
            (copy_parts-Filled left first (suc i) s' _ text (omega arith) (omega arith) m' rest)
            (λ o. Filled-later i part v))

  pub copy_parts-null :
      (left first i : ℕ)
      → left ≡ length parts - i
      → copy_parts al (some a) strings left first i none ≡ ok none
  copy_parts-null left first i n = Returns-is (copy_parts-none left first i n)
