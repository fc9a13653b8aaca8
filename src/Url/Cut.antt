-- ===== src/Url/Cut.antt =====
-- How `EFURLCreateWithString` (src/EFURL.c) cuts a path into components.
use emex_foundation.Base.{
  ℕ, ◌^◌, ◌<◌, true, Option, none, some, List, [], ◌≡◌, refl, sym, ap, ◌∙◌, inl, inr, arith,
  Bool-cases, length, ok, abort, fault, Run,
}
use emex_foundation.Allocator.{Allocator}
use emex_foundation.Array.Model.{Array}
use emex_foundation.String.Accepts.{accepts}
use emex_foundation.String.Cuts.{Pieces}
use emex_foundation.String.Encoding.{utf8, code}
use emex_foundation.String.Equality.{string_equal-texts}
use emex_foundation.String.Holds.{Holds}
use emex_foundation.String.Model.{String}
use emex_foundation.String.Split.{Strings, Components}
use emex_foundation.String.SplitEnds.{Split, split}
use emex_foundation.String.SplitText.{components_split-Split}
use emex_foundation.String.Splitting.{components}
use emex_foundation.Url.{UrlType, literal, slash}
use emex_foundation.Url.Texts.{literal-Holds, slash_accepted}
use emex_foundation.Url.Create.{Made, new_url, url_of_path, as_url, then_run}

-- A URL whose components are the pieces of a path; NULL and an abort as the split of the path comes to
-- them.
pub data Cut (al : Allocator) (type : UrlType) (xs : List ℕ) (parts : List (List ℕ))
    : Run Made → Type 0 where
  not_cut : Split al utf8 slash xs parts (ok none) → Cut al type xs parts (ok (none, []))
  aborted : Split al utf8 slash xs parts abort → Cut al type xs parts abort
  cut :
      {a : Array Strings} {strings : Strings}
      → Pieces utf8 (a, strings) parts
      → Cut al type xs parts (ok (some (new_url type (some a)), strings))

as_url-Cut :
    (al : Allocator) (type : UrlType) (xs : List ℕ) (parts : List (List ℕ))
    (c : Run (Option Components))
    → Split al utf8 slash xs parts c
    → (r : Run Made) × (then_run (some c) (as_url type) ≡ some r) × Cut al type xs parts r
as_url-Cut al type xs parts (ok none) s = (_, refl, not_cut s)
as_url-Cut al type xs parts (ok (some c)) (split h) = (_, refl, cut h)
as_url-Cut al type xs parts fault s = elim s [ ]
as_url-Cut al type xs parts abort s = (_, refl, aborted s)

-- From `six_feet_under` on, `EFURLCreateWithString` of a path that is a UTF-8 string of a valid text of
-- two bytes or more and fewer than 2^60 ends, given a round for each byte and one more: the URL has the
-- type that was found and, as new UTF-8 strings, the pieces of the text between slashes that are not
-- empty; it is NULL, or the call aborts, where the split of the path comes to that for the reasons of
-- `Split`.
pub url_of_path-Cut :
    (al default_al : Allocator) (fuel : ℕ) (type : UrlType) (s : String) (text : List ℕ)
    → Holds s text
    → s.encoding ≡ utf8
    → accepts utf8 text ≡ true
    → 1 < length text
    → length text < 2 ^ 60
    → length text < fuel
    → (r : Run Made) × (url_of_path al default_al fuel type (some s) ≡ some r)
      × Cut al type text (components slash text) r
unfolding url_of_path
url_of_path-Cut al default_al fuel type s text h e valid long small enough =
    let hs = literal-Holds slash (omega arith) (omega arith) in
    let (root, compared, iff) =
      string_equal-texts h hs (ap (λ k. accepts k text) e ∙ valid) slash_accepted in
    let (c, ran, parts) =
      components_split-Split al s (literal slash) text b'/' [] fuel h hs (ap code e) long small
        enough in
    let (r, out, done) = as_url-Cut al type text (components slash text) c (rw (sym e) parts) in
    elim (Bool-cases root) [
      | inl same ↦ let is = ap length (iff.0 same) in absurd (omega arith)
      | inr other ↦ (r, rw (compared, other, ran) out, done)
    ]
