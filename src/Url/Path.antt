-- ===== src/Url/Path.antt =====
-- The functions of src/EFURL.c that copy a path, on the texts of its parts.
use emex_foundation.Base.{
  ℕ, ◌-◌, ◌<◌, ◌^◌, true, false, Option, none, some, List, [], ◌++◌, ◌≡◌, refl, sym, ap, ◌∙◌, inl,
  inr, arith, ltb, length, drop, Returns, returns, Returns-bind, Returns-mono,
}
use emex_foundation.Allocator.{Allocator}
use emex_foundation.Array.Model.{Array, get_count}
use emex_foundation.String.Accepts.{accepts}
use emex_foundation.String.Create
use emex_foundation.String.Cuts.{HoldsParts, HoldEach-length, length-addresses}
use emex_foundation.String.Encoding.{utf8}
use emex_foundation.String.Holds.{Holds, IsText}
use emex_foundation.String.Model.{String}
use emex_foundation.String.Split.{Strings}
use emex_foundation.String.Splitting.{join}
use emex_foundation.Url.{
  Url, literal, slash, url_prefix, copy_parts, copy_path_from, copy_path, copy_path_without_prefix,
  copy_path_without_hostname,
}
use emex_foundation.Url.Texts.{
  Copied, no_object, made_of, empty_accepted, failed, literal-Holds, rest_text, rest_text-join,
  url_prefix-valid,
}
use emex_foundation.Url.Appends.{copy_parts-Filled, copy_parts-null}

module _ (al : Allocator) (a : Array Strings) (strings : Strings) (parts : List (List ℕ))
    (h : HoldsParts Holds (a, strings) parts) where
  prefix-Copied :
      (prefix rest : List ℕ) (ps : List (List ℕ))
      → accepts utf8 prefix ≡ true
      → emex_foundation.String.Create.Created al utf8 prefix true none
      → Copied al prefix ps (prefix ++ rest) none
  prefix-Copied prefix rest ps valid (emex_foundation.String.Create.refused invalid) = absurd (cc)
  prefix-Copied prefix rest ps valid (emex_foundation.String.Create.out_of_memory (inl denied)) =
      no_object denied
  prefix-Copied prefix rest ps valid (emex_foundation.String.Create.out_of_memory (inr denied)) =
      made_of (failed (inr (prefix, rest, refl, denied.1)))

  after_prefix :
      (prefix : List ℕ) (left first : ℕ) (o : Option String)
      → left ≡ length parts - first
      → accepts utf8 prefix ≡ true
      → emex_foundation.String.Create.Created al utf8 prefix true o
      → Returns
          (Copied al prefix (drop first parts) (prefix ++ join slash (drop first parts)))
          (copy_parts al (some a) strings left first first o)
  after_prefix prefix left first none n valid c =
      rw (copy_parts-null al a strings parts h left first first n)
        (returns (prefix-Copied prefix (join slash (drop first parts)) (drop first parts) valid c))
  after_prefix prefix left first (some s) n valid (emex_foundation.String.Create.made v e m hs) =
      let start : ltb first first ≡ false = ground arith in
      let text =
        ap (λ b. rest_text b (drop first parts)) start ∙ rest_text-join (drop first parts) in
      Returns-mono
        (copy_parts-Filled al a strings parts h left first first s prefix _ n (omega arith)
          (record { encoding = e; is_mutable = m; holds = hs }) (ap (◌++◌ prefix) (sym text)))
        (λ o. made_of)

  copy_path_from-Copied :
      (url : Url) (prefix : List ℕ) (first : ℕ)
      → url.path_components ≡ some a
      → IsText prefix
      → length prefix < 2 ^ 63 - 1
      → accepts utf8 prefix ≡ true
      → Returns
          (Copied al prefix (drop first parts) (prefix ++ join slash (drop first parts)))
          (copy_path_from al prefix first url strings)
  unfolding copy_path_from get_count
  copy_path_from-Copied url prefix first is t small valid =
      let count : a.items_count ≡ length parts =
        h.array.counted ∙ length-addresses (length strings) ∙ HoldEach-length h.texts in
      rw is (
        Returns-bind
          (emex_foundation.String.Create.create_string_copy-Created al (literal prefix) prefix true
            (literal-Holds prefix t small))
          λ o c. after_prefix prefix _ first o (ap (λ k. k - first) count) valid c)

-- For a URL whose components are strings that hold the texts `parts`, each of the three functions that
-- copy its path returns. The text is the parts with a slash between each two of them; `EFURLCopyPath`
-- puts the prefix of the type in front, and `EFURLCopyPathWithoutHostname` leaves out the first part.
-- The result is a mutable UTF-8 string of the text, and then the parts are all valid UTF-8; or NULL,
-- because one of them is not, or the request for the object of a string of the prefix, or for the
-- characters of a beginning of the text and a zero, is refused.
pub copies-Copied :
    (al : Allocator) (url : Url) (a : Array Strings) (strings : Strings) (parts : List (List ℕ))
    → HoldsParts Holds (a, strings) parts
    → url.path_components ≡ some a
    → Returns
        (Copied al (url_prefix url.type) parts (url_prefix url.type ++ join slash parts))
        (copy_path al (some url) strings)
      × Returns
          (Copied al [] parts (join slash parts))
          (copy_path_without_prefix al (some url) strings)
      × Returns
          (Copied al [] (drop 1 parts) (join slash (drop 1 parts)))
          (copy_path_without_hostname al (some url) strings)
unfolding copy_path copy_path_without_prefix copy_path_without_hostname
copies-Copied al url a strings parts h is =
    let (t, small, valid) = url_prefix-valid url.type in
    (
      copy_path_from-Copied al a strings parts h url (url_prefix url.type) 0 is t small valid,
      copy_path_from-Copied al a strings parts h url [] 0 is tt (omega arith) empty_accepted,
      copy_path_from-Copied al a strings parts h url [] 1 is tt (omega arith) empty_accepted,
    )
