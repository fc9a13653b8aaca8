-- ===== src/Url/Tests.antt =====
-- URLs that run (src/EFURL.c), and the theorems about them at these URLs.
use emex_foundation.Base.{ℕ, true, none, some, List, [], ◌∷◌, refl, arith, pos, ◌++◌, Returns}
use emex_foundation.Allocator.{megabyte}
use emex_foundation.Array.Model.{Array}
use emex_foundation.String.Cuts.{HoldsParts, nothing, more}
use emex_foundation.String.Split.{Strings, object_callbacks}
use emex_foundation.String.Splitting.{join}
use emex_foundation.Url.{
  Url, https, literal, slash, url_prefix, copy_path, copy_path_without_prefix,
  copy_path_without_hostname,
}
use emex_foundation.String.Holds.{Holds}
use emex_foundation.Url.Texts.{Copied, literal-Holds}
use emex_foundation.Url.{
  append_path_component, delete_last_path_component, replace_last_path_component,
}
use emex_foundation.Url.{copy_path_from, copy_parts}
use emex_foundation.String.Model.{create_string_copy}
use emex_foundation.Array.Model.{get_value_at_index}
use emex_foundation.String.Edit.{append_string}
use emex_foundation.Url.Parts.{Derived, HasPath}
use emex_foundation.Url.Changes.{changes-Derived}
use emex_foundation.Data.Holds.{written}
use emex_foundation.String.Encoding.{
  utf8, validate_encoding, validate_utf8, utf8_char, utf8_lead, utf8_tail, code_point_allowed,
}
use emex_foundation.String.Model.{create_string, string_buffer}
use emex_foundation.Url.Create.{FileSystem, create_with_string}
use emex_foundation.Url.Create.{url_of_string, url_of_web, url_of_path, url_resolved, url_behind}
use emex_foundation.String.Compare.{
  string_equal_range, compare_bytes, has_prefix, strncmp, string_equal,
}
use emex_foundation.String.Model.{
  create_copy_with_range, strnlen, create_with_c_string, strlen, get_c_string_ptr,
}
use emex_foundation.String.Split.{components_split, count_separators, split_loop, last_component}
use emex_foundation.Array.Model.{create_mutable, append_value, resize_if_needed, retain_item}
use emex_foundation.Array.Bulk.{append_values_of_array, reserve_loop, copy_loop}
use emex_foundation.Base.{ok, Run, Option, ◌≡◌, ◌++◌}
use emex_foundation.Base.{length, ◌-ℤ◌, ◌+ℤ◌}
use emex_foundation.String.Split.{split_round}
use emex_foundation.Array.Model.{get_count}
use emex_foundation.Url.{UrlType, posix, http}
use emex_foundation.String.Accepts.{accepts}
use emex_foundation.String.Splitting.{components}
use emex_foundation.Url.Create.{Made}
use emex_foundation.Url.Cut.{Cut, url_of_path-Cut}
use emex_foundation.Url.Path.{copies-Copied}

abbrev host : List ℕ
host = b'e' ∷ b'.' ∷ b'o' ∷ []

abbrev page : List ℕ
page = b'p' ∷ []

abbrev site_strings : Strings
site_strings = literal host ∷ literal page ∷ []

abbrev site_components : Array Strings
site_components = record {
  is_mutable = true;
  callbacks = object_callbacks;
  items_capacity = pos 2;
  items_count = 2;
  items = some 1 ∷ some 2 ∷ [];
}

abbrev site : Url
site = record { type = https; path_components = some site_components; path_string = none }

site-HoldsParts : HoldsParts Holds (site_components, site_strings) (host ∷ page ∷ [])
site-HoldsParts = record {
  array = record { spare = []; cells = refl; counted = refl; capacity = refl; small = omega arith };
  is_mutable = refl;
  callbacks = refl;
  texts =
      more (literal-Holds host (omega arith) (omega arith))
        (more (literal-Holds page (omega arith) (omega arith)) nothing);
}

copies-Copied_example :
    Returns
      (Copied megabyte
        (url_prefix https)
        (host ∷ page ∷ [])
        (url_prefix https ++ join slash (host ∷ page ∷ [])))
      (copy_path megabyte (some site) site_strings)
    × Returns
        (Copied megabyte [] (host ∷ page ∷ []) (join slash (host ∷ page ∷ [])))
        (copy_path_without_prefix megabyte (some site) site_strings)
    × Returns
        (Copied megabyte [] (page ∷ []) (join slash (page ∷ [])))
        (copy_path_without_hostname megabyte (some site) site_strings)
copies-Copied_example =
    copies-Copied megabyte site site_components site_strings (host ∷ page ∷ []) site-HoldsParts refl

site-HasPath : HasPath site (1 ∷ 2 ∷ [])
site-HasPath = record {
  array = site_components;
  is = refl;
  callbacks = refl;
  holds = record { spare = []; cells = refl; counted = refl; capacity = refl; small = omega arith };
  real = ((λ e. omega arith), ((λ e. omega arith), tt));
}

changes-Derived_example :
    Returns
      (Derived megabyte site (some 2) (1 ∷ 2 ∷ 2 ∷ []) site_strings)
      (append_path_component megabyte (some site) 2 site_strings)
    × Returns
        (Derived megabyte site none (1 ∷ []) site_strings)
        (delete_last_path_component megabyte (some site) site_strings)
    × Returns
        (Derived megabyte site (some 1) (1 ∷ 2 ∷ []) site_strings)
        (replace_last_path_component megabyte (some site) 2 site_strings)
changes-Derived_example =
    changes-Derived megabyte site site_strings (1 ∷ 2 ∷ []) 2 site-HasPath refl refl refl
      (λ e. omega arith)

-- A system that finds no path, in the directory `/e.o`.
abbrev lost : FileSystem
lost = record {
  path_max = 4096;
  realpath = λ p. none;
  getcwd = some (written (b'/' ∷ host) ++ some 0 ∷ []);
}

-- The type of a URL, how many components it has, and the strings that were made.
abbrev seen : Option (Run (Option Url × Strings)) → Option (UrlType × ℕ × ℕ)
seen (some (ok (some url, strings))) =
    some (url.type, get_count url.path_components, length strings)
seen r = none

abbrev address : List ℕ
address = url_prefix http ++ b'x' ∷ b'/' ∷ b'y' ∷ []

web_parts :
    seen (create_with_string megabyte megabyte 4 lost (some (literal address))) ≡ some (http, 2, 2)
unfolding create_with_string url_of_string url_of_web url_of_path url_resolved url_behind
    string_equal_range compare_bytes create_copy_with_range create_string strnlen
    create_with_c_string strlen get_c_string_ptr has_prefix strncmp string_equal components_split
    count_separators split_loop last_component create_mutable append_value append_values_of_array
    reserve_loop copy_loop resize_if_needed retain_item get_count string_buffer validate_encoding
    validate_utf8 utf8_char utf8_lead utf8_tail code_point_allowed ◌-ℤ◌ ◌+ℤ◌ split_round
web_parts = refl

-- A path as short as the separator is not cut, so that a host of one letter makes no URL.
short_host :
    seen
      (create_with_string megabyte megabyte 4 lost (some (literal (url_prefix http ++ b'x' ∷ []))))
    ≡ none
unfolding create_with_string url_of_string url_of_web url_of_path url_resolved url_behind
    string_equal_range compare_bytes create_copy_with_range create_string strnlen
    create_with_c_string strlen get_c_string_ptr has_prefix strncmp string_equal components_split
    count_separators split_loop last_component create_mutable append_value append_values_of_array
    reserve_loop copy_loop resize_if_needed retain_item get_count string_buffer validate_encoding
    validate_utf8 utf8_char utf8_lead utf8_tail code_point_allowed ◌-ℤ◌ ◌+ℤ◌ split_round
short_host = refl

relative_parts :
    seen (create_with_string megabyte megabyte 6 lost (some (literal (b'p' ∷ b'/' ∷ b'q' ∷ []))))
    ≡ some (posix, 3, 3)
unfolding create_with_string url_of_string url_of_web url_of_path url_resolved url_behind
    string_equal_range compare_bytes create_copy_with_range create_string strnlen
    create_with_c_string strlen get_c_string_ptr has_prefix strncmp string_equal components_split
    count_separators split_loop last_component create_mutable append_value append_values_of_array
    reserve_loop copy_loop resize_if_needed retain_item get_count string_buffer validate_encoding
    validate_utf8 utf8_char utf8_lead utf8_tail code_point_allowed ◌-ℤ◌ ◌+ℤ◌ split_round
relative_parts = refl

abbrev web_path : List ℕ
web_path = b'x' ∷ b'/' ∷ b'y' ∷ []

web_path_valid : accepts utf8 web_path ≡ true
unfolding accepts validate_encoding validate_utf8 utf8_char utf8_lead utf8_tail code_point_allowed
web_path_valid = refl

url_of_path-Cut_example :
    (r : Run Made) × (url_of_path megabyte megabyte 4 http (some (literal web_path)) ≡ some r)
    × Cut megabyte http web_path (components slash web_path) r
url_of_path-Cut_example =
    url_of_path-Cut megabyte megabyte 4 http (literal web_path) web_path
      (literal-Holds web_path (omega arith) (omega arith)) refl web_path_valid (omega arith)
      (omega arith) (omega arith)

site_path :
    copy_path megabyte (some site) site_strings
    ≡ ok (some (record (literal (url_prefix https ++ host ++ slash ++ page)) { is_mutable = true }))
unfolding copy_path copy_path_from create_string_copy create_string strnlen validate_encoding
    validate_utf8 utf8_char utf8_lead utf8_tail code_point_allowed string_buffer copy_parts
    get_count get_value_at_index append_string
site_path = refl
