-- ===== src/Url.antt =====
-- src/EFURL.c: URLs as a type and an array of path components.
pub mod Texts
pub mod Parts
pub mod Changes
pub mod Appends
pub mod Path
pub mod Create
pub mod Cut
mod Tests
use emex_foundation.Base.{
  ℕ, zero, suc, ◌+◌, ◌-◌, ◌++◌, length, Bool, true, false, not, Option, none, some, List, [], ◌∷◌,
  if◌then◌else◌, ltb, ◌==◌, get_elem?, ℤ, pos, ◌-ℤ◌, Run, ok, ◌>>=◌, or_fault,
}
use emex_foundation.Allocator.{Allocator}
use emex_foundation.Array.Model.{
  Array, Ptr, null, append_value, get_count, get_value_at_index, remove_value_at_index,
}
use emex_foundation.Array.Bulk
use emex_foundation.Data.Holds.{written}
use emex_foundation.String.Encoding.{utf8}
use emex_foundation.String.Model.{String, create_string_copy}
use emex_foundation.String.Edit.{Operand, other, append_string}
use emex_foundation.String.Split.{Strings}

-- `EFURLType`
pub data UrlType : Type 0 where
  posix https http : UrlType

-- `struct __EFURL`. The components are pointers to the strings that have been made.
pub record Url : Type 0 where
  pub type : UrlType
  pub path_components : Option (Array Strings)
  pub path_string : Option String

-- The string at an address; the n-th one is at the address n.
abbrev pub string_at : Strings → Ptr → Run (Option String)
string_at strings p =
    if p == null then ok none else (or_fault (get_elem? strings (p - 1)) >>= λ s. ok (some s))

-- `EFSTR`
abbrev pub literal : List ℕ → String
literal bs = record {
  encoding = utf8;
  is_mutable = false;
  is_inlined = false;
  buffer = some (written bs ++ some 0 ∷ []);
  length = length bs;
}

abbrev pub slash : List ℕ
slash = b'/' ∷ []

-- `EFURLGetType`
abbrev pub get_url_type : Option Url → UrlType
get_url_type none = posix
get_url_type (some url) = url.type

-- `EFURLGetPathComponents`
abbrev pub get_path_components : Option Url → Option (Array Strings)
get_path_components none = none
get_path_components (some url) = url.path_components

-- The prefix of a type in `EFURLCopyPath`.
abbrev pub url_prefix : UrlType → List ℕ
url_prefix https = b'h' ∷ b't' ∷ b't' ∷ b'p' ∷ b's' ∷ b':' ∷ b'/' ∷ b'/' ∷ []
url_prefix http = b'h' ∷ b't' ∷ b't' ∷ b'p' ∷ b':' ∷ b'/' ∷ b'/' ∷ []
url_prefix posix = slash

abbrev pub kept_path : Bool × Option String → Option (Option String)
kept_path (false, path) = none
kept_path (true, path) = some path

module _ (al : Allocator) (components : Option (Array Strings)) (strings : Strings) where
  -- A round of the loops over the components: `none` is `return NULL`.
  abbrev pub append_separated : Bool → Option String → Run (Bool × Option String)
  append_separated true path = append_string al path (other (some (literal slash)))
  append_separated false path = ok (true, path)

  abbrev pub append_path_part : ℕ → Bool × Option String → Run (Bool × Option String)
  append_path_part i (false, path) = ok (false, path)
  append_path_part i (true, path) = get_value_at_index components (pos i) >>= λ p.
      string_at strings p >>= λ part. append_string al path (other part)

  -- The loops, with `left` components from `i` on; a separator stands in front of all but the first.
  unfoldable pub copy_parts : ℕ → ℕ → ℕ → Option String → Run (Option String)
  copy_parts zero first i path = ok path
  copy_parts (suc left) first i path =
      append_separated (ltb first i) path >>= append_path_part i >>= λ r. elim (kept_path r) [
        | none ↦ ok none
        | some path' ↦ copy_parts left first (suc i) path'
      ]

-- What `EFURLCopyPath` and its two kin do with their prefix and the index that they start from.
unfoldable pub copy_path_from : Allocator → List ℕ → ℕ → Url → Strings → Run (Option String)
copy_path_from al prefix first url strings =
    create_string_copy al (some (literal prefix)) true >>= λ path.
    copy_parts al url.path_components strings (get_count url.path_components - first) first first
      path

-- `EFURLCopyPath`
unfoldable pub copy_path : Allocator → Option Url → Strings → Run (Option String)
copy_path al none strings = ok none
copy_path al (some url) strings = copy_path_from al (url_prefix url.type) 0 url strings

-- `EFURLCopyPathWithoutPrefix`
unfoldable pub copy_path_without_prefix : Allocator → Option Url → Strings → Run (Option String)
copy_path_without_prefix al none strings = ok none
copy_path_without_prefix al (some url) strings = copy_path_from al [] 0 url strings

-- `EFURLCopyPathWithoutHostname`
unfoldable pub copy_path_without_hostname : Allocator → Option Url → Strings → Run (Option String)
copy_path_without_hostname al none strings = ok none
copy_path_without_hostname al (some url) strings = copy_path_from al [] 1 url strings

-- `EFURLGetPath`: the path is made once and kept.
unfoldable pub get_path : Allocator → Option Url → Strings → Run (Option String × Option Url)
get_path al none strings = ok (none, none)
get_path al (some url) strings = elim url.path_string [
  | some path ↦ ok (some path, some url)
  | none ↦ copy_path al (some url) strings >>= λ path.
      ok (path, some (record url { path_string = path }))
]

-- `sizeof(struct __EFURL)`
abbrev pub url_bytes : ℕ
url_bytes = 56

-- The object at the end of the functions that make a URL of another one.
abbrev pub url_with : Allocator → Url → Option (Array Strings) → Option Url
url_with al url components =
    if not (al.grants url_bytes)
    then none
    else some (record { type = url.type; path_components = components; path_string = none })

abbrev pub url_appended :
    Allocator → Url → Bool × Option (Array Strings) × Strings → Run (Option Url × Strings)
url_appended al url (false, components, strings) = ok (none, strings)
url_appended al url (true, components, strings) = ok (url_with al url components, strings)

-- `EFURLCreateByAppendingPathComponent`, of the string at an address.
unfoldable pub append_path_component :
    Allocator → Option Url → Ptr → Strings → Run (Option Url × Strings)
append_path_component al none part strings = ok (none, strings)
append_path_component al (some url) part strings =
    if part == null
    then ok (none, strings)
    else (emex_foundation.Array.Bulk.create_copy al url.path_components true strings >>= λ copy.
        append_value al copy.0 part copy.1 >>= url_appended al url)

abbrev pub url_deleted :
    Allocator → Url → Option (Array Strings) × Strings → Run (Option Url × Strings)
url_deleted al url (none, strings) = ok (none, strings)
url_deleted al url (some a, strings) =
    remove_value_at_index (some a) (pos (get_count (some a)) -ℤ pos 1) strings >>= λ r.
    ok (url_with al url r.0, r.1)

-- `EFURLCreateByDeletingLastPathComponent`
unfoldable pub delete_last_path_component :
    Allocator → Option Url → Strings → Run (Option Url × Strings)
delete_last_path_component al none strings = ok (none, strings)
delete_last_path_component al (some url) strings =
    emex_foundation.Array.Bulk.create_copy al url.path_components true strings
    >>= url_deleted al url

-- `EFURLCreateByReplacingLastPathComponent`
unfoldable pub replace_last_path_component :
    Allocator → Option Url → Ptr → Strings → Run (Option Url × Strings)
replace_last_path_component al url part strings =
    delete_last_path_component al url strings >>= λ r. append_path_component al r.0 part r.1
