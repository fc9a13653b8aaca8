-- ===== src/Url/Create.antt =====
-- `EFURLCreateWithString` of src/EFURL.c, over the file system that it asks.
use emex_foundation.Base.{
  ℕ, ◌+◌, Bool, true, false, not, Option, none, some, List, [], ◌∷◌, ◌++◌, length, if◌then◌else◌,
  pos, Run, ok, fault, abort,
}
use emex_foundation.Allocator.{Allocator}
use emex_foundation.Array.Model.{Array, Ptr, create_mutable}
use emex_foundation.Array.Bulk.{append_values_of_array, create}
use emex_foundation.Data.{Block}
use emex_foundation.String.Compare.{has_prefix, string_equal, string_equal_range, sub_index}
use emex_foundation.String.Encoding.{utf8}
use emex_foundation.String.Model.{
  String, create_with_c_string, create_copy_with_range, get_c_string_ptr,
}
use emex_foundation.String.Split.{Components, Strings, object_callbacks, components_split}
use emex_foundation.Url.{Url, UrlType, posix, https, http, literal, slash, url_prefix, url_bytes}

-- The calls of the system: the text that they write, with its zero, or NULL.
pub record FileSystem : Type 0 where
  pub path_max : ℕ
  pub realpath : Option Block → Option Block
  pub getcwd : Option Block

-- A step behind one that has rounds of a loop, as `components_split` has.
abbrev pub then_run : {A B : Type 0} → Option (Run A) → (A → Option (Run B)) → Option (Run B)
then_run none k = none
then_run (some (ok a)) k = k a
then_run (some fault) k = some fault
then_run (some abort) k = some abort

-- The objects of a second array, whose strings stand behind `n` others.
abbrev pub items_behind : ℕ → List (Option Ptr) → List (Option Ptr)
items_behind n [] = []
items_behind n (none ∷ cells) = none ∷ items_behind n cells
items_behind n (some p ∷ cells) = some (n + p) ∷ items_behind n cells

abbrev pub array_behind : ℕ → Array Strings → Array Strings
array_behind n a = record a { items = items_behind n a.items }

-- A URL without its components, which the function makes first.
abbrev pub new_url : UrlType → Option (Array Strings) → Url
new_url type components = record { type = type; path_components = components; path_string = none }

abbrev pub Made : Type 0
Made = Option Url × Strings

abbrev pub as_url : UrlType → Option Components → Option (Run Made)
as_url type none = some (ok (none, []))
as_url type (some (a, strings)) = some (ok (some (new_url type (some a)), strings))

module _ (al default_al : Allocator) (fuel : ℕ) where
  -- From the label `six_feet_under` on: the path is cut into components.
  unfoldable pub url_of_path : UrlType → Option String → Option (Run Made)
  url_of_path type path = then_run (some (string_equal path (some (literal slash)))) λ root.
      if root
      then then_run (some (create default_al (some object_callbacks) none (pos 0) []))
          (λ r. some (ok (some (new_url type r.0), r.1)))
      else then_run (components_split al fuel path (some (literal slash))) (as_url type)

  -- The components of the second path behind those of the first.
  abbrev pub append_parts : Components → Bool × Option (Array Strings) × Strings → Option (Run Made)
  append_parts (b, more) (false, a, strings) = some (ok (none, []))
  append_parts (b, more) (true, a, strings) =
      then_run
        (some
          (append_values_of_array al a (some (array_behind (length strings) b)) (strings ++ more)))
        λ r. if r.0 then some (ok (some (new_url posix r.1), r.2)) else some (ok (none, []))

  abbrev pub join_parts :
      Option (Array Strings) → Option Components → Option Components → Option (Run Made)
  join_parts none base end = some (ok (none, []))
  join_parts (some a) none end = some (ok (none, []))
  join_parts (some a) (some base) none = some (ok (none, []))
  join_parts (some a) (some base) (some end) =
      then_run (some (append_values_of_array al (some a) (some base.0) base.1)) (append_parts end)

  -- A relative path that is not found stands behind the working directory.
  unfoldable pub url_behind : Option String → String → Option (Run Made)
  url_behind none s = some (ok (none, []))
  url_behind (some cwd) s =
      let a = create_mutable al (some object_callbacks) (pos 0) in
      then_run (components_split al fuel (some cwd) (some (literal slash))) λ base.
        then_run (components_split al fuel (some s) (some (literal slash))) (join_parts a base)

  module _ (system : FileSystem) where
    -- What the system wrote, as the function sees it: without the buffer, it looks at NULL.
    abbrev pub in_buffer : Block → Option Block
    in_buffer block = if al.grants system.path_max then some block else none

    abbrev pub url_not_found : String → Bool → Option Block → Option (Run Made)
    url_not_found s true cwd = url_of_path posix (some s)
    url_not_found s false none = some (ok (none, []))
    url_not_found s false (some cwd) =
        then_run (some (create_with_c_string al (in_buffer cwd) utf8 true)) (λ c. url_behind c s)

    -- A path that is found is replaced by the one that the system gives, if a string can be made.
    abbrev pub url_found : String → Option String → Option (Run Made)
    url_found s none = url_of_path posix (some s)
    url_found s (some path) = url_of_path posix (some path)

    unfoldable pub url_resolved : String → Option Block → Option (Run Made)
    url_resolved s none =
        then_run (some (has_prefix false (some s) (some (literal slash))))
          λ absolute. url_not_found s absolute system.getcwd
    url_resolved s (some path) =
        then_run (some (create_with_c_string al (in_buffer path) utf8 true)) (url_found s)

    -- A URL of the web, behind its prefix of `n` characters.
    unfoldable pub url_of_web : UrlType → ℕ → String → Option (Run Made)
    url_of_web type n s =
        then_run
          (some (create_copy_with_range al (some s) (pos n) (sub_index (pos s.length) (pos n))))
          (url_of_path type)

    unfoldable pub url_of_string : String → Option (Run Made)
    url_of_string s =
        then_run
          (some (string_equal_range (some s) (some (literal (url_prefix http))) (pos 0) (pos 7)))
          λ web.
            if web
            then url_of_web http 7 s
            else then_run
                (some
                  (string_equal_range (some s) (some (literal (url_prefix https))) (pos 0) (pos 8)))
                λ secure.
                  if secure
                  then url_of_web https 8 s
                  else then_run (some (get_c_string_ptr (some s) utf8))
                      λ path. url_resolved s (system.realpath path)

    -- `EFURLCreateWithString`
    unfoldable pub create_with_string : Option String → Option (Run Made)
    create_with_string none = some (ok (none, []))
    create_with_string (some s) =
        if not (al.grants url_bytes) then some (ok (none, [])) else url_of_string s
