-- ===== src/String/Split.antt =====
-- `EFStringComponentsSplitBySeparator` of src/EFString.c, over the arrays of src/EFArray.c.
use emex_foundation.Base.{
  ℕ, zero, suc, ◌+◌, ◌-◌, Bool, true, false, not, ◌||◌, Option, none, some, List, [], ◌∷◌, ◌++◌,
  if◌then◌else◌, leb, ltb, ◌==◌, length, pos, Run, ok, fault, abort, ◌>>=◌,
}
use emex_foundation.Allocator.{Allocator}
use emex_foundation.Array.Model.{Array, Callbacks, null, append_value, create_mutable}
use emex_foundation.Data.{Block}
use emex_foundation.String.Encoding.{code, validate_encoding}
use emex_foundation.String.Model.{String, create_string_with_buffer, advance}
use emex_foundation.String.Compare.{strncmp}

-- The strings that have been made: the n-th one is at the address n. Their counts are not kept here,
-- so that `kEFArrayCallbacksObjectCallbacks` retains and releases without a change.
abbrev pub Strings : Type 0
Strings = List String

abbrev pub object_callbacks : Callbacks Strings
object_callbacks = record {
  address = 2;
  retain = some (λ p s. ok (true, s));
  release = some (λ p s. ok s);
  equal = none;
}

abbrev pub Components : Type 0
Components = Array Strings × Strings

-- `strncmp(&buffer[i], separator, n) == 0`
abbrev pub separator_at : Block → ℕ → Block → ℕ → Run Bool
separator_at text i separator m = advance text i >>= λ p. strncmp m p separator

-- The first loop, with `left` places to look at from `i` on.
unfoldable pub count_separators : ℕ → ℕ → Block → Block → ℕ → Run ℕ
count_separators zero i text separator m = ok 0
count_separators (suc left) i text separator m = separator_at text i separator m >>= λ hit.
    count_separators left (i + 1) text separator m >>= λ count.
    ok (if hit then count + 1 else count)

abbrev pub appended_component : Bool × Option (Array Strings) × Strings → Run (Option Components)
appended_component (true, some a, strings) = ok (some (a, strings))
appended_component (true, none, strings) = fault
appended_component (false, a, strings) = ok none

-- The variables of the second loop.
pub record Scan : Type 0 where
  pub i : ℕ
  pub last : ℕ
  pub components : Components

-- What a round of the second loop does: it goes on, leaves the loop, or returns NULL.
pub data Round : Type 0 where
  goes_on : Scan → Round
  leaves : Scan → Round
  returns_null : Round

module _ (al : Allocator) (s : String) (text separator : Block) (m : ℕ) where
  -- A component of `n` bytes is made and appended; `none` is `return NULL`. The two places that make one
  -- differ in what they do when there is no string.
  abbrev pub append_component :
      Run (Option Components) → ℕ → ℕ → Components → Run (Option Components)
  append_component unmade last n (a, strings) = advance text last >>= λ p.
      create_string_with_buffer al (some p) (pos n) s.encoding >>= λ made. elim made [
        | none ↦ unmade
        | some component ↦
            let strings' = strings ++ component ∷ [] in
            append_value al (some a) (length strings') strings' >>= appended_component
      ]

  abbrev pub after_component : Scan → Option Components → Run Round
  after_component scan none = ok returns_null
  after_component scan (some components) =
      ok (goes_on (record { i = scan.i + m; last = scan.i + m; components = components }))

  -- A separator at `i`: the loop adds m - 1 here and one in its head.
  abbrev pub at_separator : Scan → Run Round
  at_separator scan =
      if leb scan.i scan.last
      then ok (goes_on (record scan { i = scan.i + m; last = scan.i + m }))
      else (append_component (ok none) scan.last (scan.i - scan.last) scan.components
          >>= after_component scan)

  unfoldable pub split_round : Scan → Run Round
  split_round scan =
      if not (ltb scan.i s.length)
      then ok (leaves scan)
      else (separator_at text scan.i separator m >>= λ hit.
          if hit then at_separator scan else ok (goes_on (record scan { i = scan.i + 1 })))

  abbrev pub next_round :
      Run Round → (Scan → Option (Run (Option Scan))) → Option (Run (Option Scan))
  next_round (ok (goes_on scan)) again = again scan
  next_round (ok (leaves scan)) again = some (ok (some scan))
  next_round (ok returns_null) again = some (ok none)
  next_round fault again = some fault
  next_round abort again = some abort

  -- The second loop; `none` is said of a loop that has not ended after that many rounds.
  unfoldable pub split_loop : ℕ → Scan → Option (Run (Option Scan))
  split_loop zero scan = none
  split_loop (suc fuel) scan = next_round (split_round scan) (λ scan'. split_loop fuel scan')

  -- Without a string the last component is NULL: it is appended, and `EFRelease` of it aborts.
  abbrev pub release_null : Components → Run (Option Components)
  release_null (a, strings) = append_value al (some a) null strings >>= λ _. abort

  -- Behind the loop: what is left of the text is the last component.
  unfoldable pub last_component : Option Scan → Run (Option Components)
  last_component none = ok none
  last_component (some scan) =
      if leb s.length scan.last
      then ok (some scan.components)
      else append_component (release_null scan.components) scan.last (s.length - scan.last)
          scan.components

  abbrev pub then_last : Option (Run (Option Scan)) → Option (Run (Option Components))
  then_last none = none
  then_last (some r) = some (r >>= last_component)

  abbrev pub split_into : ℕ → Strings → Option (Array Strings) → Option (Run (Option Components))
  split_into fuel strings none = some (ok none)
  split_into fuel strings (some a) =
      then_last (split_loop fuel (record { i = 0; last = 0; components = (a, strings) }))

  abbrev pub split_counted : ℕ → Run ℕ → Option (Run (Option Components))
  split_counted fuel (ok count) =
      split_into fuel [] (create_mutable al (some object_callbacks) (pos count))
  split_counted fuel fault = some fault
  split_counted fuel abort = some abort

-- The encoding of the string has to allow the separator.
abbrev pub separator_valid : String → Block → String → Run Bool
separator_valid s q separator =
    if code s.encoding == code separator.encoding
    then ok true
    else validate_encoding s.encoding q separator.length

abbrev pub split_valid :
    Allocator → ℕ → String → Block → String → Block → Run Bool → Option (Run (Option Components))
split_valid al fuel s text separator q (ok valid) =
    if not valid || leb s.length separator.length
    then some (ok none)
    else split_counted al s text q separator.length fuel
        (count_separators s.length 0 text q separator.length)
split_valid al fuel s text separator q fault = some fault
split_valid al fuel s text separator q abort = some abort

abbrev pub split_buffers :
    Allocator → ℕ → String → String → Option Block → Option Block → Option (Run (Option Components))
split_buffers al fuel s separator none q = some fault
split_buffers al fuel s separator (some text) none = some fault
split_buffers al fuel s separator (some text) (some q) =
    split_valid al fuel s text separator q (separator_valid s q separator)

-- `EFStringComponentsSplitBySeparator`, given rounds for its second loop.
unfoldable pub components_split :
    Allocator → ℕ → Option String → Option String → Option (Run (Option Components))
components_split al fuel none separator = some (ok none)
components_split al fuel (some s) none = some (ok none)
components_split al fuel (some s) (some separator) =
    split_buffers al fuel s separator s.buffer separator.buffer
