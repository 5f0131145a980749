-- ===== src/Publisher/Attributes.antt =====
-- internal/evalevent/publisher.go: `copyAndValidateAttributes` and `ValidateUserAttributes`. A
-- `map[string]string` is the list of its entries, one for each key; the source's range over it
-- has no fixed order, and here it is that of the list.
use skill_up.Base.{
  ℕ, ◌+◌, Bool, true, false, ◌&&◌, ◌||◌, not, Option, none, some, List, [], ◌∷◌, Str, codes,
  is_empty, has_prefix, valid_string, length, ltb, leb, ◌==◌, if◌then◌else◌, Result, ok, err,
}
use skill_up.Base.Results.{◌>>=◌, ◌>>◌, check}
use skill_up.Event.{
  Err, too_many_attributes, attributes_too_large, invalid_attribute_key, reserved_attribute_key,
  empty_attribute, long_attribute,
}
use skill_up.Event.Validate.{require}

abbrev pub max_attributes_size : ℕ
max_attributes_size = 16384

abbrev pub max_attribute_count : ℕ
max_attribute_count = 32

abbrev pub max_attribute_key : ℕ
max_attribute_key = 128

abbrev pub max_attribute_value : ℕ
max_attribute_value = 1024

abbrev is_lower : ℕ → Bool
is_lower c = leb b'a' c && leb c b'z'

-- `[a-z0-9_-]`.
abbrev is_key_char : ℕ → Bool
is_key_char c = is_lower c || (leb b'0' c && leb c b'9') || c == b'_' || c == b'-'

-- The automaton of `attributeKeyPattern`: at the first letter of a segment or inside one, and
-- whether a dot has been read.
pub data KeyState : Type 0 where
  first : Bool → KeyState
  inside : Bool → KeyState

key_step : KeyState → ℕ → Option KeyState
key_step (first dotted) c = if is_lower c then some (inside dotted) else none
key_step (inside dotted) c =
    if c == b'.' then some (first true) else if is_key_char c then some (inside dotted) else none

key_from : KeyState → Str → Bool
key_from (first dotted) [] = false
key_from (inside dotted) [] = dotted
key_from s (c ∷ cs) = elim (key_step s c) [ none ↦ false | some s' ↦ key_from s' cs ]

-- `attributeKeyPattern.MatchString`.
unfoldable pub attribute_key_matches : Str → Bool
unfolding key_from key_step
attribute_key_matches key = key_from (first false) key

-- The bytes that `json.Marshal` writes for one byte of a valid UTF-8 string, escapes for HTML
-- included, but for U+2028 and U+2029.
json_byte_size : ℕ → ℕ
json_byte_size c =
    if c == 0x22 || c == 0x5C || c == 0x08 || c == 0x0C || c == 0x0A || c == 0x0D || c == 0x09
    then 2
    else if ltb c 0x20 || c == 0x3C || c == 0x3E || c == 0x26
    then 6
    else 1

-- U+2028 and U+2029 are the bytes E2 80 A8 and E2 80 A9, and are written `\u2028` and `\u2029`.
json_bytes_size : Str → ℕ
unfolding json_byte_size
json_bytes_size [] = 0
json_bytes_size (a ∷ []) = json_byte_size a
json_bytes_size (a ∷ b ∷ []) = json_byte_size a + json_byte_size b
json_bytes_size (a ∷ b ∷ c ∷ s) =
    let long = 6 + json_bytes_size s in
    let rest = json_byte_size a + json_bytes_size (b ∷ c ∷ s) in
    if a == 0xE2 && b == 0x80 && (c == 0xA8 || c == 0xA9) then long else rest

-- `"key":"value",` for each entry.
json_entries_size : List (Str × Str) → ℕ
unfolding json_bytes_size
json_entries_size [] = 0
json_entries_size ((k, v) ∷ m) = json_bytes_size k + json_bytes_size v + 6 + json_entries_size m

-- `len(encoded)`: the braces, and no comma after the last entry.
unfoldable pub json_size : List (Str × Str) → ℕ
unfolding json_entries_size
json_size [] = 2
json_size (e ∷ m) = 1 + json_entries_size (e ∷ m)

unfoldable pub validate_attribute : Bool → Str × Str → Option Err
unfolding attribute_key_matches
validate_attribute reject_reserved (key, value) =
    if not (valid_string key)
      || ltb max_attribute_key (length key)
      || not (attribute_key_matches key)
    then some (invalid_attribute_key key)
    else if reject_reserved && has_prefix key (codes "skill-up.")
    then some (reserved_attribute_key key)
    else if is_empty value
    then some (empty_attribute key)
    else if not (valid_string value) || ltb max_attribute_value (length value)
    then some (long_attribute key)
    else none

-- The loop over the entries, which clones them.
unfoldable pub clone_attributes : Bool → List (Str × Str) → Result Err (List (Str × Str))
clone_attributes reject_reserved [] = ok []
clone_attributes reject_reserved (e ∷ m) = do
  check (validate_attribute reject_reserved e)
  rest ← clone_attributes reject_reserved m
  ok (e ∷ rest)

unfoldable pub copy_and_validate_attributes :
    List (Str × Str) → Bool → Result Err (List (Str × Str))
unfolding clone_attributes json_size
copy_and_validate_attributes attributes reject_reserved = do
  check (require (not (ltb max_attribute_count (length attributes))) too_many_attributes)
  cloned ← clone_attributes reject_reserved attributes
  check (require (not (ltb max_attributes_size (json_size cloned))) attributes_too_large)
  ok cloned

unfoldable pub validate_user_attributes : List (Str × Str) → Option Err
validate_user_attributes attributes = elim (copy_and_validate_attributes attributes true) [
  | ok cloned ↦ none
  | err e ↦ some e
]
