-- ===== src/Json.antt =====
-- The hand-written JSON reader and writer (src/transaction/transaction_manager.cpp,
-- src/slot/slot_manager.cpp, src/boot/simulated_boot_control.cpp and
-- src/boot/bootloader/simulated_bootloader.cpp hold copies of it, in two variants).
pub mod Escape
pub mod Document
pub mod Lookup
pub mod Number
pub mod Strings
pub mod Tests
use embedded_linux_ota.Prelude.{
  ℕ, Bool, true, false, ◌||◌, List, [], ◌∷◌, ◌++◌, Option, none, some, ◌>>=◌, ◌==◌, if◌then◌else◌,
  get_or,
}
use embedded_linux_ota.Text.{
  Text, codes, strip_prefix, find_after, after_char, before_char, skip_spaces, take_until,
}

abbrev escape_char : ℕ → Text
escape_char c =
    if c == b'"'
    then b'\\' ∷ b'"' ∷ []
    else if c == b'\\'
    then b'\\' ∷ b'\\' ∷ []
    else if c == b'\n'
    then b'\\' ∷ b'n' ∷ []
    else if c == b'\r'
    then b'\\' ∷ b'r' ∷ []
    else if c == b'\t'
    then b'\\' ∷ b't' ∷ []
    else c ∷ []

-- `escape_json_string`, the same in every copy.
unfoldable pub escape_json_string : Text → Text
escape_json_string [] = []
escape_json_string (c ∷ s) = escape_char c ++ escape_json_string s

-- The byte that a backslash and `d` stand for.
abbrev unescape_code : ℕ → Option ℕ
unescape_code d =
    if d == b'"'
    then some b'"'
    else if d == b'\\'
    then some b'\\'
    else if d == b'n'
    then some b'\n'
    else if d == b'r'
    then some b'\r'
    else if d == b't'
    then some b'\t'
    else none

-- `unescape_json_string` of the slot and transaction managers. An unknown escape keeps its
-- backslash, and the byte behind it is read again.
unfoldable pub unescape_json_string : Text → Text
unescape_json_string [] = []
unescape_json_string (c ∷ []) = c ∷ []
unescape_json_string (c ∷ d ∷ s) = elim (if c == b'\\' then unescape_code d else none) [
  | some e ↦ e ∷ unescape_json_string s
  | none ↦ c ∷ unescape_json_string (d ∷ s)
]

-- The loop that looks for the closing quote of a value: a backslash takes the next byte along.
-- Without a closing quote the value is all the rest.
unfoldable pub quoted_part : Text → Text
quoted_part [] = []
quoted_part (c ∷ []) = if c == b'"' then [] else c ∷ []
quoted_part (c ∷ d ∷ s) = elim (c == b'\\') [
  | true ↦ c ∷ d ∷ quoted_part s
  | false ↦ elim (c == b'"') [ true ↦ [] | false ↦ c ∷ quoted_part (d ∷ s) ]
]

abbrev pub search_key : Text → Text
search_key key = b'"' ∷ (key ++ b'"' ∷ [])

abbrev pub ends_value : ℕ → Bool
ends_value c = c == b',' || c == b'}'

-- What stands behind the colon; `read` is given what follows an opening quote.
unfoldable pub value_at : (Text → Text) → Text → Text
value_at read [] = []
value_at read (c ∷ s) = if c == b'"' then read s else take_until ends_value (c ∷ s)

-- `extract_json_value`, up to its handling of a quoted value.
unfoldable pub extract_with : (Text → Text) → Text → Text → Text
unfolding find_after strip_prefix after_char skip_spaces take_until value_at
extract_with read json key = get_or [] (do
  r ← find_after (search_key key) json
  v ← after_char b':' r
  some (value_at read (skip_spaces v)))

-- `extract_json_value` of the slot and transaction managers.
unfoldable pub extract_json_value : Text → Text → Text
unfolding extract_with unescape_json_string quoted_part
extract_json_value = extract_with (λ s. unescape_json_string (quoted_part s))

-- `unescape_json_string` of the boot control and the bootloader; the flag is `escaped`.
unfoldable pub unescape_from : Bool → Text → Text
unescape_from escaped [] = []
unescape_from true (c ∷ s) = get_or c (unescape_code c) ∷ unescape_from false s
unescape_from false (c ∷ s) = elim (c == b'\\') [
  | true ↦ unescape_from true s
  | false ↦ c ∷ unescape_from false s
]

-- `extract_json_value` of the boot control and the bootloader: a value ends at the first quote.
unfoldable pub extract_flat_value : Text → Text → Text
unfolding extract_with before_char unescape_from
extract_flat_value =
    extract_with (λ s. elim (before_char b'"' s) [ some v ↦ unescape_from false v | none ↦ [] ])
