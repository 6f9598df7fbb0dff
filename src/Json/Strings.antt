-- ===== src/Json/Strings.antt =====
-- String fields of a document, written with `escape_json_string` and read by `extract_json_value`.
use embedded_linux_ota.Prelude.{
  Bool, true, false, ◌||◌, List, [], ◌∷◌, some, ◌≡◌, ap, ◌∙◌, arith, all, Bool-cases, inl, inr,
}
use embedded_linux_ota.Text.{Text, text_eq, text_eq_iff}
use embedded_linux_ota.Text.Search.{lacks}
use embedded_linux_ota.Json.{escape_json_string, unescape_json_string, extract_json_value}
use embedded_linux_ota.Json.Escape.{unescape-escape, quoted_part-escape}
use embedded_linux_ota.Json.Document.{
  Field, quoted, document, is_name, after_quotes, from_quote-escaped, from_quote-miss,
}
use embedded_linux_ota.Json.Lookup.{name_of, find_field, IsNeutral, AllNeutral, extract_quoted}

-- The text is one of the keys.
abbrev pub known : List Text → Text → Bool
known [] t = false
known (k ∷ ks) t = text_eq k t || known ks t

-- What follows the last quote of the value is none of the keys. (A value without quotes must just
-- not be a key itself.)
abbrev pub IsFree : List Text → Text → Type 0
IsFree keys v = known keys (after_quotes [] v) ≡ false

known-ne :
    (keys : List Text) (k t : Text)
    → known keys k ≡ true
    → known keys t ≡ false
    → text_eq k t ≡ false
known-ne keys k t h n = elim (Bool-cases (text_eq k t)) [
  | inl e ↦ ground (arith, (text_eq_iff k t).0 e, h, n)
  | inr e ↦ e
]

module _ (keys : List Text) (key : Text) (named : is_name key ≡ true)
    (here : known keys key ≡ true) where
  pub escaped-IsNeutral :
      (v : Text) → IsFree keys v → IsNeutral key (quoted [] (escape_json_string v))
  escaped-IsNeutral v free s = from_quote-escaped key named v s (known-ne keys key _ here free)

  pub plain-IsNeutral :
      (v : Text) → lacks b'"' v ≡ true → known keys v ≡ false → IsNeutral key (quoted [] v)
  plain-IsNeutral v h free s = from_quote-miss key named v s h (known-ne keys key v here free)

module _ (key : Text) (named : is_name key ≡ true) (fs : List Field) where
  -- A string field comes back as it was.
  pub extract_escaped :
      {n v : Text}
      → all (λ g. is_name (name_of g)) fs ≡ true
      → AllNeutral key fs
      → find_field key fs ≡ some (quoted n (escape_json_string v))
      → extract_json_value (document fs) key ≡ v
  unfolding extract_json_value
  extract_escaped {n} {v} names free found =
      extract_quoted key named _ fs names free found
      ∙ ap unescape_json_string (quoted_part-escape v _)
      ∙ unescape-escape v
