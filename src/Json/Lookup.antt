-- ===== src/Json/Lookup.antt =====
-- What the reader finds in a document: the value of the first field under the key, provided that
-- no value before it looks like the key.
use embedded_linux_ota.Prelude.{
  true, false, not, List, [], ◌∷◌, ◌++◌, Option, none, some, ◌>>=◌, ◌≡◌, inl, inr, refl, sym, arith,
  ◌==◌, if◌then◌else◌, ap, ◌∙◌, all, get_or, append_assoc, Bool-cases, all-append,
}
use embedded_linux_ota.Text.{Text, codes, text_eq, text_eq_iff, find_after, after_char, skip_spaces}
use embedded_linux_ota.Text.Search.{lacks, find_after-skip}
use embedded_linux_ota.Json.{search_key, value_at, extract_with}
use embedded_linux_ota.Json.Document.{
  Field, quoted, bare, line, lines, document, is_name, from_quote, from_quote-hit, from_quote-miss,
  from_quote-skip, is_name-lacks_quote,
}

abbrev pub name_of : Field → Text
name_of (quoted key v) = key
name_of (bare key v) = key

abbrev pub find_field : Text → List Field → Option Field
find_field key [] = none
find_field key (f ∷ fs) = if text_eq key (name_of f) then some f else find_field key fs

-- The search for the key passes over the value of the field.
abbrev pub IsNeutral : Text → Field → Type 0
IsNeutral key (quoted n v) = (s : Text) → from_quote key (v ++ b'"' ∷ s) ≡ from_quote key s
IsNeutral key (bare n v) = lacks b'"' v ≡ true

abbrev pub AllNeutral : Text → List Field → Type 0
AllNeutral key [] = Unit
AllNeutral key (f ∷ fs) = IsNeutral key f × AllNeutral key fs

-- What stands behind the closing quote of the field's key.
abbrev pub behind_key : Field → Text → Text
behind_key (quoted n v) rest = b':' ∷ b' ' ∷ b'"' ∷ (v ++ b'"' ∷ rest)
behind_key (bare n v) rest = b':' ∷ b' ' ∷ (v ++ rest)

-- What stands behind the value of the field that is found.
abbrev pub behind_value : Text → List Field → Text
behind_value key [] = []
behind_value key (f ∷ []) = b'\n' ∷ codes "}\n"
behind_value key (f ∷ g ∷ fs) =
    if text_eq key (name_of f) then b',' ∷ b'\n' ∷ lines (g ∷ fs) else behind_value key (g ∷ fs)

opened :
    (f : Field) (rest : Text)
    → line f rest ≡ b' ' ∷ b' ' ∷ b'"' ∷ (name_of f ++ b'"' ∷ behind_key f rest)
opened (quoted n v) rest = refl
opened (bare n v) rest = refl

lines_cons : (g : Field) (fs : List Field) → (r : Text) × (lines (g ∷ fs) ≡ line g r)
lines_cons g [] = (_, refl)
lines_cons g (h ∷ fs) = (_, refl)

module _ (key : Text) (named : is_name key ≡ true) where
  behind_miss :
      (f : Field) (s : Text)
      → IsNeutral key f
      → from_quote key (behind_key f (b',' ∷ b'\n' ∷ b' ' ∷ b' ' ∷ b'"' ∷ s)) ≡ from_quote key s
  behind_miss (quoted n v) s free =
      from_quote-skip key named (codes ": ") _ refl refl
      ∙ free _
      ∙ from_quote-skip key named (codes ",\n  ") s refl refl
  behind_miss (bare n v) s free =
      let gap = b':' ∷ b' ' ∷ (v ++ codes ",\n  ") in
      ap (λ t. from_quote key (b':' ∷ b' ' ∷ t)) (sym (append_assoc v (codes ",\n  ") (b'"' ∷ s)))
      ∙ from_quote-skip key named gap s
          (rw (all-append (λ c. not (c == b'"')) v (codes ",\n  "), free)) refl

  line_opens :
      (f : Field) (rest : Text)
      → find_after (search_key key) (line f rest)
        ≡ from_quote key (name_of f ++ b'"' ∷ behind_key f rest)
  line_opens (quoted n v) rest = find_after-skip b'"' _ (codes "  ") _ refl
  line_opens (bare n v) rest = find_after-skip b'"' _ (codes "  ") _ refl

  line_hit :
      (f : Field) (rest : Text)
      → text_eq key (name_of f) ≡ true
      → find_after (search_key key) (line f rest) ≡ some (behind_key f rest)
  line_hit f rest h =
      line_opens f rest
      ∙ rw (← (text_eq_iff key (name_of f)).0 h) (from_quote-hit key named (behind_key f rest))

  line_miss :
      (f g : Field) (rest : Text)
      → text_eq key (name_of f) ≡ false
      → is_name (name_of f) ≡ true
      → IsNeutral key f
      → find_after (search_key key) (line f (b',' ∷ b'\n' ∷ line g rest))
        ≡ find_after (search_key key) (line g rest)
  line_miss f g rest h n free =
      line_opens f _
      ∙ from_quote-miss key named (name_of f) _ (is_name-lacks_quote (name_of f) n) h
      ∙ rw (opened g rest) (behind_miss f _ free ∙ sym (find_after-skip b'"' _ (codes "  ") _ refl))

  find_after-lines :
      (fs : List Field) {f : Field}
      → all (λ g. is_name (name_of g)) fs ≡ true
      → AllNeutral key fs
      → find_field key fs ≡ some f
      → find_after (search_key key) (lines fs) ≡ some (behind_key f (behind_value key fs))
  find_after-lines [] names free found = cc
  find_after-lines (f ∷ []) names free found = elim (Bool-cases (text_eq key (name_of f))) [
    | inl hit ↦ rw (line_hit f _ hit) (ground arith)
    | inr miss ↦ ground arith
  ]
  find_after-lines (f ∷ g ∷ fs) names free found = elim (Bool-cases (text_eq key (name_of f))) [
    | inl hit ↦ rw hit (line_hit f _ hit ∙ ground arith)
    | inr miss ↦
        let (r, e) = lines_cons g fs in
        rw miss (
          ap (λ t. find_after (search_key key) (line f (b',' ∷ b'\n' ∷ t))) e
          ∙ line_miss f g r miss (ground arith) free.0
          ∙ ap (find_after (search_key key)) (sym e)
          ∙ find_after-lines (g ∷ fs) (ground arith) free.1 (rw miss at found))
  ]

  pub find_after-document :
      (fs : List Field) {f : Field}
      → all (λ g. is_name (name_of g)) fs ≡ true
      → AllNeutral key fs
      → find_field key fs ≡ some f
      → find_after (search_key key) (document fs) ≡ some (behind_key f (behind_value key fs))
  find_after-document fs names free found =
      find_after-skip b'"' _ (codes "{\n") (lines fs) refl ∙ find_after-lines fs names free found

  module _ (read : Text → Text) (fs : List Field) where
    extract_found :
        {f : Field}
        → all (λ g. is_name (name_of g)) fs ≡ true
        → AllNeutral key fs
        → find_field key fs ≡ some f
        → extract_with read (document fs) key
          ≡ get_or [] (
              after_char b':' (behind_key f (behind_value key fs)) >>= λ v.
              some (value_at read (skip_spaces v)))
    unfolding extract_with
    extract_found names free found = rw (find_after-document fs names free found)

    -- A quoted field: the reader is given what follows the opening quote.
    pub extract_quoted :
        {n v : Text}
        → all (λ g. is_name (name_of g)) fs ≡ true
        → AllNeutral key fs
        → find_field key fs ≡ some (quoted n v)
        → extract_with read (document fs) key ≡ read (v ++ b'"' ∷ behind_value key fs)
    unfolding after_char skip_spaces value_at
    extract_quoted names free found = extract_found names free found

    -- A bare field: its text is taken up to the next comma or brace.
    pub extract_bare :
        {n v : Text}
        → all (λ g. is_name (name_of g)) fs ≡ true
        → AllNeutral key fs
        → find_field key fs ≡ some (bare n v)
        → extract_with read (document fs) key
          ≡ value_at read (skip_spaces (v ++ behind_value key fs))
    unfolding after_char skip_spaces
    extract_bare names free found = extract_found names free found
