-- ===== src/Json/Document.antt =====
-- The documents that the program writes, a line for each field.
use embedded_linux_ota.Prelude.{
  ℕ, Bool, true, false, ◌&&◌, ◌||◌, List, [], ◌∷◌, ◌++◌, Option, none, some, ◌≡◌, inl, inr, refl,
  sym, arith, ◌==◌, leb, if◌then◌else◌, ap, ◌∙◌, all, append_assoc, append-nil, Bool-cases,
  all-append,
}
use embedded_linux_ota.Text.{Text, codes, text_eq, text_eq_iff, strip_prefix, find_after, is_digit}
use embedded_linux_ota.Text.Search.{text_eq_refl, lacks, find_after-skip, strip_prefix-closed}
use embedded_linux_ota.Json.{escape_char, escape_json_string, search_key}

-- A field as it is written: between quotes, or bare.
pub data Field : Type 0 where
  quoted : Text → Text → Field
  bare : Text → Text → Field

-- One field, in front of what follows it.
abbrev pub line : Field → Text → Text
line (quoted key v) rest = codes "  \"" ++ (key ++ (codes "\": \"" ++ (v ++ (b'"' ∷ rest))))
line (bare key v) rest = codes "  \"" ++ (key ++ (codes "\": " ++ (v ++ rest)))

abbrev pub lines : List Field → Text
lines [] = codes "}\n"
lines (f ∷ []) = line f (b'\n' ∷ codes "}\n")
lines (f ∷ g ∷ fs) = line f (b',' ∷ b'\n' ∷ lines (g ∷ fs))

abbrev pub document : List Field → Text
document fs = b'{' ∷ b'\n' ∷ lines fs

abbrev pub is_name_char : ℕ → Bool
is_name_char c = is_digit c || (leb b'a' c && leb c b'z') || (leb b'A' c && leb c b'Z') || c == b'_'

-- Keys are names.
abbrev pub is_name : Text → Bool
is_name = all is_name_char

pub is_name-lacks_quote : (k : Text) → is_name k ≡ true → lacks b'"' k ≡ true
is_name-lacks_quote [] h = refl
is_name-lacks_quote (c ∷ k) h = ground (arith, is_name-lacks_quote k)

-- The search for a key that starts at a quote.
abbrev pub from_quote : Text → Text → Option Text
from_quote key s = find_after (search_key key) (b'"' ∷ s)

-- What follows the last quote of a text, or all of it; `seg` is what was read since the last quote.
abbrev pub after_quotes : Text → Text → Text
after_quotes seg [] = seg
after_quotes seg (c ∷ v) = if c == b'"' then after_quotes [] v else after_quotes (seg ++ c ∷ []) v

-- A name holds no byte that is escaped.
escape-is_name : (w : Text) → is_name (escape_json_string w) ≡ true → escape_json_string w ≡ w
unfolding escape_json_string
escape-is_name [] h = refl
escape-is_name (c ∷ w) h = ground (arith, escape-is_name w)

lacks_quote-escape_char : (c : ℕ) → (c == b'"') ≡ false → lacks b'"' (escape_char c) ≡ true
lacks_quote-escape_char c h = ground arith

escape-snoc :
    (w : Text) (c : ℕ) → escape_json_string (w ++ c ∷ []) ≡ escape_json_string w ++ escape_char c
unfolding escape_json_string
escape-snoc [] c = ground (arith, append-nil (escape_char c))
escape-snoc (d ∷ w) c = rw (escape-snoc w c) (sym (append_assoc (escape_char d) _ _))

lacks_quote-backslash :
    (w : Text)
    → lacks b'"' (escape_json_string w) ≡ true
    → lacks b'"' (escape_json_string w ++ b'\\' ∷ []) ≡ true
lacks_quote-backslash w h = rw (all-append, h)

is_name-backslash : (w : Text) → is_name (escape_json_string w ++ b'\\' ∷ []) ≡ false
is_name-backslash w = rw all-append (ground arith)

lacks_quote-snoc :
    (w : Text) (c : ℕ)
    → (c == b'"') ≡ false
    → lacks b'"' (escape_json_string w) ≡ true
    → lacks b'"' (escape_json_string (w ++ c ∷ [])) ≡ true
lacks_quote-snoc w c q h = rw (escape-snoc w c) (rw (all-append, h, lacks_quote-escape_char c q))

regroup :
    (w : Text) (c : ℕ) (v s : Text)
    → escape_json_string w ++ (escape_json_string (c ∷ v) ++ s)
      ≡ escape_json_string (w ++ c ∷ []) ++ (escape_json_string v ++ s)
unfolding escape_json_string
regroup w c v s = rw (escape-snoc w c) (simp append_assoc)

module _ (key : Text) (named : is_name key ≡ true) where
  closed :
      (w s : Text)
      → lacks b'"' w ≡ true
      → strip_prefix (search_key key) (b'"' ∷ (w ++ b'"' ∷ s))
        ≡ (if text_eq key w then some s else none)
  unfolding strip_prefix
  closed w s h = strip_prefix-closed b'"' key w s (is_name-lacks_quote key named) h

  pub from_quote-hit : (s : Text) → from_quote key (key ++ b'"' ∷ s) ≡ some s
  unfolding find_after
  from_quote-hit s = rw (find_after, closed key s (is_name-lacks_quote key named), text_eq_refl key)

  pub from_quote-miss :
      (w s : Text)
      → lacks b'"' w ≡ true
      → text_eq key w ≡ false
      → from_quote key (w ++ b'"' ∷ s) ≡ from_quote key s
  unfolding find_after
  from_quote-miss w s h ne =
      rw (find_after, closed w s h, ne) (find_after-skip b'"' _ w (b'"' ∷ s) h)

  -- A stretch with a byte in it that is no name character is no key.
  pub from_quote-skip :
      (w s : Text)
      → lacks b'"' w ≡ true
      → is_name w ≡ false
      → from_quote key (w ++ b'"' ∷ s) ≡ from_quote key s
  from_quote-skip w s h bad = from_quote-miss w s h (elim (Bool-cases (text_eq key w)) [
    | inl e ↦ ground (arith, (text_eq_iff key w).0 e, named)
    | inr e ↦ e
  ])

  escaped_word_ne : (w : Text) → text_eq key w ≡ false → text_eq key (escape_json_string w) ≡ false
  escaped_word_ne w h = elim (Bool-cases (text_eq key (escape_json_string w))) [
    | inl e ↦
        let same = (text_eq_iff key (escape_json_string w)).0 e in
        let clean = escape-is_name w (rw (← same) named) in
        ground (arith, (text_eq_iff key w).1 (same ∙ clean))
    | inr e ↦ e
  ]

  from_quote-escaped_from :
      (v w s : Text)
      → lacks b'"' (escape_json_string w) ≡ true
      → text_eq key (after_quotes w v) ≡ false
      → from_quote key (escape_json_string w ++ (escape_json_string v ++ b'"' ∷ s))
        ≡ from_quote key s
  unfolding escape_json_string
  from_quote-escaped_from [] w s h free = from_quote-miss _ s h (escaped_word_ne w free)
  from_quote-escaped_from (c ∷ v) w s h free = elim (Bool-cases (c == b'"')) [
    | inl q ↦
        let stop = escape_json_string w ++ b'\\' ∷ [] in
        rw q (
          ap (from_quote key) (sym (append_assoc (escape_json_string w) (b'\\' ∷ []) _))
          ∙ from_quote-skip stop _ (lacks_quote-backslash w h) (is_name-backslash w)
          ∙ from_quote-escaped_from v [] s refl (rw q at free))
    | inr q ↦
        ap (from_quote key) (regroup w c v (b'"' ∷ s))
        ∙ from_quote-escaped_from v (w ++ c ∷ []) s (lacks_quote-snoc w c q h) (rw q at free)
  ]

  -- An escaped value hides no key, unless what follows its last quote is that key.
  pub from_quote-escaped :
      (v s : Text)
      → text_eq key (after_quotes [] v) ≡ false
      → from_quote key (escape_json_string v ++ b'"' ∷ s) ≡ from_quote key s
  unfolding escape_json_string
  from_quote-escaped v s free = from_quote-escaped_from v [] s refl free
