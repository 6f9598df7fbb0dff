-- ===== src/Json/Escape.antt =====
-- Escaping and unescaping: the strings of a document come back as they were.
use embedded_linux_ota.Prelude.{ℕ, false, [], ◌∷◌, ◌++◌, ◌≡◌, refl, arith, ◌==◌}
use embedded_linux_ota.Text.{Text}
use embedded_linux_ota.Json.{escape_json_string, unescape_json_string, quoted_part, unescape_from}

unescape-cons_plain :
    (c : ℕ) (s : Text)
    → (c == b'\\') ≡ false
    → unescape_json_string (c ∷ s) ≡ c ∷ unescape_json_string s
unfolding unescape_json_string
unescape-cons_plain c [] h = refl
unescape-cons_plain c (d ∷ s) h = ground arith

-- Unescaping undoes escaping, for the slot and transaction managers.
pub unescape-escape : (s : Text) → unescape_json_string (escape_json_string s) ≡ s
unfolding escape_json_string unescape_json_string
unescape-escape [] = refl
unescape-escape (c ∷ s) =
    ground (arith, unescape-escape s, unescape-cons_plain c (escape_json_string s))

-- The same for the boot control and the bootloader.
pub unescape_from-escape : (s : Text) → unescape_from false (escape_json_string s) ≡ s
unfolding escape_json_string unescape_from
unescape_from-escape [] = refl
unescape_from-escape (c ∷ s) = ground (arith, unescape_from-escape s)

quoted_part-cons_plain :
    (c : ℕ) (s : Text)
    → (c == b'\\') ≡ false
    → (c == b'"') ≡ false
    → quoted_part (c ∷ s) ≡ c ∷ quoted_part s
unfolding quoted_part
quoted_part-cons_plain c [] h k = ground arith
quoted_part-cons_plain c (d ∷ s) h k = ground arith

-- The closing quote of an escaped value is the one that the writer put there.
pub quoted_part-escape :
    (v s : Text) → quoted_part (escape_json_string v ++ b'"' ∷ s) ≡ escape_json_string v
unfolding escape_json_string quoted_part
quoted_part-escape [] [] = refl
quoted_part-escape [] (d ∷ s) = refl
quoted_part-escape (c ∷ v) s =
    ground
      (arith, quoted_part-escape v s, quoted_part-cons_plain c (escape_json_string v ++ b'"' ∷ s))
