-- ===== src/Text.antt =====
-- `std::string` as the list of its bytes, and the searches of it that the program makes.
-- A position in a text is represented by the text that stands from that position on.
pub mod Search
pub mod Decimal
pub mod Lines
pub mod Tests
use Prim.Native.Char.{code}
use Prim.Native.String.{String}
use embedded_linux_ota.Prelude.{
  ℕ, Bool, true, false, ◌&&◌, ◌||◌, List, [], ◌∷◌, ◌++◌, Option, none, some, ◌≡◌, ◌↔◌, arith, ◌==◌,
  if◌then◌else◌, leb,
}

abbrev pub Text : Type 0
Text = List ℕ

-- The bytes of a literal; every literal of the program is ASCII.
abbrev pub codes : String → Text
codes String.[] = []
codes (String.◌∷◌ c s) = code c ∷ codes s

-- `operator==` of two strings.
unfoldable pub text_eq : Text → Text → Bool
text_eq [] [] = true
text_eq (x ∷ xs) (y ∷ ys) = x == y && text_eq xs ys
text_eq _ _ = false

pub text_eq_iff : (s t : Text) → (text_eq s t ≡ true) ↔ (s ≡ t)
unfolding text_eq
text_eq_iff (x ∷ s) (y ∷ t) = ground (arith, text_eq_iff s t)
text_eq_iff _ _ = ground arith

-- `empty()`.
abbrev pub is_empty : Text → Bool
is_empty [] = true
is_empty (c ∷ s) = false

-- What follows `pre` where the text begins with it.
unfoldable pub strip_prefix : Text → Text → Option Text
strip_prefix [] s = some s
strip_prefix (p ∷ pre) [] = none
strip_prefix (p ∷ pre) (c ∷ s) = if p == c then strip_prefix pre s else none

-- `find(pat)`: what follows the first occurrence of `pat`.
unfoldable pub find_after : Text → Text → Option Text
find_after pat [] = strip_prefix pat []
find_after pat (c ∷ s) = elim (strip_prefix pat (c ∷ s)) [
  | some r ↦ some r
  | none ↦ find_after pat s
]

-- `find(c)`: what follows the first `c`.
unfoldable pub after_char : ℕ → Text → Option Text
after_char b [] = none
after_char b (c ∷ s) = if c == b then some s else after_char b s

-- The text up to the first `c`, if there is one.
unfoldable pub before_char : ℕ → Text → Option Text
before_char b [] = none
before_char b (c ∷ s) =
    if c == b then some [] else elim (before_char b s) [ some r ↦ some (c ∷ r) | none ↦ none ]

abbrev pub is_space : ℕ → Bool
is_space c = c == b' ' || c == b'\t' || c == b'\r' || c == b'\n'

-- `find_first_not_of(" \t\r\n")`; an empty result stands for `npos`.
unfoldable pub skip_spaces : Text → Text
skip_spaces [] = []
skip_spaces (c ∷ s) = if is_space c then skip_spaces s else c ∷ s

-- The text up to the first byte that passes `stop`, or all of it.
unfoldable pub take_until : (ℕ → Bool) → Text → Text
take_until stop [] = []
take_until stop (c ∷ s) = if stop c then [] else c ∷ take_until stop s

abbrev pub is_digit : ℕ → Bool
is_digit c = leb b'0' c && leb c b'9'
