-- ===== src/Text/Search.antt =====
-- How the searches of Text act on a text that is put together from pieces.
use embedded_linux_ota.Prelude.{
  ℕ, Bool, true, not, [], ◌∷◌, ◌++◌, none, some, ◌≡◌, refl, arith, ◌==◌, if◌then◌else◌, all,
}
use embedded_linux_ota.Text.{
  Text, strip_prefix, find_after, after_char, before_char, text_eq, text_eq_iff,
}

pub text_eq_refl : (s : Text) → text_eq s s ≡ true
text_eq_refl s = (text_eq_iff s s).1 refl

pub text_eq-append : (p x y : Text) → text_eq (p ++ x) (p ++ y) ≡ text_eq x y
unfolding text_eq
text_eq-append [] x y = refl
text_eq-append (c ∷ p) x y = ground (arith, text_eq-append p x y)

abbrev pub lacks : ℕ → Text → Bool
lacks b = all (λ c. not (c == b))

module _ (b : ℕ) where
  pub after_char-append : (p s : Text) → lacks b p ≡ true → after_char b (p ++ (b ∷ s)) ≡ some s
  unfolding after_char
  after_char-append [] s h = ground arith
  after_char-append (c ∷ p) s h = ground (arith, after_char-append p s)

  pub before_char-append : (p s : Text) → lacks b p ≡ true → before_char b (p ++ (b ∷ s)) ≡ some p
  unfolding before_char
  before_char-append [] s h = ground arith
  before_char-append (c ∷ p) s h = ground (arith, before_char-append p s)

  -- An occurrence of a pattern that begins with `b` begins at a `b`.
  pub find_after-skip :
      (pat p s : Text) → lacks b p ≡ true → find_after (b ∷ pat) (p ++ s) ≡ find_after (b ∷ pat) s
  unfolding find_after strip_prefix
  find_after-skip pat [] s h = refl
  find_after-skip pat (c ∷ p) s h = ground (arith, find_after-skip pat p s)

  -- Two words with no `b` in them, each closed by `b`.
  pub strip_prefix-closed :
      (k w s : Text)
      → lacks b k ≡ true
      → lacks b w ≡ true
      → strip_prefix (k ++ (b ∷ [])) (w ++ (b ∷ s)) ≡ (if text_eq k w then some s else none)
  unfolding strip_prefix text_eq
  strip_prefix-closed [] [] s hk hw = ground arith
  strip_prefix-closed [] (c ∷ w) s hk hw = ground arith
  strip_prefix-closed (d ∷ k) [] s hk hw = ground arith
  strip_prefix-closed (d ∷ k) (c ∷ w) s hk hw = ground (arith, strip_prefix-closed k w s)
