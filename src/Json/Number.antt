-- ===== src/Json/Number.antt =====
-- Bare numbers in a document.
use embedded_linux_ota.Prelude.{ℕ, ◌<◌, true, [], ◌∷◌, ◌++◌, ◌≡◌, refl, arith, all, ◌∙◌}
use embedded_linux_ota.Text.{Text, skip_spaces, take_until, is_digit}
use embedded_linux_ota.Text.Search.{lacks}
use embedded_linux_ota.Text.Decimal.{int_limit, int_to_string, int_to_string_digits}
use embedded_linux_ota.Json.{ends_value, value_at}

take_until-digits :
    (d s : Text)
    → all is_digit d ≡ true
    → take_until ends_value (d ++ s) ≡ d ++ take_until ends_value s
unfolding take_until
take_until-digits [] s h = refl
take_until-digits (c ∷ d) s h = ground (arith, take_until-digits d s)

value_at-digits :
    (read : Text → Text) (c : ℕ) (t s : Text)
    → all is_digit (c ∷ t) ≡ true
    → value_at read (skip_spaces (c ∷ (t ++ s))) ≡ take_until ends_value (c ∷ (t ++ s))
unfolding value_at skip_spaces take_until
value_at-digits read c t s h = ground arith

-- The value of a bare number is its digits, and what follows up to a comma or a brace.
pub value_at-int :
    (read : Text → Text) (n : ℕ) (s : Text)
    → n < int_limit
    → value_at read (skip_spaces (int_to_string n ++ s))
      ≡ int_to_string n ++ take_until ends_value s
value_at-int read n s h =
    let (c, t, e, d) = int_to_string_digits n h in
    rw e (value_at-digits read c t s d ∙ take_until-digits (c ∷ t) s d)

lacks_quote-digits : (d : Text) → all is_digit d ≡ true → lacks b'"' d ≡ true
lacks_quote-digits [] h = refl
lacks_quote-digits (c ∷ d) h = ground (arith, lacks_quote-digits d)

pub lacks_quote-int : (n : ℕ) → n < int_limit → lacks b'"' (int_to_string n) ≡ true
lacks_quote-int n h =
    let (c, t, e, d) = int_to_string_digits n h in rw e (lacks_quote-digits (c ∷ t) d)
