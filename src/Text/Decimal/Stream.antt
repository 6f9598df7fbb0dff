-- ===== src/Text/Decimal/Stream.antt =====
-- `stream >> n` for an `int`, and `std::stoll`.
use embedded_linux_ota.Prelude.{
  ℕ, ◌-◌, ◌%◌, ◌<◌, Bool, true, false, not, [], ◌∷◌, ◌++◌, Option, none, some, ◌>>=◌, ◌≡◌, refl,
  ◌∙◌, arith, ◌==◌, ltb, leb, if◌then◌else◌, all, suc,
}
use embedded_linux_ota.Text.{Text, is_digit}
use embedded_linux_ota.Text.Decimal.{
  int_limit, int_modulus, int_to_string, IsBreak, skip_c_spaces, magnitude, parse_digits, digits,
  digits_cons, parse_digits-digits, parse_digits-IsBreak, all-is_digit-digits,
}

abbrev long_limit : ℕ
long_limit = 9223372036854775808

abbrev long_modulus : ℕ
long_modulus = 18446744073709551616

-- `std::stoll`, a 64-bit pattern; `none` stands for its exceptions.
unfoldable pub stoll : Text → Option ℕ
unfolding skip_c_spaces magnitude
stoll s = elim (skip_c_spaces s) [
  | [] ↦ none
  | c ∷ t ↦
      if c == b'-'
      then (magnitude t >>= λ m.
          if leb m long_limit then some ((long_modulus - m) % long_modulus) else none)
      else (magnitude (if c == b'+' then t else c ∷ t) >>= λ m.
          if ltb m long_limit then some m else none)
]

unfoldable pub skip_digits : Text → Text
skip_digits [] = []
skip_digits (c ∷ s) = if is_digit c then skip_digits s else c ∷ s

-- The value that the extraction stores, and what is left of the stream; `none` if it failed. Out of
-- range, the nearest `int` is stored.
read_digits : Bool → Text → ℕ × Option Text
unfolding parse_digits skip_digits
read_digits negative [] = (0, none)
read_digits negative (c ∷ s) =
    let m = parse_digits 0 (c ∷ s) in
    if not (is_digit c)
    then (0, none)
    else if negative
    then (if leb m int_limit
        then ((int_modulus - m) % int_modulus, some (skip_digits (c ∷ s)))
        else (int_limit, none))
    else if ltb m int_limit
    then (m, some (skip_digits (c ∷ s)))
    else (int_limit - 1, none)

unfoldable pub read_int : Text → ℕ × Option Text
unfolding skip_c_spaces read_digits
read_int s = elim (skip_c_spaces s) [
  | [] ↦ (0, none)
  | c ∷ t ↦
      if c == b'-'
      then read_digits true t
      else if c == b'+'
      then read_digits false t
      else read_digits false (c ∷ t)
]

-- `stream >> c` for a `char`, whose value is not used.
unfoldable pub skip_char : Text → Option Text
unfolding skip_c_spaces
skip_char s = elim (skip_c_spaces s) [ [] ↦ none | c ∷ t ↦ some t ]

skip_digits-digits :
    (d rest : Text) → all is_digit d ≡ true → IsBreak rest → skip_digits (d ++ rest) ≡ rest
unfolding skip_digits
skip_digits-digits [] [] h b = refl
skip_digits-digits [] (c ∷ rest) h b = ground arith
skip_digits-digits (c ∷ d) rest h b = ground (arith, skip_digits-digits d rest)

read_magnitude :
    (c : ℕ) (t rest : Text) (n : ℕ)
    → is_digit c ≡ true
    → parse_digits 0 (c ∷ t) ≡ n
    → skip_digits (c ∷ t) ≡ rest
    → n < int_limit
    → read_int (c ∷ t) ≡ (n, some rest)
unfolding read_int skip_c_spaces read_digits
read_magnitude c t rest n h e r l = ground arith

-- A printed `int` that is not negative is read, and what follows it is left.
pub read_int-int_to_string :
    (n : ℕ) (rest : Text)
    → n < int_limit
    → IsBreak rest
    → read_int (int_to_string n ++ rest) ≡ (n, some rest)
unfolding int_to_string
read_int-int_to_string n rest h b =
    let (c, t, e) = digits_cons (suc n) n (omega arith) in
    let whole = parse_digits-digits (suc n) n rest (omega arith) ∙ parse_digits-IsBreak n rest b in
    let left = skip_digits-digits (digits (suc n) n) rest (all-is_digit-digits (suc n) n) b in
    let first = rw e at (all-is_digit-digits (suc n) n) in
    let test : ltb n int_limit ≡ true = ground arith in
    rw (test, e)
      (read_magnitude c (t ++ rest) rest n (ground arith) (rw e at whole) (rw e at left) h)
