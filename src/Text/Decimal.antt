-- ===== src/Text/Decimal.antt =====
-- Decimal numbers of the type `int`: `operator<<` prints one, `std::stoi` reads one.
-- An `int` is held as its 32-bit pattern: `n` below `2 ^ 31` is itself, any other is `n - 2 ^ 32`.
pub mod Stream
use embedded_linux_ota.Prelude.{
  ℕ, zero, suc, ◌+◌, ◌-◌, ◌*◌, ◌/◌, ◌%◌, ◌<◌, ◌≤◌, Bool, true, false, ◌&&◌, ◌||◌, [], ◌∷◌, ◌++◌,
  Option, none, some, ◌>>=◌, ◌≡◌, refl, ap, ◌∙◌, inl, inr, arith, ◌==◌, ltb, leb, if◌then◌else◌,
  all, append_assoc, all-append, Bool-cases,
}
use embedded_linux_ota.Text.{Text, is_digit}

abbrev pub int_limit : ℕ
int_limit = 2147483648

abbrev pub int_modulus : ℕ
int_modulus = 4294967296

-- The digits of `n`, given more fuel than `n`.
digits : ℕ → ℕ → Text
digits zero n = []
digits (suc f) n =
    let more = digits f (n / 10) ++ (b'0' + n % 10) ∷ [] in
    if ltb n 10 then (b'0' + n) ∷ [] else more

-- `os << n` for an `int`.
unfoldable pub int_to_string : ℕ → Text
unfolding digits
int_to_string n =
    if ltb n int_limit
    then digits (suc n) n
    else b'-' ∷ digits (suc (int_modulus - n)) (int_modulus - n)

-- `std::isspace`.
abbrev pub is_c_space : ℕ → Bool
is_c_space c = c == b' ' || (leb b'\t' c && leb c b'\r')

skip_c_spaces : Text → Text
skip_c_spaces [] = []
skip_c_spaces (c ∷ s) = if is_c_space c then skip_c_spaces s else c ∷ s

parse_digits : ℕ → Text → ℕ
parse_digits acc [] = acc
parse_digits acc (c ∷ s) =
    let more = parse_digits (acc * 10 + (c - b'0')) s in if is_digit c then more else acc

magnitude : Text → Option ℕ
unfolding parse_digits
magnitude [] = none
magnitude (c ∷ s) = if is_digit c then some (parse_digits 0 (c ∷ s)) else none

abbrev within_int : ℕ → Option ℕ
within_int m = if ltb m int_limit then some m else none

signed : Text → Option ℕ
unfolding magnitude
signed [] = none
signed (c ∷ s) =
    if c == b'-'
    then (magnitude s >>= λ m.
        if leb m int_limit then some ((int_modulus - m) % int_modulus) else none)
    else if c == b'+'
    then magnitude s >>= within_int
    else magnitude (c ∷ s) >>= within_int

-- `std::stoi`; `none` stands for its exceptions. What follows the digits is ignored.
unfoldable pub stoi : Text → Option ℕ
unfolding skip_c_spaces signed
stoi s = signed (skip_c_spaces s)

-- The text does not go on with a digit.
abbrev pub IsBreak : Text → Type 0
IsBreak [] = Unit
IsBreak (c ∷ s) = is_digit c ≡ false

parse_digits-cons :
    (acc c : ℕ) (s : Text)
    → is_digit c ≡ true
    → parse_digits acc (c ∷ s) ≡ parse_digits (acc * 10 + (c - b'0')) s
unfolding parse_digits
parse_digits-cons acc c s h = ground arith

parse_digits-IsBreak : (acc : ℕ) (s : Text) → IsBreak s → parse_digits acc s ≡ acc
unfolding parse_digits
parse_digits-IsBreak acc [] h = refl
parse_digits-IsBreak acc (c ∷ s) h = ground arith

is_digit-add : (d : ℕ) → d < 10 → is_digit (b'0' + d) ≡ true
is_digit-add d h = ground arith

parse_digits-digits :
    (f n : ℕ) (s : Text) → n < f → parse_digits 0 (digits f n ++ s) ≡ parse_digits n s
unfolding digits
parse_digits-digits zero n s h = absurd (omega arith)
parse_digits-digits (suc f) n s h = elim (Bool-cases (ltb n 10)) [
  | inl e ↦
      rw (e, parse_digits-cons 0 (b'0' + n) s (is_digit-add n (ground arith)))
        (ap (λ k. parse_digits k s) (omega arith))
  | inr e ↦
      rw (e, append_assoc, parse_digits-digits f (n / 10) _ (ground arith))
        (rw (parse_digits-cons _ _ s (is_digit-add (n % 10) (omega arith)))
          (ap (λ k. parse_digits k s) (omega arith)))
]

all-is_digit-digits : (f n : ℕ) → all is_digit (digits f n) ≡ true
unfolding digits
all-is_digit-digits zero n = refl
all-is_digit-digits (suc f) n = elim (Bool-cases (ltb n 10)) [
  | inl e ↦ rw e (ground arith)
  | inr e ↦ rw (e, all-append, all-is_digit-digits f (n / 10)) (ground arith)
]

digits_cons : (f n : ℕ) → n < f → (c : ℕ) × (t : Text) × (digits f n ≡ c ∷ t)
unfolding digits
digits_cons zero n h = absurd (omega arith)
digits_cons (suc f) n h = elim (Bool-cases (ltb n 10)) [
  | inl e ↦ (b'0' + n, [], rw e)
  | inr e ↦
      let (c, t, q) = digits_cons f (n / 10) (ground arith) in
      (c, t ++ (b'0' + n % 10) ∷ [], rw (e, q))
]

stoi-magnitude :
    (c : ℕ) (t : Text) (n : ℕ)
    → is_digit c ≡ true
    → parse_digits 0 (c ∷ t) ≡ n
    → n < int_limit
    → stoi (c ∷ t) ≡ some n
unfolding skip_c_spaces signed magnitude stoi
stoi-magnitude c t n h e l = ground arith

-- What is printed is a digit and more digits.
pub int_to_string_digits :
    (n : ℕ)
    → n < int_limit
    → (c : ℕ) × (t : Text) × (int_to_string n ≡ c ∷ t) × (all is_digit (c ∷ t) ≡ true)
unfolding int_to_string
int_to_string_digits n h =
    let (c, t, e) = digits_cons (suc n) n (omega arith) in
    (c, t, ground arith, rw e at (all-is_digit-digits (suc n) n))

-- `stoi` reads back every `int` that is not negative, whatever follows its digits.
pub stoi-int_to_string :
    (n : ℕ) (rest : Text) → n < int_limit → IsBreak rest → stoi (int_to_string n ++ rest) ≡ some n
unfolding int_to_string
stoi-int_to_string n rest h b =
    let (c, t, e) = digits_cons (suc n) n (omega arith) in
    let whole = parse_digits-digits (suc n) n rest (omega arith) ∙ parse_digits-IsBreak n rest b in
    let first = rw e at (all-is_digit-digits (suc n) n) in
    let test : ltb n int_limit ≡ true = ground arith in
    rw (test, e) (stoi-magnitude c (t ++ rest) n (ground arith) (rw e at whole) h)

stoi_negative :
    (c : ℕ) (t : Text) (m : ℕ)
    → is_digit c ≡ true
    → parse_digits 0 (c ∷ t) ≡ m
    → m ≤ int_limit
    → stoi (b'-' ∷ c ∷ t) ≡ some ((int_modulus - m) % int_modulus)
unfolding skip_c_spaces signed magnitude stoi
stoi_negative c t m h e l = ground arith

negative_back :
    (n : ℕ) → int_limit ≤ n → n < int_modulus → (int_modulus - (int_modulus - n)) % int_modulus ≡ n
negative_back n h l = omega arith

-- `stoi` reads back every `int`, negative ones included.
pub stoi-int_to_string_all :
    (n : ℕ) (rest : Text) → n < int_modulus → IsBreak rest → stoi (int_to_string n ++ rest) ≡ some n
unfolding int_to_string
stoi-int_to_string_all n rest h b = elim (Bool-cases (ltb n int_limit)) [
  | inl e ↦ stoi-int_to_string n rest (ground arith) b
  | inr e ↦
      let m : ℕ = int_modulus - n in
      let (c, t, q) = digits_cons (suc m) m (omega arith) in
      let whole =
        parse_digits-digits (suc m) m rest (omega arith) ∙ parse_digits-IsBreak m rest b in
      let first = rw q at (all-is_digit-digits (suc m) m) in
      rw (e, q)
        (stoi_negative c (t ++ rest) m (ground arith) (rw q at whole) (ground arith)
          ∙ ap some (negative_back n (ground arith) h))
]

abbrev is_int_char : ℕ → Bool
is_int_char c = is_digit c || c == b'-'

digits-int_char : (s : Text) → all is_digit s ≡ true → all is_int_char s ≡ true
digits-int_char [] h = refl
digits-int_char (c ∷ s) h = ground (arith, digits-int_char s)

-- A printed `int` is digits and a sign.
pub int_to_string-chars : (n : ℕ) → all (λ c. is_digit c || c == b'-') (int_to_string n) ≡ true
unfolding int_to_string
int_to_string-chars n = elim (Bool-cases (ltb n int_limit)) [
  | inl e ↦ rw e (digits-int_char (digits (suc n) n) (all-is_digit-digits (suc n) n))
  | inr e ↦ rw e (
      digits-int_char (digits (suc (int_modulus - n)) (int_modulus - n))
        (all-is_digit-digits (suc (int_modulus - n)) (int_modulus - n)))
]
