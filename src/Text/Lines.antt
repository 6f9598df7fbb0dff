-- ===== src/Text/Lines.antt =====
-- Texts read line by line: `std::getline`, and the `trim` of src/device/device_config.cpp.
use embedded_linux_ota.Prelude.{
  ℕ, Bool, true, false, not, List, [], ◌∷◌, ◌++◌, ◌≡◌, refl, sym, ap, ◌∙◌, inl, inr, arith, ◌==◌,
  if◌then◌else◌, all, Bool-cases,
}
use embedded_linux_ota.Text.{Text, is_space, skip_spaces, is_digit}
use embedded_linux_ota.Text.Search.{lacks}

abbrev pub begin_line : ℕ → List Text → List Text
begin_line c [] = (c ∷ []) ∷ []
begin_line c (l ∷ ls) = (c ∷ l) ∷ ls

-- The lines that a loop of `std::getline` sees: what follows the last newline is a line where it is
-- not empty.
unfoldable pub lines : Text → List Text
lines [] = []
lines (c ∷ s) = if c == b'\n' then [] ∷ lines s else begin_line c (lines s)

abbrev pub keep_before : ℕ → Text → Text
keep_before c [] = if is_space c then [] else c ∷ []
keep_before c (d ∷ t) = c ∷ d ∷ t

-- The text up to the last byte that is not a blank (`find_last_not_of`).
unfoldable pub drop_trailing : Text → Text
drop_trailing [] = []
drop_trailing (c ∷ s) = keep_before c (drop_trailing s)

unfoldable pub trim : Text → Text
unfolding skip_spaces drop_trailing
trim str = drop_trailing (skip_spaces str)

pub lines-cons : (l s : Text) → lacks b'\n' l ≡ true → lines (l ++ (b'\n' ∷ s)) ≡ l ∷ lines s
unfolding lines
lines-cons [] s h = refl
lines-cons (c ∷ l) s h = ground (arith, lines-cons l s)

abbrev pub no_space : Text → Bool
no_space = all (λ c. not (is_space c))

keep_before-space : (c : ℕ) (t : Text) → is_space c ≡ false → keep_before c t ≡ c ∷ t
keep_before-space c [] h = ground arith
keep_before-space c (d ∷ t) h = refl

pub drop_trailing-append :
    (p s : Text) → no_space p ≡ true → drop_trailing (p ++ s) ≡ p ++ drop_trailing s
unfolding drop_trailing
drop_trailing-append [] s h = refl
drop_trailing-append (c ∷ p) s h =
    ap (keep_before c) (drop_trailing-append p s (ground arith))
    ∙ keep_before-space c (p ++ drop_trailing s) (ground arith)

drop_keep :
    (c : ℕ) (t : Text) → drop_trailing t ≡ t → drop_trailing (keep_before c t) ≡ keep_before c t
unfolding drop_trailing
drop_keep c [] h = ground arith
drop_keep c (d ∷ t) h = ap (keep_before c) h

pub drop_trailing_idem : (s : Text) → drop_trailing (drop_trailing s) ≡ drop_trailing s
unfolding drop_trailing
drop_trailing_idem [] = refl
drop_trailing_idem (c ∷ s) = drop_keep c (drop_trailing s) (drop_trailing_idem s)

skip_keep : (c : ℕ) (t : Text) → is_space c ≡ true → skip_spaces (keep_before c t) ≡ skip_spaces t
unfolding skip_spaces
skip_keep c [] h = ground arith
skip_keep c (d ∷ t) h = ground arith

skip_stop : (c : ℕ) (t : Text) → is_space c ≡ false → skip_spaces (c ∷ t) ≡ c ∷ t
unfolding skip_spaces
skip_stop c t h = ground arith

skip_go : (c : ℕ) (t : Text) → is_space c ≡ true → skip_spaces (c ∷ t) ≡ skip_spaces t
unfolding skip_spaces
skip_go c t h = ground arith

skip_spaces-drop_trailing : (s : Text) → skip_spaces (drop_trailing s) ≡ trim s
unfolding drop_trailing skip_spaces trim
skip_spaces-drop_trailing [] = refl
skip_spaces-drop_trailing (c ∷ s) = elim (Bool-cases (is_space c)) [
  | inl e ↦
      skip_keep c (drop_trailing s) e
      ∙ skip_spaces-drop_trailing s
      ∙ ap drop_trailing (sym (skip_go c s e))
  | inr e ↦
      ap skip_spaces (keep_before-space c (drop_trailing s) e)
      ∙ skip_stop c (drop_trailing s) e
      ∙ sym (keep_before-space c (drop_trailing s) e)
      ∙ ap drop_trailing (sym (skip_stop c s e))
]

pub trim-drop_trailing : (s : Text) → trim (drop_trailing s) ≡ trim s
unfolding trim
trim-drop_trailing s =
    ap drop_trailing (skip_spaces-drop_trailing s) ∙ drop_trailing_idem (skip_spaces s)

skip_spaces_idem : (s : Text) → skip_spaces (skip_spaces s) ≡ skip_spaces s
unfolding skip_spaces
skip_spaces_idem [] = refl
skip_spaces_idem (c ∷ s) = ground (arith, skip_spaces_idem s)

pub trim_idem : (s : Text) → trim (trim s) ≡ trim s
unfolding trim
trim_idem s = trim-drop_trailing (skip_spaces s) ∙ ap drop_trailing (skip_spaces_idem s)

drop_trailing-no_space : (s : Text) → no_space s ≡ true → drop_trailing s ≡ s
unfolding drop_trailing
drop_trailing-no_space [] h = refl
drop_trailing-no_space (c ∷ s) h =
    ap (keep_before c) (drop_trailing-no_space s (ground arith))
    ∙ keep_before-space c s (ground arith)

pub trim-no_space : (s : Text) → no_space s ≡ true → trim s ≡ s
unfolding trim
trim-no_space [] h = refl
trim-no_space (c ∷ s) h =
    ap drop_trailing (skip_stop c s (ground arith)) ∙ drop_trailing-no_space (c ∷ s) h

pub trim-prefix :
    (c : ℕ) (p s : Text)
    → no_space (c ∷ p) ≡ true
    → trim ((c ∷ p) ++ s) ≡ (c ∷ p) ++ drop_trailing s
unfolding trim
trim-prefix c p s h =
    ap drop_trailing (skip_stop c (p ++ s) (ground arith)) ∙ drop_trailing-append (c ∷ p) s h

pub all-is_digit-no_space : (s : Text) → all is_digit s ≡ true → no_space s ≡ true
all-is_digit-no_space [] h = refl
all-is_digit-no_space (c ∷ s) h = ground (arith, all-is_digit-no_space s)
