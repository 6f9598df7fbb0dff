-- ===== src/Installation/Safe.antt =====
-- `is_safe_path` (src/installation/installer.cpp); `realpath` is a parameter.
use embedded_linux_ota.Prelude.{
  ℕ, Bool, true, false, not, [], ◌∷◌, ◌++◌, Option, none, some, ◌≡◌, refl, arith, ◌==◌,
  if◌then◌else◌, get_or,
}
use embedded_linux_ota.Text.{Text, codes, strip_prefix}
use embedded_linux_ota.Installation.{starts_with_slash, is_traversal_attempt, validate_path}

-- `path.back() != '/'`, of a path that is not empty.
unfoldable pub lacks_slash : Text → Bool
lacks_slash [] = true
lacks_slash (c ∷ []) = not (c == b'/')
lacks_slash (c ∷ d ∷ s) = lacks_slash (d ∷ s)

abbrev pub with_slash : Text → Text
with_slash base = if lacks_slash base then base ++ codes "/" else base

-- `path.find(base) == 0`.
abbrev pub begins_with : Text → Text → Bool
begins_with base path = elim (strip_prefix base path) [ none ↦ false | some rest ↦ true ]

-- The code asks for the last byte of the base, which is not there for an empty one.
unfoldable pub is_safe_path : (Text → Option Text) → Text → Text → Bool
unfolding lacks_slash validate_path strip_prefix
is_safe_path realpath base_dir path =
    let full_path = with_slash base_dir ++ path in
    if not (validate_path full_path) then false else elim (realpath full_path) [
      | none ↦ elim (realpath base_dir) [
        | none ↦ true
        | some base ↦ begins_with (with_slash base) full_path
      ]
      | some resolved ↦ begins_with (with_slash (get_or base_dir (realpath base_dir))) resolved
    ]

slash_first : (c : ℕ) (s t : Text) → (c == b'/') ≡ true → validate_path ((c ∷ s) ++ t) ≡ false
unfolding validate_path is_traversal_attempt
slash_first c s t h = ground arith

with_slash_first :
    (c : ℕ) (s t : Text) → (c == b'/') ≡ true → validate_path (with_slash (c ∷ s) ++ t) ≡ false
with_slash_first c s t h = slashed (lacks_slash (c ∷ s))
  where
    slashed : (b : Bool) → validate_path ((if b then (c ∷ s) ++ codes "/" else c ∷ s) ++ t) ≡ false
    slashed true = slash_first c (s ++ codes "/") t h
    slashed false = slash_first c s t h

-- Below a base directory that begins with a slash no path is safe, whatever `realpath` says.
pub is_safe_path_absolute :
    (realpath : Text → Option Text) (base_dir path : Text)
    → starts_with_slash base_dir ≡ true
    → is_safe_path realpath base_dir path ≡ false
unfolding is_safe_path
is_safe_path_absolute realpath [] path h = absurd (cc)
is_safe_path_absolute realpath (c ∷ s) path h = rw (with_slash_first c s path h) refl
