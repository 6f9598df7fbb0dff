-- ===== src/Installation/Paths.antt =====
-- Which versions may become part of a path.
use embedded_linux_ota.Prelude.{ℕ, true, false, [], ◌∷◌, ◌++◌, some, ◌≡◌, ◌≢◌, refl, arith, ap}
use embedded_linux_ota.Text.{Text, codes, strip_prefix, find_after, is_empty}
use embedded_linux_ota.Installation.{
  contains, starts_with_slash, is_traversal_attempt, validate_path,
}

strip_prefix-append : (pat q : Text) → strip_prefix pat (pat ++ q) ≡ some q
unfolding strip_prefix
strip_prefix-append [] q = refl
strip_prefix-append (c ∷ pat) q = ground (arith, strip_prefix-append pat q)

found_here : (pat s r : Text) → strip_prefix pat s ≡ some r → contains pat s ≡ true
unfolding find_after
found_here pat [] r h = ground arith
found_here pat (c ∷ s) r h = ground arith

found_later : (pat : Text) (c : ℕ) (s : Text) → contains pat s ≡ true → contains pat (c ∷ s) ≡ true
unfolding find_after
found_later pat c s h = ground arith

-- A text that stands in another is found there.
pub contains-append : (pat p q : Text) → contains pat (p ++ (pat ++ q)) ≡ true
contains-append pat [] q = found_here pat (pat ++ q) q (strip_prefix-append pat q)
contains-append pat (c ∷ p) q = found_later pat c (p ++ (pat ++ q)) (contains-append pat p q)

absent : (pat s : Text) → contains pat s ≡ false → (p q : Text) → s ≢ p ++ (pat ++ q)
absent pat s h p q e = ground (arith, contains-append pat p q, ap (contains pat) e)

-- A version that is accepted is not empty, does not begin with a slash, and has no "..", no "//"
-- and no zero byte anywhere.
pub validate_path_lem :
    (path : Text)
    → validate_path path ≡ true
    → (is_empty path ≡ false)
      × (starts_with_slash path ≡ false)
      × ((p q : Text) → path ≢ p ++ (codes ".." ++ q))
      × ((p q : Text) → path ≢ p ++ (codes "//" ++ q))
      × ((p q : Text) → path ≢ p ++ (0 ∷ q))
unfolding validate_path is_traversal_attempt
validate_path_lem path h = (
  ground arith,
  ground arith,
  absent (codes "..") path (ground arith),
  absent (codes "//") path (ground arith),
  absent (0 ∷ []) path (ground arith),
)
