-- ===== src/Security/Canonical.antt =====
-- The canonical form of metadata (`canonicalize_metadata`).
use embedded_linux_ota.Prelude.{
  ℕ, true, false, List, [], ◌∷◌, ◌++◌, ◌≡◌, refl, sym, ap, ◌∙◌, inl, inr, arith, ◌==◌,
  if◌then◌else◌, Bool-cases, append_assoc, append-nil,
}
use embedded_linux_ota.Text.{Text, is_empty, skip_spaces}
use embedded_linux_ota.Text.Search.{lacks}
use embedded_linux_ota.Text.Lines.{
  lines, lines-cons, begin_line, trim, drop_trailing, keep_before, trim_idem,
}
use embedded_linux_ota.Security.{add_lines, canonicalize_metadata}

-- The lines that are kept: trimmed, without the empty ones.
abbrev pub kept_lines : List Text → List Text
kept_lines [] = []
kept_lines (l ∷ ls) = if is_empty (trim l) then kept_lines ls else trim l ∷ kept_lines ls

-- Each line behind a newline.
abbrev pub tails : List Text → Text
tails [] = []
tails (l ∷ ls) = b'\n' ∷ (l ++ tails ls)

abbrev pub join : List Text → Text
join [] = []
join (l ∷ ls) = l ++ tails ls

add_lines_behind :
    (c : ℕ) (r : Text) (ls : List Text) → add_lines (c ∷ r) ls ≡ (c ∷ r) ++ tails (kept_lines ls)
unfolding add_lines
add_lines_behind c r [] = sym (append-nil (c ∷ r))
add_lines_behind c r (l ∷ ls) = elim (Bool-cases (is_empty (trim l))) [
  | inl e ↦ rw e (add_lines_behind c r ls)
  | inr e ↦
      rw (e, add_lines_behind c (r ++ (b'\n' ∷ trim l)) ls)
        (append_assoc (c ∷ r) (b'\n' ∷ trim l) (tails (kept_lines ls)))
]

from_first :
    (t l : Text) (ls : List Text)
    → trim l ≡ t
    → add_lines [] ls ≡ join (kept_lines ls)
    → add_lines [] (l ∷ ls) ≡ join (kept_lines (l ∷ ls))
unfolding add_lines
from_first [] l ls e ih = rw e ih
from_first (c ∷ t) l ls e ih = rw e (add_lines_behind c t ls)

from_empty : (ls : List Text) → add_lines [] ls ≡ join (kept_lines ls)
unfolding add_lines
from_empty [] = refl
from_empty (l ∷ ls) = from_first (trim l) l ls refl (from_empty ls)

-- The canonical form is the trimmed lines that are not empty, with a newline between two of them.
pub canonicalize_metadata_lem : (s : Text) → canonicalize_metadata s ≡ join (kept_lines (lines s))
unfolding canonicalize_metadata
canonicalize_metadata_lem s = from_empty (lines s)

-- Lines as they are kept.
abbrev pub AreKept : List Text → Type 0
AreKept [] = Unit
AreKept (l ∷ ls) = (is_empty l ≡ false) × (lacks b'\n' l ≡ true) × (trim l ≡ l) × AreKept ls

lacks_skip : (s : Text) → lacks b'\n' s ≡ true → lacks b'\n' (skip_spaces s) ≡ true
unfolding skip_spaces
lacks_skip [] h = refl
lacks_skip (c ∷ s) h = ground (arith, lacks_skip s)

lacks_keep : (c : ℕ) (t : Text) → lacks b'\n' (c ∷ t) ≡ true → lacks b'\n' (keep_before c t) ≡ true
lacks_keep c [] h = ground arith
lacks_keep c (d ∷ t) h = h

lacks_drop : (s : Text) → lacks b'\n' s ≡ true → lacks b'\n' (drop_trailing s) ≡ true
unfolding drop_trailing
lacks_drop [] h = refl
lacks_drop (c ∷ s) h =
    let rest = lacks_drop s (ground arith) in lacks_keep c (drop_trailing s) (ground arith)

lacks-trim : (s : Text) → lacks b'\n' s ≡ true → lacks b'\n' (trim s) ≡ true
unfolding trim
lacks-trim s h = lacks_drop (skip_spaces s) (lacks_skip s h)

abbrev AllSingle : List Text → Type 0
AllSingle [] = Unit
AllSingle (l ∷ ls) = (lacks b'\n' l ≡ true) × AllSingle ls

begin_single :
    (c : ℕ) (ls : List Text) → (c == b'\n') ≡ false → AllSingle ls → AllSingle (begin_line c ls)
begin_single c [] h k = ground arith
begin_single c (l ∷ ls) h k = ground arith

lines_single : (s : Text) → AllSingle (lines s)
unfolding lines
lines_single [] = tt
lines_single (c ∷ s) = elim (Bool-cases (c == b'\n')) [
  | inl e ↦ rw e (refl, lines_single s)
  | inr e ↦ rw e (begin_single c (lines s) e (lines_single s))
]

kept-AreKept : (ls : List Text) → AllSingle ls → AreKept (kept_lines ls)
kept-AreKept [] h = tt
kept-AreKept (l ∷ ls) (h, k) = elim (Bool-cases (is_empty (trim l))) [
  | inl e ↦ rw e (kept-AreKept ls k)
  | inr e ↦ rw e (e, lacks-trim l h, trim_idem l, kept-AreKept ls k)
]

kept_again : (ls : List Text) → AreKept ls → kept_lines ls ≡ ls
kept_again [] h = refl
kept_again (l ∷ ls) (full, single, same, rest) =
    let e : is_empty (trim l) ≡ false = rw same full in rw e (λ i. same i ∷ kept_again ls rest i)

lines_last : (c : ℕ) (l : Text) → lacks b'\n' (c ∷ l) ≡ true → lines (c ∷ l) ≡ (c ∷ l) ∷ []
unfolding lines
lines_last c [] h = ground arith
lines_last c (d ∷ l) h = let ih = lines_last d l (ground arith) in ground arith

lines-join : (l : Text) (ls : List Text) → AreKept (l ∷ ls) → lines (l ++ tails ls) ≡ l ∷ ls
lines-join [] ls (full, single, same, rest) = absurd (cc)
lines-join (c ∷ l) [] (full, single, same, rest) =
    ap lines (append-nil (c ∷ l)) ∙ lines_last c l single
lines-join (c ∷ l) (m ∷ ls) (full, single, same, rest) =
    lines-cons (c ∷ l) (m ++ tails ls) single ∙ ap (λ r. (c ∷ l) ∷ r) (lines-join m ls rest)

lines-join_all : (ls : List Text) → AreKept ls → lines (join ls) ≡ ls
unfolding lines
lines-join_all [] h = refl
lines-join_all (l ∷ ls) h = lines-join l ls h

-- The canonical form of a canonical form is itself.
pub canonicalize_metadata_idem :
    (s : Text) → canonicalize_metadata (canonicalize_metadata s) ≡ canonicalize_metadata s
canonicalize_metadata_idem s =
    let kept = kept-AreKept (lines s) (lines_single s) in
    ap canonicalize_metadata (canonicalize_metadata_lem s)
    ∙ canonicalize_metadata_lem (join (kept_lines (lines s)))
    ∙ ap (λ ls. join (kept_lines ls)) (lines-join_all (kept_lines (lines s)) kept)
    ∙ ap join (kept_again (kept_lines (lines s)) kept)
    ∙ sym (canonicalize_metadata_lem s)
