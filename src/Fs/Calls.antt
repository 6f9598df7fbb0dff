-- ===== src/Fs/Calls.antt =====
-- The system calls behind a stream that is written, and a rename, and a process that stops between
-- two of them. The files are what another process sees then. What a loss of power leaves of them is
-- not said.
use embedded_linux_ota.Prelude.{
  false, List, [], ◌∷◌, ◌++◌, none, some, ◌≡◌, ◌⊎◌, inl, inr, refl, sym, ap, ◌∙◌, arith, get_or,
  if◌then◌else◌, append_assoc, append-nil,
}
use embedded_linux_ota.Text.{Text, text_eq}
use embedded_linux_ota.Text.Search.{text_eq_refl}
use embedded_linux_ota.Fs.{Files, put, remove, read_all}

-- Opening to write makes the file empty; a write appends; `rename`.
pub data Call : Type 0 where
  creates : Text → Call
  appends : Text → Text → Call
  moves : Text → Text → Call

unfoldable pub perform : Call → Files → Files
perform (creates path) fs = put fs path []
perform (appends path piece) fs = put fs path (read_all fs path ++ piece)
perform (moves old new) fs = elim (fs old) [
  | none ↦ fs
  | some content ↦ put (remove fs old) new content
]

unfoldable pub perform_all : List Call → Files → Files
unfolding perform
perform_all [] fs = fs
perform_all (c ∷ cs) fs = perform_all cs (perform c fs)

-- The files that a process may leave that stops before one of the calls, or after the last.
abbrev pub Interrupted : List Call → Files → Files → Type 0
Interrupted [] fs left = left ≡ fs
Interrupted (c ∷ cs) fs left = (left ≡ fs) ⊎ Interrupted cs (perform c fs) left

abbrev pub join : List Text → Text
join [] = []
join (piece ∷ pieces) = piece ++ join pieces

-- The writes of the pieces, and then more calls.
abbrev pub writes_then : Text → List Text → List Call → List Call
writes_then path [] cs = cs
writes_then path (piece ∷ pieces) cs = appends path piece ∷ writes_then path pieces cs

put_again : (fs : Files) (path x y q : Text) → put (put fs path x) path y q ≡ put fs path y q
put_again fs path x y q = ground arith

-- The pieces end up in the file, one behind the other.
pub perform_all-writes_then :
    (path : Text) (pieces : List Text) (cs : List Call) (x : Text) (fs : Files)
    → perform_all (writes_then path pieces cs) (put fs path x)
      ≡ perform_all cs (put fs path (x ++ join pieces))
unfolding perform_all perform
perform_all-writes_then path [] cs x fs =
    ap (λ t. perform_all cs (put fs path t)) (sym (append-nil x))
perform_all-writes_then path (piece ∷ pieces) cs x fs =
    ap (λ (f : Files). perform_all (writes_then path pieces cs) f)
      (λ i q.
        (ap (λ b. put (put fs path x) path ((get_or [] (if b then some x else fs path)) ++ piece) q)
              (text_eq_refl path)
            ∙ put_again fs path x (x ++ piece) q)
          i)
    ∙ perform_all-writes_then path pieces cs (x ++ piece) fs
    ∙ ap (λ t. perform_all cs (put fs path t)) (append_assoc x piece (join pieces))

-- A process that stops during the writes of one file leaves every other as it was.
pub Interrupted-writes_then :
    (path q : Text) (pieces : List Text) (cs : List Call) (fs left : Files)
    → text_eq path q ≡ false
    → Interrupted (writes_then path pieces cs) fs left
    → (left q ≡ fs q)
      ⊎ ((last : Files) × (last ≡ perform_all (writes_then path pieces []) fs)
          × Interrupted cs last left)
unfolding perform_all perform
Interrupted-writes_then path q [] cs fs left apart h = inr (fs, refl, h)
Interrupted-writes_then path q (piece ∷ pieces) cs fs left apart (inl e) =
    inl (ap (λ (f : Files). f q) e)
Interrupted-writes_then path q (piece ∷ pieces) cs fs left apart (inr h) =
    elim (Interrupted-writes_then path q pieces cs (put fs path (read_all fs path ++ piece)) left
      apart h) [ inl e ↦ inl (e ∙ rw apart refl) | inr more ↦ inr more ]
