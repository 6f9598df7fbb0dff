-- ===== src/Validation/Digest.antt =====
-- The digest of a file, read in buffers, is the digest of its whole content.
use embedded_linux_ota.Prelude.{
  ℕ, zero, suc, true, false, [], ◌∷◌, ◌++◌, Option, some, ◌>>=◌, ◌≡◌, refl, sym, arith, ap, ◌∙◌,
  get_or, length, take, drop, leb, Bool-cases, inl, inr,
}
use embedded_linux_ota.Text.{Text}
use embedded_linux_ota.Fs.{Files}
use embedded_linux_ota.Validation.{
  Evp, Host, to_hex, update_rest, update_chunks, sha256_in_buffers, normalize_hash, to_lower,
  is_c_space,
}

-- OpenSSL's contract for a digest: data may come in pieces, and no data leaves the context as it is.
pub record IsEvp {S : Type 0} (evp : Evp S) : Type 0 where
  pub pieces :
      (s : S) (x y : Text) → evp.update s (x ++ y) ≡ (do s1 ← evp.update s x; evp.update s1 y)
  pub nothing : (s : S) → evp.update s [] ≡ some s

take-drop : (n : ℕ) (xs : Text) → take n xs ++ drop n xs ≡ xs
take-drop zero xs = refl
take-drop (suc n) [] = refl
take-drop (suc n) (x ∷ xs) = ap (◌∷◌ x) (take-drop n xs)

-- The digest of a content in one go, printed.
abbrev pub sha256_of : {S : Type 0} → Evp S → Text → Option Text
sha256_of evp content = do
  s ← evp.init
  s1 ← evp.update s content
  digest ← evp.final s1
  some (to_hex digest)

module _ {S : Type 0} (evp : Evp S) (laws : IsEvp evp) where
  rest_lem : (s : S) (rest : Text) → update_rest evp s rest ≡ evp.update s rest
  rest_lem s [] = sym (laws.nothing s)
  rest_lem s (c ∷ rest) = refl

  -- The loop over buffers is one update with all that is left.
  pub update_chunks_lem :
      (size fuel : ℕ) (s : S) (rest : Text) → update_chunks evp size fuel s rest ≡ evp.update s rest
  unfolding update_chunks
  update_chunks_lem size zero s rest = rest_lem s rest
  update_chunks_lem size (suc fuel) s rest = elim (Bool-cases (leb size (length rest))) [
    | inl full ↦
        rw (full, update_chunks)
          (ap (λ next. evp.update s (take size rest) >>= next)
              (λ i s1. update_chunks_lem size fuel s1 (drop size rest) i)
            ∙ sym (laws.pieces s (take size rest) (drop size rest))
            ∙ ap (evp.update s) (take-drop size rest))
    | inr short ↦ rw (short, update_chunks) (rest_lem s rest)
  ]

  -- With a digest that may be fed in pieces, the digest of a file that can be read, taken in
  -- buffers of any size, is the printed digest of its whole content.
  pub sha256_in_buffers_lem :
      (size : ℕ) (host : Host) (files : Files) (path content : Text)
      → host.can_read path ≡ true
      → files path ≡ some content
      → sha256_in_buffers evp size host files path ≡ get_or [] (sha256_of evp content)
  unfolding sha256_in_buffers
  sha256_in_buffers_lem size host files path content h e = rw h (
      rw e (λ i. get_or [] (do
        s ← evp.init
        s1 ← update_chunks_lem size (length content) s content i
        digest ← evp.final s1
        some (to_hex digest))))

to_lower-to_lower : (c : ℕ) → to_lower (to_lower c) ≡ to_lower c
to_lower-to_lower c = ground arith

to_lower-space : (c : ℕ) → is_c_space c ≡ false → is_c_space (to_lower c) ≡ false
to_lower-space c h = ground arith

-- Normalising a hash twice is normalising it once.
pub normalize_hash-normalize_hash :
    (h : Text) → normalize_hash (normalize_hash h) ≡ normalize_hash h
unfolding normalize_hash
normalize_hash-normalize_hash [] = refl
normalize_hash-normalize_hash (c ∷ h) =
    ground (arith, normalize_hash-normalize_hash h, to_lower-to_lower c, to_lower-space c)
