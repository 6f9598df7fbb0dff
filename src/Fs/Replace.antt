-- ===== src/Fs/Replace.antt =====
-- What `replace_file` leaves on disk.
use embedded_linux_ota.Prelude.{true, false, [], ◌∷◌, some, ◌≡◌, refl, arith, if◌then◌else◌}
use embedded_linux_ota.Text.{Text, text_eq}
use embedded_linux_ota.Text.Search.{text_eq_refl}
use embedded_linux_ota.Fs.{Files, Env, IsHealthy, tmp_of, replace_file}

pub tmp-ne : (path : Text) → text_eq (tmp_of path) path ≡ false
unfolding text_eq
tmp-ne [] = refl
tmp-ne (c ∷ path) = ground (arith, tmp-ne path)

-- Success: the file holds what was stored. Failure: it holds what it held.
pub replace_file_cases :
    (env : Env) (path content : Text) (fs : Files)
    → (replace_file env path content fs).0 path ≡ (
        if (replace_file env path content fs).1
        then some (env.stored (tmp_of path) content)
        else fs path)
unfolding replace_file
replace_file_cases env path content fs =
    ground (arith, text_eq_refl path, text_eq_refl (tmp_of path), tmp-ne path)

-- No file but the two named is touched.
pub replace_file_others :
    (env : Env) (path content q : Text) (fs : Files)
    → text_eq path q ≡ false
    → text_eq (tmp_of path) q ≡ false
    → (replace_file env path content fs).0 q ≡ fs q
unfolding replace_file
replace_file_others env path content q fs h k = ground (arith, text_eq_refl (tmp_of path))

module _ (env : Env) (healthy : IsHealthy env) where
  pub replace_file_healthy :
      (path content : Text) (fs : Files)
      → ((replace_file env path content fs).1 ≡ true)
        × ((replace_file env path content fs).0 path ≡ some content)
  unfolding replace_file
  replace_file_healthy path content fs = ground (
    arith,
    text_eq_refl path,
    text_eq_refl (tmp_of path),
    tmp-ne path,
    healthy.opens (tmp_of path),
    healthy.renames (tmp_of path) path,
    healthy.honest (tmp_of path) content (healthy.writes _ _),
  )
