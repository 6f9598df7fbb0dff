-- ===== src/Download/Outcome.antt =====
-- What a download leaves behind.
use embedded_linux_ota.Prelude.{
  ◌%◌, Bool, true, false, [], none, some, Option-cases, Bool-cases, ◌⊎◌, inl, inr, ◌≡◌, arith, ◌∙◌,
  length, get_or, ◌==◌,
}
use embedded_linux_ota.Text.{Text}
use embedded_linux_ota.Fs.{Files}
use embedded_linux_ota.Text.Search.{text_eq_refl}
use embedded_linux_ota.Validation.{Evp, Host, int64_modulus, sha256_in_buffers}
use embedded_linux_ota.Validation.Digest.{IsEvp, sha256_of, sha256_in_buffers_lem}
use embedded_linux_ota.Download.{
  Fetched, get_temp_path, download_buffer_size, accept, without_leftover, download,
}

module _ {S : Type 0} (evp : Evp S) (host : Host) (can_remove : Text → Bool) where
  -- A transfer that is not accepted leaves no file at the path, where it can be removed.
  rejected :
      (path : Text) (fetched : Fetched)
      → can_remove path ≡ true
      → (accept evp host can_remove path fetched).1.success ≡ false
      → (accept evp host can_remove path fetched).0 path ≡ none
  unfolding accept
  rejected path fetched h k = elim (Option-cases (fetched.files path)) [
    | inl e ↦ ground (arith, text_eq_refl path)
    | inr (content, e) ↦ ground (arith, text_eq_refl path)
  ]

  accepted :
      (path : Text) (fetched : Fetched)
      → (accept evp host can_remove path fetched).1.success ≡ true
      → (content : Text) × ((accept evp host can_remove path fetched).0 path ≡ some content)
        × (fetched.files path ≡ some content)
        × (host.can_read path ≡ true)
        × ((length content % int64_modulus == 0) ≡ false)
        × ((accept evp host can_remove path fetched).1.sha256
            ≡ sha256_in_buffers evp download_buffer_size host fetched.files path)
  unfolding accept
  accepted path fetched h = elim (Option-cases (fetched.files path)) [
    | inl e ↦ absurd (ground arith)
    | inr (content, e) ↦ (content, ground arith, e, ground arith, ground arith, ground arith)
  ]

  -- With a digest that may be fed in pieces, a download in a directory that can be made, to a
  -- path that can be removed, leaves no file at the path where it fails, whatever the server
  -- sends, and where it succeeds a file that is not empty, with the printed digest of its whole
  -- content as the result.
  pub download_lem :
      (fetch : Text → Files → Fetched) (dir version : Text) (fs : Files)
      → IsEvp evp
      → can_remove (get_temp_path dir version) ≡ true
      → (let (fs1, result) = download evp host can_remove fetch true dir version fs in
          ((result.success ≡ false) × (fs1 (get_temp_path dir version) ≡ none))
          ⊎ ((result.success ≡ true)
              × ((content : Text) × (fs1 (get_temp_path dir version) ≡ some content)
                  × ((length content % int64_modulus == 0) ≡ false)
                  × (result.sha256 ≡ get_or [] (sha256_of evp content)))))
  unfolding download
  download_lem fetch dir version fs laws free =
      let path = get_temp_path dir version in
      let fetched = fetch path (without_leftover evp host can_remove path fs) in
      elim (Bool-cases (accept evp host can_remove path fetched).1.success) [
        | inl ok ↦
            let (content, there, was, readable, full, hash) = accepted path fetched ok in
            inr (
              ok,
              (
                content,
                there,
                full,
                hash
                    ∙ sha256_in_buffers_lem evp laws download_buffer_size host fetched.files path
                        content readable was,
              ),
            )
        | inr failed ↦ inl (failed, rejected path fetched free failed)
      ]
