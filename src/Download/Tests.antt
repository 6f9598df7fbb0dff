-- ===== src/Download/Tests.antt =====
-- A download on concrete files.
use embedded_linux_ota.Prelude.{
  ◌%◌, true, false, [], none, some, ◌≡◌, ◌⊎◌, refl, get_or, length, ◌==◌,
}
use embedded_linux_ota.Text.{Text, codes}
use embedded_linux_ota.Fs.{Files, put}
use embedded_linux_ota.Validation.{int64_modulus}
use embedded_linux_ota.Validation.Digest.{sha256_of}
use embedded_linux_ota.Validation.Tests.{first_bytes, first_bytes-IsEvp, plain_host}
use embedded_linux_ota.Download.{Fetched, download}
use embedded_linux_ota.Download.Outcome.{download_lem}

abbrev fetch_image : Text → Files → Fetched
fetch_image path fs = record { files = put fs path (codes "image"); is_success = true; error = [] }

abbrev no_files : Files
no_files path = none

download_lem_example :
    let (fs1, result) =
      download first_bytes plain_host
        (λ path. true)
        fetch_image
        true
        (codes "/d")
        (codes "1")
        no_files in
    ((result.success ≡ false) × (fs1 (codes "/d/1.img") ≡ none))
    ⊎ ((result.success ≡ true)
        × ((content : Text) × (fs1 (codes "/d/1.img") ≡ some content)
            × ((length content % int64_modulus == 0) ≡ false)
            × (result.sha256 ≡ get_or [] (sha256_of first_bytes content))))
download_lem_example =
    download_lem first_bytes plain_host (λ path. true) fetch_image (codes "/d") (codes "1") no_files
      first_bytes-IsEvp refl
