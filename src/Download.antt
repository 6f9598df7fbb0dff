-- ===== src/Download.antt =====
-- `DownloadManager` (include/download/download_manager.h, src/download/download_manager.cpp).
pub mod Outcome
pub mod Tests
use embedded_linux_ota.Prelude.{
  ℕ, ◌%◌, Bool, true, false, not, [], ◌++◌, Option, none, some, ◌==◌, if◌then◌else◌, length,
}
use embedded_linux_ota.Text.{Text, codes, is_empty, find_after}
use embedded_linux_ota.Fs.{Files, remove}
use embedded_linux_ota.Validation.{Evp, Host, int64_modulus, sha256_in_buffers}

pub data DownloadError : Type 0 where
  no_error network_error timeout server_error file_create_error size_limit_exceeded : DownloadError
  incomplete_download cancelled : DownloadError

-- A size is the 64-bit pattern of an `int64_t`.
pub record DownloadResult : Type 0 where
  pub success : Bool
  pub file_path : Text
  pub file_size : ℕ
  pub sha256 : Text
  pub error : DownloadError
  pub error_message : Text

-- What the HTTP client leaves after a download: the files, its success and its error.
pub record Fetched : Type 0 where
  pub files : Files
  pub is_success : Bool
  pub error : Text

abbrev pub get_temp_path : Text → Text → Text
get_temp_path dir version = dir ++ (codes "/" ++ (version ++ codes ".img"))

abbrev pub failure : Text → ℕ → DownloadError → Text → DownloadResult
failure path size error message = record {
  success = false;
  file_path = path;
  file_size = size;
  sha256 = [];
  error = error;
  error_message = message;
}

-- The result of `remove` on a path.
abbrev pub removed : (Text → Bool) → Files → Text → Files
removed can_remove fs path = if can_remove path then remove fs path else fs

-- The loop of this component's `calculate_sha256` has a smaller buffer than the validator's.
abbrev pub download_buffer_size : ℕ
download_buffer_size = 4096

module _ {S : Type 0} (evp : Evp S) (host : Host) (can_remove : Text → Bool) where
  -- `download` from the end of the transfer on.
  unfoldable pub accept : Text → Fetched → Files × DownloadResult
  unfolding sha256_in_buffers
  accept temp_path fetched =
      let cleaned = removed can_remove fetched.files temp_path in
      let unopened : Files × DownloadResult =
        (cleaned, failure temp_path 0 file_create_error (codes "Failed to open downloaded file")) in
      if not fetched.is_success
      then (cleaned, failure temp_path 0 network_error fetched.error)
      else elim (fetched.files temp_path) [
        | none ↦ unopened
        | some content ↦
            let size = length content % int64_modulus in
            if not (host.can_read temp_path)
            then unopened
            else if size == 0
            then (
              cleaned,
              failure temp_path 0 incomplete_download (codes "Downloaded file is empty"),
            )
            else (
              fetched.files,
              record {
                success = true;
                file_path = temp_path;
                file_size = size;
                sha256 = sha256_in_buffers evp download_buffer_size host fetched.files temp_path;
                error = no_error;
                error_message = [];
              },
            )
      ]

  -- A leftover of an earlier download is removed before the transfer.
  abbrev pub without_leftover : Text → Files → Files
  without_leftover path fs = elim (fs path) [
    | none ↦ fs
    | some content ↦ if host.can_read path then removed can_remove fs path else fs
  ]

  -- `fetch` is the HTTP client's download to a path, `has_dir` whether the directory can be made.
  unfoldable pub download :
      (Text → Files → Fetched) → Bool → Text → Text → Files → Files × DownloadResult
  unfolding accept
  download fetch has_dir dir version fs =
      let temp_path = get_temp_path dir version in
      if not has_dir
      then (fs, failure [] 0 file_create_error (codes "Failed to create download directory"))
      else accept temp_path (fetch temp_path (without_leftover temp_path fs))

-- Whether the path is below the directory is asked as whether it contains it anywhere.
unfoldable pub cleanup_download : (Text → Bool) → Text → Text → Files → Files × Bool
unfolding find_after
cleanup_download can_remove dir file_path fs =
    if is_empty file_path then (fs, false) else elim (find_after dir file_path) [
      | none ↦ (fs, false)
      | some r ↦ elim (fs file_path) [
        | none ↦ (fs, false)
        | some content ↦ (removed can_remove fs file_path, can_remove file_path)
      ]
    ]
