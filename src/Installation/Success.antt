-- ===== src/Installation/Success.antt =====
-- When an installation succeeds (src/installation/installer.cpp).
use embedded_linux_ota.Prelude.{
  ℕ, ◌%◌, Bool, true, false, not, ◌||◌, ◌&&◌, [], Option, some, ◌≡◌, refl, arith, length, ltb, ◌==◌,
}
use embedded_linux_ota.Text.{Text, is_empty}
use embedded_linux_ota.Fs.{Files, Env, IsHealthy, rename_file, write_file, write_unflushed}
use embedded_linux_ota.Text.Search.{text_eq_refl}
use embedded_linux_ota.Validation.{
  Evp, Host, is_valid_result, int64_limit, int64_modulus, no_size, validate_file, verify_sha256,
  normalize_hash, is_valid_sha256_format,
}
use embedded_linux_ota.Validation.Digest.{IsEvp, sha256_of}
use embedded_linux_ota.Validation.Verdict.{validate_file_iff}
use embedded_linux_ota.Prelude.{get_or}
use embedded_linux_ota.Installation.{installed, InstallConfig, InstallInfo, System, validate_path}
use embedded_linux_ota.Installation.Install.{
  staging_path_of, target_path_of, final_path_of, state_file_of, state_of, goes_on, copy_to_staging,
  finalize_installation, save_installation_state, sync_and_verify, verify_and_place, stage,
  check_image, install, create_staging_dir, required_space, check_disk_space,
}

module _ {S : Type 0} (evp : Evp S) (env : Env) (host : Host) (sys : System)
    (config : InstallConfig) (progress : Option (ℕ → Bool)) (now : Text) (info : InstallInfo) where
  -- Nobody cancels.
  pub record IsUncancelled : Type 0 where
    pub at0 : goes_on progress 0 ≡ true
    pub at10 : goes_on progress 10 ≡ true
    pub at20 : goes_on progress 20 ≡ true
    pub at50 : goes_on progress 50 ≡ true
    pub at70 : goes_on progress 70 ≡ true
    pub at85 : goes_on progress 85 ≡ true
    pub at90 : goes_on progress 90 ≡ true

  -- The directories can be made, the target can be synchronised, and there is room for the image.
  pub record IsReady (content : Text) : Type 0 where
    pub staging : create_staging_dir env host sys config info.version ≡ true
    pub target : sys.has_dir config.install_target ≡ true
    pub place : sys.has_dir (target_path_of config info.version) ≡ true
    pub synced : sys.syncs (target_path_of config info.version) ≡ true
    pub space :
        check_disk_space env host sys config (required_space info.expected_size (length content))
        ≡ true

  -- The path is a regular file that can be read.
  pub record IsReadable (path : Text) : Type 0 where
    pub regular : host.regular path ≡ true
    pub readable : host.readable path ≡ true
    pub can_read : host.can_read path ≡ true

  -- The content has the expected size, if one is given, and the expected hash.
  pub record IsExpected (content : Text) : Type 0 where
    pub sized :
        (ltb info.expected_size int64_limit
          && not (length content % int64_modulus == info.expected_size))
        ≡ false
    pub digest : get_or [] (sha256_of evp content) ≡ normalize_hash info.expected_sha256
    pub well_formed : is_valid_sha256_format (normalize_hash info.expected_sha256) ≡ true

  valid_at :
      (path content : Text) (fs : Files)
      → IsEvp evp
      → IsReadable path
      → IsExpected content
      → fs path ≡ some content
      → is_valid_result
          (validate_file evp host fs path info.expected_sha256 info.expected_size).status
        ≡ true
  valid_at path content fs laws r x e =
      (validate_file_iff evp host fs path info.expected_sha256 info.expected_size laws r.can_read).1
        (
          content,
          record {
            present = e;
            regular = r.regular;
            readable = r.readable;
            sized = x.sized;
            digest = x.digest;
            well_formed = x.well_formed;
          },
        )

  verified_at :
      (path content : Text) (fs : Files)
      → IsEvp evp
      → IsReadable path
      → IsExpected content
      → fs path ≡ some content
      → verify_sha256 evp host fs path info.expected_sha256 ≡ true
  unfolding verify_sha256
  verified_at path content fs laws r x e =
      (validate_file_iff evp host fs path info.expected_sha256 no_size laws r.can_read).1 (
        content,
        record {
          present = e;
          regular = r.regular;
          readable = r.readable;
          sized = refl;
          digest = x.digest;
          well_formed = x.well_formed;
        },
      )

  module _ (healthy : IsHealthy env) where
    copied_ok :
        (source dest content : Text) (fs : Files)
        → host.can_read source ≡ true
        → fs source ≡ some content
        → ((copy_to_staging env host sys source dest fs).1 ≡ true)
          × ((copy_to_staging env host sys source dest fs).0 dest ≡ some content)
    unfolding copy_to_staging write_file
    copied_ok source dest content fs r e =
        let o = healthy.opens dest in
        let w = healthy.writes dest content in
        let h = healthy.honest dest content w in ground (arith, text_eq_refl dest)

    placed_ok :
        (content : Text) (fs : Files)
        → IsReady content
        → fs (staging_path_of config info.version) ≡ some content
        → ((finalize_installation env host sys config info.version fs).1 ≡ true)
          × ((finalize_installation env host sys config info.version fs).0
                (final_path_of config info.version)
              ≡ some content)
    unfolding finalize_installation rename_file
    placed_ok content fs ready e =
        let staging_path = staging_path_of config info.version in
        let final_path = final_path_of config info.version in
        let moves = healthy.renames staging_path final_path in
        let t = ready.target in let p = ready.place in ground (arith, text_eq_refl final_path)

    saved_ok :
        (fs : Files)
        → (save_installation_state env host sys config (state_of config now info) fs).1 ≡ true
    unfolding save_installation_state write_unflushed
    saved_ok fs =
        let file = state_file_of config info.version in
        rw (healthy.opens file) (healthy.buffers file _)

    module _ (free : IsUncancelled) (laws : IsEvp evp) (content : Text) (ready : IsReady content)
        (expected : IsExpected content)
        (at_staging : IsReadable (staging_path_of config info.version))
        (at_final : IsReadable (final_path_of config info.version)) where
      sync_ok :
          (fs : Files)
          → fs (final_path_of config info.version) ≡ some content
          → (sync_and_verify evp env host sys config progress now info fs).1.status ≡ installed
      unfolding sync_and_verify
      sync_ok fs e =
          rw
            (
              free.at85,
              ready.synced,
              free.at90,
              verified_at (final_path_of config info.version) content fs laws at_final expected e,
              saved_ok fs,
            )
            refl

      place_ok :
          (fs : Files)
          → fs (staging_path_of config info.version) ≡ some content
          → (verify_and_place evp env host sys config progress now info fs).1.status ≡ installed
      unfolding verify_and_place
      place_ok fs e =
          let (done, there) = placed_ok content fs ready e in
          rw
            (
              free.at50,
              valid_at (staging_path_of config info.version) content fs laws at_staging expected e,
              free.at70,
              done,
            )
            (sync_ok (finalize_installation env host sys config info.version fs).0 there)

      stage_ok :
          (fs : Files)
          → host.can_read info.image_path ≡ true
          → fs info.image_path ≡ some content
          → (stage evp env host sys config progress now info fs).1.status ≡ installed
      unfolding stage
      stage_ok fs r e =
          let (done, there) =
            copied_ok info.image_path (staging_path_of config info.version) content fs r e in
          rw (free.at10, ready.staging, free.at20, done)
            (place_ok
              (copy_to_staging env host sys info.image_path (staging_path_of config info.version)
                fs).0
              there)

      -- On a healthy system with a digest that may be fed in pieces, where nobody cancels, the
      -- directories can be made, the target can be synchronised and there is room: an image that is
      -- a regular file, can be read and has the expected size and hash, with a version that is a
      -- safe path, is installed, provided that the copies in the staging directory and at the
      -- target are regular files that can be read.
      pub install_ok :
          (fs : Files)
          → is_empty info.version || is_empty info.image_path ≡ false
          → validate_path info.version ≡ true
          → host.regular info.image_path ≡ true
          → host.can_read info.image_path ≡ true
          → fs info.image_path ≡ some content
          → (install evp env host sys config progress now info fs).1.status ≡ installed
      unfolding install check_image
      install_ok fs given safe regular readable e =
          rw (free.at0, given, safe, e, check_image, regular, ready.space) (stage_ok fs readable e)
