-- ===== src/Installation/Outcome.antt =====
-- What the result of an installation says of the target.
use embedded_linux_ota.Prelude.{
  ℕ, Bool, true, false, not, ◌||◌, [], ◌++◌, Option, none, some, Bool-cases, inl, inr, ◌≡◌, ◌≢◌,
  refl, sym, arith, ap, ◌∙◌, if◌then◌else◌, length, get_or,
}
use embedded_linux_ota.Text.{Text, codes, is_empty}
use embedded_linux_ota.Fs.{Files, Env}
use embedded_linux_ota.Validation.{
  Evp, Host, is_valid_result, no_size, validate_file, verify_sha256, normalize_hash,
}
use embedded_linux_ota.Validation.Digest.{IsEvp, sha256_of}
use embedded_linux_ota.Validation.Verdict.{validate_file_iff}
use embedded_linux_ota.Installation.{
  is_installed, installed, verification_failed, installation_failed, staging_failed,
  invalid_artifact, path_traversal_detected, insufficient_space, InstallConfig, InstallInfo,
  InstallResult, System, validate_path,
}
use embedded_linux_ota.Installation.Install.{
  staging_dir_of, staging_path_of, final_path_of, state_of, goes_on, copy_to_staging,
  finalize_installation, save_installation_state, sync_and_verify, verify_and_place, stage,
  check_image, install, clean, refuse, cancelled, create_staging_dir, required_space,
  check_disk_space,
}
use embedded_linux_ota.Installation.Apart.{IsApart, cleanup_keeps, save_keeps}

-- A step that would not install was not taken.
skip :
    (b : Bool) (x r : Files × InstallResult)
    → is_installed x.1.status ≡ false
    → (if b then x else r).1.status ≡ installed
    → (if b then x else r) ≡ r
skip true x r n h = absurd (ground (arith, ap is_installed h))
skip false x r n h = refl

-- Four such steps.
skip4 :
    (a : Bool) (w : Files × InstallResult) (b : Bool) (x : Files × InstallResult) (c : Bool)
    (y : Files × InstallResult) (d : Bool) (z r : Files × InstallResult)
    → is_installed w.1.status
        || is_installed x.1.status
        || is_installed y.1.status
        || is_installed z.1.status
      ≡ false
    → (if a then w else if b then x else if c then y else if d then z else r).1.status ≡ installed
    → (if a then w else if b then x else if c then y else if d then z else r) ≡ r
skip4 a w b x c y d z r n h =
    let e1 = skip a w (if b then x else if c then y else if d then z else r) (ground arith) h in
    let h1 = ap (λ q. q.1.status) (sym e1) ∙ h in
    let e2 = skip b x (if c then y else if d then z else r) (ground arith) h1 in
    let h2 = ap (λ q. q.1.status) (sym e2) ∙ h1 in
    let e3 = skip c y (if d then z else r) (ground arith) h2 in
    let h3 = ap (λ q. q.1.status) (sym e3) ∙ h2 in e1 ∙ e2 ∙ e3 ∙ skip d z r (ground arith) h3

module _ {S : Type 0} (evp : Evp S) (env : Env) (host : Host) (sys : System)
    (config : InstallConfig) (progress : Option (ℕ → Bool)) (now : Text) (info : InstallInfo) where
  -- An installation that settles has verified the image in the target, and leaves it there.
  settled :
      (fs : Files)
      → IsApart config info.version
      → (sync_and_verify evp env host sys config progress now info fs).1.status ≡ installed
      → (verify_sha256 evp host fs (final_path_of config info.version) info.expected_sha256 ≡ true)
        × ((sync_and_verify evp env host sys config progress now info fs).0
              (final_path_of config info.version)
            ≡ fs (final_path_of config info.version))
  unfolding sync_and_verify
  settled fs apart h =
      let final_path = final_path_of config info.version in
      let st = state_of config now info in
      let saved = (save_installation_state env host sys config st fs).0 in
      ground (
        arith,
        save_keeps env host sys config st fs final_path apart.state,
        cleanup_keeps env host sys (staging_dir_of config info.version) info.version saved
            final_path apart.staged,
      )

  -- From the synchronisation on, the image that was placed stays in the target, also where it is
  -- then found not to be valid or where the installation is cancelled, provided that it is apart
  -- from the staging directory and the file of the state.
  pub sync_and_verify_keeps :
      (fs : Files)
      → IsApart config info.version
      → (sync_and_verify evp env host sys config progress now info fs).0
          (final_path_of config info.version)
        ≡ fs (final_path_of config info.version)
  unfolding sync_and_verify
  sync_and_verify_keeps fs apart =
      let final_path = final_path_of config info.version in
      let st = state_of config now info in
      let saved = (save_installation_state env host sys config st fs).0 in
      ground (
        arith,
        save_keeps env host sys config st fs final_path apart.state,
        cleanup_keeps env host sys (staging_dir_of config info.version) info.version saved
            final_path apart.staged,
      )

  placed_is :
      (fs : Files)
      → (verify_and_place evp env host sys config progress now info fs).1.status ≡ installed
      → verify_and_place evp env host sys config progress now info fs
        ≡ sync_and_verify evp env host sys config progress now info
            (finalize_installation env host sys config info.version fs).0
  unfolding verify_and_place
  placed_is fs h =
      let (placed, done) = finalize_installation env host sys config info.version fs in
      skip4 (not (goes_on progress 50)) (clean evp env host sys config info fs, cancelled)
        (not (
          is_valid_result
            (validate_file evp host fs (staging_path_of config info.version) info.expected_sha256
              info.expected_size).status))
        (
          clean evp env host sys config info fs,
          refuse verification_failed (codes "Staged artifact verification failed"),
        )
        (not (goes_on progress 70)) (clean evp env host sys config info fs, cancelled) (not done)
        (
          clean evp env host sys config info placed,
          refuse installation_failed (codes "Failed to finalize installation"),
        )
        (sync_and_verify evp env host sys config progress now info placed) refl h

  staged_is :
      (fs : Files)
      → (stage evp env host sys config progress now info fs).1.status ≡ installed
      → stage evp env host sys config progress now info fs
        ≡ verify_and_place evp env host sys config progress now info
            (copy_to_staging env host sys info.image_path
              (staging_path_of config info.version)
              fs).0
  unfolding stage
  staged_is fs h =
      let (copied, done) =
        copy_to_staging env host sys info.image_path (staging_path_of config info.version) fs in
      skip4 (not (goes_on progress 10)) (fs, cancelled)
        (not (create_staging_dir env host sys config info.version))
        (fs, refuse staging_failed (codes "Failed to create staging directory"))
        (not (goes_on progress 20)) (clean evp env host sys config info fs, cancelled) (not done)
        (
          clean evp env host sys config info copied,
          refuse staging_failed (codes "Failed to copy update to staging"),
        )
        (verify_and_place evp env host sys config progress now info copied) refl h

  checked_is :
      (image : Option Text) (fs : Files)
      → (check_image evp env host sys config image progress now info fs).1.status ≡ installed
      → check_image evp env host sys config image progress now info fs
        ≡ stage evp env host sys config progress now info fs
  unfolding check_image
  checked_is none fs h = absurd (ground (arith, ap is_installed h))
  checked_is (some content) fs h =
      skip4 (not (host.regular info.image_path))
        (fs, refuse invalid_artifact (codes "Image is not a regular file: " ++ info.image_path))
        (not (
          check_disk_space env host sys config
            (required_space info.expected_size (length content))))
        (fs, refuse insufficient_space (codes "Insufficient disk space for installation")) false
        (fs, cancelled) false (fs, cancelled) (stage evp env host sys config progress now info fs)
        refl h

  install_is :
      (fs : Files)
      → (install evp env host sys config progress now info fs).1.status ≡ installed
      → install evp env host sys config progress now info fs
        ≡ check_image evp env host sys config (fs info.image_path) progress now info fs
  unfolding install
  install_is fs h =
      skip4 (not (goes_on progress 0)) (fs, cancelled)
        (is_empty info.version || is_empty info.image_path)
        (
          fs,
          refuse invalid_artifact
              (codes "Invalid installation info: missing version or image path"),
        )
        (not (validate_path info.version))
        (
          fs,
          refuse path_traversal_detected (codes "Invalid version string: potential path traversal"),
        )
        false (fs, cancelled)
        (check_image evp env host sys config (fs info.image_path) progress now info fs) refl h

  -- The files after the copy to the staging directory, and after the image was placed.
  abbrev pub placed_files : Files → Files
  placed_files fs =
      (finalize_installation env host sys config info.version
        (copy_to_staging env host sys info.image_path (staging_path_of config info.version) fs).0).0

  pub settled_is :
      (fs : Files)
      → (install evp env host sys config progress now info fs).1.status ≡ installed
      → install evp env host sys config progress now info fs
        ≡ sync_and_verify evp env host sys config progress now info (placed_files fs)
  settled_is fs h =
      let copied =
        (copy_to_staging env host sys info.image_path (staging_path_of config info.version) fs).0 in
      let e1 = install_is fs h in
      let h1 = ap (λ r. r.1.status) (sym e1) ∙ h in
      let e2 = checked_is (fs info.image_path) fs h1 in
      let h2 = ap (λ r. r.1.status) (sym e2) ∙ h1 in
      let e3 = staged_is fs h2 in
      let h3 = ap (λ r. r.1.status) (sym e3) ∙ h2 in e1 ∙ e2 ∙ e3 ∙ placed_is copied h3

  -- With a digest that may be fed in pieces, an installation that reports success leaves at its
  -- target an image whose printed digest is the expected hash, but for case and spaces, provided
  -- that the target can be read and is apart from the staging directory and the file of the
  -- state.
  pub install-installed :
      (fs : Files)
      → IsEvp evp
      → host.can_read (final_path_of config info.version) ≡ true
      → IsApart config info.version
      → (install evp env host sys config progress now info fs).1.status ≡ installed
      → (content : Text) × ((install evp env host sys config progress now info fs).0
            (final_path_of config info.version)
          ≡ some content)
        × (get_or [] (sha256_of evp content) ≡ normalize_hash info.expected_sha256)
  unfolding verify_sha256
  install-installed fs laws can_read apart h =
      let e = settled_is fs h in
      let (ok, kept) = settled (placed_files fs) apart (ap (λ r. r.1.status) (sym e) ∙ h) in
      let final_path = final_path_of config info.version in
      let (content, g) =
        (validate_file_iff evp host (placed_files fs) final_path info.expected_sha256 no_size laws
            can_read).0
          ok in
      (content, ap (λ r. r.0 final_path) e ∙ kept ∙ g.present, g.digest)

  -- An image that is not found valid in the staging directory does not reach the target, which
  -- is what it was, nor is it reported as installed, provided that the target is apart from the
  -- staging directory and the file of the state.
  pub verify_and_place_rejects :
      (fs : Files)
      → IsApart config info.version
      → is_valid_result
          (validate_file evp host fs
            (staging_path_of config info.version)
            info.expected_sha256
            info.expected_size).status
        ≡ false
      → ((verify_and_place evp env host sys config progress now info fs).0
            (final_path_of config info.version)
          ≡ fs (final_path_of config info.version))
        × ((verify_and_place evp env host sys config progress now info fs).1.status ≢ installed)
  unfolding verify_and_place
  verify_and_place_rejects fs apart h =
      let kept =
        cleanup_keeps env host sys (staging_dir_of config info.version) info.version fs
          (final_path_of config info.version) apart.staged in
      elim (Bool-cases (goes_on progress 50)) [
        | inl on ↦
            rw (on, verify_and_place) (rw h (kept, λ e. absurd (ground (arith, ap is_installed e))))
        | inr off ↦
            rw (off, verify_and_place) (kept, λ e. absurd (ground (arith, ap is_installed e)))
      ]
