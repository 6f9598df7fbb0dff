-- ===== src/Installation/Apart.antt =====
-- The files that the cleanup and the saving of the state leave alone.
use embedded_linux_ota.Prelude.{
  false, List, [], ◌∷◌, ◌++◌, Option-cases, inl, inr, ◌≡◌, refl, arith, ◌∙◌,
}
use embedded_linux_ota.Text.{Text, codes, text_eq}
use embedded_linux_ota.Fs.{Files, Env, write_unflushed}
use embedded_linux_ota.Validation.{Host}
use embedded_linux_ota.Installation.{InstallConfig, InstallationState, System}
use embedded_linux_ota.Installation.Install.{
  staging_dir_of, final_path_of, state_file_of, unlink_all, cleanup, save_installation_state,
}

-- The installed image is neither in the staging directory nor the file of the state.
pub record IsApart (config : InstallConfig) (version : Text) : Type 0 where
  pub staged :
      (name : Text)
      → text_eq
          (staging_dir_of config version ++ (codes "/" ++ name))
          (final_path_of config version)
        ≡ false
  pub state : text_eq (state_file_of config version) (final_path_of config version) ≡ false

module _ (env : Env) (host : Host) (sys : System) where
  pub unlink_all_keeps :
      (dir : Text) (names : List Text) (fs : Files) (q : Text)
      → ((name : Text) → text_eq (dir ++ (codes "/" ++ name)) q ≡ false)
      → unlink_all env host sys dir names fs q ≡ fs q
  unfolding unlink_all
  unlink_all_keeps dir [] fs q apart = refl
  unlink_all_keeps dir (name ∷ names) fs q apart =
      unlink_all_keeps dir names _ q apart ∙ ground (arith, apart name)

  pub cleanup_keeps :
      (dir version : Text) (fs : Files) (q : Text)
      → ((name : Text) → text_eq (dir ++ (codes "/" ++ name)) q ≡ false)
      → cleanup env host sys dir version fs q ≡ fs q
  unfolding cleanup
  cleanup_keeps dir version fs q apart = elim (Option-cases (sys.entries fs dir)) [
    | inl e ↦ ground arith
    | inr (names, e) ↦ ground (arith, unlink_all_keeps dir names fs q apart)
  ]

  pub save_keeps :
      (config : InstallConfig) (st : InstallationState) (fs : Files) (q : Text)
      → text_eq (state_file_of config st.version) q ≡ false
      → (save_installation_state env host sys config st fs).0 q ≡ fs q
  unfolding save_installation_state write_unflushed
  save_keeps config st fs q apart = ground arith
