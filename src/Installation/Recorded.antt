-- ===== src/Installation/Recorded.antt =====
-- The state that an installation saves is the one that is loaded later.
use embedded_linux_ota.Prelude.{
  ℕ, Bool, true, false, List, [], ◌∷◌, ◌++◌, Option, some, ◌≡◌, sym, ap, ◌∙◌, arith,
}
use embedded_linux_ota.Text.{Text, codes, text_eq}
use embedded_linux_ota.Text.Search.{text_eq_refl, lacks}
use embedded_linux_ota.Json.Document.{Field, quoted}
use embedded_linux_ota.Json.Strings.{known}
use embedded_linux_ota.Fs.{Files, Env, write_unflushed}
use embedded_linux_ota.Validation.{Evp, Host}
use embedded_linux_ota.Installation.{
  is_installed, installed, InstallConfig, InstallInfo, InstallationState, System,
}
use embedded_linux_ota.Installation.Install.{
  staging_dir_of, state_file_of, state_of, state_to_text, save_installation_state, sync_and_verify,
  install,
}
use embedded_linux_ota.Installation.Apart.{cleanup_keeps}
use embedded_linux_ota.Installation.Outcome.{placed_files, settled_is}

abbrev pub state_keys : List Text
state_keys =
    codes "version" ∷ codes "status" ∷ codes "sha256" ∷ codes "installed_at" ∷ codes "target" ∷ []

abbrev state_fields : InstallationState → List Field
state_fields st =
    quoted (codes "version") st.version
    ∷ quoted (codes "status") st.status
    ∷ quoted (codes "sha256") st.sha256
    ∷ quoted (codes "installed_at") st.installed_at
    ∷ quoted (codes "target") st.target
    ∷ []

-- A text that may stand between quotes as it is: it has no quote and is none of the keys.
pub record IsVerbatim (v : Text) : Type 0 where
  pub unquoted : lacks b'"' v ≡ true
  pub free : known state_keys v ≡ false

pub record IsRecordable (st : InstallationState) : Type 0 where
  pub version : IsVerbatim st.version
  pub status : IsVerbatim st.status
  pub sha256 : IsVerbatim st.sha256
  pub installed_at : IsVerbatim st.installed_at
  pub target : IsVerbatim st.target

module _ {S : Type 0} (evp : Evp S) (env : Env) (host : Host) (sys : System)
    (config : InstallConfig) (progress : Option (ℕ → Bool)) (now : Text) (info : InstallInfo) where
  -- Where the steps from the synchronisation on report success, the file holds what is stored of
  -- the text of the state.
  settled_state :
      (fs : Files)
      → ((name : Text)
          → text_eq
              (staging_dir_of config info.version ++ (codes "/" ++ name))
              (state_file_of config info.version)
            ≡ false)
      → (sync_and_verify evp env host sys config progress now info fs).1.status ≡ installed
      → (sync_and_verify evp env host sys config progress now info fs).0
          (state_file_of config info.version)
        ≡ some (
            env.stored
              (state_file_of config info.version)
              (state_to_text env host sys (state_of config now info)))
  unfolding sync_and_verify save_installation_state write_unflushed
  settled_state fs apart h =
      let path = state_file_of config info.version in
      let st = state_of config now info in
      let saved = (save_installation_state env host sys config st fs).0 in
      ground (
        arith,
        ap is_installed h,
        text_eq_refl path,
        cleanup_keeps env host sys (staging_dir_of config info.version) info.version saved path
            apart,
      )

  -- An installation that reports success leaves in the file of the state, which is not in the
  -- staging directory, what the system stores of the text of the state, all of it or not.
  pub install-stored :
      (fs : Files)
      → ((name : Text)
          → text_eq
              (staging_dir_of config info.version ++ (codes "/" ++ name))
              (state_file_of config info.version)
            ≡ false)
      → (install evp env host sys config progress now info fs).1.status ≡ installed
      → (install evp env host sys config progress now info fs).0 (state_file_of config info.version)
        ≡ some (
            env.stored
              (state_file_of config info.version)
              (state_to_text env host sys (state_of config now info)))
  install-stored fs apart h =
      let e = settled_is evp env host sys config progress now info fs h in
      ap (λ r. r.0 (state_file_of config info.version)) e
      ∙ settled_state (placed_files evp env host sys config progress now info fs) apart
          (ap (λ r. r.1.status) (sym e) ∙ h)
