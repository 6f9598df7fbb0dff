-- ===== src/Installation/Loading.antt =====
-- `load_installation_state` and `cleanup_install_target`.
use embedded_linux_ota.Prelude.{[], ◌>>=◌, get_or, if◌then◌else◌}
use embedded_linux_ota.Text.{Text, codes, find_after, after_char, before_char}
use embedded_linux_ota.Json.{search_key}
use embedded_linux_ota.Fs.{Files, Env}
use embedded_linux_ota.Validation.{Host}
use embedded_linux_ota.Installation.{InstallConfig, InstallationState, System}
use embedded_linux_ota.Installation.Install.{cleanup, state_file_of, target_path_of}

-- The lambda `extract_value`: the next two quotes behind the colon enclose the value.
unfoldable pub extract_value : Text → Text → Text
unfolding find_after after_char before_char
extract_value content key = get_or [] (do
  r ← find_after (search_key key) content
  v ← after_char b':' r
  q ← after_char b'"' v
  before_char b'"' q)

-- A file that cannot be read gives an empty state.
unfoldable pub load_installation_state : Host → InstallConfig → Text → Files → InstallationState
unfolding extract_value
load_installation_state host config version fs =
    let path = state_file_of config version in
    let content = if host.can_read path then get_or [] (fs path) else [] in
    record {
      version = extract_value content (codes "version");
      status = extract_value content (codes "status");
      sha256 = extract_value content (codes "sha256");
      installed_at = extract_value content (codes "installed_at");
      target = extract_value content (codes "target");
    }

unfoldable pub cleanup_install_target : Env → Host → System → InstallConfig → Text → Files → Files
unfolding cleanup
cleanup_install_target env host sys config version fs =
    cleanup env host sys (target_path_of config version) version fs
