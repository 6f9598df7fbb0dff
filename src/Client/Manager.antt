-- ===== src/Client/Manager.antt =====
-- `UpdateManager` with its HTTP client and its download manager
-- (src/client/update_manager.cpp, src/download/download_manager.cpp).
use embedded_linux_ota.Prelude.{ℕ, Bool, ◌++◌, []}
use embedded_linux_ota.Text.{Text, codes}
use embedded_linux_ota.Fs.{Files, Env}
use embedded_linux_ota.Validation.{Evp, Host}
use embedded_linux_ota.Download.{Fetched, DownloadResult}
use embedded_linux_ota.Download
use embedded_linux_ota.Http.{HttpClient, new_client, Curl}
use embedded_linux_ota.Http
use embedded_linux_ota.Client.Updates.{DeviceConfig, UpdateInfo, check_for_update}

-- `max_download_size` is the download manager's.
pub record UpdateManager : Type 0 where
  pub server_url : Text
  pub download_dir : Text
  pub max_download_size : ℕ
  pub http_client : HttpClient
  pub device_config : DeviceConfig

abbrev pub new_manager : UpdateManager
new_manager = record {
  server_url = [];
  download_dir = codes "/var/lib/ota/downloads";
  max_download_size = 104857600;
  http_client = new_client;
  device_config = record {
    device_id = [];
    hardware_version = [];
    software_version = [];
    active_slot = [];
  };
}

abbrev pub set_server_url : Text → UpdateManager → UpdateManager
set_server_url url manager = record manager {
  server_url = url;
  http_client = Http.set_server_url url manager.http_client;
}

abbrev pub set_download_dir : Text → UpdateManager → UpdateManager
set_download_dir dir manager = record manager { download_dir = dir }

abbrev pub set_device_config : DeviceConfig → UpdateManager → UpdateManager
set_device_config config manager = record manager { device_config = config }

-- `check_for_update` with the manager's own client.
unfoldable pub check : Curl → UpdateManager → UpdateInfo
unfolding check_for_update Http.get
check curl manager =
    check_for_update (λ path. (Http.get curl manager.http_client path).1) manager.server_url
      manager.device_config

abbrev pub release_url : UpdateManager → Text → Text
release_url manager version =
    manager.server_url ++ (codes "/releases/" ++ (version ++ codes "/image.bin"))

-- The client that a download makes.
abbrev pub download_client : UpdateManager → HttpClient
download_client manager = Http.set_max_download_size manager.max_download_size new_client

module _ (env : Env) (can_remove : Text → Bool) (curl : Curl) where
  unfoldable pub fetch : HttpClient → Text → Text → Files → Fetched
  unfolding Http.download
  fetch client url path fs =
      let t = Http.download env can_remove path curl client url fs in
      record { files = t.files; is_success = t.response.is_success; error = t.response.error }

  unfoldable pub download_update :
      {S : Type 0} → Evp S → Host → UpdateManager → Bool → Text → Files → Files × DownloadResult
  unfolding fetch Download.download
  download_update evp host manager has_dir version fs =
      Download.download evp host can_remove
        (fetch (download_client manager) (release_url manager version)) has_dir manager.download_dir
        version fs
