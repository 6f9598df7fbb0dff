-- ===== src/Program/Cli/Accepted.antt =====
-- What the exit codes of the commands on releases say (src/cli_main.cpp).
use embedded_linux_ota.Prelude.{
  ℕ, Bool, true, false, none, some, ◌≡◌, refl, sym, ap, ◌∙◌, arith, inl, inr, Option-cases,
  Bool-cases,
}
use embedded_linux_ota.Text.{Text}
use embedded_linux_ota.Fs.{Files, Env}
use embedded_linux_ota.Validation.{Evp, Host, is_valid_result, validate_file}
use embedded_linux_ota.Validation.Digest.{IsEvp}
use embedded_linux_ota.Validation.Verdict.{IsGenuine, validate_file_iff}
use embedded_linux_ota.Device.{load_config, validate_config}
use embedded_linux_ota.Download.{Fetched, get_temp_path, accept, without_leftover}
use embedded_linux_ota.Download
use embedded_linux_ota.Client.{UpdateMetadata, parse_update_response}
use embedded_linux_ota.Client.Updates.{
  DeviceConfig, UpdateInfo, UpdateCheckResult, update_available, request_path,
}
use embedded_linux_ota.Client.Order.{IsOffer, check_for_update-IsOffer}
use embedded_linux_ota.Http.{Curl}
use embedded_linux_ota.Http
use embedded_linux_ota.Client.Manager.{
  UpdateManager, check, fetch, download_update, download_client, release_url,
}
use embedded_linux_ota.Program.Cli.{CliOptions}
use embedded_linux_ota.Program.Cli.Release.{
  exit_of, valid_config, cli_manager, is_available, download_and_validate, download_command,
}

exit_of-true : (b : Bool) → exit_of b ≡ 0 → b ≡ true
exit_of-true true h = refl
exit_of-true false h = absurd (omega arith)

is_available-eq : (r : UpdateCheckResult) → is_available r ≡ true → r ≡ update_available
is_available-eq r h = ground arith

module _ {S : Type 0} (evp : Evp S) (host : Host) where
  accept_path :
      (can_remove : Text → Bool) (path : Text) (fetched : Fetched)
      → (accept evp host can_remove path fetched).1.success ≡ true
      → ((accept evp host can_remove path fetched).1.file_path ≡ path) × (host.can_read path ≡ true)
  unfolding accept
  accept_path can_remove path fetched h = elim (Option-cases (fetched.files path)) [
    | inl e ↦ absurd (ground arith)
    | inr (content, e) ↦ (ground arith, ground arith)
  ]

  manager_path :
      (can_remove : Text → Bool) (get : Text → Files → Fetched) (has_dir : Bool)
      (dir version : Text) (fs : Files)
      → (Download.download evp host can_remove get has_dir dir version fs).1.success ≡ true
      → ((Download.download evp host can_remove get has_dir dir version fs).1.file_path
          ≡ get_temp_path dir version)
        × (host.can_read (get_temp_path dir version) ≡ true)
  unfolding Download.download
  manager_path can_remove get true dir version fs h =
      accept_path can_remove (get_temp_path dir version)
        (get (get_temp_path dir version)
          (without_leftover evp host can_remove (get_temp_path dir version) fs))
        h
  manager_path can_remove get false dir version fs h = absurd (cc)

  module _ (env : Env) (can_remove : Text → Bool) (curl : Curl) (has_dir : Bool) where
    download_path :
        (manager : UpdateManager) (version : Text) (fs : Files)
        → (download_update env can_remove curl evp host manager has_dir version fs).1.success ≡ true
        → ((download_update env can_remove curl evp host manager has_dir version fs).1.file_path
            ≡ get_temp_path manager.download_dir version)
          × (host.can_read (get_temp_path manager.download_dir version) ≡ true)
    unfolding download_update
    download_path manager version fs h =
        manager_path can_remove
          (fetch env can_remove curl (download_client manager) (release_url manager version))
          has_dir manager.download_dir version fs h

    validated :
        (manager : UpdateManager) (info : UpdateInfo) (fs : Files)
        → (download_and_validate evp host env can_remove curl has_dir manager info fs).1 ≡ 0
        → (is_valid_result
              (validate_file evp host
                (download_and_validate evp host env can_remove curl has_dir manager info fs).0
                (get_temp_path manager.download_dir info.metadata.version)
                info.metadata.sha256
                info.metadata.image_size).status
            ≡ true)
          × (host.can_read (get_temp_path manager.download_dir info.metadata.version) ≡ true)
    unfolding download_and_validate
    validated manager info fs h =
        let (fs1, result) =
          download_update env can_remove curl evp host manager has_dir info.metadata.version fs in
        elim (Bool-cases result.success) [
          | inl ok ↦
              let (place, readable) = download_path manager info.metadata.version fs ok in
              rw (ok, download_and_validate)
                (
                  ap
                        (λ (p : Text).
                          is_valid_result
                            (validate_file evp host fs1 p info.metadata.sha256
                              info.metadata.image_size).status)
                        (sym place)
                      ∙ exit_of-true _ (rw (ok, download_and_validate) at h),
                  readable,
                )
          | inr failed ↦
              let ended : ◌≡◌ {A = ℕ} 1 0 = rw (failed, download_and_validate) at h in
              absurd (omega arith)
        ]

    -- What is true where the command `download` ends with 0: the configuration is valid, the answer
    -- of the server is an offer for the device, and the image lies in the download directory as the
    -- offer describes it.
    pub record IsDownloaded (o : CliOptions) (fs fs1 : Files) : Type 0 where
      pub config : DeviceConfig
      pub metadata : UpdateMetadata
      pub content : Text
      pub loaded : load_config host.can_read fs o.config_path ≡ some config
      pub valid : validate_config config ≡ true
      pub answered :
          parse_update_response
            (Http.get curl (cli_manager evp host o config).http_client (request_path config)).1.body
          ≡ some metadata
      pub offered : IsOffer config metadata
      pub genuine :
          IsGenuine evp host fs1
            (get_temp_path o.download_dir metadata.version)
            metadata.sha256
            metadata.image_size
            content

    valid_config_parts :
        (o : CliOptions) (fs : Files) (config : DeviceConfig)
        → valid_config evp host o fs ≡ some config
        → (load_config host.can_read fs o.config_path ≡ some config)
          × (validate_config config ≡ true)
    valid_config_parts o fs config h =
        elim (Option-cases (load_config host.can_read fs o.config_path)) [
          | inl e ↦ absurd (ground arith)
          | inr (c, e) ↦ elim (Bool-cases (validate_config c)) [
            | inl f ↦ let same : c ≡ config = ground arith in (e ∙ ap some same, rw (← same) f)
            | inr f ↦ absurd (ground arith)
          ]
        ]

    command_is :
        (o : CliOptions) (fs : Files) (config : DeviceConfig)
        → valid_config evp host o fs ≡ some config
        → (download_command evp host env can_remove curl has_dir o fs).1 ≡ 0
        → (let manager = cli_manager evp host o config in
            let info = check curl manager in
            (is_available info.result ≡ true)
            × (download_command evp host env can_remove curl has_dir o fs
                ≡ download_and_validate evp host env can_remove curl has_dir manager info fs))
    unfolding download_command
    command_is o fs config e h =
        elim (Bool-cases (is_available (check curl (cli_manager evp host o config)).result)) [
          | inl f ↦ (f, rw (e, download_command) (rw f refl))
          | inr f ↦
              let ended : ◌≡◌ {A = ℕ} 1 0 = rw f at (rw (e, download_command) at h) in
              absurd (omega arith)
        ]

    refused :
        (o : CliOptions) (fs : Files)
        → valid_config evp host o fs ≡ none
        → (download_command evp host env can_remove curl has_dir o fs).1 ≡ 0
        → ⊥
    unfolding download_command
    refused o fs e h =
        let ended : ◌≡◌ {A = ℕ} 1 0 = rw (e, download_command) at h in absurd (omega arith)

    offered_by :
        (manager : UpdateManager)
        → is_available (check curl manager).result ≡ true
        → (parse_update_response
              (Http.get curl manager.http_client (request_path manager.device_config)).1.body
            ≡ some (check curl manager).metadata)
          × IsOffer manager.device_config (check curl manager).metadata
    unfolding check
    offered_by manager h =
        check_for_update-IsOffer (λ path. (Http.get curl manager.http_client path).1)
          manager.server_url manager.device_config (is_available-eq _ h)

    accepted_with :
        (o : CliOptions) (fs : Files) (config : DeviceConfig)
        → valid_config evp host o fs ≡ some config
        → IsEvp evp
        → (download_command evp host env can_remove curl has_dir o fs).1 ≡ 0
        → IsDownloaded o fs (download_command evp host env can_remove curl has_dir o fs).0
    accepted_with o fs config e laws h =
        let manager = cli_manager evp host o config in
        let info = check curl manager in
        let (available, same) = command_is o fs config e h in
        let (loaded, valid) = valid_config_parts o fs config e in
        let (answered, offered) = offered_by manager available in
        let (valid_image, readable) = validated manager info fs (ap (λ r. r.1) (sym same) ∙ h) in
        let (content, genuine) =
          (validate_file_iff evp host
              (download_and_validate evp host env can_remove curl has_dir manager info fs).0
              (get_temp_path o.download_dir info.metadata.version) info.metadata.sha256
              info.metadata.image_size laws readable).0
            valid_image in
        record {
          config = config;
          metadata = info.metadata;
          content = content;
          loaded = loaded;
          valid = valid;
          answered = answered;
          offered = offered;
          genuine = rw same genuine;
        }

    -- With a digest that may be fed in pieces, the command `download` ends with 0 only where the
    -- configuration is valid, the server's answer parses as an offer for the device, with a newer
    -- version for its hardware, and the download directory then holds the image with the size and
    -- the hash of the offer.
    pub download_command-IsDownloaded :
        (o : CliOptions) (fs : Files)
        → IsEvp evp
        → (download_command evp host env can_remove curl has_dir o fs).1 ≡ 0
        → IsDownloaded o fs (download_command evp host env can_remove curl has_dir o fs).0
    download_command-IsDownloaded o fs laws h = elim (Option-cases (valid_config evp host o fs)) [
      | inl e ↦ absurd (refused o fs e h)
      | inr (config, e) ↦ accepted_with o fs config e laws h
    ]
