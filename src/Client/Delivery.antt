-- ===== src/Client/Delivery.antt =====
-- When a download of an update succeeds.
use embedded_linux_ota.Prelude.{
  ℕ, ◌≤◌, ◌<◌, ◌%◌, Bool, true, false, [], none, some, ◌≡◌, sym, ap, ◌∙◌, arith, inl, inr, ◌==◌,
  ltb, length, get_or, Option-cases, Bool-cases,
}
use embedded_linux_ota.Text.{Text}
use embedded_linux_ota.Fs.{Files, Env}
use embedded_linux_ota.Text.Search.{text_eq_refl}
use embedded_linux_ota.Validation.{Evp, Host, int64_modulus}
use embedded_linux_ota.Validation.Digest.{IsEvp, sha256_of, sha256_in_buffers_lem}
use embedded_linux_ota.Download.{
  Fetched, DownloadResult, get_temp_path, download_buffer_size, accept, without_leftover,
}
use embedded_linux_ota.Download
use embedded_linux_ota.Http.{Attempt, Curl, Transfer}
use embedded_linux_ota.Http.Delivery.{
  delivers-ends, delivers, ends, IsDelivered, IsMissed, download_cases,
}
use embedded_linux_ota.Client.Manager.{
  UpdateManager, release_url, download_client, fetch, download_update,
}

-- The attempt `m` is the first that ends the transfer, and brings a file.
pub record Brings (attempt : ℕ → Attempt) (m : ℕ) : Type 0 where
  pub delivered : delivers (attempt m) ≡ true
  pub earlier : (k : ℕ) → k < m → ends (attempt k) ≡ false

module _ (env : Env) (can_remove : Text → Bool) (output : Text) (attempt : ℕ → Attempt) where
  -- There is one such attempt.
  same_attempt :
      (last m j : ℕ) (t : Transfer)
      → Brings attempt m
      → IsDelivered env can_remove output attempt 0 last j t
      → j ≡ m
  same_attempt last m j t b d = elim (Bool-cases (ltb j m)) [
    | inl e ↦ absurd (cc (sym (b.earlier j (ground arith)) ∙ delivers-ends (attempt j) d.delivered))
    | inr e ↦ elim (Bool-cases (ltb m j)) [
      | inl f ↦ absurd (
          cc (
            sym (d.earlier m (omega arith) (ground arith)) ∙ delivers-ends (attempt m) b.delivered))
      | inr f ↦ ground arith
    ]
  ]

  not_missed :
      (last m : ℕ) (t : Transfer)
      → m < last
      → Brings attempt m
      → IsMissed env can_remove output attempt 0 last t
      → ⊥
  not_missed last m t l b d =
      let (k, from, below, ended) = d.undelivered m (omega arith) l b.delivered in
      absurd (cc (sym (b.earlier k below) ∙ ended))

module _ {S : Type 0} (evp : Evp S) (host : Host) (can_remove : Text → Bool) where
  no_leftover :
      (path : Text) (fs : Files)
      → can_remove path ≡ true
      → host.can_read path ≡ true
      → without_leftover evp host can_remove path fs path ≡ none
  no_leftover path fs h k = elim (Option-cases (fs path)) [
    | inl e ↦ ground arith
    | inr (content, e) ↦ ground (arith, text_eq_refl path)
  ]

  -- A file that is there, can be read and is not empty is accepted.
  accept_ok :
      (path content : Text) (fetched : Fetched)
      → IsEvp evp
      → fetched.is_success ≡ true
      → fetched.files path ≡ some content
      → host.can_read path ≡ true
      → (length content % int64_modulus == 0) ≡ false
      → (let (fs1, result) = accept evp host can_remove path fetched in
          (result.success ≡ true)
          × (result.file_path ≡ path)
          × (fs1 path ≡ some content)
          × (result.sha256 ≡ get_or [] (sha256_of evp content)))
  unfolding accept
  accept_ok path content fetched laws ok there readable full =
      let hash =
        sha256_in_buffers_lem evp laws download_buffer_size host fetched.files path content readable
          there in
      ground arith

abbrev pub temp_of : UpdateManager → Text → Text
temp_of manager version = get_temp_path manager.download_dir version

abbrev pub attempts_of : Curl → UpdateManager → Text → ℕ → Attempt
attempts_of curl manager version = curl (download_client manager) (release_url manager version)

module _ (env : Env) (can_remove : Text → Bool) (curl : Curl) where
  fetched_ok :
      (manager : UpdateManager) (version : Text) (fs : Files) (m : ℕ)
      → env.can_open (temp_of manager version) ≡ true
      → can_remove (temp_of manager version) ≡ true
      → fs (temp_of manager version) ≡ none
      → m ≤ 3
      → Brings (attempts_of curl manager version) m
      → (let f =
            fetch env can_remove curl
              (download_client manager)
              (release_url manager version)
              (temp_of manager version)
              fs in
          (f.is_success ≡ true)
          × (f.files (temp_of manager version)
              ≡ some (
                  env.stored
                    (temp_of manager version)
                    (attempts_of curl manager version m).received)))
  unfolding fetch
  fetched_ok manager version fs m opens removes absent l b =
      let path = temp_of manager version in
      let client = download_client manager in
      elim (download_cases env can_remove curl client (release_url manager version) path fs
        (omega arith) opens removes absent) [
          | inl (j, d) ↦
              let same =
                same_attempt env can_remove path (attempts_of curl manager version) 4 m j _ b d in
              (
                d.success,
                d.stored
                    ∙ ap
                        (λ (k : ℕ).
                          some (env.stored path (attempts_of curl manager version k).received))
                        same,
              )
          | inr d ↦ absurd (
              not_missed env can_remove path (attempts_of curl manager version) 4 m _ (omega arith)
                b d)
        ]

  -- With a digest that may be fed in pieces, a directory that can be made, and a file to download
  -- to that can be opened, removed and read: where one of the first four attempts at the image of
  -- the version brings a file, none before it ends the transfer (as 400, 404 or an abort does, but no
  -- other answer), and what is stored of it is not empty, the download succeeds with what is stored
  -- and its printed digest.
  pub download_update_delivers :
      {S : Type 0} (evp : Evp S) (host : Host) (manager : UpdateManager) (version : Text)
      (fs : Files) (m : ℕ)
      → IsEvp evp
      → env.can_open (temp_of manager version) ≡ true
      → can_remove (temp_of manager version) ≡ true
      → host.can_read (temp_of manager version) ≡ true
      → m ≤ 3
      → Brings (attempts_of curl manager version) m
      → (length (env.stored (temp_of manager version) (attempts_of curl manager version m).received)
            % int64_modulus
          == 0)
        ≡ false
      → (let (fs1, result) = download_update env can_remove curl evp host manager true version fs in
          let content =
            env.stored (temp_of manager version) (attempts_of curl manager version m).received in
          (result.success ≡ true)
          × (result.file_path ≡ temp_of manager version)
          × (fs1 (temp_of manager version) ≡ some content)
          × (result.sha256 ≡ get_or [] (sha256_of evp content)))
  unfolding download_update Download.download
  download_update_delivers evp host manager version fs m laws opens removes readable l b full =
      let path = temp_of manager version in
      let clean = without_leftover evp host can_remove path fs in
      let (ok, there) =
        fetched_ok manager version clean m opens removes
          (no_leftover evp host can_remove path fs removes readable) l b in
      accept_ok evp host can_remove path
        (env.stored path (attempts_of curl manager version m).received)
        (fetch env can_remove curl (download_client manager) (release_url manager version) path
          clean)
        laws ok there readable full
