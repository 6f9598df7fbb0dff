-- ===== src/Http/Tests.antt =====
-- The HTTP client against servers that fail and recover.
use embedded_linux_ota.Prelude.{
  ℕ, true, false, [], none, some, ◌≡◌, ◌⊎◌, refl, arith, ◌==◌, if◌then◌else◌,
}
use embedded_linux_ota.Text.{codes}
use embedded_linux_ota.Fs.Examples.{good_env, empty_disk}
use embedded_linux_ota.Http.{Attempt, Curl, new_client, execute_with_retry, download}
use embedded_linux_ota.Http.Retry.{IsFirstFinal, execute_with_retry_lem}
use embedded_linux_ota.Http.Delivery.{IsDelivered, IsMissed, download_cases}

abbrev pub answers : ℕ → Attempt
answers code = record {
  has_handle = true;
  aborted = false;
  failure = none;
  http_code = code;
  received = codes "image";
}

abbrev pub times_out : Attempt
times_out = record (answers 0) { failure = some (codes "Timeout was reached") }

-- A time-out, then an error of the server, then the answer.
abbrev pub recovers : Curl
recovers client url n = if n == 0 then times_out else if n == 1 then answers 503 else answers 200

execute_with_retry_lem_example :
    (m : ℕ) × IsFirstFinal
      (recovers new_client (codes "u"))
      0
      3
      m
      (execute_with_retry recovers new_client (codes "u"))
execute_with_retry_lem_example =
    execute_with_retry_lem recovers new_client (codes "u") (omega arith)

third_attempt : (execute_with_retry recovers new_client (codes "u")).attempts ≡ 3
unfolding execute_with_retry
third_attempt = refl

download_cases_example :
    let t =
      download good_env (λ path. true) (codes "/o") recovers new_client (codes "u") empty_disk in
    ((m : ℕ) × IsDelivered good_env
        (λ path. true)
        (codes "/o")
        (recovers new_client (codes "u"))
        0
        4
        m
        t)
    ⊎ IsMissed good_env (λ path. true) (codes "/o") (recovers new_client (codes "u")) 0 4 t
download_cases_example =
    download_cases good_env (λ path. true) recovers new_client (codes "u") (codes "/o") empty_disk
      (omega arith) refl refl refl

-- The error of the first attempt stays in the response of a download that succeeds.
stale_error :
    (download good_env
      (λ path. true)
      (codes "/o")
      recovers
      new_client
      (codes "u")
      empty_disk).response
    ≡ record {
      status_code = 200;
      body = [];
      error = codes "Timeout was reached";
      is_success = true;
    }
unfolding download
stale_error = refl
