-- ===== src/Http.antt =====
-- `HttpClient` (include/network/http_client.h, src/network/http_client.cpp). libcurl is a
-- parameter: what each attempt at a transfer brings.
pub mod Retry
pub mod Delivery
pub mod Tests
use embedded_linux_ota.Prelude.{
  ℕ, zero, suc, ◌+◌, ◌-◌, ◌%◌, Bool, true, false, not, ◌&&◌, ◌||◌, [], ◌++◌, Option, none, some,
  ◌==◌, ltb, leb, if◌then◌else◌,
}
use embedded_linux_ota.Text.{Text, codes, is_empty, text_eq}
use embedded_linux_ota.Text.Decimal.{int_limit, int_modulus, int_to_string}
use embedded_linux_ota.Fs.{Files, Env, put}
use embedded_linux_ota.Download.{removed}

-- `status_code` is the 32-bit pattern of an `int`.
pub record HttpResponse : Type 0 where
  pub status_code : ℕ
  pub body : Text
  pub error : Text
  pub is_success : Bool

abbrev pub new_response : HttpResponse
new_response = record { status_code = 0; body = []; error = []; is_success = false }

-- The client: its settings, 32-bit patterns but for the size, and its last error.
pub record HttpClient : Type 0 where
  pub server_url : Text
  pub connect_timeout : ℕ
  pub request_timeout : ℕ
  pub download_timeout : ℕ
  pub max_download_size : ℕ
  pub retry_count : ℕ
  pub retry_delay : ℕ
  pub ca_cert_path : Text
  pub last_error : Text

abbrev pub new_client : HttpClient
new_client = record {
  server_url = [];
  connect_timeout = 10;
  request_timeout = 30;
  download_timeout = 300;
  max_download_size = 104857600;
  retry_count = 3;
  retry_delay = 2;
  ca_cert_path = [];
  last_error = [];
}

abbrev pub set_server_url : Text → HttpClient → HttpClient
set_server_url url client = record client { server_url = url }

abbrev pub set_connect_timeout : ℕ → HttpClient → HttpClient
set_connect_timeout seconds client = record client { connect_timeout = seconds }

abbrev pub set_request_timeout : ℕ → HttpClient → HttpClient
set_request_timeout seconds client = record client { request_timeout = seconds }

abbrev pub set_download_timeout : ℕ → HttpClient → HttpClient
set_download_timeout seconds client = record client { download_timeout = seconds }

abbrev pub set_max_download_size : ℕ → HttpClient → HttpClient
set_max_download_size bytes client = record client { max_download_size = bytes }

abbrev pub set_retry_count : ℕ → HttpClient → HttpClient
set_retry_count count client = record client { retry_count = count }

abbrev pub set_retry_delay : ℕ → HttpClient → HttpClient
set_retry_delay seconds client = record client { retry_delay = seconds }

abbrev pub set_ca_cert_path : Text → HttpClient → HttpClient
set_ca_cert_path path client = record client { ca_cert_path = path }

-- An attempt: whether a handle was made, whether the callback aborted the transfer, the message of
-- any other failure, the code of the answer and the bytes that were handed to the client.
pub record Attempt : Type 0 where
  pub has_handle : Bool
  pub aborted : Bool
  pub failure : Option Text
  pub http_code : ℕ
  pub received : Text

-- What libcurl does with the settings and a URL, at each attempt of a call.
abbrev pub Curl : Type 0
Curl = HttpClient → Text → ℕ → Attempt

abbrev pub is_success_code : ℕ → Bool
is_success_code http_code = leb 200 http_code && ltb http_code 300

-- The codes after which no other attempt is made.
abbrev pub is_refusal : ℕ → Bool
is_refusal code = code == 400 || code == 404

-- The rounds of `for (attempt = 0; attempt <= retry_count_; ++attempt)`.
abbrev pub rounds_of : HttpClient → ℕ
rounds_of client = if ltb client.retry_count int_limit then suc client.retry_count else 0

-- The message of a failed `execute_request`, which is the last error then.
abbrev pub no_handle : Text
no_handle = codes "Failed to initialize CURL"

unfoldable pub execute_request : Attempt → HttpResponse
execute_request a =
    if not a.has_handle then record new_response { error = no_handle } else elim a.failure [
      | some message ↦ record new_response { body = a.received; error = message }
      | none ↦ record {
        status_code = a.http_code % int_modulus;
        body = a.received;
        error = [];
        is_success = is_success_code a.http_code;
      }
    ]

-- The last error after it: set where no answer came.
abbrev pub request_error : Text → Attempt → Text
request_error last a =
    if not a.has_handle then no_handle else elim a.failure [ some message ↦ message | none ↦ last ]

-- What a call has done so far.
pub record Done : Type 0 where
  pub response : HttpResponse
  pub last_error : Text
  pub attempts : ℕ

-- The rounds that are left of `execute_with_retry`, from the attempt `n` on.
unfoldable pub retry : (ℕ → Attempt) → ℕ → ℕ → Done → Done
unfolding execute_request
retry attempt zero n done = done
retry attempt (suc left) n done =
    let response = execute_request (attempt n) in
    let now : Done = record {
      response = response;
      last_error = request_error done.last_error (attempt n);
      attempts = suc n;
    } in
    let rest = retry attempt left (suc n) now in
    if response.is_success then now else if is_refusal response.status_code then now else rest

unfoldable pub execute_with_retry : Curl → HttpClient → Text → Done
unfolding retry
execute_with_retry curl client url =
    retry (curl client url) (rounds_of client) 0
      (record { response = new_response; last_error = client.last_error; attempts = 0 })

unfoldable pub get : Curl → HttpClient → Text → HttpClient × HttpResponse
unfolding execute_with_retry
get curl client path =
    let done = execute_with_retry curl client (client.server_url ++ path) in
    (record client { last_error = done.last_error }, done.response)

-- What a download has done so far.
pub record Transfer : Type 0 where
  pub files : Files
  pub response : HttpResponse
  pub last_error : Text
  pub attempts : ℕ

abbrev pub failed_with : Text → Transfer → Transfer
failed_with message t = record t {
  response = record t.response { error = message; is_success = false };
  last_error = message;
}

abbrev pub with_status : ℕ → Transfer → Transfer
with_status code t = record t { response = record t.response { status_code = code } }

-- The pattern of -1.
abbrev pub no_status : ℕ
no_status = int_modulus - 1

-- Whether a round ends the call (`true`) or the loop goes on.
module _ (env : Env) (can_remove : Text → Bool) (output_file : Text) where
  abbrev pub discard : Transfer → Transfer
  discard t = record t { files = removed can_remove t.files output_file }

  -- One round of the loop of `download`, once libcurl has a handle and the file is open.
  unfoldable pub receive : Attempt → Transfer → Bool × Transfer
  unfolding int_to_string
  receive a t =
      let written = record t {
        files = put t.files output_file (env.stored output_file a.received);
      } in
      if a.aborted
      then (
        true,
        with_status no_status
            (failed_with (codes "Download size limit exceeded") (discard written)),
      )
      else elim a.failure [
        | some message ↦ (false, failed_with message (discard written))
        | none ↦
            let answered = with_status (a.http_code % int_modulus) written in
            if is_success_code a.http_code
            then (
              true,
              record answered { response = record answered.response { is_success = true } },
            )
            else if is_refusal a.http_code
            then (
              true,
              failed_with (codes "HTTP error: " ++ int_to_string (a.http_code % int_modulus))
                  (discard answered),
            )
            else (false, discard answered)
      ]

  unfoldable pub round : Attempt → Transfer → Bool × Transfer
  unfolding receive
  round a t =
      if not a.has_handle
      then (false, failed_with no_handle t)
      else if not (env.can_open output_file)
      then (
        true,
        with_status no_status
            (failed_with (codes "Failed to create output file: " ++ output_file) t),
      )
      else receive a t

  -- The rounds that are left, and what follows the loop.
  unfoldable pub transfer : (ℕ → Attempt) → ℕ → ℕ → Transfer → Transfer
  unfolding round
  transfer attempt zero n t =
      if is_empty t.response.error then failed_with (codes "Max retries exceeded") t else t
  transfer attempt (suc left) n t =
      let (ends, now) = round (attempt n) t in
      let counted = record now { attempts = suc n } in
      let rest = transfer attempt left (suc n) counted in if ends then counted else rest

  unfoldable pub download : Curl → HttpClient → Text → Files → Transfer
  unfolding transfer
  download curl client path fs =
      transfer (curl client (client.server_url ++ path)) (rounds_of client) 0 (record {
        files = fs;
        response = new_response;
        last_error = client.last_error;
        attempts = 0;
      })
