-- ===== src/Mirror/Transfers.antt =====
-- src/debcraft/infrastructure/mirror/download.py: `download_file` and its retries, `download_batch`,
-- `check_conditional` and the backoff, of a coordinator that is started.
pub mod Backoff
pub mod Settled
pub mod Transient
pub mod Retry
use debcraft.Prelude.{
  ℕ, zero, suc, ◌+◌, ◌-◌, ◌*◌, ◌/◌, ◌^◌, min, Bool, true, false, Option, none, some, List, [], ◌∷◌,
  ◌++◌, if◌then◌else◌, ◌==◌, ltb, Result, ok, err,
}
use debcraft.Prelude.Text.{Text}
use debcraft.Mirror.Download.{
  Store, DownloadTask, Failure, client_error, interruption, Reply, limiter_timeout, no_response,
  response, AttemptError, http_rate_limit, http_client, http_server, network, rate_limit_timeout,
  other, size_mismatch, checksum_mismatch, DownloadResult, max_attempts, attempt_download,
}

-- Which `except` clause of `download_file` takes an exception; `escapes` is none.
pub data Handler : Type 0 where
  extended_backoff standard_backoff escapes : Handler

unfoldable pub handler_of : AttemptError → Handler
handler_of (http_rate_limit status_code) = extended_backoff
handler_of (http_client status_code) = escapes
handler_of (http_server status_code) = standard_backoff
handler_of network = standard_backoff
handler_of rate_limit_timeout = escapes
handler_of other = escapes
handler_of (size_mismatch expected actual) = standard_backoff
handler_of (checksum_mismatch expected actual) = standard_backoff

-- `getattr(last_error, "status_code", None)`
unfoldable pub status_code_of : AttemptError → Option ℕ
status_code_of (http_rate_limit status_code) = some status_code
status_code_of (http_client status_code) = some status_code
status_code_of (http_server status_code) = some status_code
status_code_of network = none
status_code_of rate_limit_timeout = none
status_code_of other = none
status_code_of (size_mismatch expected actual) = none
status_code_of (checksum_mismatch expected actual) = none

-- The result after the last attempt, whose error is the last one.
unfoldable pub exhausted : DownloadTask → AttemptError → DownloadResult
exhausted task e = record {
  url = task.url;
  success = false;
  sha256_verified = false;
  bytes_transferred = 0;
  error = some e;
  retry_count = max_attempts - 1;
  status_code = status_code_of e;
  response_headers = none;
}

-- The files, and the pauses made.
pub record World : Type 0 where
  pub store : Store
  pub sleeps : List ℕ

-- The answers that `download_file` meets at each attempt, `random.uniform(0, bound)` among them.
pub record Environment : Type 0 where
  pub reply : ℕ → Reply
  pub uniform : (attempt bound : ℕ) → ℕ

-- `_compute_backoff_delay`; the jitter factor is one over `divisor`.
unfoldable pub compute_backoff_delay : Environment → (attempt base maximum divisor : ℕ) → ℕ
compute_backoff_delay env attempt base maximum divisor =
    let delay = min (base * 2 ^ attempt) maximum in
    min (delay + env.uniform attempt (delay / divisor)) maximum

-- The next attempt after a pause, if there is one left.
unfoldable pub retry :
    DownloadTask
    → AttemptError
    → (remaining delay : ℕ) → World
    → (World → Result AttemptError DownloadResult × World)
    → Result AttemptError DownloadResult × World
retry task e zero delay w rest = (ok (exhausted task e), w)
retry task e (suc n) delay w rest = rest (record w { sleeps = w.sleeps ++ delay ∷ [] })

-- The handlers of `download_file` for the error of an attempt, with the number of attempts left.
unfoldable pub handle_error :
    Environment
    → DownloadTask
    → (attempt remaining : ℕ) → AttemptError
    → Handler
    → World
    → (World → Result AttemptError DownloadResult × World)
    → Result AttemptError DownloadResult × World
handle_error env task attempt remaining e extended_backoff w rest =
    retry task e remaining (compute_backoff_delay env attempt 5000 60000 2) w rest
handle_error env task attempt remaining e standard_backoff w rest =
    retry task e remaining (compute_backoff_delay env attempt 1000 30000 4) w rest
handle_error env task attempt remaining e escapes w rest = (err e, w)

-- The end of an attempt: its result is returned, its error is handled.
unfoldable pub end_attempt :
    Environment
    → DownloadTask
    → (attempt remaining : ℕ) → World
    → Result AttemptError DownloadResult × Store
    → (World → Result AttemptError DownloadResult × World)
    → Result AttemptError DownloadResult × World
end_attempt env task attempt remaining w (ok r, s) rest = (ok r, record w { store = s })
end_attempt env task attempt remaining w (err e, s) rest =
    handle_error env task attempt remaining e (handler_of e) (record w { store = s }) rest

module _ (sha256 : Text → Text) (new_mode : ℕ) where
  -- `for attempt in range(_MAX_ATTEMPTS)`, with the number of attempts left after this one.
  unfoldable pub download_loop :
      Environment
      → DownloadTask
      → (remaining attempt : ℕ) → World
      → Result AttemptError DownloadResult × World
  download_loop env task zero attempt w =
      end_attempt env task attempt 0 w
        (attempt_download sha256 new_mode task attempt (env.reply attempt) w.store)
        (λ w. (err other, w))
  download_loop env task (suc n) attempt w =
      end_attempt env task attempt (suc n) w
        (attempt_download sha256 new_mode task attempt (env.reply attempt) w.store)
        (download_loop env task n (attempt + 1))

  unfoldable pub download_file :
      Environment → DownloadTask → Store → Result AttemptError DownloadResult × World
  download_file env task s =
      download_loop env task (max_attempts - 1) 0 (record { store = s; sleeps = [] })

  -- The handler of `_download_with_semaphore`.
  unfoldable pub catch_client_error :
      DownloadTask
      → Result AttemptError DownloadResult × World
      → Result AttemptError DownloadResult × World
  catch_client_error task (ok r, w) = (ok r, w)
  catch_client_error task (err (http_client status_code), w) = (
    ok (record {
      url = task.url;
      success = false;
      sha256_verified = false;
      bytes_transferred = 0;
      error = some (http_client status_code);
      retry_count = 0;
      status_code = none;
      response_headers = none;
    }),
    w,
  )
  catch_client_error task (err e, w) = (err e, w)

  -- `download_batch` with `max_concurrent` of one: each task after the one before it, until an exception
  -- that the group raises. The environment answers for each task.
  unfoldable pub download_batch :
      (ℕ → Environment)
      → ℕ
      → List DownloadTask
      → Store
      → Result AttemptError (List DownloadResult) × Store
  download_batch envs i [] s = (ok [], s)
  download_batch envs i (task ∷ tasks) s =
      let done = catch_client_error task (download_file (envs i) task s) in
      let rest = download_batch envs (i + 1) tasks (done.1).store in
      elim done.0 [
        | err e ↦ (err e, (done.1).store)
        | ok r ↦ elim rest.0 [ err e ↦ (err e, rest.1) | ok rs ↦ (ok (r ∷ rs), rest.1) ]
      ]

-- What `check_conditional` tells of the answer to its request, `none` for `aiohttp.ClientError`.
unfoldable pub check_conditional : Option ℕ → Bool
check_conditional none = false
check_conditional (some status) = status == 304
