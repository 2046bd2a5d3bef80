-- ===== src/Mirror/Download.antt =====
-- src/debcraft/infrastructure/mirror/download.py: `DownloadCoordinator`. The answers of the rate
-- limiter, the HTTP session and the file system are the environment's, one for each attempt; SHA-256
-- and the random jitter are arguments. Pauses are counted in milliseconds. Directories, log lines and
-- the deadline that the timeout sets for the session are left out.
pub mod Parts
pub mod Attempt
use debcraft.Prelude.{
  ℕ, zero, suc, ◌+◌, ◌-◌, ◌*◌, ◌/◌, ◌^◌, min, Bool, true, false, ◌&&◌, ◌||◌, not, Option, none,
  some, List, [], ◌∷◌, ◌++◌, length, if◌then◌else◌, is_empty, contains, ◌==◌, ltb, leb, Result, ok,
  err, ◌>>=◌,
}
use debcraft.Prelude.Text.{Text, codes, list_text_eq}
use debcraft.Prelude.Dict.{Dict, get, put, pop}

-- A file with its content, a list of bytes, and its mode.
pub record File : Type 0 where
  pub content : Text
  pub mode : ℕ

abbrev pub Store : Type 0
Store = Dict Text File

-- `DownloadTask`, whose last two fields are those of a `DownloadSpec` as well.
pub record DownloadTask : Type 0 where
  pub url : Text
  pub dest_path : Text
  pub expected_sha256 : Text
  pub expected_size : ℕ

-- What the session raises: an `aiohttp.ClientError`, or another exception, as by a cancellation.
pub data Failure : Type 0 where
  client_error interruption : Failure

-- How the file system takes a verified file: it does both steps, or `os.replace` or `os.chmod` raises
-- an `OSError`.
pub data Commit : Type 0 where
  committed not_replaced not_chmodded : Commit

-- How a body ends: it is read until its end, with what a commit would meet then, or breaks off.
pub data BodyEnd : Type 0 where
  ends : (commit : Commit) → BodyEnd
  breaks_off : (failure : Failure) → BodyEnd

-- What one attempt meets: `acquire` raises `RateLimitTimeoutError`, the request raises before there is
-- a response, or there is one, with its body.
pub data Reply : Type 0 where
  limiter_timeout : Reply
  no_response : (failure : Failure) → Reply
  response :
      (status : ℕ) (headers : Dict Text Text) (chunks : List Text) (body_end : BodyEnd) → Reply

-- The exceptions that leave an attempt; `other` stands for those that it does not name.
pub data AttemptError : Type 0 where
  http_rate_limit http_client http_server : (status_code : ℕ) → AttemptError
  network rate_limit_timeout other : AttemptError
  size_mismatch : (expected actual : ℕ) → AttemptError
  checksum_mismatch : (expected actual : Text) → AttemptError

pub record DownloadResult : Type 0 where
  pub url : Text
  pub success : Bool
  pub sha256_verified : Bool
  pub bytes_transferred : ℕ
  pub error : Option AttemptError
  pub retry_count : ℕ
  pub status_code : Option ℕ
  pub response_headers : Option (Dict Text Text)

abbrev pub max_attempts : ℕ
max_attempts = 3

abbrev pub part_path : Text → Text
part_path dest = dest ++ codes ".part"

-- The captured headers, `ETag` and `Last-Modified`.
abbrev pub capture : Dict Text Text → Text → Dict Text Text → Dict Text Text
capture headers name captured = elim (get headers name) [
  | none ↦ captured
  | some value ↦ put captured name value
]

unfoldable pub response_headers_of : Dict Text Text → Option (Dict Text Text)
response_headers_of headers =
    let captured = capture headers (codes "Last-Modified") (capture headers (codes "ETag") []) in
    if is_empty captured then none else some captured

-- What is written so far: the hash object's input and `bytes_written`.
pub record Written : Type 0 where
  pub hashed : Text
  pub bytes_written : ℕ

-- The exception of a status, raised before the body is read.
unfoldable pub status_error : ℕ → Option AttemptError
status_error status =
    if status == 429
    then some (http_rate_limit status)
    else if leb 400 status && ltb status 500
    then some (http_client status)
    else if leb 500 status
    then some (http_server status)
    else none

-- An operation on the file at a path, if there is one.
unfoldable pub change_file : (File → File) → Text → Option File → Store → Store
change_file change path none s = s
change_file change path (some f) s = put s path (change f)

-- `f.write(chunk)`, to the file that is open.
unfoldable pub append_file : Text → Text → Store → Store
append_file path chunk s =
    change_file (λ f. record f { content = f.content ++ chunk }) path (get s path) s

unfoldable pub write_chunks : Text → List Text → Written → Store → Written × Store
write_chunks path [] w s = (w, s)
write_chunks path (chunk ∷ chunks) w s =
    write_chunks path chunks
      (record { hashed = w.hashed ++ chunk; bytes_written = w.bytes_written + length chunk })
      (append_file path chunk s)

-- `os.replace(part_path, dest_path)`, of the file at the part's path.
unfoldable pub replace_file : Text → Text → Option File → Store → Store
replace_file source target none s = s
replace_file source target (some f) s = put (pop s source) target f

-- `os.chmod(dest_path, 0o644)`
unfoldable pub make_readable : Text → Store → Store
make_readable path s = change_file (λ f. record f { mode = 420 }) path (get s path) s

module _ (sha256 : Text → Text) (new_mode : ℕ) where
  -- The test of `_verify_download`.
  unfoldable pub verify : DownloadTask → Written → Option AttemptError
  verify task w =
      let actual = sha256 w.hashed in
      if not (task.expected_size == 0) && not (w.bytes_written == task.expected_size)
      then some (size_mismatch task.expected_size w.bytes_written)
      else if not (is_empty task.expected_sha256)
          && not (list_text_eq.same actual task.expected_sha256)
      then some (checksum_mismatch task.expected_sha256 actual)
      else none

  -- From the verification on, with its exception.
  unfoldable pub commit_file :
      DownloadTask
      → ℕ
      → Dict Text Text
      → Option AttemptError
      → Commit
      → Written
      → Store
      → Result AttemptError DownloadResult × Store
  commit_file task attempt headers (some e) c w s = (err e, pop s (part_path task.dest_path))
  commit_file task attempt headers none not_replaced w s = (err other, s)
  commit_file task attempt headers none not_chmodded w s = (
    err other,
    replace_file (part_path task.dest_path) task.dest_path (get s (part_path task.dest_path)) s,
  )
  commit_file task attempt headers none committed w s = (
    ok (record {
      url = task.url;
      success = true;
      sha256_verified = true;
      bytes_transferred = w.bytes_written;
      error = none;
      retry_count = attempt;
      status_code = none;
      response_headers = response_headers_of headers;
    }),
    make_readable task.dest_path (
        replace_file (part_path task.dest_path) task.dest_path (get s (part_path task.dest_path))
          s),
  )

  -- The `except` clauses: a client error becomes a network error and clears the part.
  unfoldable pub fail_request :
      DownloadTask → Failure → Store → Result AttemptError DownloadResult × Store
  fail_request task client_error s = (err network, pop s (part_path task.dest_path))
  fail_request task interruption s = (err other, s)

  unfoldable pub end_body :
      DownloadTask
      → ℕ
      → Dict Text Text
      → BodyEnd
      → Written
      → Store
      → Result AttemptError DownloadResult × Store
  end_body task attempt headers (ends c) w s =
      commit_file task attempt headers (verify task w) c w s
  end_body task attempt headers (breaks_off failure) w s = fail_request task failure s

  -- The body of the response, unless its status raises.
  unfoldable pub read_body :
      DownloadTask
      → ℕ
      → Dict Text Text
      → List Text
      → BodyEnd
      → Option AttemptError
      → Store
      → Result AttemptError DownloadResult × Store
  read_body task attempt headers chunks body_end (some e) s =
      (err e, pop s (part_path task.dest_path))
  read_body task attempt headers chunks body_end none s =
      let opened = put s (part_path task.dest_path) (record { content = []; mode = new_mode }) in
      let written =
        write_chunks (part_path task.dest_path) chunks (record { hashed = []; bytes_written = 0 })
          opened in
      end_body task attempt headers body_end written.0 written.1

  unfoldable pub receive :
      DownloadTask → ℕ → Reply → Store → Result AttemptError DownloadResult × Store
  receive task attempt limiter_timeout s = (err rate_limit_timeout, s)
  receive task attempt (no_response failure) s = fail_request task failure s
  receive task attempt (response status headers chunks body_end) s =
      read_body task attempt headers chunks body_end (status_error status) s

  -- `_attempt_download`
  unfoldable pub attempt_download :
      DownloadTask → ℕ → Reply → Store → Result AttemptError DownloadResult × Store
  attempt_download task attempt reply s =
      receive task attempt reply (pop s (part_path task.dest_path))
