-- ===== src/Mirror/Transfers/Transient.antt =====
-- Which answers an attempt fails or succeeds on.
use debcraft.Prelude.{
  ℕ, ◌≡◌, ◌≢◌, ◌≤◌, ◌<◌, ◌⊎◌, inl, inr, refl, ◌∙◌, Bool, true, false, Option, none, some, List, [],
  length, arith, is_empty, not, ◌&&◌, ◌==◌, Result, ok, err,
}
use debcraft.Prelude.Text.{Text, list_text_eq, text_eq_refl}
use debcraft.Prelude.Dict.{Dict, get, put, pop, get-put}
use debcraft.Mirror.Download.{
  File, Store, DownloadTask, Commit, committed, BodyEnd, ends, breaks_off, client_error, Reply,
  no_response, response, AttemptError, http_rate_limit, http_server, network, DownloadResult,
  part_path, status_error, Written, write_chunks, verify, commit_file, fail_request, end_body,
  read_body, receive, attempt_download,
}
use debcraft.Mirror.Download.Parts.{joined, Open, write_chunks-Open, write_chunks-hashed}
use debcraft.Mirror.Download.Attempt.{
  IsVerified, make_readable-replace_file, get-committed, verify-none,
}
use debcraft.Mirror.Transfers.{standard_backoff, escapes, handler_of}

module _ (sha256 : Text → Text) (task : DownloadTask) where
  -- Answers after which another attempt is worth while.
  pub data Transient : Reply → Type 0 where
    unreachable : Transient (no_response client_error)
    throttled :
        (headers : Dict Text Text) (chunks : List Text) (body_end : BodyEnd)
        → Transient (response 429 headers chunks body_end)
    unavailable :
        (status : ℕ) (headers : Dict Text Text) (chunks : List Text) (body_end : BodyEnd)
        → 500 ≤ status
        → Transient (response status headers chunks body_end)
    broken :
        (status : ℕ) (headers : Dict Text Text) (chunks : List Text)
        → status < 400
        → Transient (response status headers chunks (breaks_off client_error))
    corrupt :
        (status : ℕ) (headers : Dict Text Text) (chunks : List Text) (commit : Commit)
        → status < 400
        → ¬ IsVerified sha256 task (joined chunks)
        → Transient (response status headers chunks (ends commit))

  -- An answer with the expected file.
  pub record Sound (chunks : List Text) (reply : Reply) : Type 0 where
    pub status : ℕ
    pub headers : Dict Text Text
    pub is_response : reply ≡ response status headers chunks (ends committed)
    pub accepted : status < 400
    pub verified : IsVerified sha256 task (joined chunks)

status_error-ok : (status : ℕ) → status < 400 → status_error status ≡ none
unfolding status_error
status_error-ok status h = ground arith

status_error-server : (status : ℕ) → 500 ≤ status → status_error status ≡ some (http_server status)
unfolding status_error
status_error-server status h = ground arith

status_error-throttled : status_error 429 ≡ some (http_rate_limit 429)
unfolding status_error
status_error-throttled = refl

size_test :
    (expected actual : ℕ)
    → (expected ≡ 0) ⊎ (actual ≡ expected)
    → (not (expected == 0) && not (actual == expected)) ≡ false
size_test expected actual h = ground arith

and_false : (b : Bool) → (b && false) ≡ false
and_false true = refl
and_false false = refl

digest_test :
    (actual expected : Text)
    → (expected ≡ []) ⊎ (actual ≡ expected)
    → (not (is_empty expected) && not (list_text_eq.same actual expected)) ≡ false
digest_test actual expected (inl h) = rw h refl
digest_test actual expected (inr h) =
    rw h (rw (text_eq_refl expected) (and_false (not (is_empty expected))))

module _ (sha256 : Text → Text) (new_mode : ℕ) (task : DownloadTask) where
  -- The attempt raises an exception that `download_file` handles.
  abbrev pub Fails : Result AttemptError DownloadResult × Store → Type 0
  Fails r = (e : AttemptError) × (t : Store) × (r ≡ (err e, t)) × (handler_of e ≢ escapes)

  verify-error :
      (w : Written) (e : AttemptError)
      → verify sha256 new_mode task w ≡ some e
      → handler_of e ≡ standard_backoff
  unfolding verify handler_of
  verify-error w e h = ground (arith, h)

  verify-ok :
      (w : Written)
      → w.bytes_written ≡ length w.hashed
      → IsVerified sha256 task w.hashed
      → verify sha256 new_mode task w ≡ none
  unfolding verify
  verify-ok w c v = simp (
    size_test task.expected_size w.bytes_written (ground (arith, c, v.0)),
    digest_test (sha256 w.hashed) task.expected_sha256 v.1,
  )

  commit_file-Fails :
      (attempt : ℕ) (headers : Dict Text Text) (v : Option AttemptError) (c : Commit) (w : Written)
      (s : Store)
      → verify sha256 new_mode task w ≡ v
      → w.bytes_written ≡ length w.hashed
      → ¬ IsVerified sha256 task w.hashed
      → Fails (commit_file sha256 new_mode task attempt headers v c w s)
  unfolding commit_file
  commit_file-Fails attempt headers none commit w s q c n =
      absurd (n (verify-none sha256 new_mode task w q c))
  commit_file-Fails attempt headers (some e) commit w s q c n =
      (e, _, refl, λ z. cc (verify-error w e q, z))

  -- The part is open, and its content is the body so far.
  write_chunks-opened :
      (chunks : List Text) (s : Store)
      → let r =
          write_chunks
            (part_path task.dest_path)
            chunks
            (record { hashed = []; bytes_written = 0 })
            (put s (part_path task.dest_path) (record { content = []; mode = new_mode })) in
        Open (part_path task.dest_path) new_mode r.1 r.0 × ((r.0).hashed ≡ joined chunks)
  write_chunks-opened chunks s =
      let part = part_path task.dest_path in
      let empty : File = record { content = []; mode = new_mode } in
      let w : Written = record { hashed = []; bytes_written = 0 } in
      (
        write_chunks-Open part new_mode chunks w (put s part empty) (record {
          file = get-put s part part empty ∙ rw (text_eq_refl part) refl;
          counted = refl;
        }),
        write_chunks-hashed part chunks w (put s part empty),
      )

  end_body-Fails :
      (attempt : ℕ) (headers : Dict Text Text) (commit : Commit) (w : Written) (s : Store)
      → w.bytes_written ≡ length w.hashed
      → ¬ IsVerified sha256 task w.hashed
      → Fails (end_body sha256 new_mode task attempt headers (ends commit) w s)
  unfolding end_body
  end_body-Fails attempt headers commit w s c n =
      commit_file-Fails attempt headers _ commit w s refl c n

  pub attempt_download-Fails :
      (attempt : ℕ) (reply : Reply) (s : Store)
      → Transient sha256 task reply
      → Fails (attempt_download sha256 new_mode task attempt reply s)
  unfolding attempt_download receive fail_request read_body end_body handler_of
  attempt_download-Fails attempt reply s unreachable = (network, _, refl, λ z. cc)
  attempt_download-Fails attempt reply s (throttled headers chunks body_end) =
      rw status_error-throttled (http_rate_limit 429, _, refl, λ z. cc)
  attempt_download-Fails attempt reply s (unavailable status headers chunks body_end h) =
      rw (status_error-server status h) (http_server status, _, refl, λ z. cc)
  attempt_download-Fails attempt reply s (broken status headers chunks h) =
      rw (status_error-ok status h) (network, _, refl, λ z. cc)
  attempt_download-Fails attempt reply s (corrupt status headers chunks commit h n) =
      let o = write_chunks-opened chunks (pop s (part_path task.dest_path)) in
      rw (status_error-ok status h)
        (commit_file-Fails attempt headers _ commit _ _ refl (o.0).counted (λ v. n (rw o.1 at v)))

  -- The attempt returns, with this content at the destination.
  abbrev pub Stores : ℕ → Text → Result AttemptError DownloadResult × Store → Type 0
  Stores attempt content r =
      (d : DownloadResult) × (t : Store) × (r ≡ (ok d, t))
      × (d.success ≡ true)
      × (d.retry_count ≡ attempt)
      × (get t task.dest_path ≡ some (record { content = content; mode = 420 }))

  commit_file-Stores :
      (attempt : ℕ) (headers : Dict Text Text) (w : Written) (s : Store)
      → Open (part_path task.dest_path) new_mode s w
      → Stores attempt w.hashed
          (commit_file sha256 new_mode task attempt headers none committed w s)
  unfolding commit_file
  commit_file-Stores attempt headers w s o =
      let part = part_path task.dest_path in
      let dest = task.dest_path in
      let f : File = record { content = w.hashed; mode = new_mode } in
      (
        _,
        _,
        refl,
        refl,
        refl,
        rw (make_readable-replace_file part dest f s o.file)
            (get-committed part dest f s dest ∙ rw (text_eq_refl dest) refl),
      )

  pub attempt_download-Stores :
      (attempt : ℕ) (chunks : List Text) (reply : Reply) (s : Store)
      → Sound sha256 task chunks reply
      → Stores attempt (joined chunks) (attempt_download sha256 new_mode task attempt reply s)
  unfolding attempt_download receive read_body end_body
  attempt_download-Stores attempt chunks reply s g =
      let o = write_chunks-opened chunks (pop s (part_path task.dest_path)) in
      let v = verify-ok _ (o.0).counted (rw o.1 g.verified) in
      rw (g.is_response, status_error-ok g.status g.accepted, v, ← o.1)
        (commit_file-Stores attempt g.headers _ _ o.0)
