-- ===== src/Mirror/Transfers/Retry.antt =====
-- Which answers a download survives.
use debcraft.Prelude.{
  ℕ, zero, suc, ◌+◌, ◌≡◌, ◌≢◌, ◌≤◌, ◌<◌, refl, true, some, List, [], arith, Result, ok,
}
use debcraft.Prelude.Text.{Text, list_text_eq}
use debcraft.Prelude.Dict.{get}
use debcraft.Mirror.Download.{Store, DownloadTask, AttemptError, DownloadResult, max_attempts}
use debcraft.Mirror.Download.Parts.{joined}
use debcraft.Mirror.Transfers.{
  Handler, extended_backoff, standard_backoff, escapes, handler_of, World, Environment, retry,
  handle_error, end_attempt, download_loop, download_file,
}
use debcraft.Mirror.Transfers.Transient.{
  Transient, Sound, Fails, attempt_download-Fails, Stores, attempt_download-Stores,
}

module _ (sha256 : Text → Text) (new_mode : ℕ) (env : Environment) (task : DownloadTask)
    (chunks : List Text) where
  -- The download returns after this many retries, with the chunks at the destination.
  abbrev pub Succeeds : ℕ → Result AttemptError DownloadResult × World → Type 0
  Succeeds retries r =
      (d : DownloadResult) × (v : World) × (r ≡ (ok d, v))
      × (d.success ≡ true)
      × (d.retry_count ≡ retries)
      × (get v.store task.dest_path ≡ some (record { content = joined chunks; mode = 420 }))

  end_attempt-Succeeds :
      (attempt remaining : ℕ) (w : World) (r : Result AttemptError DownloadResult × Store)
      (rest : World → Result AttemptError DownloadResult × World)
      → Stores sha256 new_mode task attempt (joined chunks) r
      → Succeeds attempt (end_attempt env task attempt remaining w r rest)
  unfolding end_attempt
  end_attempt-Succeeds attempt remaining w r rest (d, t, e, h, q, g) =
      rw e (d, record w { store = t }, refl, h, q, g)

  retry-goes_on :
      (e : AttemptError) (h : Handler) (attempt n : ℕ) (w : World)
      (rest : World → Result AttemptError DownloadResult × World) (retries : ℕ)
      → h ≢ escapes
      → ((v : World) → Succeeds retries (rest v))
      → Succeeds retries (handle_error env task attempt (suc n) e h w rest)
  unfolding handle_error retry
  retry-goes_on e extended_backoff attempt n w rest retries h k = k _
  retry-goes_on e standard_backoff attempt n w rest retries h k = k _
  retry-goes_on e escapes attempt n w rest retries h k = absurd (h refl)

  end_attempt-goes_on :
      (attempt n : ℕ) (w : World) (r : Result AttemptError DownloadResult × Store)
      (rest : World → Result AttemptError DownloadResult × World) (retries : ℕ)
      → Fails sha256 new_mode task r
      → ((v : World) → Succeeds retries (rest v))
      → Succeeds retries (end_attempt env task attempt (suc n) w r rest)
  unfolding end_attempt
  end_attempt-goes_on attempt n w r rest retries (e, t, q, h) k =
      rw q (retry-goes_on e (handler_of e) attempt n (record w { store = t }) rest retries h k)

  download_loop-Succeeds :
      (k n attempt : ℕ) (w : World)
      → k ≤ n
      → ((j : ℕ) → j < k → Transient sha256 task (env.reply (attempt + j)))
      → Sound sha256 task chunks (env.reply (attempt + k))
      → Succeeds (attempt + k) (download_loop sha256 new_mode env task n attempt w)
  unfolding download_loop
  download_loop-Succeeds zero zero attempt w l h g =
      let e : attempt + 0 ≡ attempt = omega arith in
      rw e (
        end_attempt-Succeeds attempt 0 w _ _ (
          attempt_download-Stores sha256 new_mode task attempt chunks (env.reply attempt) w.store
            (rw e at g)))
  download_loop-Succeeds zero (suc n) attempt w l h g =
      let e : attempt + 0 ≡ attempt = omega arith in
      rw e (
        end_attempt-Succeeds attempt (suc n) w _ _ (
          attempt_download-Stores sha256 new_mode task attempt chunks (env.reply attempt) w.store
            (rw e at g)))
  download_loop-Succeeds (suc k) zero attempt w l h g = absurd (omega (arith, l))
  download_loop-Succeeds (suc k) (suc n) attempt w l h g =
      let e : attempt + 0 ≡ attempt = omega arith in
      let e1 : attempt + suc k ≡ attempt + 1 + k = omega arith in
      let first = h 0 (omega arith) in
      end_attempt-goes_on attempt n w _ _ (attempt + suc k)
        (attempt_download-Fails sha256 new_mode task attempt (env.reply attempt) w.store
          (rw e at first))
        (λ v. rw e1 (
          download_loop-Succeeds k n (attempt + 1) v (omega (arith, l))
            (λ j m.
              let e2 : attempt + suc j ≡ attempt + 1 + j = omega arith in
              rw e2 at (h (suc j) (omega (arith, m))))
            (rw e1 at g)))

  -- If one of the first three answers has the expected file, and the ones before it are failed
  -- connections, the statuses 429 and 500 on, bodies that break off, or files that are not the expected
  -- one, the download succeeds after one retry for each of these, with the file at its destination.
  pub download_file-Succeeds :
      (k : ℕ) (s : Store)
      → k < max_attempts
      → ((j : ℕ) → j < k → Transient sha256 task (env.reply j))
      → Sound sha256 task chunks (env.reply k)
      → Succeeds k (download_file sha256 new_mode env task s)
  unfolding download_file
  download_file-Succeeds k s l h g =
      let z : (j : ℕ) → 0 + j ≡ j = λ j. omega arith in
      let p =
        download_loop-Succeeds k 2 0 (record { store = s; sleeps = [] }) (omega (arith, l))
          (λ j m. rw (z j) (h j m)) (rw (z k) g) in
      rw (z k) at p
