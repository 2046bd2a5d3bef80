-- ===== src/Mirror/Transfers/Settled.antt =====
-- The files after a download.
use debcraft.Prelude.{
  ℕ, zero, suc, ◌+◌, ◌≡◌, ◌≢◌, ◌⊎◌, inl, inr, refl, ◌∙◌, none, [], arith, Result, ok, err,
}
use debcraft.Prelude.Text.{Text, list_text_eq}
use debcraft.Prelude.Dict.{get}
use debcraft.Mirror.Download.{Store, DownloadTask, AttemptError, other, DownloadResult, part_path}
use debcraft.Mirror.Download.Parts.{Untouched}
use debcraft.Mirror.Download.Attempt.{
  Delivered, Abandoned, Unreadable, Attempted, attempt_download-Attempted,
}
use debcraft.Mirror.Transfers.{
  Handler, extended_backoff, standard_backoff, escapes, handler_of, exhausted, World, Environment,
  retry, handle_error, end_attempt, download_loop, download_file,
}

-- Every file but the part is as it was.
abbrev Kept : DownloadTask → Store → Store → Type 0
Kept task s t = (path : Text) → path ≢ part_path task.dest_path → get t path ≡ get s path

-- A download ends with the verified file at its destination, without it after the last attempt, or by
-- an exception that escapes. Files at other paths are as they were, no part is left but by an
-- unnamed exception, and the destination changes only by success or when `os.chmod` raises.
abbrev pub Settled :
    (Text → Text) → ℕ → DownloadTask → Store → Result AttemptError DownloadResult × World → Type 0
Settled sha256 new_mode task s (ok r, w) =
    (get w.store (part_path task.dest_path) ≡ none)
    × ((Delivered sha256 task r w.store
          × Untouched (part_path task.dest_path) task.dest_path s w.store)
        ⊎ (((e : AttemptError) × (r ≡ exhausted task e)) × Kept task s w.store))
Settled sha256 new_mode task s (err e, w) =
    (handler_of e ≡ escapes)
    × (Abandoned task s e w.store ⊎ Unreadable sha256 new_mode task s e w.store)

handled-named : (e : AttemptError) (h : Handler) → handler_of e ≡ h → h ≢ escapes → e ≢ other
unfolding handler_of
handled-named e h k n q = n (cc)

Abandoned-trans :
    (task : DownloadTask) (s t u : Store) (e : AttemptError)
    → Kept task s t
    → Abandoned task t e u
    → Abandoned task s e u
Abandoned-trans task s t u e k a = (λ path n. a.0 path n ∙ k path n, a.1)

module _ (sha256 : Text → Text) (new_mode : ℕ) (env : Environment) (task : DownloadTask)
    (s : Store) where
  retry-Settled :
      (e : AttemptError) (remaining delay : ℕ) (w : World)
      (rest : World → Result AttemptError DownloadResult × World)
      → e ≢ other
      → Abandoned task s e w.store
      → ((w : World)
          → Kept task s w.store
          → (remaining ≢ 0)
          → Settled sha256 new_mode task s (rest w))
      → Settled sha256 new_mode task s (retry task e remaining delay w rest)
  unfolding retry
  retry-Settled e zero delay w rest n a k = (a.1 n, inr ((e, refl), a.0))
  retry-Settled e (suc m) delay w rest n a k = k _ a.0 (ground arith)

  handle_error-Settled :
      (attempt remaining : ℕ) (e : AttemptError) (h : Handler) (w : World)
      (rest : World → Result AttemptError DownloadResult × World)
      → handler_of e ≡ h
      → Abandoned task s e w.store
      → ((w : World)
          → Kept task s w.store
          → (remaining ≢ 0)
          → Settled sha256 new_mode task s (rest w))
      → Settled sha256 new_mode task s (handle_error env task attempt remaining e h w rest)
  unfolding handle_error
  handle_error-Settled attempt remaining e extended_backoff w rest q a k =
      retry-Settled e remaining _ w rest (handled-named e extended_backoff q (λ z. cc)) a k
  handle_error-Settled attempt remaining e standard_backoff w rest q a k =
      retry-Settled e remaining _ w rest (handled-named e standard_backoff q (λ z. cc)) a k
  handle_error-Settled attempt remaining e escapes w rest q a k = (q, inl a)

  end_attempt-Settled :
      (attempt remaining : ℕ) (w : World) (r : Result AttemptError DownloadResult × Store)
      (rest : World → Result AttemptError DownloadResult × World)
      → Kept task s w.store
      → Attempted sha256 new_mode task attempt w.store r
      → ((w : World)
          → Kept task s w.store
          → (remaining ≢ 0)
          → Settled sha256 new_mode task s (rest w))
      → Settled sha256 new_mode task s (end_attempt env task attempt remaining w r rest)
  unfolding end_attempt
  end_attempt-Settled attempt remaining w (ok r, t) rest h a k =
      (a.2, inl (a.0, λ path n m. a.3 path n m ∙ h path n))
  end_attempt-Settled attempt remaining w (err e, t) rest h (inl a) k =
      handle_error-Settled attempt remaining e (handler_of e) (record w { store = t }) rest refl
        (Abandoned-trans task s w.store t e h a) k
  end_attempt-Settled attempt remaining w (err e, t) rest h (inr (q, p, f, u)) k =
      let z : handler_of e ≡ escapes = rw q (unfold handler_of in refl) in
      rw z (unfold handle_error in (z, inr (q, p, f, λ path n m. u path n m ∙ h path n)))

  download_loop-Settled :
      (remaining attempt : ℕ) (w : World)
      → Kept task s w.store
      → Settled sha256 new_mode task s (download_loop sha256 new_mode env task remaining attempt w)
  unfolding download_loop
  download_loop-Settled zero attempt w h =
      end_attempt-Settled attempt 0 w _ _ h
        (attempt_download-Attempted sha256 new_mode task attempt (env.reply attempt) w.store)
        (λ v k n. absurd (n refl))
  download_loop-Settled (suc n) attempt w h =
      end_attempt-Settled attempt (suc n) w _ _ h
        (attempt_download-Attempted sha256 new_mode task attempt (env.reply attempt) w.store)
        (λ v k m. download_loop-Settled n (attempt + 1) v k)

  -- A download that returns leaves no part. If it succeeded, the file at its destination has the
  -- expected size and digest, as far as these are given, and mode 0644, and its result counts that
  -- file's bytes; files at other paths are as they were. If its attempts are used up, every file but
  -- the part is as it was. An exception that escapes leaves every file but the part as it was, and the
  -- part only if it is none of the program's own; or it is raised by `os.chmod`, and the verified file
  -- is at the destination, with the mode of the part, which is gone.
  pub download_file-Settled :
      Settled sha256 new_mode task s (download_file sha256 new_mode env task s)
  unfolding download_file
  download_file-Settled =
      download_loop-Settled 2 0 (record { store = s; sleeps = [] }) (λ path n. refl)
