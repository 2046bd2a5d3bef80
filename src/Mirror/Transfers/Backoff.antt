-- ===== src/Mirror/Transfers/Backoff.antt =====
-- How long the retries of a download pause.
use debcraft.Prelude.{
  ℕ, zero, suc, ◌+◌, ◌*◌, ◌/◌, ◌^◌, ◌≤◌, ◌≡◌, refl, min, List, [], ◌∷◌, ◌++◌, ap, arith, length,
  length-append, Result, ok, err,
}
use debcraft.Prelude.Text.{Text}
use debcraft.Mirror.Download.{Store, DownloadTask, AttemptError, DownloadResult}
use debcraft.Mirror.Download.Attempt.{Attempted, attempt_download-Attempted}
use debcraft.Mirror.Transfers.{
  Handler, extended_backoff, standard_backoff, escapes, handler_of, exhausted, World, Environment,
  compute_backoff_delay, retry, handle_error, end_attempt, download_loop, download_file,
}

-- `random.uniform(0, bound)` is at most the bound.
abbrev pub IsUniform : Environment → Type 0
IsUniform env = (attempt bound : ℕ) → env.uniform attempt bound ≤ bound

min-le : (a b : ℕ) → (min a b ≤ a) × (min a b ≤ b)
min-le a b = ground arith

-- A pause is at least the doubled base, up to the maximum, at most that and its share of jitter, and
-- never more than the maximum.
pub compute_backoff_delay-Bounded :
    (env : Environment) (attempt base maximum divisor : ℕ)
    → IsUniform env
    → let delay = compute_backoff_delay env attempt base maximum divisor in
      let doubled = min (base * 2 ^ attempt) maximum in
      (doubled ≤ delay) × (delay ≤ maximum) × (delay ≤ doubled + doubled / divisor)
unfolding compute_backoff_delay
compute_backoff_delay-Bounded env attempt base maximum divisor u =
    let d = min (base * 2 ^ attempt) maximum in
    omega (arith, u attempt (d / divisor), min-le (base * 2 ^ attempt) maximum)

abbrev pub sum : List ℕ → ℕ
sum [] = 0
sum (n ∷ ns) = n + sum ns

-- The most that the pauses after the attempts from `attempt` on can last.
abbrev pub budget : (remaining attempt : ℕ) → ℕ
budget zero attempt = 0
budget (suc n) attempt = 7500 * 2 ^ attempt + budget n (attempt + 1)

-- The pauses made on top of those before: one for each retry, and within the budget.
abbrev Paced : (remaining attempt : ℕ) → World → Result AttemptError DownloadResult × World → Type 0
Paced remaining attempt w (ok r, v) =
    (attempt + length v.sleeps ≡ r.retry_count + length w.sleeps)
    × (r.retry_count ≤ attempt + remaining)
    × (sum v.sleeps ≤ sum w.sleeps + budget remaining attempt)
Paced remaining attempt w (err e, v) =
    (length v.sleeps ≤ length w.sleeps + remaining)
    × (sum v.sleeps ≤ sum w.sleeps + budget remaining attempt)

sum-append : (ns : List ℕ) (n : ℕ) → sum (ns ++ n ∷ []) ≡ sum ns + n
sum-append [] n = omega arith
sum-append (m ∷ ns) n = omega (arith, sum-append ns n)

-- A pause more, before the attempts after it.
abbrev slept : World → ℕ → World
slept w delay = record w { sleeps = w.sleeps ++ delay ∷ [] }

Paced-suc :
    (n attempt delay : ℕ) (w v : World) (r : Result AttemptError DownloadResult × World)
    → v.sleeps ≡ w.sleeps ++ delay ∷ []
    → delay ≤ 7500 * 2 ^ attempt
    → Paced n (attempt + 1) v r
    → Paced (suc n) attempt w r
Paced-suc n attempt delay w v (ok r, u) e d p =
    let s : sum v.sleeps ≡ sum w.sleeps + delay = rw e (sum-append w.sleeps delay) in
    let l : length v.sleeps ≡ length w.sleeps + 1 = rw e (length-append w.sleeps (delay ∷ [])) in
    (omega (arith, p.0, l), omega (arith, p.1), omega (arith, p.2, s, d))
Paced-suc n attempt delay w v (err x, u) e d p =
    let s : sum v.sleeps ≡ sum w.sleeps + delay = rw e (sum-append w.sleeps delay) in
    let l : length v.sleeps ≡ length w.sleeps + 1 = rw e (length-append w.sleeps (delay ∷ [])) in
    (omega (arith, p.0, l), omega (arith, p.1, s, d))

retried-Paced :
    (attempt remaining : ℕ) (w v : World) (r : DownloadResult)
    → v.sleeps ≡ w.sleeps
    → r.retry_count ≡ attempt
    → Paced remaining attempt w (ok r, v)
retried-Paced attempt remaining w v r e q = rw e (omega (arith, q), omega (arith, q), omega arith)

module _ (sha256 : Text → Text) (new_mode : ℕ) (env : Environment) (task : DownloadTask)
    (u : IsUniform env) where
  extended-le : (attempt : ℕ) → compute_backoff_delay env attempt 5000 60000 2 ≤ 7500 * 2 ^ attempt
  extended-le attempt =
      let b = compute_backoff_delay-Bounded env attempt 5000 60000 2 u in
      omega (arith, b.2, min-le (5000 * 2 ^ attempt) 60000)

  standard-le : (attempt : ℕ) → compute_backoff_delay env attempt 1000 30000 4 ≤ 7500 * 2 ^ attempt
  standard-le attempt =
      let b = compute_backoff_delay-Bounded env attempt 1000 30000 4 u in
      omega (arith, b.2, min-le (1000 * 2 ^ attempt) 30000)

  retry-Paced :
      (e : AttemptError) (attempt remaining delay : ℕ) (w v : World)
      (rest : World → Result AttemptError DownloadResult × World)
      → v.sleeps ≡ w.sleeps
      → attempt + remaining ≡ 2
      → delay ≤ 7500 * 2 ^ attempt
      → ((n : ℕ) → remaining ≡ suc n → (x : World) → Paced n (attempt + 1) x (rest x))
      → Paced remaining attempt w (retry task e remaining delay v rest)
  unfolding retry exhausted
  retry-Paced e attempt zero delay w v rest s l d k =
      retried-Paced attempt 0 w v (exhausted task e) s (omega (arith, l))
  retry-Paced e attempt (suc n) delay w v rest s l d k =
      Paced-suc n attempt delay w (slept v delay) _ (ap (λ ns. ns ++ delay ∷ []) s) d
        (k n refl (slept v delay))

  handle_error-Paced :
      (e : AttemptError) (h : Handler) (attempt remaining : ℕ) (w v : World)
      (rest : World → Result AttemptError DownloadResult × World)
      → v.sleeps ≡ w.sleeps
      → attempt + remaining ≡ 2
      → ((n : ℕ) → remaining ≡ suc n → (x : World) → Paced n (attempt + 1) x (rest x))
      → Paced remaining attempt w (handle_error env task attempt remaining e h v rest)
  unfolding handle_error
  handle_error-Paced e extended_backoff attempt remaining w v rest s l k =
      retry-Paced e attempt remaining _ w v rest s l (extended-le attempt) k
  handle_error-Paced e standard_backoff attempt remaining w v rest s l k =
      retry-Paced e attempt remaining _ w v rest s l (standard-le attempt) k
  handle_error-Paced e escapes attempt remaining w v rest s l k = rw s (omega arith, omega arith)

  end_attempt-Paced :
      (attempt remaining : ℕ) (w : World) (r : Result AttemptError DownloadResult × Store)
      (rest : World → Result AttemptError DownloadResult × World)
      → attempt + remaining ≡ 2
      → Attempted sha256 new_mode task attempt w.store r
      → ((n : ℕ) → remaining ≡ suc n → (x : World) → Paced n (attempt + 1) x (rest x))
      → Paced remaining attempt w (end_attempt env task attempt remaining w r rest)
  unfolding end_attempt
  end_attempt-Paced attempt remaining w (ok r, t) rest l a k =
      retried-Paced attempt remaining w (record w { store = t }) r refl a.1
  end_attempt-Paced attempt remaining w (err e, t) rest l a k =
      handle_error-Paced e (handler_of e) attempt remaining w (record w { store = t }) rest refl l k

  download_loop-Paced :
      (remaining attempt : ℕ) (w : World)
      → attempt + remaining ≡ 2
      → Paced remaining attempt w (download_loop sha256 new_mode env task remaining attempt w)
  unfolding download_loop
  download_loop-Paced zero attempt w l =
      end_attempt-Paced attempt 0 w _ _ l
        (attempt_download-Attempted sha256 new_mode task attempt (env.reply attempt) w.store)
        (λ n q x. absurd (omega (arith, q)))
  download_loop-Paced (suc n) attempt w l =
      end_attempt-Paced attempt (suc n) w _ _ l
        (attempt_download-Attempted sha256 new_mode task attempt (env.reply attempt) w.store)
        (λ m q x.
          let e : m ≡ n = omega (arith, q) in
          rw e (download_loop-Paced n (attempt + 1) x (omega (arith, l))))

-- The pauses of a download.
abbrev pub pauses : Result AttemptError DownloadResult × World → List ℕ
pauses r = (r.1).sleeps

-- A download pauses at most twice, for at most 22.5 seconds in all; if it returns, it paused once for
-- each retry that its result counts.
pub download_file-Paced :
    (sha256 : Text → Text) (new_mode : ℕ) (env : Environment) (task : DownloadTask) (s : Store)
    → IsUniform env
    → let r = download_file sha256 new_mode env task s in
      (length (pauses r) ≤ 2)
      × (sum (pauses r) ≤ 22500)
      × ((d : DownloadResult) → r.0 ≡ ok d → d.retry_count ≡ length (pauses r))
unfolding download_file
download_file-Paced sha256 new_mode env task s u =
    read_Paced _
      (download_loop-Paced sha256 new_mode env task u 2 0 (record { store = s; sleeps = [] }) refl)
  where
    read_Paced :
        (r : Result AttemptError DownloadResult × World)
        → Paced 2 0 (record { store = s; sleeps = [] }) r
        → (length (pauses r) ≤ 2)
          × (sum (pauses r) ≤ 22500)
          × ((d : DownloadResult) → r.0 ≡ ok d → d.retry_count ≡ length (pauses r))
    read_Paced (ok d, w) p =
        (omega (arith, p.0, p.1), omega (arith, p.2), λ x e. ground (arith, p.0))
    read_Paced (err e, w) p = (omega (arith, p.0), omega (arith, p.1), λ x q. cc)
