-- ===== src/Mirror/RateLimiter.antt =====
-- The token bucket that throttles requests: src/debcraft/infrastructure/mirror/rate_limiter.py.
--
-- Times are counted in ticks of the monotonic clock, and tokens in the ticks that replenish them:
-- with `period` for `1.0 / rate`, the source's `_tokens` is `tokens / period`. The arithmetic is
-- exact, where the source rounds floats.
pub mod Throttle
pub mod Waiting
pub mod Alone
pub mod Waiters
use debcraft.Prelude.{
  ℕ, ◌+◌, ◌-◌, ◌*◌, min, Bool, true, false, List, [], ◌∷◌, ◌++◌, ltb, leb, if◌then◌else◌, ◌==◌,
}

pub record Limiter : Type 0 where
  pub tokens : ℕ
  pub max_tokens : ℕ
  pub period : ℕ
  pub last_replenish : ℕ
  pub waiters : List ℕ

-- The constructor at the clock's reading `now`.
unfoldable pub create : ℕ → ℕ → ℕ → Limiter
create period burst_size now = record {
  tokens = burst_size * period;
  max_tokens = burst_size;
  period = period;
  last_replenish = now;
  waiters = [];
}

unfoldable pub replenish : Limiter → ℕ → Limiter
replenish l now =
    let elapsed = now - l.last_replenish in
    if ltb l.last_replenish now
    then record l {
      tokens = min (l.tokens + elapsed) (l.max_tokens * l.period);
      last_replenish = now;
    }
    else l

-- What the loop does while it holds the lock: `true` for a token taken.
unfoldable pub take_token : Limiter → ℕ → Limiter × Bool
take_token l now =
    let full = replenish l now in
    if leb full.period full.tokens
    then (record full { tokens = full.tokens - full.period }, true)
    else (full, false)

-- What another task does to the list of waiters: it enters with its future, it leaves with it, or it
-- calls `cancel_waiters`.
pub data Change : Type 0 where
  enters leaves : (future : ℕ) → Change
  cancels : Change

-- A round of a waiting task: the readings of the clock under the lock, before the sleep and after
-- it, and before the round the readings at which other tasks held the lock, with what they did to the
-- list of waiters. The lock is never held across an `await`, so only the sleep can be interrupted.
pub record Round : Type 0 where
  pub others : List ℕ
  pub changes : List Change
  pub now : ℕ
  pub checked : ℕ
  pub woken : ℕ

pub data Acquired : Type 0 where
  acquired timed_out cancelled waiting : Acquired

-- What the other tasks leave of the bucket.
unfoldable pub take_each : Limiter → List ℕ → Limiter
take_each l [] = l
take_each l (now ∷ times) = take_each (take_token l now).0 times

unfoldable pub remove_waiter : List ℕ → ℕ → List ℕ
remove_waiter [] waiter = []
remove_waiter (w ∷ ws) waiter =
    let rest = remove_waiter ws waiter in if w == waiter then ws else w ∷ rest

-- The futures are cancelled, which no task awaits, and forgotten.
unfoldable pub cancel_waiters : Limiter → Limiter
cancel_waiters l = record l { waiters = [] }

unfoldable pub change_waiters : Limiter → Change → Limiter
change_waiters l (enters future) = record l { waiters = l.waiters ++ future ∷ [] }
change_waiters l (leaves future) = record l { waiters = remove_waiter l.waiters future }
change_waiters l cancels = cancel_waiters l

unfoldable pub change_each : Limiter → List Change → Limiter
change_each l [] = l
change_each l (change ∷ changes) = change_each (change_waiters l change) changes

-- `min(1.0 / self._rate, remaining)` for a `remaining` above 0.
unfoldable pub sleep_time : Limiter → ℕ → ℕ → ℕ
sleep_time l deadline checked = min l.period (deadline - checked)

-- The end of a round: a token, no time left before or after the sleep, or the next round.
unfoldable pub end_round :
    ℕ → Round → Limiter × Bool → (Limiter → Limiter × Acquired) → Limiter × Acquired
end_round deadline round (l, true) next = (l, Acquired.acquired)
end_round deadline round (l, false) next =
    if leb deadline round.checked
    then (l, Acquired.timed_out)
    else if leb deadline round.woken
    then (l, Acquired.timed_out)
    else next l

-- The loop of `acquire`, through the rounds that its task has run; with none left it still waits.
unfoldable pub acquire_loop : Limiter → ℕ → List Round → Limiter × Acquired
acquire_loop l deadline [] = (l, Acquired.waiting)
acquire_loop l deadline (round ∷ rounds) =
    end_round deadline round
      (take_token (take_each (change_each l round.changes) round.others) round.now)
      (λ k. acquire_loop k deadline rounds)

-- What `finally` does once the loop has returned or raised. A task that sleeps in a round past the
-- given ones may be cancelled there.
unfoldable pub leave : Bool → ℕ → Limiter × Acquired → Limiter × Acquired
leave false waiter (l, Acquired.waiting) = (l, Acquired.waiting)
leave true waiter (l, Acquired.waiting) =
    (record l { waiters = remove_waiter l.waiters waiter }, Acquired.cancelled)
leave interrupted waiter (l, Acquired.acquired) =
    (record l { waiters = remove_waiter l.waiters waiter }, Acquired.acquired)
leave interrupted waiter (l, Acquired.timed_out) =
    (record l { waiters = remove_waiter l.waiters waiter }, Acquired.timed_out)
leave interrupted waiter (l, Acquired.cancelled) =
    (record l { waiters = remove_waiter l.waiters waiter }, Acquired.cancelled)

-- `acquire` of the task that waits by the future `waiter`, from the clock's reading `started`.
unfoldable pub acquire : Limiter → ℕ → ℕ → ℕ → List Round → Bool → Limiter × Acquired
acquire l waiter started timeout rounds interrupted =
    leave interrupted waiter
      (acquire_loop (record l { waiters = l.waiters ++ waiter ∷ [] }) (started + timeout) rounds)
