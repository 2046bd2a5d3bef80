-- ===== src/Mirror/Coordinator.antt =====
-- src/debcraft/infrastructure/mirror/download.py: `start` and `close` of `DownloadCoordinator`. The
-- HTTP session and its connector are aiohttp's: here they are open or not.
use debcraft.Prelude.{ℕ, Bool, true, false, Option, none, some, if◌then◌else◌, ◌==◌}
use debcraft.Mirror.RateLimiter.{Limiter, create}

-- What `start` reads of the configuration; `period` is the limiter's, for `rate_limit_rps`.
pub record MirrorConfig : Type 0 where
  pub max_connections_per_repo : ℕ
  pub rate_limit_burst : Option ℕ
  pub period : ℕ

pub record Coordinator : Type 0 where
  pub session : Bool
  pub connector : Bool
  pub rate_limiter : Option Limiter

-- `rate_limit_burst or max_connections_per_repo`
unfoldable pub burst_or : Option ℕ → ℕ → ℕ
burst_or none n = n
burst_or (some burst) n = if burst == 0 then n else burst

unfoldable pub started_limiter : MirrorConfig → ℕ → Option Limiter → Option Limiter
started_limiter config now (some l) = some l
started_limiter config now none =
    some
      (create config.period (burst_or config.rate_limit_burst config.max_connections_per_repo) now)

-- `start`, at the clock's reading `now`.
unfoldable pub start : MirrorConfig → ℕ → Coordinator → Coordinator
start config now c = record {
  session = true;
  connector = true;
  rate_limiter = started_limiter config now c.rate_limiter;
}

-- `close`, which cancels the futures of the limiter's waiters and forgets it.
unfoldable pub close : Coordinator → Coordinator
close c = record { session = false; connector = false; rate_limiter = none }
