-- ===== src/Database/UnitOfWork.antt =====
-- src/debcraft/infrastructure/database/unit_of_work.py: `SqliteUnitOfWork`. Sessions are numbers that
-- the provider hands out. What a call of a session raises is SQLAlchemy's affair: an answer for each
-- call, by the calls before it.
pub mod Blocks
pub mod Repositories
use debcraft.Prelude.{
  ℕ, Bool, true, false, Option, none, some, List, [], ◌∷◌, ◌++◌, if◌then◌else◌, Result, ok, err,
}

-- What is done to a session.
pub data Call : Type 0 where
  begin commit_session rollback_session close : (session : ℕ) → Call

-- The exceptions: a `SQLAlchemyError`, another one of a session or of the provider, the `StorageError`
-- of the three places that raise it, and the one of the block's body.
pub data Raised : Type 0 where
  database_error foreign_error not_entered commit_cancelled commit_failed body_error : Raised

-- The repositories, by the names of their properties.
pub data Repository : Type 0 where
  packages source_packages repository_files snapshots licenses scan_sessions sbom_documents :
      Repository

pub record UnitOfWork : Type 0 where
  pub session : Option ℕ
  -- Each repository that is made, with the session that it was made with.
  pub repositories : Repository → Option ℕ
  -- All calls of sessions so far.
  pub calls : List Call

-- How a call ends, with its exception if it raised.
abbrev pub Outcome : Type 0
Outcome = Option Raised × UnitOfWork

-- What a call of a session raises, by all calls up to it.
abbrev pub Answers : Type 0
Answers = List Call → Option Raised

-- What follows, unless there was an exception.
abbrev pub continue : Outcome → (UnitOfWork → Outcome) → Outcome
continue (none, u) rest = rest u
continue (some e, u) rest = (some e, u)

-- `except SQLAlchemyError`
abbrev pub except_database_error : Outcome → (UnitOfWork → Outcome) → Outcome
except_database_error (none, u) handler = (none, u)
except_database_error (some database_error, u) handler = handler u
except_database_error (some e, u) handler = (some e, u)

-- `finally`: an exception of the last part replaces the first one.
abbrev pub replaced : Option Raised → Outcome → Outcome
replaced first (none, u) = (first, u)
replaced first (some e, u) = (some e, u)

abbrev pub finally : Outcome → (UnitOfWork → Outcome) → Outcome
finally (first, u) last = replaced first (last u)

module _ (answers : Answers) where
  unfoldable pub call : Call → UnitOfWork → Outcome
  call c u = let calls = u.calls ++ c ∷ [] in (answers calls, record u { calls = calls })

  -- `commit`, for the session of the unit of work.
  unfoldable pub commit : Bool → Option ℕ → UnitOfWork → Outcome
  commit is_cancelled none u = (some not_entered, u)
  commit true (some s) u = continue (call (rollback_session s) u) (λ v. (some commit_cancelled, v))
  commit false (some s) u = call (commit_session s) u

  -- `rollback`
  unfoldable pub rollback : Option ℕ → UnitOfWork → Outcome
  rollback none u = (some not_entered, u)
  rollback (some s) u = call (rollback_session s) u

  -- `__aenter__`, with the session that the provider gives, or its exception.
  unfoldable pub enter : Result Raised ℕ → UnitOfWork → Outcome
  enter (err e) u = (some e, u)
  enter (ok s) u = call (begin s) (record u { session = some s })

  -- The `try` block of `__aexit__`; the second flag tells whether the body raised.
  unfoldable pub finish : Bool → Bool → ℕ → UnitOfWork → Outcome
  finish is_cancelled true s u = call (rollback_session s) u
  finish is_cancelled false s u =
      except_database_error (commit is_cancelled (some s) u)
        (λ v. continue (call (rollback_session s) v) (λ w. (some commit_failed, w)))

  -- `__aexit__`
  unfoldable pub exit : Bool → Bool → Option ℕ → UnitOfWork → Outcome
  exit is_cancelled raised none u = (some not_entered, u)
  exit is_cancelled raised (some s) u = finally (finish is_cancelled raised s u) (call (close s))

  -- `async with uow:` around a body that may raise; `is_cancelled` is the token's state at its end.
  unfoldable pub run_block : Result Raised ℕ → Bool → Bool → UnitOfWork → Outcome
  run_block provided is_cancelled raised u = continue (enter provided u) (λ v.
      continue (exit is_cancelled raised v.session v)
        (λ w. (if raised then some body_error else none, w)))

abbrev pub same_repository : Repository → Repository → Bool
same_repository packages packages = true
same_repository source_packages source_packages = true
same_repository repository_files repository_files = true
same_repository snapshots snapshots = true
same_repository licenses licenses = true
same_repository scan_sessions scan_sessions = true
same_repository sbom_documents sbom_documents = true
same_repository r other = false

-- A repository that is not there yet is made with the current session.
unfoldable pub make_repository : Repository → Option ℕ → UnitOfWork → Result Raised ℕ × UnitOfWork
make_repository r none u = (err not_entered, u)
make_repository r (some s) u = (
  ok s,
  record u {
    repositories = λ other. if same_repository r other then some s else u.repositories other;
  },
)

-- The property of a repository, which gives the session that the repository works on.
unfoldable pub repository : Repository → Option ℕ → UnitOfWork → Result Raised ℕ × UnitOfWork
repository r none u = make_repository r u.session u
repository r (some s) u = (ok s, u)

abbrev pub access : Repository → UnitOfWork → Result Raised ℕ × UnitOfWork
access r u = repository r (u.repositories r) u
