-- ===== src/Database/UnitOfWork/Blocks.antt =====
-- What a block does to its session.
use debcraft.Prelude.{
  ℕ, Bool, true, false, ◌≡◌, Option, none, some, List, [], ◌∷◌, ◌++◌, if◌then◌else◌,
}
use debcraft.Database.UnitOfWork.{
  UnitOfWork, Call, Raised, Outcome, Answers, call, continue, replaced, database_error,
  commit_failed, body_error, begin, commit_session, rollback_session, close,
}

-- What `__aexit__` does between `begin` and `close`, by calls and exception: the transaction is saved;
-- its commit raises, and the session is rolled back if it raised a `SQLAlchemyError`; it is undone
-- because of the body's exception, or because of the triggered token, with another rollback if the
-- first one raises a `SQLAlchemyError`.
pub data Ending (answers : Answers) (s : ℕ) (is_cancelled raised : Bool)
    : List Call → Option Raised → Type 0 where
  saved :
      is_cancelled ≡ false
      → raised ≡ false
      → answers (begin s ∷ commit_session s ∷ []) ≡ none
      → Ending answers s is_cancelled raised (commit_session s ∷ []) none
  lost :
      (e : Raised)
      → is_cancelled ≡ false
      → raised ≡ false
      → answers (begin s ∷ commit_session s ∷ []) ≡ some e
      → Ending answers s is_cancelled raised (commit_session s ∷ []) (some e)
  rolled_back :
      (e : Raised)
      → is_cancelled ≡ false
      → raised ≡ false
      → answers (begin s ∷ commit_session s ∷ []) ≡ some database_error
      → Ending answers s is_cancelled raised (commit_session s ∷ rollback_session s ∷ []) (some e)
  undone :
      raised ≡ true
      → Ending answers s is_cancelled raised
          (rollback_session s ∷ [])
          (answers (begin s ∷ rollback_session s ∷ []))
  stopped :
      (e : Raised)
      → is_cancelled ≡ true
      → raised ≡ false
      → Ending answers s is_cancelled raised (rollback_session s ∷ []) (some e)
  stopped_twice :
      (e : Raised)
      → is_cancelled ≡ true
      → raised ≡ false
      → answers (begin s ∷ rollback_session s ∷ []) ≡ some database_error
      → Ending answers s is_cancelled raised (rollback_session s ∷ rollback_session s ∷ []) (some e)

-- The exception of the block, by that of `close`, that of the rest of `__aexit__`, and the body's.
abbrev pub block_exception : Option Raised → Option Raised → Bool → Option Raised
block_exception (some e) middle raised = some e
block_exception none (some e) raised = some e
block_exception none none true = some body_error
block_exception none none false = none

-- The unit of work before its first block.
abbrev pub fresh : UnitOfWork
fresh = record { session = none; repositories = λ r. none; calls = [] }

-- A block whose transaction is begun: an ending, then `close` in each case.
pub record Ended (answers : Answers) (s : ℕ) (is_cancelled raised : Bool) (r : Outcome)
    : Type 0 where
  pub middle : List Call
  pub exception : Option Raised
  pub ending : Ending answers s is_cancelled raised middle exception
  pub calls : r.1.calls ≡ begin s ∷ (middle ++ close s ∷ [])
  pub outcome : r.0 ≡ block_exception (answers r.1.calls) exception raised

closed : Option Raised → Option Raised → Bool → UnitOfWork → Outcome
closed x first raised v =
    continue (replaced first (x, v)) (λ w. (if raised then some body_error else none, w))

module _ (answers : Answers) (s : ℕ) where
  abbrev Finished : Bool → Bool → Outcome → Type 0
  Finished is_cancelled raised (e, u) =
      (middle : List Call) × (u.calls ≡ begin s ∷ middle)
      × Ending answers s is_cancelled raised middle e

  abbrev with_calls : List Call → UnitOfWork
  with_calls calls = record { session = some s; repositories = λ r. none; calls = calls }

  abbrev handler : UnitOfWork → Outcome
  handler v = continue (call answers (rollback_session s) v) (λ w. (some commit_failed, w))
