-- ===== src/Kernel/Workflow.antt =====
-- workflow.py: `KernelWorkflowEngine`. What a workflow does, and when its cancellation token is
-- triggered by others (`cancel`, `shutdown`, SIGINT), is the environment's: it answers for each
-- attempt. An event counts as published once the bus is called. Time is counted in units of the policy's backoff, a whole number here; the summary's
-- timestamps and the log lines are left out.
pub mod Retry
pub mod States
pub mod Lifecycle
use debcraft.Prelude.{
  ℕ, zero, suc, ◌+◌, ◌-◌, ◌*◌, ◌^◌, Bool, true, false, ◌||◌, not, List, [], ◌∷◌, ◌++◌, keep,
  if◌then◌else◌, ◌==◌, leb,
}

-- How an awaited `workflow.execute` ends: by return, past its timeout, by an exception, or because
-- the task that runs the engine is cancelled.
pub data Attempt : Type 0 where
  success timeout : Attempt
  raised : (exception : ℕ) → Attempt
  task_cancelled : Attempt

pub record Environment : Type 0 where
  pub attempt : ℕ → Attempt
  -- The token is triggered before the test at the head of an attempt, during the backoff, and during
  -- the attempt itself.
  pub cancel_before : ℕ → Bool
  pub cancel_in_backoff : ℕ → Bool
  pub cancel_in_attempt : ℕ → Bool
  -- The task that runs the engine is cancelled during the backoff, which raises `CancelledError`.
  pub interrupts_backoff : ℕ → Bool

-- `ExecutionPolicy`, as far as the engine reads it; its timeout is the environment's `timeout`.
pub record Policy : Type 0 where
  pub retry_count : ℕ
  pub retry_backoff : ℕ
  pub fail_fast : Bool

-- How `_execute_with_policy` ends; `fell_through` is the end of its loop.
pub data Execution : Type 0 where
  returned : Execution
  timed_out : Execution
  failed : (exception : ℕ) → Execution
  cancelled : Execution
  fell_through : Execution

-- The attempts made, the backoffs slept, and the cancellation token.
pub record Progress : Type 0 where
  pub attempts : List ℕ
  pub sleeps : List ℕ
  pub is_cancelled : Bool

abbrev pub start : Progress
start = record { attempts = []; sleeps = []; is_cancelled = false }

module _ (env : Environment) (policy : Policy) where
  -- The token may have been triggered meanwhile; it is never reset.
  abbrev pub observe : Bool → Progress → Progress
  observe triggered p = record p { is_cancelled = p.is_cancelled || triggered }

  -- The handlers of one attempt: `none of them` goes on with the next attempt, `rest`.
  unfoldable pub handle :
      ℕ → ℕ → Attempt → Progress → (Progress → Execution × Progress) → Execution × Progress
  handle attempt remaining success p rest = (returned, p)
  handle attempt remaining timeout p rest = (timed_out, record p { is_cancelled = true })
  handle attempt remaining (raised e) p rest =
      if policy.fail_fast || remaining == 0 then (failed e, p) else rest p
  handle attempt remaining task_cancelled p rest = (cancelled, p)

  -- `await workflow.execute(context)` within its `try`.
  unfoldable pub try_attempt :
      ℕ → ℕ → Progress → (Progress → Execution × Progress) → Execution × Progress
  try_attempt attempt remaining p rest =
      handle attempt remaining (env.attempt attempt)
        (observe (env.cancel_in_attempt attempt)
          (record p { attempts = p.attempts ++ attempt ∷ [] }))
        rest

  -- The backoff before a retry: `retry_backoff_seconds * 2 ** (attempt - 1)`.
  unfoldable pub back_off : ℕ → Progress → Progress
  back_off zero p = p
  back_off (suc n) p =
      observe (env.cancel_in_backoff (suc n))
        (record p { sleeps = p.sleeps ++ (policy.retry_backoff * 2 ^ n) ∷ [] })

  -- Whether `CancelledError` leaves the backoff; there is none before the first attempt.
  unfoldable pub is_interrupted : ℕ → Bool
  is_interrupted zero = false
  is_interrupted (suc n) = env.interrupts_backoff (suc n)

  -- `for attempt in range(max_attempts)`, with the number of attempts left after this one.
  unfoldable pub attempt_loop : ℕ → ℕ → Progress → Execution × Progress
  attempt_loop zero attempt p = (fell_through, p)
  attempt_loop (suc remaining) attempt p =
      let p1 = observe (env.cancel_before attempt) p in
      let p2 = back_off attempt p1 in
      if p1.is_cancelled
      then (returned, p1)
      else if is_interrupted attempt
      then (cancelled, p2)
      else if p2.is_cancelled
      then (returned, p2)
      else try_attempt attempt remaining p2 (attempt_loop remaining (attempt + 1))

  -- `_execute_with_policy`
  unfoldable pub execute_with_policy : Execution × Progress
  execute_with_policy = attempt_loop (suc policy.retry_count) 0 start

pub data WorkflowState : Type 0 where
  created running completed failed_state cancelled_state : WorkflowState

pub data LifecycleEvent : Type 0 where
  workflow_started workflow_completed workflow_failed workflow_cancelled :
      (workflow_id : ℕ) → LifecycleEvent

-- The engine: the ids of `_active_workflows`, and the events that it published.
pub record Engine : Type 0 where
  pub active : List ℕ
  pub events : List LifecycleEvent

-- The state that the end of the `try` block gives, with its `except` clauses.
unfoldable pub final_state : Execution × Progress → WorkflowState
final_state (returned, p) = if p.is_cancelled then cancelled_state else completed
final_state (fell_through, p) = if p.is_cancelled then cancelled_state else completed
final_state (timed_out, p) = failed_state
final_state (failed e, p) = failed_state
final_state (cancelled, p) = cancelled_state

-- `_publish_terminal_event`
unfoldable pub publish_terminal_event : WorkflowState → ℕ → Engine → Engine
publish_terminal_event completed id g = record g { events = g.events ++ workflow_completed id ∷ [] }
publish_terminal_event failed_state id g = record g { events = g.events ++ workflow_failed id ∷ [] }
publish_terminal_event cancelled_state id g = record g {
  events = g.events ++ workflow_cancelled id ∷ [];
}
publish_terminal_event created id g = g
publish_terminal_event running id g = g

-- `self._active_workflows.pop(workflow_id, None)`
abbrev pub deactivate : ℕ → Engine → Engine
deactivate id g = record g { active = keep (λ w. not (w == id)) g.active }

-- How a call that `run` makes ends: it returns, raises an exception, or, if it is awaited, raises
-- `CancelledError` when the task is cancelled.
pub data Ending : Type 0 where
  returns raises is_cancelled : Ending

-- How far the scope and the resource manager in it are made.
pub data Setup : Type 0 where
  no_scope no_manager resolved : Setup

-- What `run` meets around the execution: whether the calls before its `try` return, the publication of
-- the started event, the setup, `scope.close()`, and the publication of the terminal event.
pub record Surroundings : Type 0 where
  pub prepares : Bool
  pub publishes_started : Ending
  pub setup : Setup
  pub closes_scope : Ending
  pub publishes_terminal : Ending

-- How `run` ends: with a summary of the state, or by an exception.
pub data RunResult : Type 0 where
  summary : (state : WorkflowState) → RunResult
  escaped : RunResult

-- The state at the end of the `try` block, after its setup.
unfoldable pub state_after_setup : Setup → Execution × Progress → WorkflowState
state_after_setup no_scope r = failed_state
state_after_setup no_manager r = failed_state
state_after_setup resolved r = final_state r

unfoldable pub state_after_try : Ending → Setup → Execution × Progress → WorkflowState
state_after_try returns setup r = state_after_setup setup r
state_after_try raises setup r = failed_state
state_after_try is_cancelled setup r = cancelled_state

-- How `if scope is not None: await scope.close()` ends, its own handler included.
unfoldable pub scope_closed : Setup → Ending → Ending
scope_closed no_scope ending = returns
scope_closed setup raises = returns
scope_closed setup returns = returns
scope_closed setup is_cancelled = is_cancelled

-- There is a scope only once the started event is published.
abbrev pub scope_made : Ending → Setup → Setup
scope_made returns setup = setup
scope_made raises setup = no_scope
scope_made is_cancelled setup = no_scope

-- The end of `run`, with how the publication of the terminal event ends.
unfoldable pub conclude : Ending → WorkflowState → ℕ → Engine → Engine × RunResult
conclude returns state id g = (publish_terminal_event state id g, summary state)
conclude raises state id g = (publish_terminal_event state id g, escaped)
conclude is_cancelled state id g = (publish_terminal_event state id g, escaped)

unfoldable pub after_close : Ending → Ending → WorkflowState → ℕ → Engine → Engine × RunResult
after_close returns terminal state id g = conclude terminal state id g
after_close raises terminal state id g = (g, escaped)
after_close is_cancelled terminal state id g = (g, escaped)

-- `run`, for the fresh id of the workflow.
unfoldable pub run : Environment → Policy → Surroundings → ℕ → Engine → Engine × RunResult
run env policy s id g =
    let entered = record g { active = id ∷ g.active } in
    let started = record entered { events = g.events ++ workflow_started id ∷ [] } in
    let state = state_after_try s.publishes_started s.setup (execute_with_policy env policy) in
    if s.prepares
    then after_close (scope_closed (scope_made s.publishes_started s.setup) s.closes_scope)
        s.publishes_terminal state id (deactivate id started)
    else (entered, escaped)
