-- ===== src/Kernel/Workflow/States.antt =====
-- The states in which a run ends (src/debcraft/platform/kernel/workflow.py).
use debcraft.Prelude.{ℕ, ◌≡◌, ◌≢◌, ◌⊎◌, refl, true, false, Bool-cases, inl, inr, nat_eq}
use debcraft.Kernel.Workflow.{
  Execution, Progress, returned, timed_out, failed, cancelled, fell_through, WorkflowState, created,
  running, completed, failed_state, cancelled_state, final_state, Ending, Setup, Surroundings,
  state_after_setup, state_after_try,
}

-- How the execution of the workflow ends in each of the states.
abbrev pub Executed : WorkflowState → Execution × Progress → Type 0
Executed created (x, p) = ⊥
Executed running (x, p) = ⊥
Executed completed (x, p) = ((x ≡ returned) ⊎ (x ≡ fell_through)) × (p.is_cancelled ≡ false)
Executed failed_state (x, p) = (x ≡ timed_out) ⊎ ((e : ℕ) × (x ≡ failed e))
Executed cancelled_state (x, p) =
    (x ≡ cancelled) ⊎ (((x ≡ returned) ⊎ (x ≡ fell_through)) × (p.is_cancelled ≡ true))

-- Why a run ends in a state: as its execution does, or without one, because the started event or the setup
-- failed or the task was cancelled while the event was published.
abbrev pub Because : Surroundings → Execution × Progress → WorkflowState → Type 0
Because s r state =
    ((s.publishes_started ≡ Ending.returns) × (s.setup ≡ Setup.resolved) × Executed state r)
    ⊎ ((state ≡ failed_state)
        × ((s.publishes_started ≡ Ending.raises) ⊎ (s.setup ≢ Setup.resolved)))
    ⊎ ((state ≡ cancelled_state) × (s.publishes_started ≡ Ending.is_cancelled))

-- The states in which a run may end.
pub data Ends : WorkflowState → Type 0 where
  ends_completed : Ends completed
  ends_failed : Ends failed_state
  ends_cancelled : Ends cancelled_state

final_state-Ends : (r : Execution × Progress) → Ends (final_state r)
unfolding final_state
final_state-Ends (returned, p) = elim (Bool-cases p.is_cancelled) [
  | inl e ↦ rw e ends_cancelled
  | inr e ↦ rw e ends_completed
]
final_state-Ends (fell_through, p) = elim (Bool-cases p.is_cancelled) [
  | inl e ↦ rw e ends_cancelled
  | inr e ↦ rw e ends_completed
]
final_state-Ends (timed_out, p) = ends_failed
final_state-Ends (failed e, p) = ends_failed
final_state-Ends (cancelled, p) = ends_cancelled

final_state-Executed : (r : Execution × Progress) → Executed (final_state r) r
unfolding final_state
final_state-Executed (returned, p) = elim (Bool-cases p.is_cancelled) [
  | inl e ↦ rw e (inr (inl refl, refl))
  | inr e ↦ rw e (inl refl, refl)
]
final_state-Executed (fell_through, p) = elim (Bool-cases p.is_cancelled) [
  | inl e ↦ rw e (inr (inr refl, refl))
  | inr e ↦ rw e (inr refl, refl)
]
final_state-Executed (timed_out, p) = inl refl
final_state-Executed (failed e, p) = inr (e, refl)
final_state-Executed (cancelled, p) = inl refl

pub state_after_try-Because :
    (s : Surroundings) (r : Execution × Progress) (e : Ending) (setup : Setup)
    → s.publishes_started ≡ e
    → s.setup ≡ setup
    → Because s r (state_after_try e setup r)
unfolding state_after_try state_after_setup
state_after_try-Because s r Ending.returns Setup.no_scope h k =
    inr (inl (refl, inr (λ q. cc (k, q))))
state_after_try-Because s r Ending.returns Setup.no_manager h k =
    inr (inl (refl, inr (λ q. cc (k, q))))
state_after_try-Because s r Ending.returns Setup.resolved h k = inl (h, k, final_state-Executed r)
state_after_try-Because s r Ending.raises setup h k = inr (inl (refl, inl h))
state_after_try-Because s r Ending.is_cancelled setup h k = inr (inr (refl, h))

state_after_setup-Ends :
    (setup : Setup) (r : Execution × Progress) → Ends (state_after_setup setup r)
unfolding state_after_setup
state_after_setup-Ends Setup.no_scope r = ends_failed
state_after_setup-Ends Setup.no_manager r = ends_failed
state_after_setup-Ends Setup.resolved r = final_state-Ends r

pub state_after_try-Ends :
    (e : Ending) (setup : Setup) (r : Execution × Progress) → Ends (state_after_try e setup r)
unfolding state_after_try
state_after_try-Ends Ending.returns setup r = state_after_setup-Ends setup r
state_after_try-Ends Ending.raises setup r = ends_failed
state_after_try-Ends Ending.is_cancelled setup r = ends_cancelled
