-- ===== src/Kernel/Workflow/Lifecycle.antt =====
-- The lifecycle of a workflow under `run`.
use debcraft.Prelude.{
  ℕ, ◌≡◌, ◌≢◌, ◌⊎◌, refl, ap, ◌∙◌, Bool, true, false, not, inl, inr, List, [], ◌∷◌, ◌++◌,
  append_assoc, arith, keep, nat_eq, ◌==◌,
}
use debcraft.Kernel.Workflow.{
  Environment, Policy, Execution, Progress, execute_with_policy, WorkflowState, completed,
  failed_state, cancelled_state, LifecycleEvent, workflow_started, workflow_completed,
  workflow_failed, workflow_cancelled, Engine, publish_terminal_event, Ending, Setup, Surroundings,
  RunResult, summary, escaped, scope_closed, scope_made, conclude, after_close, run,
}
use debcraft.Kernel.Workflow.States.{
  Because, Ends, ends_completed, ends_failed, ends_cancelled, state_after_try-Ends,
  state_after_try-Because,
}

-- The terminal events, each with the terminal state that it reports.
pub data Terminal (id : ℕ) : WorkflowState → LifecycleEvent → Type 0 where
  on_completed : Terminal id completed (workflow_completed id)
  on_failed : Terminal id failed_state (workflow_failed id)
  on_cancelled : Terminal id cancelled_state (workflow_cancelled id)

-- What is published and active after a run: the started event and then `more`, after the events before,
-- and the workflow is not active.
pub record Finished (id : ℕ) (g : Engine) (more : List LifecycleEvent) (h : Engine) : Type 0 where
  pub events : h.events ≡ g.events ++ workflow_started id ∷ more
  pub active : h.active ≡ keep (λ w. not (w == id)) g.active

-- A run ends with a summary, after one terminal event, that of the summary's state; or by an exception:
-- because its preparation failed, before any event and with the workflow active; because it was
-- cancelled while its scope was closed, without a terminal event; or because the publication of the
-- terminal event did not return.
pub data Lived (r : Execution × Progress) (s : Surroundings) (id : ℕ) (g : Engine)
    : Engine × RunResult → Type 0 where
  summarized :
      (h : Engine) (state : WorkflowState) (last : LifecycleEvent)
      → Because s r state
      → Terminal id state last
      → s.publishes_terminal ≡ Ending.returns
      → Finished id g (last ∷ []) h
      → Lived r s id g (h, summary state)
  unprepared :
      (h : Engine)
      → s.prepares ≡ false
      → h.events ≡ g.events
      → h.active ≡ id ∷ g.active
      → Lived r s id g (h, escaped)
  unannounced :
      (h : Engine)
      → s.closes_scope ≡ Ending.is_cancelled
      → Finished id g [] h
      → Lived r s id g (h, escaped)
  interrupted :
      (h : Engine) (state : WorkflowState) (last : LifecycleEvent)
      → Because s r state
      → Terminal id state last
      → s.publishes_terminal ≢ Ending.returns
      → Finished id g (last ∷ []) h
      → Lived r s id g (h, escaped)

keep-first :
    (id : ℕ) (ws : List ℕ) → keep (λ w. not (w == id)) (id ∷ ws) ≡ keep (λ w. not (w == id)) ws
keep-first id ws = ground arith

finished :
    (id : ℕ) (g : Engine) (event : LifecycleEvent) (h : Engine)
    → h.events ≡ (g.events ++ workflow_started id ∷ []) ++ event ∷ []
    → h.active ≡ keep (λ w. not (w == id)) (id ∷ g.active)
    → Finished id g (event ∷ []) h
finished id g event h e a = record {
  events = e ∙ append_assoc g.events (workflow_started id ∷ []) (event ∷ []);
  active = a ∙ keep-first id g.active;
}

-- The terminal event of the state is the one that is published.
published :
    (id : ℕ) (g h : Engine) (state : WorkflowState)
    → Ends state
    → h.events ≡ g.events ++ workflow_started id ∷ []
    → h.active ≡ keep (λ w. not (w == id)) (id ∷ g.active)
    → (last : LifecycleEvent) × Terminal id state last
      × Finished id g (last ∷ []) (publish_terminal_event state id h)
unfolding publish_terminal_event
published id g h state ends_completed e a =
    let last = workflow_completed id in
    (last, on_completed, finished id g last _ (ap (λ l. l ++ last ∷ []) e) a)
published id g h state ends_failed e a =
    let last = workflow_failed id in
    (last, on_failed, finished id g last _ (ap (λ l. l ++ last ∷ []) e) a)
published id g h state ends_cancelled e a =
    let last = workflow_cancelled id in
    (last, on_cancelled, finished id g last _ (ap (λ l. l ++ last ∷ []) e) a)

module _ (r : Execution × Progress) (s : Surroundings) (id : ℕ) (g : Engine) where
  conclude-Lived :
      (terminal : Ending) (state : WorkflowState) (h : Engine)
      → s.publishes_terminal ≡ terminal
      → Because s r state
      → Ends state
      → h.events ≡ g.events ++ workflow_started id ∷ []
      → h.active ≡ keep (λ w. not (w == id)) (id ∷ g.active)
      → Lived r s id g (conclude terminal state id h)
  unfolding conclude
  conclude-Lived Ending.returns state h t b x e a =
      let p = published id g h state x e a in summarized _ state p.0 b p.1 t p.2
  conclude-Lived Ending.raises state h t b x e a =
      let p = published id g h state x e a in interrupted _ state p.0 b p.1 (λ k. cc) p.2
  conclude-Lived Ending.is_cancelled state h t b x e a =
      let p = published id g h state x e a in interrupted _ state p.0 b p.1 (λ k. cc) p.2

  scope_closed-returns :
      (setup : Setup) (e : Ending)
      → (scope_closed setup e ≡ Ending.returns)
        ⊎ ((scope_closed setup e ≡ Ending.is_cancelled) × (e ≡ Ending.is_cancelled))
  unfolding scope_closed
  scope_closed-returns Setup.no_scope e = inl refl
  scope_closed-returns Setup.no_manager Ending.returns = inl refl
  scope_closed-returns Setup.no_manager Ending.raises = inl refl
  scope_closed-returns Setup.no_manager Ending.is_cancelled = inr (refl, refl)
  scope_closed-returns Setup.resolved Ending.returns = inl refl
  scope_closed-returns Setup.resolved Ending.raises = inl refl
  scope_closed-returns Setup.resolved Ending.is_cancelled = inr (refl, refl)

  after_close-Lived :
      (setup : Setup) (state : WorkflowState) (h : Engine)
      → Because s r state
      → Ends state
      → h.events ≡ g.events ++ workflow_started id ∷ []
      → h.active ≡ keep (λ w. not (w == id)) (id ∷ g.active)
      → Lived r s id g
          (after_close (scope_closed setup s.closes_scope) s.publishes_terminal state id h)
  unfolding after_close
  after_close-Lived setup state h b x e a = elim (scope_closed-returns setup s.closes_scope) [
    | inl q ↦ rw q (conclude-Lived s.publishes_terminal state h refl b x e a)
    | inr (q, c) ↦
        rw q (unannounced h c (record { events = e; active = a ∙ keep-first id g.active }))
  ]

module _ (env : Environment) (policy : Policy) (s : Surroundings) (id : ℕ) (g : Engine) where
  run_from-Lived :
      (prepares : Bool)
      → s.prepares ≡ prepares
      → Lived (execute_with_policy env policy) s id g (run env policy s id g)
  unfolding run
  run_from-Lived false h = simp h (unprepared _ h refl refl)
  run_from-Lived true h =
      let r = execute_with_policy env policy in
      simp h (
        after_close-Lived r s id g (scope_made s.publishes_started s.setup) _ _
          (state_after_try-Because s r s.publishes_started s.setup refl refl)
          (state_after_try-Ends s.publishes_started s.setup r) refl refl)

-- A run that returns has published `workflow_started` and then exactly one terminal event, which is the
-- one of the state in its summary, and the workflow is no longer active. The state is the one of the
-- execution's end, or failed or cancelled if the started event or the setup fails or is cancelled. The
-- run returns unless its preparation fails, which leaves the workflow active without an event, its
-- task is cancelled while the scope is closed, which leaves out the terminal event, or the publication
-- of that event does not return.
pub run-Lived :
    (env : Environment) (policy : Policy) (s : Surroundings) (id : ℕ) (g : Engine)
    → Lived (execute_with_policy env policy) s id g (run env policy s id g)
run-Lived env policy s id g = run_from-Lived env policy s id g s.prepares refl
