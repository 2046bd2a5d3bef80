-- ===== src/Tests/Kernel.antt =====
-- Runs of the kernel models.
use debcraft.Prelude.{
  ℕ, suc, zero, ◌+◌, ◌≤◌, ◌≡◌, refl, true, false, Bool, ◌==◌, ◌||◌, some, none, List, [], ◌∷◌, ok,
  err, contains, nat_eq,
}
use debcraft.Prelude.Dict.{get, put}
use debcraft.Kernel.Container.{
  Container, empty_container, register_singleton, register_transient, cached, store, finish,
  resolve_all, construct, create_instance, resolve_new, resolve_cached, resolve_registered,
  resolve_fuel, resolve, circular_dependency, singleton, transient,
}
use debcraft.Kernel.Container.Stack.{Leaves, Leaves-refl, resolve-Leaves}
use debcraft.Kernel.Container.Caching.{resolve_shared, resolve_fresh}
use debcraft.Kernel.Container.Depth.{Settles, resolve-Settles}
use debcraft.Kernel.Events.{EventBus, subscribe, unsubscribe, handlers_of, unsubscribe-subscribe}
use debcraft.Kernel.Workflow.{
  Environment, Policy, success, raised, start, execute_with_policy, Engine, Ending, Setup,
  Surroundings, run,
}
use debcraft.Kernel.Workflow.Retry.{Ended, execute_with_policy-Ended}
use debcraft.Kernel.Workflow.Lifecycle.{Lived, run-Lived}

-- Class 1 needs 2 and 3; 2 needs 3; 4 and 5 need one another.
abbrev annotations : ℕ → List ℕ
annotations (suc zero) = 2 ∷ 3 ∷ []
annotations (suc (suc zero)) = 3 ∷ []
annotations (suc (suc (suc (suc zero)))) = 5 ∷ []
annotations (suc (suc (suc (suc (suc zero))))) = 4 ∷ []
annotations _ = []

abbrev constructs : ℕ → Bool
constructs n = true

abbrev app : Container
app = record {
  registrations =
      (1, record { implementation = 1; lifetime = singleton })
      ∷ (2, record { implementation = 2; lifetime = transient })
      ∷ (3, record { implementation = 3; lifetime = singleton })
      ∷ (4, record { implementation = 4; lifetime = singleton })
      ∷ (5, record { implementation = 5; lifetime = singleton })
      ∷ [];
  singletons = [];
  resolution_stack = [];
  objects = 0;
}

registered :
    register_singleton 5 none (
      register_singleton 4 none (
        register_singleton 3 none
          (register_transient 2 none (register_singleton 1 none empty_container))))
    ≡ app
unfolding register_singleton register_transient put
registered = refl

resolved : (resolve annotations constructs 1 app).1 ≡ ok 2
unfolding resolve resolve_fuel resolve_registered resolve_cached resolve_new create_instance
    construct resolve_all finish store cached get put
resolved = refl

resolved_transient : (resolve annotations constructs 2 app).1 ≡ ok 1
unfolding resolve resolve_fuel resolve_registered resolve_cached resolve_new create_instance
    construct resolve_all finish store cached get put
resolved_transient = refl

circular : (resolve annotations constructs 4 app).1 ≡ err (circular_dependency (5 ∷ 4 ∷ 4 ∷ []))
unfolding resolve resolve_fuel resolve_registered resolve_cached resolve_new create_instance
    construct resolve_all finish store cached get put
circular = refl

resolve-Settles_example : Settles (resolve annotations constructs 4 app)
resolve-Settles_example = resolve-Settles annotations constructs 4 app

resolve-Leaves_example : Leaves app (resolve annotations constructs 1 app).0
resolve-Leaves_example = resolve-Leaves annotations constructs 1 app

registered_one :
    get app.registrations 1 ≡ some (record { implementation = 1; lifetime = singleton })
unfolding get
registered_one = refl

registered_two :
    get app.registrations 2 ≡ some (record { implementation = 2; lifetime = transient })
unfolding get
registered_two = refl

resolve_shared_example :
    resolve annotations constructs 1 (resolve annotations constructs 1 app).0
    ≡ ((resolve annotations constructs 1 app).0, ok 2)
resolve_shared_example =
    resolve_shared annotations constructs 1 2 _ app (resolve annotations constructs 1 app).0
      registered_one refl resolved (Leaves-refl (resolve annotations constructs 1 app).0)

resolve_fresh_example : (0 ≤ 1) × (((resolve annotations constructs 2 app).0).objects ≡ 1 + 1)
resolve_fresh_example =
    resolve_fresh annotations constructs 2 1 _ app registered_two refl resolved_transient

abbrev even_only : ℕ → Bool
even_only n = n == 2 || n == 4

abbrev bus : EventBus
bus = record { handlers = (7, 1 ∷ 2 ∷ []) ∷ []; dispatched = [] }

not_subscribed : contains (handlers_of bus 7) 3 ≡ false
unfolding handlers_of get
not_subscribed = refl

unsubscribe-subscribe_example :
    handlers_of (unsubscribe 7 3 (subscribe 7 3 bus)) 7 ≡ handlers_of bus 7
unsubscribe-subscribe_example = unsubscribe-subscribe 7 7 3 bus not_subscribed

-- A workflow that fails twice.
abbrev flaky : Environment
flaky = record {
  attempt = λ n. elim n [ zero ↦ raised 0 | suc k ↦ elim k [ zero ↦ raised 1 | suc j ↦ success ] ];
  cancel_before = λ n. false;
  cancel_in_backoff = λ n. false;
  cancel_in_attempt = λ n. false;
  interrupts_backoff = λ n. false;
}

abbrev three_retries : Policy
three_retries = record { retry_count = 3; retry_backoff = 1; fail_fast = false }

execute_with_policy-Ended_example :
    Ended flaky three_retries 4 0 start (execute_with_policy flaky three_retries)
execute_with_policy-Ended_example = execute_with_policy-Ended flaky three_retries

abbrev idle : Engine
idle = record { active = []; events = [] }

-- The scope cannot be closed, which is no failure of the run.
abbrev leaking : Surroundings
leaking = record {
  prepares = true;
  publishes_started = Ending.returns;
  setup = Setup.resolved;
  closes_scope = Ending.raises;
  publishes_terminal = Ending.returns;
}

run-Lived_example :
    Lived
      (execute_with_policy flaky three_retries)
      leaking
      9
      idle
      (run flaky three_retries leaking 9 idle)
run-Lived_example = run-Lived flaky three_retries leaking 9 idle
