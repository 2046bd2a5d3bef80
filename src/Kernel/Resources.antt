-- ===== src/Kernel/Resources.antt =====
-- resources.py: the resources of a workflow and their cleanup. A resource is a number; `enters` says
-- whether its `__enter__` or `__aenter__` returns, `exits` whether its `__exit__` or `__aexit__` does:
-- both are code of the resource.
use debcraft.Prelude.{ℕ, Bool, List, [], ◌∷◌, ◌++◌, if◌then◌else◌}
use mathlib.Core.List.{reverse}

-- What is seen from outside: a cleanup that is run, and the error that is logged when it raises.
pub data Seen : Type 0 where
  ran : (resource : ℕ) → Seen
  logged : (resource : ℕ) → Seen

-- `KernelResourceManager`, with what was seen so far.
pub record Manager : Type 0 where
  pub cleanups : List ℕ
  pub seen : List Seen

module _ (enters exits : ℕ → Bool) where
  -- `acquire_sync` and `acquire_async`: if entering raises, nothing is registered.
  unfoldable pub acquire : ℕ → Manager → Manager
  acquire resource m =
      if enters resource then record m { cleanups = m.cleanups ++ resource ∷ [] } else m

  -- One callback: an exception is logged and goes no further.
  abbrev pub attempt_cleanup : ℕ → List Seen → List Seen
  attempt_cleanup resource seen =
      seen ++ ran resource ∷ (if exits resource then [] else logged resource ∷ [])

  unfoldable pub run_cleanups : List ℕ → List Seen → List Seen
  run_cleanups [] seen = seen
  run_cleanups (resource ∷ resources) seen = run_cleanups resources (attempt_cleanup resource seen)

  unfoldable pub cleanup : Manager → Manager
  cleanup m = record { cleanups = []; seen = run_cleanups (reverse m.cleanups) m.seen }

  unfoldable pub acquire_each : List ℕ → Manager → Manager
  acquire_each [] m = m
  acquire_each (resource ∷ resources) m = acquire_each resources (acquire resource m)

-- The cleanups among what was seen.
abbrev pub runs : List Seen → List ℕ
runs [] = []
runs (ran r ∷ seen) = r ∷ runs seen
runs (logged r ∷ seen) = runs seen
