-- ===== src/Kernel/Workflow/Retry.antt =====
-- How often and after which pauses a workflow is tried.
use debcraft.Prelude.{
  ℕ, zero, suc, ◌+◌, ◌*◌, ◌^◌, ◌≤◌, ◌≡◌, ◌≢◌, ◌⊎◌, inl, inr, refl, sym, ap, ◌∙◌, Bool, true,
  Bool-cases, List, [], ◌∷◌, ◌++◌, append_assoc, append-nil, arith, if◌then◌else◌, ◌==◌,
}
use debcraft.Kernel.Workflow.{
  Attempt, success, timeout, raised, task_cancelled, Environment, Policy, Execution, returned,
  timed_out, failed, cancelled, fell_through, Progress, start, observe, handle, try_attempt,
  back_off, is_interrupted, attempt_loop, execute_with_policy,
}

-- The attempts `from`, `from + 1`, …, as many as `n`.
abbrev pub counted : ℕ → ℕ → List ℕ
counted zero from = []
counted (suc n) from = from ∷ counted n (from + 1)

-- The backoffs before the attempts `from`, `from + 1`, …: doubled each time, none before the first.
abbrev pub doubling : ℕ → ℕ → ℕ → List ℕ
doubling base zero from = []
doubling base (suc n) zero = doubling base n 1
doubling base (suc n) (suc k) = (base * 2 ^ k) ∷ doubling base n (suc (suc k))

-- Why the loop ended after `made` attempts from `a` on, out of at most `limit`.
abbrev pub Reason : Environment → Policy → ℕ → ℕ → ℕ → Execution → Bool → Type 0
Reason env policy limit a made returned token =
    (token ≡ true) ⊎ ((k : ℕ) × (made ≡ suc k) × (env.attempt (a + k) ≡ success))
Reason env policy limit a made timed_out token =
    (k : ℕ) × (made ≡ suc k) × (env.attempt (a + k) ≡ timeout) × (token ≡ true)
Reason env policy limit a made (failed e) token =
    (k : ℕ) × (made ≡ suc k)
    × (env.attempt (a + k) ≡ raised e)
    × ((policy.fail_fast ≡ true) ⊎ (made ≡ limit))
Reason env policy limit a made cancelled token =
    ((k : ℕ) × (made ≡ suc k) × (env.attempt (a + k) ≡ task_cancelled))
    ⊎ ((k : ℕ) × (a + made ≡ suc k) × (env.interrupts_backoff (suc k) ≡ true))
Reason env policy limit a made fell_through token = limit ≡ 0

pub record Ended (env : Environment) (policy : Policy) (limit a : ℕ) (p : Progress)
    (r : Execution × Progress) : Type 0 where
  pub made : ℕ
  pub slept : ℕ
  pub bound : made ≤ limit
  pub attempts : (r.1).attempts ≡ p.attempts ++ counted made a
  pub sleeps : (r.1).sleeps ≡ p.sleeps ++ doubling policy.retry_backoff slept a
  pub pauses : (slept ≡ made) ⊎ (slept ≡ made + 1)
  pub reason : Reason env policy limit a made r.0 (r.1).is_cancelled

doubling-suc :
    (base n a : ℕ) → doubling base (suc n) a ≡ doubling base 1 a ++ doubling base n (a + 1)
doubling-suc base n zero = refl
doubling-suc base n (suc k) = let e : suc k + 1 ≡ suc (suc k) = omega arith in rw e

module _ (env : Environment) (policy : Policy) where
  later_reason :
      (limit a made : ℕ) (x : Execution) (token : Bool)
      → limit ≢ 0
      → Reason env policy limit (a + 1) made x token
      → Reason env policy (suc limit) a (suc made) x token
  later_reason limit a made returned token h (inl t) = inl t
  later_reason limit a made returned token h (inr (k, e, f)) =
      let q : a + suc k ≡ a + 1 + k = omega arith in inr (suc k, ap suc e, rw q f)
  later_reason limit a made timed_out token h (k, e, f, g) =
      let q : a + suc k ≡ a + 1 + k = omega arith in (suc k, ap suc e, rw q f, g)
  later_reason limit a made (failed x) token h (k, e, f, inl g) =
      let q : a + suc k ≡ a + 1 + k = omega arith in (suc k, ap suc e, rw q f, inl g)
  later_reason limit a made (failed x) token h (k, e, f, inr g) =
      let q : a + suc k ≡ a + 1 + k = omega arith in (suc k, ap suc e, rw q f, inr (ap suc g))
  later_reason limit a made cancelled token h (inl (k, e, f)) =
      let q : a + suc k ≡ a + 1 + k = omega arith in inl (suc k, ap suc e, rw q f)
  later_reason limit a made cancelled token h (inr (k, e, f)) = inr (k, omega (arith, e), f)
  later_reason limit a made fell_through token h e = absurd (h e)

  back_off-sleeps :
      (a : ℕ) (p : Progress)
      → (back_off env policy a p).sleeps ≡ p.sleeps ++ doubling policy.retry_backoff 1 a
  unfolding back_off
  back_off-sleeps zero p = sym (append-nil p.sleeps)
  back_off-sleeps (suc n) p = refl

  interrupted-at :
      (a : ℕ)
      → is_interrupted env policy a ≡ true
      → (k : ℕ) × (a + 0 ≡ suc k) × (env.interrupts_backoff (suc k) ≡ true)
  unfolding is_interrupted
  interrupted-at zero h = cc
  interrupted-at (suc n) h = (n, omega arith, h)

  back_off-attempts : (a : ℕ) (p : Progress) → (back_off env policy a p).attempts ≡ p.attempts
  unfolding back_off
  back_off-attempts zero p = refl
  back_off-attempts (suc n) p = refl

  -- An end with the attempt `a` as the last.
  last_attempt :
      (limit a : ℕ) (p p2 p' : Progress) (x : Execution)
      → p2.attempts ≡ p.attempts
      → p2.sleeps ≡ p.sleeps ++ doubling policy.retry_backoff 1 a
      → p'.attempts ≡ p2.attempts ++ a ∷ []
      → p'.sleeps ≡ p2.sleeps
      → Reason env policy (suc limit) a 1 x p'.is_cancelled
      → Ended env policy (suc limit) a p (x, p')
  last_attempt limit a p p2 p' x ea es fa fs reason = record {
    made = 1;
    slept = 1;
    bound = omega arith;
    attempts = fa ∙ ap (λ l. l ++ a ∷ []) ea;
    sleeps = fs ∙ es;
    pauses = inl refl;
    reason = reason;
  }

  -- An end after further attempts.
  more_attempts :
      (limit a : ℕ) (p p2 p3 : Progress) (r : Execution × Progress)
      → p2.attempts ≡ p.attempts
      → p2.sleeps ≡ p.sleeps ++ doubling policy.retry_backoff 1 a
      → p3.attempts ≡ p2.attempts ++ a ∷ []
      → p3.sleeps ≡ p2.sleeps
      → limit ≢ 0
      → Ended env policy limit (a + 1) p3 r
      → Ended env policy (suc limit) a p r
  more_attempts limit a p p2 p3 r ea es fa fs h e = record {
    made = suc e.made;
    slept = suc e.slept;
    bound = omega (arith, e.bound);
    attempts =
        e.attempts
        ∙ ap (λ l. l ++ counted e.made (a + 1)) (fa ∙ ap (λ l. l ++ a ∷ []) ea)
        ∙ append_assoc p.attempts (a ∷ []) (counted e.made (a + 1));
    sleeps =
        e.sleeps
        ∙ ap (λ l. l ++ doubling policy.retry_backoff e.slept (a + 1)) (fs ∙ es)
        ∙ append_assoc p.sleeps (doubling policy.retry_backoff 1 a)
            (doubling policy.retry_backoff e.slept (a + 1))
        ∙ ap (λ l. p.sleeps ++ l) (sym (doubling-suc policy.retry_backoff e.slept a));
    pauses = ground (arith, e.pauses);
    reason = later_reason limit a e.made r.0 (r.1).is_cancelled h e.reason;
  }

  handle-Ended :
      (limit a : ℕ) (p p2 p3 : Progress) (x : Attempt) (rest : Progress → Execution × Progress)
      → env.attempt a ≡ x
      → p2.attempts ≡ p.attempts
      → p2.sleeps ≡ p.sleeps ++ doubling policy.retry_backoff 1 a
      → p3.attempts ≡ p2.attempts ++ a ∷ []
      → p3.sleeps ≡ p2.sleeps
      → Ended env policy limit (a + 1) p3 (rest p3)
      → Ended env policy (suc limit) a p (handle env policy a limit x p3 rest)
  unfolding handle
  handle-Ended limit a p p2 p3 success rest ex ea es fa fs ih =
      let q : a + 0 ≡ a = omega arith in
      last_attempt limit a p p2 p3 returned ea es fa fs (inr (0, refl, rw q ex))
  handle-Ended limit a p p2 p3 timeout rest ex ea es fa fs ih =
      let q : a + 0 ≡ a = omega arith in
      last_attempt limit a p p2 (record p3 { is_cancelled = true }) timed_out ea es fa fs
        (0, refl, rw q ex, refl)
  handle-Ended limit a p p2 p3 task_cancelled rest ex ea es fa fs ih =
      let q : a + 0 ≡ a = omega arith in
      last_attempt limit a p p2 p3 cancelled ea es fa fs (inl (0, refl, rw q ex))
  handle-Ended limit a p p2 p3 (raised e) rest ex ea es fa fs ih =
      let q : a + 0 ≡ a = omega arith in
      elim (Bool-cases policy.fail_fast) [
        | inl f ↦
            simp f (last_attempt limit a p p2 p3 (failed e) ea es fa fs (0, refl, rw q ex, inl f))
        | inr f ↦ elim (Bool-cases (limit == 0)) [
          | inl z ↦
              simp (f, z)
                (last_attempt limit a p p2 p3 (failed e) ea es fa fs
                  (0, refl, rw q ex, inr (ground arith)))
          | inr z ↦
              simp (f, z) (more_attempts limit a p p2 p3 (rest p3) ea es fa fs (ground arith) ih)
        ]
      ]

  attempt_loop-Ended :
      (limit a : ℕ) (p : Progress) → Ended env policy limit a p (attempt_loop env policy limit a p)
  unfolding attempt_loop try_attempt
  attempt_loop-Ended zero a p = record {
    made = 0;
    slept = 0;
    bound = omega arith;
    attempts = sym (append-nil p.attempts);
    sleeps = sym (append-nil p.sleeps);
    pauses = inl refl;
    reason = refl;
  }
  attempt_loop-Ended (suc limit) a p =
      go (observe env policy (env.cancel_before a) p) refl refl
        (λ p3. attempt_loop-Ended limit (a + 1) p3)
    where
      go :
          (p1 : Progress)
          → p1.attempts ≡ p.attempts
          → p1.sleeps ≡ p.sleeps
          → ((p3 : Progress)
              → Ended env policy limit (a + 1) p3 (attempt_loop env policy limit (a + 1) p3))
          → Ended env policy (suc limit) a p (
              if p1.is_cancelled
              then (returned, p1)
              else if is_interrupted env policy a
              then (cancelled, back_off env policy a p1)
              else if (back_off env policy a p1).is_cancelled
              then (returned, back_off env policy a p1)
              else try_attempt env policy a limit
                  (back_off env policy a p1)
                  (attempt_loop env policy limit (a + 1)))
      go p1 ea es ih = elim (Bool-cases p1.is_cancelled) [
        | inl t ↦ simp t (record {
          made = 0;
          slept = 0;
          bound = omega arith;
          attempts = ea ∙ sym (append-nil p.attempts);
          sleeps = es ∙ sym (append-nil p.sleeps);
          pauses = inl refl;
          reason = inl t;
        })
        | inr t ↦ elim (Bool-cases (is_interrupted env policy a)) [
          | inl i ↦
              simp (t, i)
                (record {
                  made = 0;
                  slept = 1;
                  bound = omega arith;
                  attempts = back_off-attempts a p1 ∙ ea ∙ sym (append-nil p.attempts);
                  sleeps =
                      back_off-sleeps a p1 ∙ ap (λ l. l ++ doubling policy.retry_backoff 1 a) es;
                  pauses = inr (omega arith);
                  reason = inr (interrupted-at a i);
                })
          | inr i ↦ elim (Bool-cases (back_off env policy a p1).is_cancelled) [
            | inl u ↦
                simp (t, i, u)
                  (record {
                    made = 0;
                    slept = 1;
                    bound = omega arith;
                    attempts = back_off-attempts a p1 ∙ ea ∙ sym (append-nil p.attempts);
                    sleeps =
                        back_off-sleeps a p1 ∙ ap (λ l. l ++ doubling policy.retry_backoff 1 a) es;
                    pauses = inr (omega arith);
                    reason = inl u;
                  })
            | inr u ↦
                simp (t, i, u)
                  (handle-Ended limit a p (back_off env policy a p1) _ (env.attempt a) _ refl
                    (back_off-attempts a p1 ∙ ea)
                    (back_off-sleeps a p1 ∙ ap (λ l. l ++ doubling policy.retry_backoff 1 a) es)
                    refl refl (ih _))
          ]
        ]
      ]

  -- `_execute_with_policy` makes the attempts 0, 1, 2, … up to some count, at most one more than
  -- `retry_count`; before each but the first it sleeps, each time twice as long as before; and it
  -- ends for the reason that its result says: it returns after a successful attempt or because
  -- of the cancellation token, it times out with the last attempt, it raises the exception of
  -- the last attempt if that was the last allowed or `fail_fast` is set, and it is cancelled with
  -- its task during the last attempt or during the backoff before the next one. It never falls out of its
  -- loop.
  pub execute_with_policy-Ended :
      Ended env policy (suc policy.retry_count) 0 start (execute_with_policy env policy)
  unfolding execute_with_policy
  execute_with_policy-Ended = attempt_loop-Ended (suc policy.retry_count) 0 start
