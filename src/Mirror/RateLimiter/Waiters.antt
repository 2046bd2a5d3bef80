-- ===== src/Mirror/RateLimiter/Waiters.antt =====
-- The list of waiting tasks (src/debcraft/infrastructure/mirror/rate_limiter.py).
use debcraft.Prelude.{
  ℕ, zero, suc, ◌+◌, ◌≤◌, ◌≡◌, ◌≢◌, refl, ap, ◌∙◌, inl, inr, ◌⊎◌, Bool, true, false, List, [], ◌∷◌,
  ◌++◌, arith, leb, Bool-cases, All, contains, nat_eq, length, take, ◌==◌,
}
use debcraft.Mirror.RateLimiter.{
  Limiter, Round, Acquired, Change, enters, leaves, cancels, replenish, take_token, take_each,
  end_round, acquire_loop, remove_waiter, cancel_waiters, change_waiters, change_each, leave,
  acquire,
}

-- The list of waiters after what other tasks do to it.
abbrev pub changed : List ℕ → Change → List ℕ
changed ws (enters future) = ws ++ future ∷ []
changed ws (leaves future) = remove_waiter ws future
changed ws cancels = []

abbrev pub changed_by : List ℕ → List Change → List ℕ
changed_by ws [] = ws
changed_by ws (change ∷ changes) = changed_by (changed ws change) changes

abbrev pub changed_in : List ℕ → List Round → List ℕ
changed_in ws [] = ws
changed_in ws (round ∷ rounds) = changed_in (changed_by ws round.changes) rounds

-- The future is not one with which another task enters.
abbrev pub IsOther : ℕ → Change → Type 0
IsOther waiter (enters future) = (future == waiter) ≡ false
IsOther waiter (leaves future) = Unit
IsOther waiter cancels = Unit

abbrev pub IsOwn : ℕ → List Round → Type 0
IsOwn waiter = All (λ round. All (IsOther waiter) round.changes)

remove_waiter-append :
    (ws : List ℕ) (waiter : ℕ)
    → contains ws waiter ≡ false
    → remove_waiter (ws ++ waiter ∷ []) waiter ≡ ws
unfolding remove_waiter
remove_waiter-append [] waiter h = ground arith
remove_waiter-append (w ∷ ws) waiter h = ground (arith, remove_waiter-append ws waiter)

remove_waiter-append_other :
    (ws : List ℕ) (waiter future : ℕ)
    → (future == waiter) ≡ false
    → remove_waiter (ws ++ future ∷ []) waiter ≡ remove_waiter ws waiter ++ future ∷ []
unfolding remove_waiter
remove_waiter-append_other [] waiter future h = rw h
remove_waiter-append_other (w ∷ ws) waiter future h =
    ground (arith, remove_waiter-append_other ws waiter future h)

remove_waiter_comm :
    (ws : List ℕ) (v w : ℕ)
    → remove_waiter (remove_waiter ws v) w ≡ remove_waiter (remove_waiter ws w) v
unfolding remove_waiter
remove_waiter_comm [] v w = refl
remove_waiter_comm (u ∷ ws) v w = ground (arith, remove_waiter_comm ws v w)

-- What others do to the list does not depend on whether the task's own future is in it.
changed-remove :
    (ws : List ℕ) (waiter : ℕ) (change : Change)
    → IsOther waiter change
    → remove_waiter (changed ws change) waiter ≡ changed (remove_waiter ws waiter) change
changed-remove ws waiter (enters future) h = remove_waiter-append_other ws waiter future h
changed-remove ws waiter (leaves future) h = remove_waiter_comm ws future waiter
changed-remove ws waiter cancels h = unfold remove_waiter in refl

changed_by-remove :
    (changes : List Change) (ws : List ℕ) (waiter : ℕ)
    → All (IsOther waiter) changes
    → remove_waiter (changed_by ws changes) waiter ≡ changed_by (remove_waiter ws waiter) changes
changed_by-remove [] ws waiter h = refl
changed_by-remove (change ∷ changes) ws waiter (h, k) =
    changed_by-remove changes (changed ws change) waiter k
    ∙ ap (λ l. changed_by l changes) (changed-remove ws waiter change h)

changed_in-remove :
    (rounds : List Round) (ws : List ℕ) (waiter : ℕ)
    → IsOwn waiter rounds
    → remove_waiter (changed_in ws rounds) waiter ≡ changed_in (remove_waiter ws waiter) rounds
changed_in-remove [] ws waiter h = refl
changed_in-remove (round ∷ rounds) ws waiter (h, k) =
    changed_in-remove rounds (changed_by ws round.changes) waiter k
    ∙ ap (λ l. changed_in l rounds) (changed_by-remove round.changes ws waiter h)

take-All : (P : Round → Type 0) (n : ℕ) (rounds : List Round) → All P rounds → All P (take n rounds)
take-All P zero rounds h = tt
take-All P (suc n) [] h = tt
take-All P (suc n) (round ∷ rounds) h = (h.0, take-All P n rounds h.1)

waiters-take_token : (l : Limiter) (now : ℕ) → (take_token l now).0.waiters ≡ l.waiters
unfolding take_token replenish
waiters-take_token l now = ground arith

waiters-take_each : (times : List ℕ) (l : Limiter) → (take_each l times).waiters ≡ l.waiters
unfolding take_each
waiters-take_each [] l = refl
waiters-take_each (now ∷ times) l =
    waiters-take_each times (take_token l now).0 ∙ waiters-take_token l now

waiters-change_waiters :
    (l : Limiter) (change : Change) → (change_waiters l change).waiters ≡ changed l.waiters change
unfolding change_waiters cancel_waiters
waiters-change_waiters l (enters future) = refl
waiters-change_waiters l (leaves future) = refl
waiters-change_waiters l cancels = refl

waiters-change_each :
    (changes : List Change) (l : Limiter)
    → (change_each l changes).waiters ≡ changed_by l.waiters changes
unfolding change_each
waiters-change_each [] l = refl
waiters-change_each (change ∷ changes) l =
    waiters-change_each changes (change_waiters l change)
    ∙ ap (λ ws. changed_by ws changes) (waiters-change_waiters l change)

-- The waiters after `n` of the rounds: all of them if the task still waits, at least one otherwise.
Ran : List ℕ → List Round → Limiter × Acquired → Type 0
Ran ws rounds r =
    (n : ℕ) × (n ≤ length rounds)
    × ((r.0).waiters ≡ changed_in ws (take n rounds))
    × (((r.1 ≡ Acquired.waiting) × (n ≡ length rounds)) ⊎ (1 ≤ n))

one_round :
    (ws : List ℕ) (round : Round) (rounds : List Round) (r : Limiter × Acquired)
    → (r.0).waiters ≡ changed_by ws round.changes
    → Ran ws (round ∷ rounds) r
unfolding Ran
one_round ws round rounds r h = (1, omega arith, h, inr (omega arith))

counted :
    (rounds : List Round) (n : ℕ) (a : Acquired)
    → ((a ≡ Acquired.waiting) × (n ≡ length rounds)) ⊎ (1 ≤ n)
    → ((a ≡ Acquired.waiting) × (suc n ≡ suc (length rounds))) ⊎ (1 ≤ suc n)
counted rounds n a (inl (w, e)) = inl (w, ap suc e)
counted rounds n a (inr h) = inr (omega arith)

waiters-end_round :
    (ws : List ℕ) (deadline : ℕ) (round : Round) (rounds : List Round) (r : Limiter × Bool)
    (next : Limiter → Limiter × Acquired)
    → (r.0).waiters ≡ changed_by ws round.changes
    → ((k : Limiter)
        → k.waiters ≡ changed_by ws round.changes
        → Ran (changed_by ws round.changes) rounds (next k))
    → Ran ws (round ∷ rounds) (end_round deadline round r next)
unfolding end_round
waiters-end_round ws deadline round rounds (l, true) next h k = one_round ws round rounds _ h
waiters-end_round ws deadline round rounds (l, false) next h k =
    elim (Bool-cases (leb deadline round.checked)) [
      | inl e ↦ rw e (one_round ws round rounds _ h)
      | inr e ↦ elim (Bool-cases (leb deadline round.woken)) [
        | inl f ↦ rw (e, f) (one_round ws round rounds _ h)
        | inr f ↦ rw (e, f) (more (next l) (k l h))
      ]
    ]
  where
    more :
        (s : Limiter × Acquired)
        → Ran (changed_by ws round.changes) rounds s
        → Ran ws (round ∷ rounds) s
    more s = unfold Ran in λ (n, b, e, c). (suc n, omega (arith, b), e, counted rounds n s.1 c)

waiters-acquire_loop :
    (rounds : List Round) (l : Limiter) (ws : List ℕ) (deadline : ℕ)
    → l.waiters ≡ ws
    → Ran ws rounds (acquire_loop l deadline rounds)
unfolding acquire_loop
waiters-acquire_loop [] l ws deadline h = unfold Ran in (0, omega arith, h, inl (refl, refl))
waiters-acquire_loop (round ∷ rounds) l ws deadline h =
    let m = take_each (change_each l round.changes) round.others in
    waiters-end_round ws deadline round rounds (take_token m round.now)
      (λ k. acquire_loop k deadline rounds)
      (waiters-take_token m round.now
        ∙ waiters-take_each round.others (change_each l round.changes)
        ∙ waiters-change_each round.changes l
        ∙ ap (λ u. changed_by u round.changes) h)
      (λ k e. waiters-acquire_loop rounds k (changed_by ws round.changes) deadline e)

leave-removes :
    (interrupted : Bool) (waiter : ℕ) (r : Limiter × Acquired)
    → (leave interrupted waiter r).1 ≢ Acquired.waiting
    → ((leave interrupted waiter r).0).waiters ≡ remove_waiter (r.0).waiters waiter
unfolding leave
leave-removes false waiter (l, Acquired.waiting) h = absurd (h refl)
leave-removes true waiter (l, Acquired.waiting) h = refl
leave-removes false waiter (l, Acquired.acquired) h = refl
leave-removes true waiter (l, Acquired.acquired) h = refl
leave-removes false waiter (l, Acquired.timed_out) h = refl
leave-removes true waiter (l, Acquired.timed_out) h = refl
leave-removes false waiter (l, Acquired.cancelled) h = refl
leave-removes true waiter (l, Acquired.cancelled) h = refl

leave-cancelled :
    (interrupted : Bool) (waiter : ℕ) (r : Limiter × Acquired)
    → (leave interrupted waiter r).1 ≢ Acquired.waiting
    → r.1 ≡ Acquired.waiting
    → (leave interrupted waiter r).1 ≡ Acquired.cancelled
unfolding leave
leave-cancelled false waiter (l, Acquired.waiting) h e = absurd (h refl)
leave-cancelled true waiter (l, Acquired.waiting) h e = refl
leave-cancelled interrupted waiter (l, Acquired.acquired) h e = cc
leave-cancelled interrupted waiter (l, Acquired.timed_out) h e = cc
leave-cancelled interrupted waiter (l, Acquired.cancelled) h e = cc

-- An acquisition that ends, with a token, by its timeout or cancelled, leaves the list of waiters as if
-- it had not been in it: what the other tasks did to it during its rounds, `n` of them, is done
-- to the list of before. These are all of the given rounds if it was cancelled, else at least one. Its future is neither in that list nor one with which another task enters.
pub waiters-acquire :
    (l : Limiter) (waiter started timeout : ℕ) (rounds : List Round) (interrupted : Bool)
    → contains l.waiters waiter ≡ false
    → IsOwn waiter rounds
    → (acquire l waiter started timeout rounds interrupted).1 ≢ Acquired.waiting
    → (n : ℕ) × (n ≤ length rounds)
      × (((acquire l waiter started timeout rounds interrupted).0).waiters
          ≡ changed_in l.waiters (take n rounds))
      × ((((acquire l waiter started timeout rounds interrupted).1 ≡ Acquired.cancelled)
            × (n ≡ length rounds))
          ⊎ (1 ≤ n))
unfolding acquire Ran
waiters-acquire l waiter started timeout rounds interrupted h own ends =
    let entered = record l { waiters = l.waiters ++ waiter ∷ [] } in
    let done = acquire_loop entered (started + timeout) rounds in
    let ran =
      waiters-acquire_loop rounds entered (l.waiters ++ waiter ∷ []) (started + timeout) refl in
    (
      ran.0,
      ran.1,
      leave-removes interrupted waiter done ends
          ∙ ap (λ ws. remove_waiter ws waiter) ran.2
          ∙ changed_in-remove (take ran.0 rounds) (l.waiters ++ waiter ∷ []) waiter
              (take-All _ ran.0 rounds own)
          ∙ ap (λ ws. changed_in ws (take ran.0 rounds)) (remove_waiter-append l.waiters waiter h),
      elim ran.3 [
        | inl (w, e) ↦ inl (leave-cancelled interrupted waiter done ends w, e)
        | inr b ↦ inr b
      ],
    )
