-- ===== src/Mirror/RateLimiter/Waiting.antt =====
-- How a task that acquires a token comes to an end
-- (src/debcraft/infrastructure/mirror/rate_limiter.py).
use debcraft.Prelude.{
  ℕ, ◌≤◌, ◌<◌, inl, inr, ◌⊎◌, Bool, true, false, List, [], ◌∷◌, arith, leb, Bool-cases, All,
}
use debcraft.Mirror.RateLimiter.{
  Limiter, Round, Acquired, take_token, take_each, change_each, end_round, acquire_loop,
}

-- Some round of the list ended after the deadline, before its sleep or after it.
abbrev pub IsLate : ℕ → List Round → Type 0
IsLate deadline [] = ⊥
IsLate deadline (round ∷ rounds) =
    (deadline ≤ round.checked) ⊎ ((deadline ≤ round.woken) ⊎ IsLate deadline rounds)

-- All rounds slept and woke before the deadline.
abbrev pub AreEarly : ℕ → List Round → Type 0
AreEarly deadline = All (λ round. (round.checked < deadline) × (round.woken < deadline))

-- What the outcome of the loop tells of the clock.
abbrev pub Timely : ℕ → List Round → Acquired → Type 0
Timely deadline rounds Acquired.acquired = Unit
Timely deadline rounds Acquired.timed_out = IsLate deadline rounds
Timely deadline rounds Acquired.cancelled = ⊥
Timely deadline rounds Acquired.waiting = AreEarly deadline rounds

Timely-cons :
    (deadline : ℕ) (round : Round) (rounds : List Round) (a : Acquired)
    → round.checked < deadline
    → round.woken < deadline
    → Timely deadline rounds a
    → Timely deadline (round ∷ rounds) a
Timely-cons deadline round rounds Acquired.acquired h k t = tt
Timely-cons deadline round rounds Acquired.timed_out h k t = inr (inr t)
Timely-cons deadline round rounds Acquired.cancelled h k t = t
Timely-cons deadline round rounds Acquired.waiting h k t = ((h, k), t)

end_round-Timely :
    (deadline : ℕ) (round : Round) (rounds : List Round) (r : Limiter × Bool)
    (next : Limiter → Limiter × Acquired)
    → ((k : Limiter) → Timely deadline rounds (next k).1)
    → Timely deadline (round ∷ rounds) (end_round deadline round r next).1
unfolding end_round
end_round-Timely deadline round rounds (l, true) next t = tt
end_round-Timely deadline round rounds (l, false) next t =
    elim (Bool-cases (leb deadline round.checked)) [
      | inl e ↦ rw e (inl (ground arith))
      | inr e ↦ elim (Bool-cases (leb deadline round.woken)) [
        | inl f ↦ rw (e, f) (inr (inl (ground arith)))
        | inr f ↦
            rw (e, f)
              (Timely-cons deadline round rounds (next l).1 (ground arith) (ground arith) (t l))
      ]
    ]

-- Whatever the other tasks take, a task times out only when a round of it has reached the deadline,
-- and it still waits only while all its rounds have ended before the deadline.
pub acquire_loop-Timely :
    (rounds : List Round) (l : Limiter) (deadline : ℕ)
    → Timely deadline rounds (acquire_loop l deadline rounds).1
unfolding acquire_loop
acquire_loop-Timely [] l deadline = tt
acquire_loop-Timely (round ∷ rounds) l deadline =
    end_round-Timely deadline round rounds
      (take_token (take_each (change_each l round.changes) round.others) round.now)
      (λ k. acquire_loop k deadline rounds) (λ k. acquire_loop-Timely rounds k deadline)
