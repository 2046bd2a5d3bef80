-- ===== src/Mirror/RateLimiter/Alone.antt =====
-- A task that acquires a token while no other task does
-- (src/debcraft/infrastructure/mirror/rate_limiter.py).
use debcraft.Prelude.{
  ℕ, zero, suc, ◌+◌, ◌*◌, ◌≤◌, ◌<◌, ◌≡◌, refl, inl, inr, ◌⊎◌, Bool, true, false, List, [], ◌∷◌,
  arith, leb, Bool-cases,
}
use debcraft.Mirror.RateLimiter.{
  Limiter, Round, Acquired, replenish, take_token, take_each, change_each, sleep_time, end_round,
  acquire_loop,
}

-- A round before which no other task did anything.
abbrev pub alone : ℕ → ℕ → ℕ → Round
alone now checked woken = record {
  others = [];
  changes = [];
  now = now;
  checked = checked;
  woken = woken;
}

le-mul : (m p : ℕ) → 1 ≤ m → p ≤ m * p
le-mul zero p h = omega arith
le-mul (suc m) p h = omega arith

-- A period after the last replenishing there is a token.
take_token_refilled :
    (l : Limiter) (now : ℕ)
    → 1 ≤ l.max_tokens
    → l.last_replenish + l.period ≤ now
    → (take_token l now).1 ≡ true
unfolding take_token replenish
take_token_refilled l now h k = let m = le-mul l.max_tokens l.period h in ground (arith, m)

-- What an attempt that finds no token leaves.
record Refused (l k : Limiter) (now : ℕ) : Type 0 where
  same_period : k.period ≡ l.period
  same_max : k.max_tokens ≡ l.max_tokens
  replenished : k.last_replenish ≡ now

take_token-Refused :
    (l : Limiter) (now : ℕ) → l.last_replenish ≤ now → Refused l (take_token l now).0 now
unfolding take_token replenish
take_token-Refused l now h = record {
  same_period = ground arith;
  same_max = ground arith;
  replenished = ground arith;
}

-- A token, or no time left when the task woke.
abbrev pub Served : ℕ → ℕ → Acquired → Type 0
Served deadline woken a = (a ≡ Acquired.acquired) ⊎ ((a ≡ Acquired.timed_out) × (deadline ≤ woken))

end_round-acquired :
    (deadline : ℕ) (round : Round) (r : Limiter × Bool) (next : Limiter → Limiter × Acquired)
    → r.1 ≡ true
    → (end_round deadline round r next).1 ≡ Acquired.acquired
unfolding end_round
end_round-acquired deadline round (l, true) next h = refl
end_round-acquired deadline round (l, false) next h = cc

-- A round ends with a token, late, or goes on before the deadline.
end_round-Served :
    (deadline now checked woken : ℕ) (r : Limiter × Bool) (next : Limiter → Limiter × Acquired)
    → checked ≤ woken
    → (woken < deadline → (next r.0).1 ≡ Acquired.acquired)
    → Served deadline woken (end_round deadline (alone now checked woken) r next).1
unfolding end_round
end_round-Served deadline now checked woken (l, true) next hc h = inl refl
end_round-Served deadline now checked woken (l, false) next hc h =
    elim (Bool-cases (leb deadline checked)) [
      | inl e ↦ rw e (inr (refl, ground arith))
      | inr e ↦ elim (Bool-cases (leb deadline woken)) [
        | inl f ↦ rw (e, f) (inr (refl, ground arith))
        | inr f ↦ rw (e, f) (inl (h (ground arith)))
      ]
    ]

-- A task that acquires a token alone, from a bucket of size 1 at least, has it in its second round
-- at the latest, when it has slept in the first as long as it asked to; or its first round ended
-- after the deadline, and it has timed out.
pub acquire_loop-alone :
    (l : Limiter) (deadline now checked woken now' checked' woken' : ℕ) (rounds : List Round)
    → 1 ≤ l.max_tokens
    → l.last_replenish ≤ now
    → now ≤ checked
    → checked + sleep_time l deadline checked ≤ woken
    → woken ≤ now'
    → Served deadline woken
        (acquire_loop l deadline (alone now checked woken ∷ alone now' checked' woken' ∷ rounds)).1
unfolding acquire_loop take_each change_each sleep_time
acquire_loop-alone l deadline now checked woken now' checked' woken' rounds hm hl hc hs hw =
    let r = take_token-Refused l now hl in
    end_round-Served deadline now checked woken (take_token l now)
      (λ k. acquire_loop k deadline (alone now' checked' woken' ∷ rounds)) (omega arith)
      λ h.
        end_round-acquired deadline (alone now' checked' woken')
          (take_token (take_token l now).0 now') (λ k. acquire_loop k deadline rounds)
          (take_token_refilled (take_token l now).0 now' (omega (arith, r.same_max))
            (omega (arith, r.replenished, r.same_period)))
