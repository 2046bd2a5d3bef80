-- ===== src/Mirror/RateLimiter/Throttle.antt =====
-- The rate that the token bucket keeps (src/debcraft/infrastructure/mirror/rate_limiter.py).
use debcraft.Prelude.{
  ℕ, ◌+◌, ◌-◌, ◌*◌, ◌≤◌, ◌≡◌, refl, ap, ◌∙◌, inl, inr, Bool, true, false, List, [], ◌∷◌, arith, ltb,
  leb, if◌then◌else◌, Bool-cases,
}
use debcraft.Mirror.RateLimiter.{Limiter, create, replenish, take_token, take_each}

-- The bucket holds no more than its size.
abbrev pub IsBounded : Limiter → Type 0
IsBounded l = l.tokens ≤ l.max_tokens * l.period

-- How many of the attempts take a token.
unfoldable pub granted : Limiter → List ℕ → ℕ
granted l [] = 0
granted l (now ∷ times) =
    let rest = granted (take_token l now).0 times in if (take_token l now).1 then 1 + rest else rest

-- What an attempt that leaves `k` of `l` costs: tokens come with the clock only, and each one that
-- is granted costs a period.
abbrev cost : Limiter → Bool → ℕ
cost l true = l.period
cost l false = 0

record Spends (l k : Limiter) (b : Bool) : Type 0 where
  same_period : k.period ≡ l.period
  same_max : k.max_tokens ≡ l.max_tokens
  forward : l.last_replenish ≤ k.last_replenish
  paid : cost l b + k.tokens + l.last_replenish ≤ l.tokens + k.last_replenish
  bounded : IsBounded l → IsBounded k

replenish-Spends : (l : Limiter) (now : ℕ) → Spends l (replenish l now) false
unfolding replenish
replenish-Spends l now = elim (Bool-cases (ltb l.last_replenish now)) [
  | inl e ↦ rw e (record {
    same_period = refl;
    same_max = refl;
    forward = ground arith;
    paid = ground arith;
    bounded = λ h. ground arith;
  })
  | inr e ↦ rw e (record {
    same_period = refl;
    same_max = refl;
    forward = omega arith;
    paid = omega arith;
    bounded = λ h. h;
  })
]

take_token-Spends : (l : Limiter) (now : ℕ) → Spends l (take_token l now).0 (take_token l now).1
unfolding take_token
take_token-Spends l now =
    let full = replenish l now in
    let s = replenish-Spends l now in
    elim (Bool-cases (leb full.period full.tokens)) [
      | inl e ↦ rw e (record {
        same_period = s.same_period;
        same_max = s.same_max;
        forward = s.forward;
        paid = ground (arith, s.same_period, s.paid);
        bounded = λ h. omega (arith, s.bounded h);
      })
      | inr e ↦ rw e s
    ]

-- What `count` tokens cost, over several attempts that leave `k` of `l`.
record Account (l k : Limiter) (count : ℕ) : Type 0 where
  same_period : k.period ≡ l.period
  same_max : k.max_tokens ≡ l.max_tokens
  forward : l.last_replenish ≤ k.last_replenish
  paid : count * l.period + k.tokens + l.last_replenish ≤ l.tokens + k.last_replenish
  bounded : IsBounded l → IsBounded k

Spends-Account :
    (l k m : Limiter) (b : Bool) (count : ℕ)
    → Spends l k b
    → Account k m count
    → Account l m (if b then 1 + count else count)
Spends-Account l k m true count s a = record {
  same_period = a.same_period ∙ s.same_period;
  same_max = a.same_max ∙ s.same_max;
  forward = omega (arith, s.forward, a.forward);
  paid =
      let p : count * k.period ≡ count * l.period = ap (λ x. count * x) s.same_period in
      omega (arith, s.paid, a.paid, p);
  bounded = λ h. a.bounded (s.bounded h);
}
Spends-Account l k m false count s a = record {
  same_period = a.same_period ∙ s.same_period;
  same_max = a.same_max ∙ s.same_max;
  forward = omega (arith, s.forward, a.forward);
  paid =
      let p : count * k.period ≡ count * l.period = ap (λ x. count * x) s.same_period in
      omega (arith, s.paid, a.paid, p);
  bounded = λ h. a.bounded (s.bounded h);
}

take_each-Account : (times : List ℕ) (l : Limiter) → Account l (take_each l times) (granted l times)
unfolding take_each granted
take_each-Account [] l = record {
  same_period = refl;
  same_max = refl;
  forward = omega arith;
  paid = omega arith;
  bounded = λ h. h;
}
take_each-Account (now ∷ times) l =
    let k = (take_token l now).0 in
    Spends-Account l k (take_each k times) (take_token l now).1 (granted k times)
      (take_token-Spends l now) (take_each-Account times k)

-- From a bucket that holds no more than its size, any attempts of any tasks in any order take at
-- most the size of the bucket and one token for each period of the clock between the replenishings
-- before and after them, and the bucket again holds no more than its size.
pub take_each-granted :
    (l : Limiter) (times : List ℕ)
    → IsBounded l
    → (granted l times * l.period
        ≤ l.max_tokens * l.period + ((take_each l times).last_replenish - l.last_replenish))
      × IsBounded (take_each l times)
take_each-granted l times h =
    let a = take_each-Account times l in (omega (arith, a.paid, a.forward, h), a.bounded h)

-- A new bucket of size `burst_size` grants, to any attempts, at most that many tokens and one more
-- for each period that its clock has advanced.
pub create-granted :
    (period burst_size now : ℕ) (times : List ℕ)
    → granted (create period burst_size now) times * period
      ≤ burst_size * period
        + ((take_each (create period burst_size now) times).last_replenish - now)
unfolding create
create-granted period burst_size now times =
    (take_each-granted (create period burst_size now) times (omega arith)).0
