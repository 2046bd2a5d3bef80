-- ===== src/Kernel/Container/Stack.antt =====
-- What `resolve` leaves alone, whether it returns or raises.
use debcraft.Prelude.{
  ℕ, zero, suc, ◌≤◌, ◌≡◌, refl, ap, ◌∙◌, Bool, true, false, not, Bool-cases, inl, inr, Option, none,
  some, List, [], ◌∷◌, arith, keep, contains, nat_eq, ◌==◌, ok, err,
}
use debcraft.Prelude.Dict.{get, get-put}
use debcraft.Kernel.Container.{
  Lifetime, singleton, transient, scoped, ServiceRegistration, Container, Outcome, cached, push,
  discard, store, finish, with_rest, with_first, resolve_all, construct, create_instance,
  resolve_new, resolve_cached, resolve_registered, resolve_fuel, resolve,
}

-- From `c` to `d` the stack and the registrations are as before, no object goes away, and of the
-- singletons those in the cache stay, and those under construction do not appear.
pub record Leaves (c d : Container) : Type 0 where
  pub stack : d.resolution_stack ≡ c.resolution_stack
  pub registrations : d.registrations ≡ c.registrations
  pub objects : c.objects ≤ d.objects
  pub pending :
      (k : ℕ) → contains c.resolution_stack k ≡ true → get d.singletons k ≡ get c.singletons k
  pub kept : (k i : ℕ) → get c.singletons k ≡ some i → get d.singletons k ≡ some i

pub Leaves-refl : (c : Container) → Leaves c c
Leaves-refl c = record {
  stack = refl;
  registrations = refl;
  objects = omega arith;
  pending = λ k h. refl;
  kept = λ k i h. h;
}

pub Leaves-trans : (c d e : Container) → Leaves c d → Leaves d e → Leaves c e
Leaves-trans c d e a b = record {
  stack = b.stack ∙ a.stack;
  registrations = b.registrations ∙ a.registrations;
  objects = omega (arith, a.objects, b.objects);
  pending = λ k h. b.pending k (rw a.stack h) ∙ a.pending k h;
  kept = λ k i h. b.kept k i (a.kept k i h);
}

abbrev pub AlwaysLeaves : (ℕ → Container → Outcome ℕ) → Type 0
AlwaysLeaves f = (t : ℕ) (c : Container) → Leaves c (f t c).0

with_rest-state : (i : ℕ) (o : Outcome (List ℕ)) → (with_rest i o).0 ≡ o.0
with_rest-state i (c, ok is) = refl
with_rest-state i (c, err e) = refl

with_first-Leaves :
    (rest : Container → Outcome (List ℕ)) (c : Container) (o : Outcome ℕ)
    → ((d : Container) → Leaves d (rest d).0)
    → Leaves c o.0
    → Leaves c (with_first rest o).0
with_first-Leaves rest c (d, err e) h a = a
with_first-Leaves rest c (d, ok i) h a =
    rw (with_rest-state i (rest d)) (Leaves-trans c d (rest d).0 a (h d))

pub resolve_all-Leaves :
    (f : ℕ → Container → Outcome ℕ) (ts : List ℕ) (c : Container)
    → AlwaysLeaves f
    → Leaves c (resolve_all f ts c).0
unfolding resolve_all
resolve_all-Leaves f [] c h = Leaves-refl c
resolve_all-Leaves f (t ∷ ts) c h =
    with_first-Leaves (resolve_all f ts) c (f t c) (λ d. resolve_all-Leaves f ts d h) (h t c)

-- Discarding what is not there changes nothing.
pub keep-absent : (t : ℕ) (ts : List ℕ) → contains ts t ≡ false → keep (λ s. not (s == t)) ts ≡ ts
keep-absent t [] h = refl
keep-absent t (s ∷ ts) h = ground (arith, keep-absent t ts)

keep-push : (t : ℕ) (ts : List ℕ) → contains ts t ≡ false → keep (λ s. not (s == t)) (t ∷ ts) ≡ ts
keep-push t ts h = ground (arith, keep-absent t ts h)

not_contained :
    (k t : ℕ) (ts : List ℕ) → contains ts t ≡ false → contains ts k ≡ true → (t == k) ≡ false
not_contained k t ts h g = elim (Bool-cases (t == k)) [
  | inl e ↦ let p : t ≡ k = ground arith in cc
  | inr e ↦ e
]

-- The stack after a service is made.
discard-Leaves :
    (t : ℕ) (c d : Container)
    → contains c.resolution_stack t ≡ false
    → Leaves (push t c) d
    → Leaves c (discard t d)
discard-Leaves t c d h a = record {
  stack = ap (keep (λ s. not (s == t))) a.stack ∙ keep-push t c.resolution_stack h;
  registrations = a.registrations;
  objects = a.objects;
  pending = λ k g. a.pending k (ground (arith, g));
  kept = a.kept;
}

store-Leaves :
    (l : Lifetime) (t i : ℕ) (c d : Container)
    → contains c.resolution_stack t ≡ false
    → cached l t c ≡ none
    → Leaves c d
    → Leaves c (store l t i d)
unfolding store cached
store-Leaves transient t i c d h n a = a
store-Leaves scoped t i c d h n a = a
store-Leaves singleton t i c d h n a = record {
  stack = a.stack;
  registrations = a.registrations;
  objects = a.objects;
  pending = λ k g.
      get-put d.singletons t k i ∙ rw (not_contained k t c.resolution_stack h g) (a.pending k g);
  kept = λ k j g. get-put d.singletons t k i ∙ rw (other k j g) (a.kept k j g);
}
  where
    other : (k j : ℕ) → get c.singletons k ≡ some j → (t == k) ≡ false
    other k j g = elim (Bool-cases (t == k)) [
      | inl e ↦ let p : t ≡ k = ground arith in cc
      | inr e ↦ e
    ]

module _ (annotations : ℕ → List ℕ) (constructs : ℕ → Bool) where
  construct-Leaves :
      (impl : ℕ) (c : Container) (o : Outcome (List ℕ))
      → Leaves c o.0
      → Leaves c (construct annotations constructs impl o).0
  unfolding construct
  construct-Leaves impl c (d, err e) a = a
  construct-Leaves impl c (d, ok is) a = elim (Bool-cases (constructs impl)) [
    | inl e ↦ rw e (record {
      stack = a.stack;
      registrations = a.registrations;
      objects = omega (arith, a.objects);
      pending = a.pending;
      kept = a.kept;
    })
    | inr e ↦ rw e a
  ]

  create_instance-Leaves :
      (f : ℕ → Container → Outcome ℕ) (impl : ℕ) (c : Container)
      → AlwaysLeaves f
      → Leaves c (create_instance annotations constructs f impl c).0
  unfolding create_instance
  create_instance-Leaves f impl c h =
      construct-Leaves impl c (resolve_all f (annotations impl) c)
        (resolve_all-Leaves f (annotations impl) c h)

  finish-Leaves :
      (l : Lifetime) (t : ℕ) (c : Container) (o : Outcome ℕ)
      → contains c.resolution_stack t ≡ false
      → cached l t c ≡ none
      → Leaves (push t c) o.0
      → Leaves c (finish l t o).0
  unfolding finish
  finish-Leaves l t c (d, ok i) h n a =
      store-Leaves l t i c (discard t d) h n (discard-Leaves t c d h a)
  finish-Leaves l t c (d, err e) h n a = discard-Leaves t c d h a

  resolve_new-Leaves :
      (f : ℕ → Container → Outcome ℕ) (t : ℕ) (reg : ServiceRegistration) (c : Container)
      → AlwaysLeaves f
      → cached reg.lifetime t c ≡ none
      → Leaves c (resolve_new annotations constructs f t reg c).0
  unfolding resolve_new
  resolve_new-Leaves f t reg c h n = elim (Bool-cases (contains c.resolution_stack t)) [
    | inl e ↦ rw e (Leaves-refl c)
    | inr e ↦ rw e (
        finish-Leaves reg.lifetime t c
          (create_instance annotations constructs f reg.implementation (push t c)) e n
          (create_instance-Leaves f reg.implementation (push t c) h))
  ]

  resolve_cached-Leaves :
      (f : ℕ → Container → Outcome ℕ) (t : ℕ) (reg : ServiceRegistration) (o : Option ℕ)
      (c : Container)
      → AlwaysLeaves f
      → cached reg.lifetime t c ≡ o
      → Leaves c (resolve_cached annotations constructs f t reg o c).0
  unfolding resolve_cached
  resolve_cached-Leaves f t reg none c h n = resolve_new-Leaves f t reg c h n
  resolve_cached-Leaves f t reg (some i) c h n = Leaves-refl c

  resolve_registered-Leaves :
      (f : ℕ → Container → Outcome ℕ) (t : ℕ) (o : Option ServiceRegistration) (c : Container)
      → AlwaysLeaves f
      → Leaves c (resolve_registered annotations constructs f t o c).0
  unfolding resolve_registered
  resolve_registered-Leaves f t none c h = Leaves-refl c
  resolve_registered-Leaves f t (some reg) c h = resolve_cached-Leaves f t reg _ c h refl

  pub resolve_fuel-Leaves : (fuel : ℕ) → AlwaysLeaves (resolve_fuel annotations constructs fuel)
  unfolding resolve_fuel
  resolve_fuel-Leaves zero t c = Leaves-refl c
  resolve_fuel-Leaves (suc fuel) t c =
      resolve_registered-Leaves (resolve_fuel annotations constructs fuel) t (get c.registrations t)
        c (resolve_fuel-Leaves fuel)

  -- Whether `resolve` returns or raises, it leaves the resolution stack and the registrations as
  -- they were, never replaces an instance in the cache of singletons, and never caches a service
  -- that is under construction.
  pub resolve-Leaves : (t : ℕ) (c : Container) → Leaves c (resolve annotations constructs t c).0
  unfolding resolve
  resolve-Leaves t c = resolve_fuel-Leaves _ t c
