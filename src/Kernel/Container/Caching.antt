-- ===== src/Kernel/Container/Caching.antt =====
-- Lifetimes: a singleton is made once, a transient service at each call.
use debcraft.Prelude.{
  ℕ, ◌+◌, ◌≤◌, ◌≡◌, refl, ap, ◌∙◌, Bool, false, Bool-cases, inl, inr, Option, none, some, List,
  contains, nat_eq, ==_refl, ok, err, length,
}
use debcraft.Prelude.Dict.{get, get-put}
use debcraft.Kernel.Container.{
  Lifetime, singleton, transient, scoped, is_singleton, ServiceRegistration, Container, Outcome,
  cached, push, store, finish, resolve_all, construct, create_instance, resolve_new, resolve_cached,
  resolve_registered, resolve_fuel, resolve,
}
use debcraft.Kernel.Container.Stack.{Leaves, resolve_all-Leaves, resolve_fuel-Leaves, AlwaysLeaves}

-- A successful end of `resolve` for a singleton has the instance in the cache.
abbrev Cached : ℕ → Outcome ℕ → Type 0
Cached t (c, ok i) = get c.singletons t ≡ some i
Cached t (c, err e) = Unit

-- One for another service has made the instance, the newest object.
abbrev Made : ℕ → Outcome ℕ → Type 0
Made n (c, ok i) = (n ≤ i) × (c.objects ≡ i + 1)
Made n (c, err e) = Unit

finish-Cached : (t : ℕ) (o : Outcome ℕ) → Cached t (finish singleton t o)
unfolding finish store
finish-Cached t (c, ok i) = get-put c.singletons t t i ∙ rw (==_refl t)
finish-Cached t (c, err e) = tt

finish-Made :
    (l : Lifetime) (t n : ℕ) (o : Outcome ℕ)
    → is_singleton l ≡ false
    → Made n o
    → Made n (finish l t o)
unfolding finish store
finish-Made singleton t n o h m = cc
finish-Made transient t n (c, ok i) h m = m
finish-Made transient t n (c, err e) h m = tt
finish-Made scoped t n (c, ok i) h m = m
finish-Made scoped t n (c, err e) h m = tt

module _ (annotations : ℕ → List ℕ) (constructs : ℕ → Bool) where
  construct-Made :
      (impl n : ℕ) (o : Outcome (List ℕ))
      → n ≤ (o.0).objects
      → Made n (construct annotations constructs impl o)
  unfolding construct
  construct-Made impl n (c, err e) h = tt
  construct-Made impl n (c, ok is) h = elim (Bool-cases (constructs impl)) [
    | inl e ↦ rw e (h, refl)
    | inr e ↦ rw e tt
  ]

  create_instance-Made :
      (f : ℕ → Container → Outcome ℕ) (impl : ℕ) (c : Container)
      → AlwaysLeaves f
      → Made c.objects (create_instance annotations constructs f impl c)
  unfolding create_instance
  create_instance-Made f impl c h =
      construct-Made impl c.objects (resolve_all f (annotations impl) c)
        (Leaves.objects (resolve_all-Leaves f (annotations impl) c h))

  resolve_new-Cached :
      (f : ℕ → Container → Outcome ℕ) (t : ℕ) (reg : ServiceRegistration) (c : Container)
      → reg.lifetime ≡ singleton
      → Cached t (resolve_new annotations constructs f t reg c)
  unfolding resolve_new
  resolve_new-Cached f t reg c e = elim (Bool-cases (contains c.resolution_stack t)) [
    | inl h ↦ rw h tt
    | inr h ↦ rw (h, e) (finish-Cached t _)
  ]

  resolve_new-Made :
      (f : ℕ → Container → Outcome ℕ) (t : ℕ) (reg : ServiceRegistration) (c : Container)
      → AlwaysLeaves f
      → is_singleton reg.lifetime ≡ false
      → Made c.objects (resolve_new annotations constructs f t reg c)
  unfolding resolve_new
  resolve_new-Made f t reg c k e = elim (Bool-cases (contains c.resolution_stack t)) [
    | inl h ↦ rw h tt
    | inr h ↦ rw h (
        finish-Made reg.lifetime t c.objects _ e
          (create_instance-Made f reg.implementation (push t c) k))
  ]

  resolve_cached-Cached :
      (f : ℕ → Container → Outcome ℕ) (t : ℕ) (reg : ServiceRegistration) (o : Option ℕ)
      (c : Container)
      → reg.lifetime ≡ singleton
      → get c.singletons t ≡ o
      → Cached t (resolve_cached annotations constructs f t reg o c)
  unfolding resolve_cached
  resolve_cached-Cached f t reg none c e h = resolve_new-Cached f t reg c e
  resolve_cached-Cached f t reg (some i) c e h = h

  cached_singleton :
      (l : Lifetime) (t : ℕ) (c : Container) → l ≡ singleton → cached l t c ≡ get c.singletons t
  unfolding cached
  cached_singleton l t c e = rw e

  cached_other :
      (l : Lifetime) (t : ℕ) (c : Container) → is_singleton l ≡ false → cached l t c ≡ none
  unfolding cached
  cached_other singleton t c e = cc
  cached_other transient t c e = refl
  cached_other scoped t c e = refl

  resolve-Cached :
      (t : ℕ) (reg : ServiceRegistration) (c : Container)
      → get c.registrations t ≡ some reg
      → reg.lifetime ≡ singleton
      → Cached t (resolve annotations constructs t c)
  unfolding resolve resolve_fuel resolve_registered
  resolve-Cached t reg c h e =
      rw (h, cached_singleton reg.lifetime t c e) (resolve_cached-Cached _ t reg _ c e refl)

  resolve_hit :
      (t i : ℕ) (reg : ServiceRegistration) (c : Container)
      → get c.registrations t ≡ some reg
      → reg.lifetime ≡ singleton
      → get c.singletons t ≡ some i
      → resolve annotations constructs t c ≡ (c, ok i)
  unfolding resolve resolve_fuel resolve_registered resolve_cached
  resolve_hit t i reg c h e k = rw (h, cached_singleton reg.lifetime t c e, k)

  of_outcome : (t i : ℕ) (o : Outcome ℕ) → Cached t o → o.1 ≡ ok i → get (o.0).singletons t ≡ some i
  of_outcome t i (c, ok j) h e = cc
  of_outcome t i (c, err j) h e = cc

  -- A singleton is shared: once `resolve` has returned an instance for it, every later call returns
  -- the same instance and changes nothing, whatever was resolved in between.
  pub resolve_shared :
      (t i : ℕ) (reg : ServiceRegistration) (c d : Container)
      → get c.registrations t ≡ some reg
      → reg.lifetime ≡ singleton
      → (resolve annotations constructs t c).1 ≡ ok i
      → Leaves (resolve annotations constructs t c).0 d
      → resolve annotations constructs t d ≡ (d, ok i)
  resolve_shared t i reg c d h e k a =
      resolve_hit t i reg d
        (ap (λ r. get r t) (a.registrations ∙ Leaves.registrations (leaves t c)) ∙ h) e
        (a.kept t i
          (of_outcome t i (resolve annotations constructs t c) (resolve-Cached t reg c h e) k))
    where
      leaves : (t : ℕ) (c : Container) → Leaves c (resolve annotations constructs t c).0
      leaves t c = unfold resolve in resolve_fuel-Leaves annotations constructs _ t c

  Made-outcome :
      (n i : ℕ) (o : Outcome ℕ) → Made n o → o.1 ≡ ok i → (n ≤ i) × ((o.0).objects ≡ i + 1)
  Made-outcome n i (c, ok j) h e = let p : j ≡ i = cc in rw p at h
  Made-outcome n i (c, err j) h e = cc

  -- A service that is no singleton is made anew by each successful call: the instance is a new
  -- object, and the newest one when the call returns.
  pub resolve_fresh :
      (t i : ℕ) (reg : ServiceRegistration) (c : Container)
      → get c.registrations t ≡ some reg
      → is_singleton reg.lifetime ≡ false
      → (resolve annotations constructs t c).1 ≡ ok i
      → (c.objects ≤ i) × (((resolve annotations constructs t c).0).objects ≡ i + 1)
  unfolding resolve resolve_fuel resolve_registered resolve_cached
  resolve_fresh t i reg c h e k =
      Made-outcome c.objects i (resolve annotations constructs t c)
        (rw (h, cached_other reg.lifetime t c e)
          (resolve_new-Made _ t reg c
            (resolve_fuel-Leaves annotations constructs (length c.registrations)) e))
        k
