-- ===== src/Kernel/Container/Depth.antt =====
-- Resolution ends: the circularity test bounds the depth of the calls by the registrations.
use debcraft.Prelude.{
  ℕ, zero, suc, ◌≤◌, ◌<◌, ◌≡◌, ◌≢◌, refl, Bool, true, false, Bool-cases, inl, inr, Option, none,
  some, List, [], ◌∷◌, arith, contains, nat_eq, ◌==◌, if◌then◌else◌, ok, err, length,
}
use debcraft.Prelude.Dict.{Dict, get}
use debcraft.Kernel.Container.{
  Lifetime, ServiceRegistration, out_of_fuel, Container, Outcome, push, finish, with_rest,
  with_first, resolve_all, construct, create_instance, resolve_new, resolve_cached,
  resolve_registered, resolve_fuel, resolve,
}
use debcraft.Kernel.Container.Stack.{
  Leaves, Leaves-refl, Leaves-trans, resolve_fuel-Leaves, AlwaysLeaves,
}

abbrev Registrations : Type 0
Registrations = Dict ℕ ServiceRegistration

-- The registrations whose type is not on the stack.
waiting : List ℕ → Registrations → ℕ
waiting stack [] = 0
waiting stack ((t, reg) ∷ rs) =
    let rest = waiting stack rs in if contains stack t then rest else suc rest

waiting-le : (stack : List ℕ) (rs : Registrations) → waiting stack rs ≤ length rs
unfolding waiting
waiting-le stack [] = omega arith
waiting-le stack ((t, reg) ∷ rs) = ground (arith, waiting-le stack rs)

waiting-push-le :
    (s : ℕ) (stack : List ℕ) (rs : Registrations) → waiting (s ∷ stack) rs ≤ waiting stack rs
unfolding waiting
waiting-push-le s stack [] = omega arith
waiting-push-le s stack ((t, reg) ∷ rs) = ground (arith, waiting-push-le s stack rs)

waiting-push :
    (s : ℕ) (stack : List ℕ) (rs : Registrations) (reg : ServiceRegistration)
    → get rs s ≡ some reg
    → contains stack s ≡ false
    → waiting (s ∷ stack) rs < waiting stack rs
unfolding waiting get
waiting-push s stack [] reg h k = cc
waiting-push s stack ((t, r) ∷ rs) reg h k = elim (Bool-cases (t == s)) [
  | inl e ↦
      let p : t ≡ s = ground arith in
      let stacked : contains stack t ≡ false = rw p k in
      let same : (s == t) ≡ true = ground arith in
      rw (same, stacked) (le_suc (waiting-push-le s stack rs))
  | inr e ↦
      let other : (s == t) ≡ false = ground arith in
      rw other (later (contains stack t) (waiting-push s stack rs reg (rw e at h) k))
]
  where
    le_suc : {a b : ℕ} → a ≤ b → a < suc b
    le_suc h = omega arith

    later : {a b : ℕ} (c : Bool) → a < b → (if c then a else suc a) < (if c then b else suc b)
    later true h = h
    later false h = omega arith

abbrev pub Settles : {A : Type 0} → Outcome A → Type 0
Settles (c, ok a) = Unit
Settles (c, err e) = e ≢ out_of_fuel

-- From `c` on, while the stack and the registrations stand, `f` settles.
abbrev SettlesFrom : (ℕ → Container → Outcome ℕ) → Container → Type 0
SettlesFrom f c = (t : ℕ) (d : Container) → Leaves c d → Settles (f t d)

with_rest-Settles : (i : ℕ) (o : Outcome (List ℕ)) → Settles o → Settles (with_rest i o)
with_rest-Settles i (c, ok is) h = tt
with_rest-Settles i (c, err e) h = h

with_first-Settles :
    (rest : Container → Outcome (List ℕ)) (o : Outcome ℕ)
    → Settles o
    → Settles (rest o.0)
    → Settles (with_first rest o)
with_first-Settles rest (c, ok i) h k = with_rest-Settles i (rest c) k
with_first-Settles rest (c, err e) h k = h

resolve_all-Settles :
    (f : ℕ → Container → Outcome ℕ) (ts : List ℕ) (c d : Container)
    → AlwaysLeaves f
    → SettlesFrom f c
    → Leaves c d
    → Settles (resolve_all f ts d)
unfolding resolve_all
resolve_all-Settles f [] c d l h a = tt
resolve_all-Settles f (t ∷ ts) c d l h a =
    with_first-Settles (resolve_all f ts) (f t d) (h t d a)
      (resolve_all-Settles f ts c (f t d).0 l h (Leaves-trans c d (f t d).0 a (l t d)))

finish-Settles : (l : Lifetime) (t : ℕ) (o : Outcome ℕ) → Settles o → Settles (finish l t o)
unfolding finish
finish-Settles l t (c, ok i) h = tt
finish-Settles l t (c, err e) h = h

module _ (annotations : ℕ → List ℕ) (constructs : ℕ → Bool) where
  construct-Settles :
      (impl : ℕ) (o : Outcome (List ℕ))
      → Settles o
      → Settles (construct annotations constructs impl o)
  unfolding construct
  construct-Settles impl (c, err e) h = h
  construct-Settles impl (c, ok is) h = elim (Bool-cases (constructs impl)) [
    | inl e ↦ rw e tt
    | inr e ↦ rw e (λ p. cc)
  ]

  resolve_new-Settles :
      (f : ℕ → Container → Outcome ℕ) (t : ℕ) (reg : ServiceRegistration) (c : Container)
      → AlwaysLeaves f
      → (contains c.resolution_stack t ≡ false → SettlesFrom f (push t c))
      → Settles (resolve_new annotations constructs f t reg c)
  unfolding resolve_new create_instance
  resolve_new-Settles f t reg c l h = elim (Bool-cases (contains c.resolution_stack t)) [
    | inl e ↦ rw e (λ p. cc)
    | inr e ↦ rw e (
        finish-Settles reg.lifetime t _ (
          construct-Settles reg.implementation _ (
            resolve_all-Settles f (annotations reg.implementation) (push t c) (push t c) l (h e)
              (Leaves-refl (push t c)))))
  ]

  resolve_cached-Settles :
      (f : ℕ → Container → Outcome ℕ) (t : ℕ) (reg : ServiceRegistration) (o : Option ℕ)
      (c : Container)
      → AlwaysLeaves f
      → (contains c.resolution_stack t ≡ false → SettlesFrom f (push t c))
      → Settles (resolve_cached annotations constructs f t reg o c)
  unfolding resolve_cached
  resolve_cached-Settles f t reg none c l h = resolve_new-Settles f t reg c l h
  resolve_cached-Settles f t reg (some i) c l h = tt

  resolve_registered-Settles :
      (f : ℕ → Container → Outcome ℕ) (t : ℕ) (o : Option ServiceRegistration) (c : Container)
      → AlwaysLeaves f
      → get c.registrations t ≡ o
      → ((reg : ServiceRegistration)
          → get c.registrations t ≡ some reg
          → contains c.resolution_stack t ≡ false
          → SettlesFrom f (push t c))
      → Settles (resolve_registered annotations constructs f t o c)
  unfolding resolve_registered
  resolve_registered-Settles f t none c l e h = λ p. cc
  resolve_registered-Settles f t (some reg) c l e h = resolve_cached-Settles f t reg _ c l (h reg e)

  resolve_fuel-Settles :
      (fuel t : ℕ) (c : Container)
      → waiting c.resolution_stack c.registrations < fuel
      → Settles (resolve_fuel annotations constructs fuel t c)
  unfolding resolve_fuel
  resolve_fuel-Settles zero t c h = absurd (omega arith)
  resolve_fuel-Settles (suc fuel) t c h =
      resolve_registered-Settles (resolve_fuel annotations constructs fuel) t _ c
        (resolve_fuel-Leaves annotations constructs fuel) refl
        (λ reg e k s d a. resolve_fuel-Settles fuel s d (
          rw (a.stack, a.registrations)
            (shrink (waiting-push t c.resolution_stack c.registrations reg e k) h)))
    where
      shrink : {a b n : ℕ} → a < b → b < suc n → a < n
      shrink p q = omega arith

  -- `resolve` terminates, whatever the constructors ask for: it returns an instance or raises one of
  -- the source's errors. The fuel of the model, one more than the number of registrations, suffices,
  -- since the circularity test lets no type stand twice on the stack.
  pub resolve-Settles : (t : ℕ) (c : Container) → Settles (resolve annotations constructs t c)
  unfolding resolve
  resolve-Settles t c =
      resolve_fuel-Settles (suc (length c.registrations)) t c
        (omega (arith, waiting-le c.resolution_stack c.registrations))
