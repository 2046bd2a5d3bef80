-- ===== src/Kernel/Container.antt =====
-- container.py: the dependency injection container. A class is a number, and so is an object: the
-- count of objects before it. `annotations` stands for `_get_constructor_annotations`, which asks
-- Python's `inspect` and `typing` for the types of a constructor's parameters; `constructs` says
-- whether a class's `__init__`, which is code of the application, returns.
pub mod Stack
pub mod Caching
pub mod Depth
use debcraft.Prelude.{
  ℕ, zero, suc, ◌+◌, Bool, true, false, not, Option, none, some, List, [], ◌∷◌, ◌++◌, keep, length,
  contains, nat_eq, ◌==◌, if◌then◌else◌, Result, ok, err,
}
use debcraft.Prelude.Dict.{Dict, get, put}

pub data Lifetime : Type 0 where
  singleton transient scoped : Lifetime

-- `ServiceRegistration`; the interface is its key in `_registrations`.
pub record ServiceRegistration : Type 0 where
  pub implementation : ℕ
  pub lifetime : Lifetime

pub data ContainerError : Type 0 where
  service_not_found : (service_type : ℕ) → ContainerError
  circular_dependency : (chain : List ℕ) → ContainerError
  constructor_raised : (implementation : ℕ) → ContainerError
  out_of_fuel : ContainerError

-- `KernelContainer`, with the number of objects that exist.
pub record Container : Type 0 where
  pub registrations : Dict ℕ ServiceRegistration
  pub singletons : Dict ℕ ℕ
  pub resolution_stack : List ℕ
  pub objects : ℕ

abbrev pub empty_container : Container
empty_container = record { registrations = []; singletons = []; resolution_stack = []; objects = 0 }

-- What a method leaves behind and returns or raises.
abbrev pub Outcome : Type 0 → Type 0
Outcome A = Container × Result ContainerError A

-- `implementation if implementation is not None else interface`
abbrev pub implementation_or : Option ℕ → ℕ → ℕ
implementation_or none interface = interface
implementation_or (some impl) interface = impl

abbrev pub register : Lifetime → ℕ → Option ℕ → Container → Container
register lifetime interface implementation c = record c {
  registrations =
      put c.registrations interface (record {
        implementation = implementation_or implementation interface;
        lifetime = lifetime;
      });
}

unfoldable pub register_singleton : ℕ → Option ℕ → Container → Container
register_singleton = register singleton

unfoldable pub register_transient : ℕ → Option ℕ → Container → Container
register_transient = register transient

unfoldable pub register_scoped : ℕ → Option ℕ → Container → Container
register_scoped = register scoped

-- `register_instance`, with the class of the instance.
unfoldable pub register_instance : ℕ → ℕ → ℕ → Container → Container
register_instance interface instance class c = record c {
  registrations =
      put c.registrations interface (record { implementation = class; lifetime = singleton });
  singletons = put c.singletons interface instance;
}

abbrev pub is_singleton : Lifetime → Bool
is_singleton singleton = true
is_singleton transient = false
is_singleton scoped = false

-- `self._singletons[service_type]`, if the service is a singleton and is there.
unfoldable pub cached : Lifetime → ℕ → Container → Option ℕ
cached singleton service_type c = get c.singletons service_type
cached transient service_type c = none
cached scoped service_type c = none

-- `self._resolution_stack.add`, for a type that is not there, and `discard`.
abbrev pub push : ℕ → Container → Container
push service_type c = record c { resolution_stack = service_type ∷ c.resolution_stack }

abbrev pub discard : ℕ → Container → Container
discard service_type c = record c {
  resolution_stack = keep (λ t. not (t == service_type)) c.resolution_stack;
}

-- The cache of a new singleton.
unfoldable pub store : Lifetime → ℕ → ℕ → Container → Container
store singleton service_type instance c = record c {
  singletons = put c.singletons service_type instance;
}
store transient service_type instance c = c
store scoped service_type instance c = c

-- The end of `resolve`: the `finally` clause, and the cache if an instance was made.
unfoldable pub finish : Lifetime → ℕ → Outcome ℕ → Outcome ℕ
finish lifetime service_type (c, ok instance) =
    (store lifetime service_type instance (discard service_type c), ok instance)
finish lifetime service_type (c, err e) = (discard service_type c, err e)

abbrev pub with_rest : ℕ → Outcome (List ℕ) → Outcome (List ℕ)
with_rest i (c, err e) = (c, err e)
with_rest i (c, ok is) = (c, ok (i ∷ is))

-- The rest of the loop over the constructor's parameters, after one of them.
abbrev pub with_first : (Container → Outcome (List ℕ)) → Outcome ℕ → Outcome (List ℕ)
with_first rest (c, err e) = (c, err e)
with_first rest (c, ok i) = with_rest i (rest c)

-- The loop over the constructor's parameters: the first error ends it.
unfoldable pub resolve_all : (ℕ → Container → Outcome ℕ) → List ℕ → Container → Outcome (List ℕ)
resolve_all resolve [] c = (c, ok [])
resolve_all resolve (t ∷ ts) c = with_first (resolve_all resolve ts) (resolve t c)

module _ (annotations : ℕ → List ℕ) (constructs : ℕ → Bool) where
  -- `implementation(**dependencies)`
  unfoldable pub construct : ℕ → Outcome (List ℕ) → Outcome ℕ
  construct implementation (c, err e) = (c, err e)
  construct implementation (c, ok dependencies) =
      if constructs implementation
      then (record c { objects = c.objects + 1 }, ok c.objects)
      else (c, err (constructor_raised implementation))

  unfoldable pub create_instance : (ℕ → Container → Outcome ℕ) → ℕ → Container → Outcome ℕ
  create_instance resolve implementation c =
      construct implementation (resolve_all resolve (annotations implementation) c)

  -- `resolve` from its circularity test on.
  unfoldable pub resolve_new :
      (ℕ → Container → Outcome ℕ) → ℕ → ServiceRegistration → Container → Outcome ℕ
  resolve_new resolve service_type registration c =
      if contains c.resolution_stack service_type
      then (c, err (circular_dependency (c.resolution_stack ++ service_type ∷ [])))
      else finish registration.lifetime service_type
          (create_instance resolve registration.implementation (push service_type c))

  unfoldable pub resolve_cached :
      (ℕ → Container → Outcome ℕ) → ℕ → ServiceRegistration → Option ℕ → Container → Outcome ℕ
  resolve_cached resolve service_type registration (some instance) c = (c, ok instance)
  resolve_cached resolve service_type registration none c =
      resolve_new resolve service_type registration c

  unfoldable pub resolve_registered :
      (ℕ → Container → Outcome ℕ) → ℕ → Option ServiceRegistration → Container → Outcome ℕ
  resolve_registered resolve service_type none c = (c, err (service_not_found service_type))
  resolve_registered resolve service_type (some registration) c =
      resolve_cached resolve service_type registration (cached registration.lifetime service_type c)
        c

  -- Every nested call has one more registered type on the stack, so the fuel is one more than the
  -- number of registrations.
  unfoldable pub resolve_fuel : ℕ → ℕ → Container → Outcome ℕ
  resolve_fuel zero service_type c = (c, err out_of_fuel)
  resolve_fuel (suc fuel) service_type c =
      resolve_registered (resolve_fuel fuel) service_type (get c.registrations service_type) c

  unfoldable pub resolve : ℕ → Container → Outcome ℕ
  resolve service_type c = resolve_fuel (suc (length c.registrations)) service_type c
