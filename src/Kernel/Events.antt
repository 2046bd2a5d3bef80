-- ===== src/Kernel/Events.antt =====
-- events.py: the event bus. An event type and a handler are numbers, and `handles` says whether a
-- handler returns; what a handler itself does to the bus is not modelled.
use debcraft.Prelude.{
  ℕ, ◌≡◌, ap, ◌∙◌, Bool, false, Bool-cases, inl, inr, Option, none, some, List, [], ◌∷◌, ◌++◌,
  arith, if◌then◌else◌, nat_eq, ◌==◌, contains, ==_refl,
}
use debcraft.Prelude.Dict.{Dict, get, put, get-put}

pub data Dispatch : Type 0 where
  called : (handler event_type : ℕ) → Dispatch
  failure_logged : (handler event_type : ℕ) → Dispatch

-- `KernelEventBus`, with what was dispatched so far.
pub record EventBus : Type 0 where
  pub handlers : Dict ℕ (List ℕ)
  pub dispatched : List Dispatch

-- `self._handlers[event_type]`, or no handlers.
abbrev pub handlers_or : Option (List ℕ) → List ℕ
handlers_or none = []
handlers_or (some hs) = hs

unfoldable pub handlers_of : EventBus → ℕ → List ℕ
handlers_of bus event_type = handlers_or (get bus.handlers event_type)

unfoldable pub subscribe : ℕ → ℕ → EventBus → EventBus
subscribe event_type handler bus = record bus {
  handlers = put bus.handlers event_type (handlers_of bus event_type ++ handler ∷ []);
}

-- `list.remove`: the first occurrence goes; a `ValueError` is suppressed.
unfoldable pub remove_first : ℕ → List ℕ → List ℕ
remove_first h [] = []
remove_first h (g ∷ hs) = let rest = remove_first h hs in if g == h then hs else g ∷ rest

unfoldable pub unsubscribe_from : ℕ → ℕ → Option (List ℕ) → EventBus → EventBus
unsubscribe_from event_type handler none bus = bus
unsubscribe_from event_type handler (some hs) bus = record bus {
  handlers = put bus.handlers event_type (remove_first handler hs);
}

unfoldable pub unsubscribe : ℕ → ℕ → EventBus → EventBus
unsubscribe event_type handler bus =
    unsubscribe_from event_type handler (get bus.handlers event_type) bus

module _ (handles : ℕ → Bool) where
  unfoldable pub dispatch : ℕ → List ℕ → List Dispatch → List Dispatch
  dispatch event_type [] seen = seen
  dispatch event_type (h ∷ hs) seen =
      dispatch event_type hs
        (seen ++ called h event_type ∷ (if handles h then [] else failure_logged h event_type ∷ []))

  unfoldable pub publish : ℕ → EventBus → EventBus
  publish event_type bus = record bus {
    dispatched = dispatch event_type (handlers_of bus event_type) bus.dispatched;
  }

-- The handlers that were called.
abbrev pub calls : List Dispatch → List ℕ
calls [] = []
calls (called h t ∷ ds) = h ∷ calls ds
calls (failure_logged h t ∷ ds) = calls ds

-- A new subscription is called last for its type, and other types keep their handlers.
pub handlers-subscribe :
    (t u h : ℕ) (bus : EventBus)
    → handlers_of (subscribe t h bus) u
      ≡ (if t == u then handlers_of bus t ++ h ∷ [] else handlers_of bus u)
unfolding subscribe handlers_of
handlers-subscribe t u h bus = elim (Bool-cases (t == u)) [
  | inl e ↦ rw (get-put, e)
  | inr e ↦ rw (get-put, e)
]

remove_first-append :
    (h : ℕ) (hs : List ℕ) → contains hs h ≡ false → remove_first h (hs ++ h ∷ []) ≡ hs
unfolding remove_first
remove_first-append h [] e = rw ==_refl
remove_first-append h (g ∷ hs) e = ground (arith, remove_first-append h hs)

handlers-unsubscribe :
    (t u h : ℕ) (bus : EventBus) (hs : List ℕ)
    → get bus.handlers t ≡ some hs
    → handlers_of (unsubscribe t h bus) u
      ≡ (if t == u then remove_first h hs else handlers_of bus u)
unfolding unsubscribe unsubscribe_from handlers_of
handlers-unsubscribe t u h bus hs e = elim (Bool-cases (t == u)) [
  | inl k ↦ rw (e, get-put, k)
  | inr k ↦ rw (e, get-put, k)
]

subscribed :
    (t h : ℕ) (bus : EventBus)
    → get (subscribe t h bus).handlers t ≡ some (handlers_of bus t ++ h ∷ [])
unfolding subscribe
subscribed t h bus = get-put bus.handlers t t _ ∙ rw (==_refl t)

-- Unsubscribing a handler that was not subscribed before undoes its subscription, for every type.
pub unsubscribe-subscribe :
    (t u h : ℕ) (bus : EventBus)
    → contains (handlers_of bus t) h ≡ false
    → handlers_of (unsubscribe t h (subscribe t h bus)) u ≡ handlers_of bus u
unsubscribe-subscribe t u h bus e =
    handlers-unsubscribe t u h (subscribe t h bus) _ (subscribed t h bus)
    ∙ elim (Bool-cases (t == u)) [
      | inl k ↦
          let p : t ≡ u = ground arith in
          rw (k, remove_first-append h (handlers_of bus t) e) (ap (handlers_of bus) p)
      | inr k ↦ rw k (handlers-subscribe t u h bus ∙ rw k)
    ]
