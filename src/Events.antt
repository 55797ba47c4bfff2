-- ===== src/Events.antt =====
-- The event bus: src/core/events/bus.py. A handler is known by a number; `handle` runs it on an
-- event, over the state of what it reaches, and may raise.
mod Tests
use python_codebase.Prelude.{
  ℕ, ◌≡◌, ◌≢◌, refl, ap, sym, ◌∙◌, String, Bool, true, false, not, List, [], ◌∷◌, ◌++◌, filter, any,
  ◌==◌, ==_iff, str_eq, eq_iff, arith, inl, inr, Bool-cases, if◌then◌else◌,
}
use text.Mathlib.TextPositions.{eq_refl}
use python_codebase.Result.{Result}

-- `_handlers`: the keys in the order of their first use, each with its handlers.
abbrev pub EventBus : Type 0
EventBus = List (String × List ℕ)

-- `self._handlers.get(event_type, [])`
unfoldable pub handlers_of : String → EventBus → List ℕ
handlers_of event_type [] = []
handlers_of event_type ((key, hs) ∷ rest) =
    let later = handlers_of event_type rest in if str_eq key event_type then hs else later

-- `subscribe`
unfoldable pub subscribe : String → ℕ → EventBus → EventBus
subscribe event_type handler [] = (event_type, handler ∷ []) ∷ []
subscribe event_type handler ((key, hs) ∷ rest) =
    let later = subscribe event_type handler rest in
    if str_eq key event_type then (key, hs ++ handler ∷ []) ∷ rest else (key, hs) ∷ later

-- `unsubscribe`
unfoldable pub unsubscribe : String → ℕ → EventBus → EventBus
unsubscribe event_type handler [] = []
unsubscribe event_type handler ((key, hs) ∷ rest) =
    let later = unsubscribe event_type handler rest in
    if str_eq key event_type
    then (key, filter (λ h. not (h == handler)) hs) ∷ rest
    else (key, hs) ∷ later

module _ {E W : Type 0} (event_type : E → String) (handle : ℕ → E → W → Result (Unit {0}) × W) where
  -- The loop: an exception of a handler is caught, and the next one runs.
  abbrev pub run : List ℕ → E → W → W
  run [] event w = w
  run (h ∷ hs) event w = run hs event (handle h event w).1

  unfoldable pub publish : EventBus → E → W → W
  publish bus event = run (handlers_of (event_type event) bus) event

pub handlers_of-subscribe :
    (event_type : String) (handler : ℕ) (bus : EventBus)
    → handlers_of event_type (subscribe event_type handler bus)
      ≡ handlers_of event_type bus ++ handler ∷ []
unfolding handlers_of subscribe
handlers_of-subscribe event_type handler [] = rw (eq_refl event_type) refl
handlers_of-subscribe event_type handler ((key, hs) ∷ rest) =
    elim (Bool-cases (str_eq key event_type)) [
      | inl y ↦ rw (y, y) refl
      | inr n ↦ rw (n, n) (handlers_of-subscribe event_type handler rest)
    ]

handlers_of-subscribe_other :
    (event_type other : String) (handler : ℕ) (bus : EventBus)
    → str_eq event_type other ≡ false
    → handlers_of other (subscribe event_type handler bus) ≡ handlers_of other bus
unfolding handlers_of subscribe
handlers_of-subscribe_other event_type other handler [] apart = rw apart refl
handlers_of-subscribe_other event_type other handler ((key, hs) ∷ rest) apart =
    elim (Bool-cases (str_eq key event_type)) [
      | inl y ↦
          let same : key ≡ event_type = (eq_iff key event_type).0 y in
          let differs : str_eq key other ≡ false = ap (λ k. str_eq k other) same ∙ apart in
          rw (y, differs) refl
      | inr n ↦ elim (Bool-cases (str_eq key other)) [
        | inl here ↦ rw (n, here) refl
        | inr there ↦
            rw (n, there) (handlers_of-subscribe_other event_type other handler rest apart)
      ]
    ]

handlers_of-unsubscribe :
    (event_type : String) (handler : ℕ) (bus : EventBus)
    → handlers_of event_type (unsubscribe event_type handler bus)
      ≡ filter (λ h. not (h == handler)) (handlers_of event_type bus)
unfolding handlers_of unsubscribe
handlers_of-unsubscribe event_type handler [] = refl
handlers_of-unsubscribe event_type handler ((key, hs) ∷ rest) =
    elim (Bool-cases (str_eq key event_type)) [
      | inl y ↦ rw (y, y) refl
      | inr n ↦ rw (n, n) (handlers_of-unsubscribe event_type handler rest)
    ]

filter-added :
    (handler : ℕ) (hs : List ℕ)
    → any (λ h. h == handler) hs ≡ false
    → filter (λ h. not (h == handler)) (hs ++ handler ∷ []) ≡ hs
filter-added handler [] none_there =
    let same : (handler == handler) ≡ true = (==_iff handler handler).1 refl in rw same refl
filter-added handler (h ∷ hs) none_there =
    let other : (h == handler) ≡ false = ground arith in
    let rest : any (λ x. x == handler) hs ≡ false = ground arith in
    rw other (ap (λ xs. h ∷ xs) (filter-added handler hs rest))

module _ {E W : Type 0} (event_type : E → String) (handle : ℕ → E → W → Result (Unit {0}) × W) where
  run-append :
      (hs : List ℕ) (h : ℕ) (event : E) (w : W)
      → run event_type handle (hs ++ h ∷ []) event w
        ≡ (handle h event (run event_type handle hs event w)).1
  run-append [] h event w = refl
  run-append (x ∷ hs) h event w = run-append hs h event (handle x event w).1

  -- A handler that is subscribed to the type of an event runs on it, after those that were there,
  -- whatever any of them raises; an event of another type is handled as before; and where the
  -- handler was not there, unsubscribing it gives back the handling of the type as it was.
  subscribe_lem :
      (bus : EventBus) (handler : ℕ) (event other : E) (w : W)
      → str_eq (event_type event) (event_type other) ≡ false
      → any (λ h. h == handler) (handlers_of (event_type event) bus) ≡ false
      → let bus' = subscribe (event_type event) handler bus in
        (publish event_type handle bus' event w
          ≡ (handle handler event (publish event_type handle bus event w)).1)
        × (publish event_type handle bus' other w ≡ publish event_type handle bus other w)
        × (publish event_type handle (unsubscribe (event_type event) handler bus') event w
            ≡ publish event_type handle bus event w)
  unfolding publish
  subscribe_lem bus handler event other w apart new =
      let hs = handlers_of (event_type event) bus in
      (
        rw (handlers_of-subscribe (event_type event) handler bus) (run-append hs handler event w),
        rw (handlers_of-subscribe_other (event_type event) (event_type other) handler bus apart)
            refl,
        rw
            (
              handlers_of-unsubscribe (event_type event) handler
                  (subscribe (event_type event) handler bus),
              handlers_of-subscribe (event_type event) handler bus,
              filter-added handler hs new,
            )
            refl,
      )
