-- ===== src/Events/Tests.antt =====
-- Handlers that count; the first of them raises too.
use Prim.Native.Nat.{ℕ, ◌+◌}
use mathlib.Core.Path.{◌≡◌, refl}
use mathlib.Core.List.{[], ◌∷◌}
use python_codebase.Prelude.{String, ◌==◌, if◌then◌else◌}
use python_codebase.Result.{Result, ok, err, type_error}
use python_codebase.Events.{EventBus, handlers_of, subscribe, unsubscribe, publish}

abbrev count : ℕ → String → ℕ → Result (Unit {0}) × ℕ
count h event n = (if h == 1 then err type_error else ok tt, n + h)

abbrev bus : EventBus
bus = ("registered", 1 ∷ []) ∷ []

-- The handler that raises keeps no other from running.
both_run : publish (λ e. e) count (subscribe "registered" 20 bus) "registered" 0 ≡ 21
unfolding publish subscribe handlers_of
both_run = refl

first_alone :
    publish
      (λ e. e)
      count
      (unsubscribe "registered" 20 (subscribe "registered" 20 bus))
      "registered"
      0
    ≡ 1
unfolding publish subscribe unsubscribe handlers_of
first_alone = refl
