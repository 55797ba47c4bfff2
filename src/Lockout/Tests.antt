-- ===== src/Lockout/Tests.antt =====
-- Five failures within 15 minutes lock an account for 30.
use Prim.Native.Nat.{◌+◌}
use mathlib.Core.Path.{◌≡◌}
use mathlib.Core.List.{List, [], ◌∷◌}
use python_codebase.Prelude.{ℕ, arith, refl, some, not, filter}
use python_codebase.Result.{ok, err, value_error}
use python_codebase.Lockout.{
  LockoutSettings, ensure_login_allowed, record_failed_login, record_successful_login, is_of,
}
use python_codebase.Lockout.Threshold.{
  service, fail_at, locked_after_max_attempts, open_below_max_attempts,
  record_successful_login_clears,
}
use python_codebase.Lockout.Counting.{count}

abbrev defaults : LockoutSettings
defaults = record { max_attempts = 5; window_minutes = 15; duration_minutes = 30 }

abbrev start : ℕ
start = 1700000000000000

abbrev four : List ℕ
four = start ∷ (start + 1) ∷ (start + 2) ∷ (start + 3) ∷ []

locked_after_max_attempts_example :
    let db' =
      (record_failed_login
        (service 1 "ann" defaults)
        "ann"
        (start + 4)
        (fail_at 1 "ann" defaults four [])).1 in
    ensure_login_allowed (service 1 "ann" defaults) "ann" (start + 5) db'
    ≡ (err (value_error "Account is temporarily locked"), db')
locked_after_max_attempts_example =
    locked_after_max_attempts 1 "ann" defaults four (start + 4) (start + 5) []
      (omega arith, (omega arith, (omega arith, (omega arith, tt)))) (omega arith) (omega arith)

open_below_max_attempts_example :
    ensure_login_allowed
      (service 1 "ann" defaults)
      "ann"
      (start + 5)
      (fail_at 1 "ann" defaults four [])
    ≡ (ok tt, fail_at 1 "ann" defaults four [])
open_below_max_attempts_example =
    open_below_max_attempts 1 "ann" defaults four (start + 5) [] refl (omega arith)

record_successful_login_clears_example :
    let before = fail_at 1 "ann" defaults four [] in
    let db' = (record_successful_login (service 1 "ann" defaults) "ann" before).1 in
    (ensure_login_allowed (service 1 "ann" defaults) "ann" start db' ≡ (ok tt, db'))
    × (count 1 "ann" 0 db' ≡ 0)
    × (filter (λ a. not (is_of (some 1) "ann" a)) db'
        ≡ filter (λ a. not (is_of (some 1) "ann" a)) before)
record_successful_login_clears_example =
    record_successful_login_clears 1 "ann" defaults start 0 (fail_at 1 "ann" defaults four [])
