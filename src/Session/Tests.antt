-- ===== src/Session/Tests.antt =====
-- A block that writes and then raises, at work.
use Prim.Native.Nat.{ℕ, ◌+◌}
use mathlib.Core.Path.{◌≡◌}
use mathlib.Core.Bool.{true, false}
use python_codebase.Result.{err, integrity_error}
use python_codebase.State.{modify, raise, ◌>>◌}
use python_codebase.Session.{Session, Query, transaction}
use python_codebase.Session.Atomicity.{transaction_lem}

abbrev half_done : Query ℕ ℕ
half_done = do modify (λ n. n + 1); raise integrity_error

abbrev opened : Session ℕ
opened = record { committed = 7; working = 8; is_committed = true }

transaction_lem_example :
    transaction half_done opened
    ≡ (err integrity_error, record { committed = 7; working = 7; is_committed = false })
transaction_lem_example = transaction_lem half_done opened
