-- ===== src/Lockout.antt =====
-- Account lockout: src/core/security/account_lockout.py over
-- src/core/security/infrastructure/repositories/login_attempt_repository.py.
-- Times are microseconds since the epoch, as Python's datetimes count.
mod Tests
pub mod Counting
pub mod Threshold
use python_codebase.Prelude.{
  ℕ, ◌+◌, ◌-◌, ◌*◌, String, Bool, true, false, not, ◌&&◌, Option, none, some, List, [], ◌∷◌, ◌++◌,
  ltb, leb, filter, length, str_eq, is_some, if◌then◌else◌,
}
use Prim.Native.Nat.{max}
use python_codebase.Result.{value_error}
use python_codebase.State.{pure, from_result, gets, modify, raise_if, ◌>>=◌, ◌>>◌}
use python_codebase.Session.{Query}
use python_codebase.Sql.{in_tenant, tenant_column}

-- A row of the table `login_attempts`.
pub record LoginAttempt : Type 0 where
  pub email : String
  pub occurred_at : ℕ
  pub locked_until : Option ℕ
  pub tenant_id : ℕ

abbrev pub Attempts : Type 0
Attempts = List LoginAttempt

-- The settings that the service reads.
pub record LockoutSettings : Type 0 where
  pub max_attempts : ℕ
  pub window_minutes : ℕ
  pub duration_minutes : ℕ

-- `timedelta(minutes=n)`
abbrev pub minutes : ℕ → ℕ
minutes n = n * 60000000

abbrev pub later : Option ℕ → Option ℕ → Option ℕ
later none b = b
later (some a) none = some a
later (some a) (some b) = some (max a b)

-- `.order_by(locked_until.desc()).limit(1)` of the rows that have a time: the latest.
unfoldable pub latest_lock : Attempts → Option ℕ
latest_lock [] = none
latest_lock (a ∷ rest) = later a.locked_until (latest_lock rest)

-- class SQLAlchemyLoginAttemptRepository
module _ (tenant_id : Option ℕ) (email : String) where
  abbrev pub is_of : LoginAttempt → Bool
  is_of a = str_eq a.email email && in_tenant tenant_id a.tenant_id

  abbrev pub is_recent : ℕ → LoginAttempt → Bool
  is_recent since a =
      str_eq a.email email && leb since a.occurred_at && in_tenant tenant_id a.tenant_id

  unfoldable pub count_failures_since : ℕ → Query Attempts ℕ
  count_failures_since since = gets (λ db. length (filter (is_recent since) db))

  unfoldable pub record_failure : ℕ → Option ℕ → Query Attempts Unit
  record_failure occurred_at locked_until = do
    tenant ← from_result (tenant_column tenant_id)
    modify (λ db.
        db
        ++ record {
          email = email;
          occurred_at = occurred_at;
          locked_until = locked_until;
          tenant_id = tenant;
        }
          ∷ [])

  unfoldable pub get_locked_until : Query Attempts (Option ℕ)
  get_locked_until = gets (λ db. latest_lock (filter (λ a. is_of a && is_some a.locked_until) db))

  unfoldable pub clear : Query Attempts Unit
  clear = modify (filter (λ a. not (is_of a)))

-- `AccountLockoutService`: its repository, which may be missing, by its tenant.
pub record LockoutService : Type 0 where
  pub repository : Option (Option ℕ)
  pub settings : LockoutSettings

abbrev pub is_locked : Option ℕ → ℕ → Bool
is_locked none now = false
is_locked (some locked_until) now = ltb now locked_until

abbrev ensure : Option (Option ℕ) → String → ℕ → Query Attempts Unit
ensure none email now = pure tt
ensure (some t) email now = do
  locked_until ← get_locked_until t email
  raise_if (is_locked locked_until now) (value_error "Account is temporarily locked")

unfoldable pub ensure_login_allowed : LockoutService → String → ℕ → Query Attempts Unit
ensure_login_allowed service = ensure service.repository

abbrev pub lock_at : LockoutSettings → ℕ → ℕ → Option ℕ
lock_at settings recent_failures now =
    if leb settings.max_attempts (recent_failures + 1)
    then some (now + minutes settings.duration_minutes)
    else none

abbrev record_failed : Option (Option ℕ) → LockoutSettings → String → ℕ → Query Attempts Unit
record_failed none settings email now = pure tt
record_failed (some t) settings email now = do
  recent_failures ← count_failures_since t email (now - minutes settings.window_minutes)
  record_failure t email now (lock_at settings recent_failures now)

unfoldable pub record_failed_login : LockoutService → String → ℕ → Query Attempts Unit
record_failed_login service = record_failed service.repository service.settings

abbrev record_successful : Option (Option ℕ) → String → Query Attempts Unit
record_successful none email = pure tt
record_successful (some t) email = clear t email

unfoldable pub record_successful_login : LockoutService → String → Query Attempts Unit
record_successful_login service = record_successful service.repository
