-- ===== src/Accounts.antt =====
-- The tables that the account handlers (src/modules/user/application/auth) share in one session, and
-- the audit service (src/core/security/audit.py) over its repository
-- (src/core/security/infrastructure/repositories/audit_log_repository.py).
pub mod Samples
mod Tests
pub mod Login
pub mod Logout
pub mod Ending
pub mod Registration
pub mod Registering
pub mod Credentials
pub mod Verified
pub mod Seeding
pub mod Seeders
pub mod Blocked
pub mod Starting
use python_codebase.Prelude.{ℕ, String, Option, none, some, List, [], ◌∷◌, ◌++◌}
use python_codebase.Result.{Result}
use python_codebase.State.{pure, from_result, modify, ◌>>=◌, ◌>>◌}
use python_codebase.Sql.{tenant_column}
use python_codebase.Session.{Session, Exec, Query}
use python_codebase.Lockout.{Attempts}
use python_codebase.Tokens.{SessionDb}
use python_codebase.Users.{UserDb}
use python_codebase.Authorization.{AuthorizationDb}

-- `AuditEvent`; its id and its time are drawn outside and left out.
pub record AuditEvent : Type 0 where
  pub action : String
  pub actor_id : Option String
  pub resource_type : Option String
  pub resource_id : Option String
  pub metadata : List (String × String)

pub record AuditLogModel : Type 0 where
  pub event : AuditEvent
  pub tenant_id : ℕ

-- What asyncpg makes of values that do not fit the type of an integer column: `uuid_key` of the
-- UUID that `AuditEvent` has for its id, `text_as_integer` of a text.
pub record Driver : Type 0 where
  pub uuid_key : Result (Unit {0})
  pub text_as_integer : String → Result ℕ

pub record AccountDb : Type 0 where
  pub users : UserDb
  pub attempts : Attempts
  pub sessions : SessionDb
  pub audit_logs : List AuditLogModel
  pub authorization : AuthorizationDb

abbrev users_session : Session AccountDb → Session UserDb
users_session s = record {
  committed = s.committed.users;
  working = s.working.users;
  is_committed = s.is_committed;
}

abbrev with_users : Session AccountDb → Session UserDb → Session AccountDb
with_users s u = record {
  committed = record s.committed { users = u.committed };
  working = record s.working { users = u.working };
  is_committed = u.is_committed;
}

-- A repository's call on its own tables, in the tables of all.
module _ {A : Type 0} where
  abbrev pub on_users : Query UserDb A → Query AccountDb A
  on_users q db = let (r, t) = q db.users in (r, record db { users = t })

  abbrev pub on_attempts : Query Attempts A → Query AccountDb A
  on_attempts q db = let (r, t) = q db.attempts in (r, record db { attempts = t })

  abbrev pub on_sessions : Query SessionDb A → Query AccountDb A
  on_sessions q db = let (r, t) = q db.sessions in (r, record db { sessions = t })

  abbrev pub on_authorization : Query AuthorizationDb A → Query AccountDb A
  on_authorization q db = let (r, t) = q db.authorization in (r, record db { authorization = t })

  -- A service that opens units of its own on the users, called where the other tables have nothing
  -- pending.
  abbrev pub in_users : Exec UserDb A → Exec AccountDb A
  in_users q s = let (r, u) = q (users_session s) in (r, with_users s u)

-- `AuditService`: its repository, which may be missing, by its tenant.
pub record AuditService : Type 0 where
  pub repository : Option (Option ℕ)

module _ (driver : Driver) where
  -- `SQLAlchemyAuditRepository.save`, and the flush of its row, which no query comes before
  unfoldable pub save_audit : Option ℕ → AuditEvent → Query AccountDb (Unit {0})
  save_audit tenant_id event = do
    tenant ← from_result (tenant_column tenant_id)
    from_result driver.uuid_key
    modify (λ db. record db {
      audit_logs = db.audit_logs ++ record { event = event; tenant_id = tenant } ∷ [];
    })

  abbrev record_at : Option (Option ℕ) → AuditEvent → Query AccountDb (Unit {0})
  record_at none event = pure tt
  record_at (some tenant_id) event = save_audit tenant_id event

  -- `AuditService.record`
  unfoldable pub record_event : AuditService → AuditEvent → Query AccountDb (Unit {0})
  record_event service = record_at service.repository
