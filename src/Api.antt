-- ===== src/Api.antt =====
-- The HTTP interface: the routers of src/modules/*/presentation and what FastAPI injects into them
-- (src/core/dependency, src/core/database/postgres/session.py, src/modules/*/presentation/dependency.py).
-- A request has one session, on all the tables, and a Redis server beside it in a state `R`.
pub mod Errors
pub mod Pages
pub mod Todos
pub mod Roles
pub mod Permissions
pub mod Auth
pub mod Keys
pub mod Endpoints
pub mod Guarded
pub mod Safe
pub mod Outcomes
pub mod Stack
pub mod Samples
mod Tests
use python_codebase.Prelude.{
  ℕ, String, Bool, not, Option, none, some, List, is_truthy, str_eq, ◌||◌,
}
use python_codebase.Result.{Result, value_error, http_error}
use python_codebase.State.{State, pure, raise_if, or_raise, ◌>>=◌, ◌>>◌}
use python_codebase.Session.{Session, Exec, Query, lift}
use python_codebase.Users.{User, UserDb, get_by_id}
use python_codebase.Tokens.{SessionDb, Platform, TokenSettings}
use python_codebase.Authorization.{AuthorizationDb}
use python_codebase.Authorization.Access.{can}
use python_codebase.Accounts.{AccountDb, Driver, on_users, on_authorization}
use python_codebase.Accounts.Login.{Passwords}
use python_codebase.Lockout.{LockoutSettings}
use python_codebase.TwoFactor.{Platform as TwoFactorPlatform}
use python_codebase.Pagination.Codec.{Codec}
use python_codebase.Todo.{TodoDb}
use python_codebase.ApiKeys.{ApiKeyDb, FitsColumn}
use python_codebase.Middleware.{Request}

-- The tables of the one database.
pub record AppDb : Type 0 where
  pub accounts : AccountDb
  pub todos : TodoDb
  pub api_keys : ApiKeyDb

-- What the routers reach outside the repository: `int` and `str` of Python, Casbin's enforcer, the
-- Base64, JSON and times of a cursor, and what the handlers take.
pub record Context : Type 0 where
  pub to_int : String → Option ℕ
  pub title : String → String
  pub enforce : List String → String → String → Bool
  pub codec : Codec
  pub platform : Platform
  pub settings : TokenSettings
  pub passwords : Passwords
  pub lockout : LockoutSettings
  pub two_factor : TwoFactorPlatform
  pub driver : Driver
  pub fits : FitsColumn
  -- what the read of a column gives that an UPDATE has expired
  pub expired : Result (Unit {0})

-- A part of the session, for the handlers of one module. No other part has anything pending where
-- a router calls a handler.
module _ {D E : Type 0} (get : E → D) (put : D → E → E) where
  abbrev pub part : Session E → Session D
  part s = record {
    committed = get s.committed;
    working = get s.working;
    is_committed = s.is_committed;
  }

  abbrev pub with_part : Session E → Session D → Session E
  with_part s t = record {
    committed = put t.committed s.committed;
    working = put t.working s.working;
    is_committed = t.is_committed;
  }

  abbrev pub within : {A : Type 0} → Exec D A → Exec E A
  within q s = let (r, t) = q (part s) in (r, with_part s t)

abbrev pub in_todos : {A : Type 0} → Exec TodoDb A → Exec AppDb A
in_todos = within (λ (db : AppDb). db.todos) (λ d db. record db { todos = d })

abbrev pub in_accounts : {A : Type 0} → Exec AccountDb A → Exec AppDb A
in_accounts = within (λ (db : AppDb). db.accounts) (λ d db. record db { accounts = d })

abbrev pub in_api_keys : {A : Type 0} → Exec ApiKeyDb A → Exec AppDb A
in_api_keys = within (λ (db : AppDb). db.api_keys) (λ d db. record db { api_keys = d })

abbrev pub in_sessions : {A : Type 0} → Exec SessionDb A → Exec AccountDb A
in_sessions = within (λ (db : AccountDb). db.sessions) (λ d db. record db { sessions = d })

abbrev pub in_authorization : {A : Type 0} → Exec AuthorizationDb A → Exec AppDb A
in_authorization q =
    in_accounts
      (within (λ (db : AccountDb). db.authorization) (λ d db. record db { authorization = d }) q)

-- A call that reads the accounts' tables.
abbrev pub reads : {A : Type 0} → Query AccountDb A → Exec AppDb A
reads q = in_accounts (lift q)

-- `get_current_tenant_id`
unfoldable pub get_current_tenant_id : Request → Exec AppDb ℕ
get_current_tenant_id request = or_raise request.tenant_id (http_error 400 "Tenant not identified")

abbrev is_empty : String → Bool
is_empty s = str_eq s ""

-- What `get_current_user` returns; the payload of the token is left out.
pub record CurrentUser : Type 0 where
  pub id : Option ℕ
  pub email : String

module _ (c : Context) where
  -- `get_current_user`: it asks in the tenant of the request, if there is one
  unfoldable pub get_current_user : Request → Exec AppDb CurrentUser
  get_current_user request = do
    user_id ←
        or_raise request.user_id (http_error 401 "Not authenticated. Token invalid or missing.")
    raise_if (is_empty user_id) (http_error 401 "Not authenticated. Token invalid or missing.")
    k ← or_raise (c.to_int user_id) (value_error "invalid literal for int() with base 10")
    found ← reads (on_users (get_by_id request.tenant_id (some k)))
    user ← or_raise found (http_error 404 "Authenticated user not found in database")
    pure (record { id = user.id; email = user.email })

  abbrev text_of : Option ℕ → String
  text_of (some k) = c.platform.str k
  text_of none = "None"

  -- `require_permission`, with the tenant of the service that it asks
  unfoldable pub require_permission : String → String → Request → Exec AppDb (CurrentUser × ℕ)
  require_permission resource action request = do
    current_user ← get_current_user request
    tenant_id ← get_current_tenant_id request
    allowed ← reads (
        on_authorization (can (some tenant_id) c.enforce (text_of current_user.id) resource action))
    raise_if (not allowed) (http_error 403 "Permission denied")
    pure (current_user, tenant_id)
