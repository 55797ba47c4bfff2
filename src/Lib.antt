-- ===== src/Lib.antt =====
-- A FastAPI modulith for users, authorization and todos, with tenants.
--
-- Parts. A request passes the middleware, a router calls a handler
-- (src/modules/*/application), the handler checks, calls repositories
-- (src/modules/*/infrastructure/repositories) inside `async with unit_of_work`, commits and
-- returns. A handler or repository here is a function from its arguments to
-- `State S A = S → Result A × S` (State.antt): what was written before an exception stays in
-- the session, and the unit of work decides what becomes of it.
--
-- Prelude, Prelude/*: numbers, Boolean tests, lists and texts that the others share.
-- Result.antt: the exceptions as values, and `scalar_one_or_none` of SQLAlchemy.
-- Session.antt: src/core/database/unit_of_work.py. A session is its committed tables, its
--   working tables and the flag `_committed`; `transaction` is the handlers' block.
-- Sql.antt: the tenant filter and the tenant column of all repositories.
-- Pagination.antt: the queries and pages of `get_by_user_cursor`
--   (src/modules/todo/infrastructure/repositories/todo_repository.py) and of
--   `_apply_cursor_pagination`
--   (src/modules/authorization/infrastructure/repositories/casbin_policy_repository.py). The
--   database's ORDER BY is an insertion sort. `walk` is a client that follows the cursors;
--   its fuel is a number of requests, and one more than the rows are enough.
-- Pagination/Codec.antt: the text of a cursor (src/shared/utils/cursor.py). Base64, JSON, ISO times
--   and `int` are parameters, with what Python documents of them in `IsStandard`.
-- Todo.antt, Todo/Handlers.antt: src/modules/todo, its entity, table, repository and handlers.
--   The user module's facade is a function parameter.
-- Todo/Spec.antt: what these use cases promise, over a map from keys to todos and their tenants;
--   Todo/View.antt reads the table as such a map.
-- Lockout.antt: src/core/security/account_lockout.py and its repository.
-- Authorization.antt, Authorization/{Policies, Roles, Permissions, Grants, Handlers}.antt: the
--   tables, the repository and the handlers of src/modules/authorization. `int()` and `str.title()` are parameters.
-- Tokens.antt, Tokens/Refresh.antt: src/core/security/jwt.py, the table of sessions and the
--   refresh handler of src/modules/user. Encoding, decoding and hashing are parameters.
-- Tokens/History.antt: the histories of the table of sessions, as a relation of its operations.
-- Tokens/Revocation.antt: src/core/security/token_revocation.py and the provider of
--   src/core/security/providers.py for tokens; Redis is an interface.
-- Users.antt, Users/Saving.antt: src/modules/user/domain/entities/user.py and
--   src/modules/user/infrastructure/repositories/user_repository.py.
-- Accounts.antt, Accounts/{Login, Registration, Logout}.antt: the handlers of
--   src/modules/user/application/auth over one record of all the tables, and the audit service
--   src/core/security/audit.py. passlib, and what asyncpg makes of values that do not fit an integer
--   column, are parameters.
-- Accounts/{Seeding, Seeders}.antt: src/core/seed/user.py and src/core/seed/runner.py, over the same
--   record.
-- Authorization/{Defaults, Seeding}.antt: src/core/seed/authorization.py and the defaults of
--   src/modules/authorization/domain/permissions.py.
-- Tenants.antt: the repository of src/modules/tenants and src/core/seed/tenant.py.
-- ApiKeys.antt: src/modules/api_key, its service and repository, and its provider.
-- Events.antt: src/core/events/bus.py.
-- Authorization/Access.antt: `can` of
--   src/modules/authorization/infrastructure/services/casbin_authorization_service.py, with Casbin's
--   enforcer as a parameter.
-- TwoFactor.antt, TwoFactor/{Codes, Handlers}.antt: src/core/security/two_factor_auth.py over Users.antt; the
--   texts of the codes are split and joined as Python does. pyotp, `str`, `int` and the mail are
--   parameters.
-- Middleware.antt, Middleware/{Idempotency, Authentication, Csrf, Limits, Tenancy, Headers, Audit,
--   Rate}.antt: idempotency.py, auth.py, csrf.py, request_size.py, tenant.py, request_id.py,
--   security_headers.py, csp.py and audit_logging.py of src/core/middleware, and
--   src/core/dependency/rate_limit.py; the server Redis, the hash, the limiter and
--   the application behind the middleware are parameters.
-- Api.antt, Api/{Errors, Pages, Todos, Roles, Permissions, Auth, Keys, Endpoints}.antt: the routers
--   of src/modules/*/presentation, what is injected into them (src/core/dependency), and the handlers
--   of src/core/exceptions/handler.py. `serve` is one request: its session is opened on all the
--   tables, the route runs, an exception is answered, and what is not committed is gone;
--   `serve_limited` puts the rate limit of src/main.py before it.
-- Api/Stack.antt: the middleware that can refuse or answer a request, around the routes, as
--   src/core/bootstrap/middleware.py adds them. What CORSMiddleware answers itself is a parameter.
-- Settings.antt: the checks of src/core/config/setting.py.
--
-- Conventions. Tables are lists of rows in insertion order; a key sequence is a counter. Times are
-- natural numbers, microseconds since the epoch where a file names no other unit, and a subtraction
-- that would fall before the epoch stops at it. The files below a component's own hold its lemmas
-- and theorems, and its Tests the runs on concrete data. Unique indexes raise IntegrityError where the flush would. Constraints by
-- foreign keys are not modelled. A text is taken to fit its column, but for those of the API keys,
-- where it is a parameter whether one does. One session is modelled at a time: races of two transactions are
-- not. A run reads the clock once. Whether passlib hashes a password is a parameter; at a login, a
-- password is taken to be no longer than the 4096 characters that it takes.
-- The column updated_at is left out. An UPDATE expires it, and what a later read gives that would
-- have to load it is a parameter where the code makes such a read (update_role, update_permission).
--
-- Not modelled: the two-factor router (it cannot be imported, see its handlers in
-- TwoFactor/Handlers.antt), email, metrics, logging, health probes, Redis and database connections
-- (input and output), Casbin's enforcer, asyncpg, and of FastAPI the match of the paths and the
-- checks of the schemas (third parties).
pub mod Prelude
pub mod Result
pub mod State
pub mod Session
pub mod Sql
pub mod Pagination
pub mod Todo
pub mod Lockout
pub mod Authorization
pub mod Tokens
pub mod TwoFactor
pub mod Users
pub mod ApiKeys
pub mod Accounts
pub mod Middleware
pub mod Tenants
pub mod Events
pub mod Api
pub mod Settings
