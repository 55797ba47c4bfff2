-- ===== src/Api/Stack.antt =====
-- The middleware around the routes, in the order in which src/core/bootstrap/middleware.py adds them:
-- the last one added meets a request first. Those that pass every request on and touch only headers,
-- logs and metrics are left out here, as is the cookie that the check of the CSRF token may set. So is
-- the audit log, whose default services keep nothing.
pub mod Passing
pub mod Guarded
mod Tests
use python_codebase.Prelude.{ℕ, String, Bool, Option, none, some, List, if◌then◌else◌}
use python_codebase.Result.{Error, Result, ok, err}
use python_codebase.Tokens.Revocation.{Redis}
use python_codebase.Middleware.{Request, Response, CallNext}
use python_codebase.Middleware.Authentication.{Provider, authenticate}
use python_codebase.Middleware.Tenancy.{TenantModel, set_tenant}
use python_codebase.Middleware.Csrf.{CsrfService, check_csrf}
use python_codebase.Middleware.Idempotency
use python_codebase.Middleware.Idempotency.{dispatch}
use python_codebase.Middleware.Limits.{limit_size}
use python_codebase.Middleware.Rate.{apply_global_rate_limit}
use python_codebase.Api.{AppDb, Context}
use python_codebase.Api.Errors.{Reply, success, is_handled, handle_exception}
use python_codebase.Api.Endpoints.{Endpoint, Body, status_of, run, opened}

-- What the parts of the application are wired with. `route` is the match of FastAPI, and `unmatched`
-- its answer to a request that matches no route or no schema, `preflight` is what
-- Starlette's CORSMiddleware answers itself, `limiter` is that of fastapi_limiter; `render` makes a reply a response.
pub record Wiring (P C L R : Type 0) : Type 0 where
  pub providers : List (Provider P)
  pub tenants : List TenantModel
  pub tenant_claim : String → Option ℕ
  pub multitenant : Bool
  pub default_tenant : Option ℕ
  pub csrf_enabled : Bool
  pub csrf : CsrfService
  pub cache : Idempotency.Redis C
  pub sha256 : String → String
  pub ttl : ℕ
  pub preflight : Request → Option Response
  pub to_int : String → Option ℕ
  pub max_upload_size : ℕ
  pub rate_limit : String
  pub limiter : ℕ → ℕ → String → L → Bool × L
  pub context : Context
  pub redis : Redis R
  pub message : Error → String
  pub route : Request → Option Endpoint
  pub render : Reply Body → Response
  pub unmatched : Request → Response

-- What a request draws, and when it comes and is done.
pub record Moment : Type 0 where
  pub drawn : String
  pub now : ℕ
  pub done : ℕ

module _ {P C L R : Type 0} (w : Wiring P C L R) (m : Moment) where
  -- The answer of a route, or of the handler of its exception; what no handler takes is raised.
  abbrev replied : ℕ → Result Body → Result Response
  replied status (ok body) = ok (w.render (success status body))
  replied status (err e) =
      if is_handled e then ok (w.render (handle_exception w.message e)) else err e

  -- A route on a session of its own: what is not committed is gone.
  abbrev pub admitted : Result (Unit {0}) → Endpoint → CallNext (AppDb × R)
  admitted (err e) endpoint request s = (replied (status_of endpoint) (err e), s)
  admitted (ok u) endpoint request (db, r) =
      let (result, after) = run w.context w.redis w.message endpoint request (opened db, r) in
      (replied (status_of endpoint) result, (after.0.committed, after.1))

  -- The rate limit is a dependency of every route.
  abbrev pub by_route : Option Endpoint → CallNext (L × (AppDb × R))
  by_route none request s = (ok (w.unmatched request), s)
  by_route (some e) request (l, s) =
      let (verdict, l') = apply_global_rate_limit w.to_int w.limiter w.rate_limit request l in
      let (result, s') = admitted verdict e request s in (result, (l', s'))

  abbrev pub to_route : CallNext (L × (AppDb × R))
  to_route request s = by_route (w.route request) request s

  abbrev pub limited : CallNext (L × (AppDb × R))
  limited = limit_size w.to_int w.max_upload_size to_route

  abbrev pub cross_origin : Option Response → CallNext (L × (AppDb × R))
  cross_origin (some response) request s = (ok response, s)
  cross_origin none request s = limited request s

  -- `CORSMiddleware`: a preflight is answered there.
  abbrev pub crossed : CallNext (L × (AppDb × R))
  crossed request s = cross_origin (w.preflight request) request s

  abbrev pub idempotent : CallNext (C × (L × (AppDb × R)))
  idempotent request s =
      let (result, c, s') = dispatch w.cache w.sha256 w.ttl crossed request m.now m.done s in
      (result, (c, s'))

  abbrev pub checked : CallNext (C × (L × (AppDb × R)))
  checked request s =
      let (result, cookie, s') = check_csrf w.csrf_enabled w.csrf idempotent request m.drawn s in
      (result, s')

  abbrev pub tenanted : CallNext (C × (L × (AppDb × R)))
  tenanted = set_tenant w.tenants w.tenant_claim w.multitenant w.default_tenant checked

  -- `global_exception_handler`
  abbrev response_of : Result Response → Response
  response_of (ok response) = response
  response_of (err e) = w.render (handle_exception w.message e)

  -- A request as the application meets it.
  abbrev pub respond :
      Request → P × (C × (L × (AppDb × R))) → Response × P × (C × (L × (AppDb × R)))
  respond request s =
      let (result, p, s') = authenticate w.providers tenanted request m.now s in
      (response_of result, p, s')
