-- ===== src/Middleware/Audit.antt =====
-- `AuditLoggingMiddleware` (src/core/middleware/audit_logging.py), and the error traces of
-- src/core/security/audit.py and src/core/security/infrastructure/repositories/error_trace_repository.py.
use python_codebase.Prelude.{
  ℕ, String, Bool, ◌&&◌, ◌≡◌, refl, inl, inr, Option, none, some, List, [], ◌∷◌, ◌++◌, str_eq,
  is_one_of, is_some, filter, not, after_prefix, rstrip_slash, split_on, first_part, strip,
  Bool-cases, if◌then◌else◌,
}
use Prim.Native.String.{◌++◌ as append}
use python_codebase.Result.{Error, Result, ok, err}
use python_codebase.State.{from_result, modify, ◌>>=◌, ◌>>◌}
use python_codebase.Session.{Query}
use python_codebase.Sql.{tenant_column}
use python_codebase.Tokens.Rotating.{Result-cases}
use python_codebase.Accounts.{AccountDb, AuditEvent, Driver, save_audit}
use python_codebase.Middleware.{Request, Response, CallNext}

-- `ErrorTrace`; its id and its time are drawn outside and left out, as are the texts of Python's
-- traceback.
pub record ErrorTrace : Type 0 where
  pub error : Error
  pub method : String
  pub path : String
  pub actor_id : Option String
  pub request_id : Option String
  pub metadata : List (String × Option String)

pub record ErrorTraceModel : Type 0 where
  pub trace : ErrorTrace
  pub tenant_id : ℕ

-- What the middleware writes: the audit log among the accounts' tables, and the error traces.
pub record AuditDb : Type 0 where
  pub accounts : AccountDb
  pub error_traces : List ErrorTraceModel

abbrev on_accounts : {A : Type 0} → Query AccountDb A → Query AuditDb A
on_accounts q db = let (r, a) = q db.accounts in (r, record db { accounts = a })

-- A session of its own: what is saved is committed, or nothing is where the commit raises.
abbrev close : AuditDb → Result (Unit {0}) → AuditDb → Result (Unit {0}) × AuditDb
close db (ok u) after = (ok tt, after)
close db (err e) after = (err e, db)

abbrev in_session : Query AuditDb (Unit {0}) → Query AuditDb (Unit {0})
in_session q db = let (result, after) = q db in close db result after

module _ (driver : Driver) where
  -- `SQLAlchemyErrorTraceRepository.save`, and the flush of its row
  unfoldable pub save_trace : Option ℕ → ErrorTrace → Query AuditDb (Unit {0})
  save_trace tenant_id trace = do
    tenant ← from_result (tenant_column tenant_id)
    from_result driver.uuid_key
    modify (λ db. record db {
      error_traces = db.error_traces ++ record { trace = trace; tenant_id = tenant } ∷ [];
    })

  -- `_SessionBackedAuditService.record` and `_SessionBackedErrorTraceService.record`
  unfoldable pub record_in_session : AuditEvent → Query AuditDb (Unit {0})
  record_in_session event = in_session (on_accounts (save_audit driver none event))

  unfoldable pub trace_in_session : ErrorTrace → Query AuditDb (Unit {0})
  trace_in_session trace = in_session (save_trace none trace)

-- `EXCLUDED_AUDIT_PATHS`, stripped
abbrev pub excluded_paths : List String
excluded_paths = "/health" ∷ "/live" ∷ "/ready" ∷ "/docs" ∷ "/redoc" ∷ "/openapi.json" ∷ []

-- `_is_excluded`
abbrev pub is_excluded : Request → Bool
is_excluded request = is_one_of excluded_paths (rstrip_slash request.path)

abbrev nonempty : List String → List String
nonempty parts = filter (λ part. not (str_eq part "")) parts

abbrev type_of : List String → Option String
type_of [] = none
type_of (x ∷ y ∷ z ∷ rest) =
    if str_eq x "api" && is_some (after_prefix "v" y) then some z else some x
type_of (x ∷ rest) = some x

-- `_resource_type`
unfoldable pub resource_type : Request → Option String
resource_type request = type_of (nonempty (split_on 47 request.path))

abbrev param : String → List (String × String) → Option String
param name [] = none
param name (x ∷ xs) = let rest = param name xs in if str_eq x.0 name then some x.1 else rest

abbrev first_param : List String → List (String × String) → Option String
first_param [] params = none
first_param (name ∷ names) params =
    let rest = first_param names params in
    elim (param name params) [ some value ↦ some value | none ↦ rest ]

-- `_resource_id`
unfoldable pub resource_id : Request → Option String
resource_id request =
    first_param ("id" ∷ "todo_id" ∷ "role_id" ∷ "permission_id" ∷ "user_id" ∷ [])
      request.path_params

abbrev ip_of : Option String → Option String → Option String
ip_of none host = host
ip_of (some String.[]) host = host
ip_of (some (String.◌∷◌ c s)) host = some (strip (first_part 44 (String.◌∷◌ c s)))

-- `_client_ip`
unfoldable pub client_ip : Request → Option String
client_ip request = ip_of request.forwarded_for request.client_host

-- An entry of the metadata that may be None.
abbrev given : String → Option String → List (String × String)
given name none = []
given name (some value) = (name, value) ∷ []

module _ {S : Type 0} (str : ℕ → String) (record_audit : AuditEvent → Query AuditDb (Unit {0}))
    (record_trace : ErrorTrace → Query AuditDb (Unit {0})) (call_next : CallNext S) where
  -- The event of `_record_audit_event`; texts that are None are left out of the metadata.
  abbrev pub event_of : Request → ℕ → AuditEvent
  event_of request status = record {
    action = append request.method (append " " request.path);
    actor_id = request.user_id;
    resource_type = resource_type request;
    resource_id = resource_id request;
    metadata =
        ("method", request.method)
        ∷ ("path", request.path)
        ∷ ("status_code", str status)
        ∷ (given "client_ip" (client_ip request) ++ given "user_agent" request.user_agent);
  }

  abbrev pub trace_of : Request → Error → ErrorTrace
  trace_of request e = record {
    error = e;
    method = request.method;
    path = request.path;
    actor_id = request.user_id;
    request_id = request.request_id;
    metadata = ("client_ip", client_ip request) ∷ ("user_agent", request.user_agent) ∷ [];
  }

  abbrev record_outcome : Request → AuditDb → Result Response → AuditDb
  record_outcome request db (ok response) =
      (record_audit (event_of request response.status_code) db).1
  record_outcome request db (err e) = (record_trace (trace_of request e) db).1

  -- `dispatch`: what the services raise is logged and goes no further
  unfoldable pub audit : Request → AuditDb × S → Result Response × (AuditDb × S)
  audit request (db, s) =
      let (result, s') = call_next request s in
      (result, ((if is_excluded request then db else record_outcome request db result), s'))

-- With the services that it makes by default, the middleware records no event and no trace, whatever
-- is requested and however it ends: their repositories have no tenant, the column of the tenant is
-- not nullable, and what the commit raises is swallowed. The application's answer and state, and
-- what it raises, go through.
pub audit_keeps_nothing :
    {S : Type 0} (driver : Driver) (str : ℕ → String) (call_next : CallNext S) (request : Request)
    (db : AuditDb) (s : S)
    → audit str (record_in_session driver) (trace_in_session driver) call_next request (db, s)
      ≡ ((call_next request s).0, (db, (call_next request s).1))
unfolding audit record_in_session trace_in_session save_audit save_trace tenant_column
audit_keeps_nothing driver str call_next request db s = elim (Bool-cases (is_excluded request)) [
  | inl excluded ↦ rw excluded refl
  | inr included ↦ elim (Result-cases (call_next request s).0) [
    | inl (response, e) ↦ rw (included, e) refl
    | inr (x, e) ↦ rw (included, e) refl
  ]
]
