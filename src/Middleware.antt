-- ===== src/Middleware.antt =====
-- The middleware of src/core/middleware: requests, responses and what is shared.
pub mod Idempotency
pub mod Authentication
pub mod Gate
pub mod Csrf
pub mod Limits
pub mod Tenancy
pub mod Headers
pub mod Audit
pub mod Rate
mod Tests
use python_codebase.Prelude.{ℕ, String, Option, List}
use python_codebase.Result.{Result}

-- The parts of a request that the middleware reads; a header that is not sent is none.
pub record Request : Type 0 where
  pub method : String
  pub path : String
  pub authorization : Option String
  pub idempotency_key : Option String
  pub body : String
  pub content_length : Option String
  pub tenant_header : Option String
  pub host : Option String
  pub csrf_header : Option String
  pub csrf_cookie : Option String
  pub forwarded_for : Option String
  pub client_host : Option String
  pub user_agent : Option String
  pub request_id_header : Option String
  -- the parameters of the path that the router has matched
  pub path_params : List (String × String)
  -- `request.state`: what the middleware before has set
  pub user_id : Option String
  pub auth_provider : Option String
  pub tenant_id : Option ℕ
  pub request_id : Option String

pub record Response : Type 0 where
  pub status_code : ℕ
  pub body : String
  pub media_type : Option String
  pub headers : List (String × String)

-- `call_next`: the rest of the application, over its own state; it may raise what no exception handler
-- of the application takes.
abbrev pub CallNext : Type 0 → Type 0
CallNext S = Request → S → Result Response × S
