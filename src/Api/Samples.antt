-- ===== src/Api/Samples.antt =====
-- The tenant of the accounts with two todos, and what the application is given around it.
use python_codebase.Prelude.{
  ℕ, if◌then◌else◌, String, true, false, Option, none, some, [], ◌∷◌, str_eq,
}
use python_codebase.Result.{ok, Error}
use python_codebase.Tokens.{Platform}
use python_codebase.Accounts.Samples.{settings, lockout, plain, pyotp, lenient, db}
use python_codebase.Pagination.Samples.{codec}
use python_codebase.Todo.{TodoModel}
use python_codebase.Middleware.{Request}
use python_codebase.Api.{AppDb, Context}

-- The enforcer allows everything to the user 7.
abbrev pub context : Platform → Context
context platform = record {
  to_int = λ s. if str_eq s "7" then some 7 else none;
  title = λ s. s;
  enforce = λ lines subject key. str_eq subject "7";
  codec = codec;
  platform = platform;
  settings = settings;
  passwords = plain;
  lockout = lockout;
  two_factor = pyotp;
  driver = lenient;
  fits = λ n s. true;
  expired = ok tt;
}

abbrev pub todo : ℕ → TodoModel
todo k = record {
  id = k;
  title = "milk";
  description = none;
  is_completed = false;
  user_id = 7;
  tenant_id = 1;
  created_at = k;
  deleted_at = none;
}

abbrev pub app : AppDb
app = record {
  accounts = db;
  todos = record { todos = todo 1 ∷ todo 2 ∷ []; next_id = 3; now = 3 };
  api_keys = record { keys = []; next_id = 1; now = 0 };
}

abbrev pub from_user : Option String → Request
from_user user_id = record {
  method = "GET";
  path = "/api/v1/todos";
  authorization = none;
  idempotency_key = none;
  body = "";
  content_length = none;
  tenant_header = none;
  host = none;
  csrf_header = none;
  csrf_cookie = none;
  forwarded_for = none;
  client_host = none;
  user_agent = none;
  request_id_header = none;
  path_params = [];
  user_id = user_id;
  auth_provider = some "jwt";
  tenant_id = some 1;
  request_id = none;
}

abbrev pub text : Error → String
text e = "error"
