-- ===== src/Api/Stack/Tests.antt =====
-- A deletion of a todo, with a token and a tenant.
use python_codebase.Prelude.{
  ltb, rstrip_slash, ℕ, Bool, ◌+◌, ◌≡◌, refl, if◌then◌else◌, ◌⊎◌, true, false, none, some, [], ◌∷◌,
  str_eq,
}
use python_codebase.Accounts.Samples.{signer, one_key}
use python_codebase.Middleware.{Request}
use python_codebase.Middleware.{Response}
use python_codebase.Middleware.Authentication.{Provider}
use python_codebase.Middleware.Idempotency
use python_codebase.Middleware.Csrf.{double_submit}
use python_codebase.Api.Stack.{Wiring, Moment, respond}
use python_codebase.Api.Stack.Guarded.{Answered, respond_guarded}
use python_codebase.Api.Errors.{Reply, failure}
use python_codebase.Api.Endpoints.{Body, delete_todo}
use python_codebase.Api.Samples.{context, app, from_user, text}

-- One provider that knows one token, one tenant, a cache that forgets, and one route.
abbrev one_token : Provider ℕ
one_token token now p =
    ((if str_eq token "t1" then some (record { user_id = "7"; provider = "jwt" }) else none), p + 1)

abbrev forgetful : Idempotency.Redis ℕ
forgetful = record { get = λ key now c. none; setex = λ key ttl value now c. c }

abbrev plain_response : Reply Body → Response
plain_response reply = record { status_code = 200; body = ""; media_type = none; headers = [] }

abbrev wiring : Wiring ℕ ℕ ℕ Bool
wiring = record {
  providers = one_token ∷ [];
  tenants = record { id = 1; name = "Acme"; slug = "acme"; domain = none } ∷ [];
  tenant_claim = λ token. none;
  multitenant = true;
  default_tenant = none;
  csrf_enabled = false;
  csrf = double_submit;
  cache = forgetful;
  sha256 = λ s. s;
  ttl = 60;
  preflight = λ request. none;
  to_int = λ s. some 4;
  max_upload_size = 1000;
  rate_limit = "5/minute";
  limiter = λ times seconds identifier l. (ltb l times, l + 1);
  context = context (signer "access");
  redis = one_key;
  message = text;
  route = λ request. if str_eq request.method "DELETE" then some (delete_todo 1) else none;
  render = plain_response;
  unmatched = λ request. plain_response (failure 404 "HTTP_ERROR" "Not Found");
}

abbrev deletion : Request
deletion = record (from_user none) {
  method = "DELETE";
  path = "/api/v1/todos/1";
  authorization = some "Bearer t1";
  tenant_header = some "acme";
  tenant_id = none;
  auth_provider = none;
}

abbrev moment : Moment
moment = record { drawn = "drawn"; now = 5; done = 6 }

respond_guarded_example :
    let (response, p', after) = respond wiring moment deletion (0, (0, (0, (app, false)))) in
    (after.1.1 ≡ (app, false)) ⊎ Answered wiring moment deletion 0 (app, false) p'
unfolding rstrip_slash
respond_guarded_example =
    respond_guarded wiring moment deletion 0 0 (0, (app, false)) refl refl refl
