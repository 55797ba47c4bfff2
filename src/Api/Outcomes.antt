-- ===== src/Api/Outcomes.antt =====
-- Routes that answer 500 after their handlers have returned.
pub mod Paging
use python_codebase.Tokens.Rotating.{Result-cases}
use python_codebase.Prelude.{
  inl, inr, arith, ℕ, String, Bool, true, false, Option, none, some, ◌≡◌, refl,
}
use python_codebase.Result.{Error, Result, ok, err, validation_error}
use python_codebase.Session.{Session}
use python_codebase.Tokens.Revocation.{Redis}
use python_codebase.Accounts.{AccountDb}
use python_codebase.Accounts.Registration.{RegisterUserCommand, Registered}
use python_codebase.Accounts.Registration
use python_codebase.Middleware.{Request}
use python_codebase.Api.{AppDb, Context, get_current_tenant_id}
use python_codebase.Api.Errors.{Reply, success, failure, handle_exception, answer, domain_exception}
use python_codebase.Api.Auth.{post_register}
use python_codebase.Api.Endpoints.{Endpoint, register, run, opened, serve, Body}

-- The answer of `global_exception_handler`.
abbrev pub internal_error : Reply Body
internal_error =
    failure 500 "INTERNAL_SERVER_ERROR" "An unexpected error occurred. Please try again later."

abbrev pub is_failure : Reply Body → Bool
is_failure (success status body) = false
is_failure (failure status code text) = true

handle_exception-failure :
    (message : Error → String) (e : Error) → is_failure (handle_exception message e) ≡ true
unfolding handle_exception domain_exception
handle_exception-failure message e = ground arith

module _ {R : Type 0} (c : Context) (redis : Redis R) (message : Error → String) (request : Request)
    (db : AppDb) (r : R) where
  -- A registration in a tenant is never answered with success, whatever its handler does: the route
  -- builds the answer without seven fields that it requires. The tables are left as the handler
  -- commits them, also where it has made the user.
  pub register_never_succeeds :
      (t : ℕ) (command : RegisterUserCommand) (salt token : String)
      → request.tenant_id ≡ some t
      → let (result, s) =
          Registration.register c.platform c.passwords c.to_int
            (some t)
            command
            salt
            token
            (record { committed = db.accounts; working = db.accounts; is_committed = false }) in
        let (reply, after) = serve c redis message (register command salt token) request (db, r) in
        (is_failure reply ≡ true) × (after ≡ (record db { accounts = s.committed }, r))
  unfolding serve run post_register get_current_tenant_id answer
  register_never_succeeds t command salt token tenant =
      elim (Result-cases (handled t command salt token).0) [
        | inl (done, returned) ↦
            rw (tenant, returned) (handle_exception-failure message validation_error, refl)
        | inr (e, raised) ↦ rw (tenant, raised) (handle_exception-failure message _, refl)
      ]
    where
      handled : ℕ → RegisterUserCommand → String → String → Result Registered × Session AccountDb
      handled t command salt token =
          Registration.register c.platform c.passwords c.to_int (some t) command salt token
            (record { committed = db.accounts; working = db.accounts; is_committed = false })
