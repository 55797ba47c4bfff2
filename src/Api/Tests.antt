-- ===== src/Api/Tests.antt =====
-- Ann with two todos, and Bob, who registers.
use python_codebase.Prelude.{
  ℕ, String, Bool, true, ltb, ◌+◌, ◌≡◌, refl, arith, ◌⊎◌, false, none, some, [],
}
use python_codebase.Result.{Error, ok, scalar_one_or_none}
use python_codebase.Sql.{in_tenant}
use python_codebase.Users.{get_by_id}
use python_codebase.Middleware.Rate.{apply_global_rate_limit}
use python_codebase.Accounts.Registration
use python_codebase.Authorization.Access.{can, load_policy_lines}
use python_codebase.Accounts.Samples.{
  signer, settings, lockout, plain, pyotp, to_int, lenient, ann, roles, db, newcomer, with_bob,
  numbered, one_key,
}
use python_codebase.Accounts.Samples
use python_codebase.Todo.{user_rows}
use python_codebase.Api.{CurrentUser, get_current_user, get_current_tenant_id, require_permission}
use python_codebase.Api.Errors.{handle_exception}
use python_codebase.Api.Endpoints.{
  serve, serve_limited, delete_todo, get_todos, register, create_api_key, revoke_api_key,
}
use python_codebase.Api.Keys.{CreateApiKeyRequest}
use python_codebase.Api.Guarded.{Permitted}
use python_codebase.Api.Guarded.Routes.{limited_guarded}
use python_codebase.Api.Safe.Routes.{get_changes_nothing, key_routes_change_nothing}
use python_codebase.Api.Outcomes.{internal_error, is_failure, register_never_succeeds}
use python_codebase.Api.Outcomes.Paging.{first_page_fails}
use python_codebase.Api.Samples.{context, app, from_user, text}

abbrev ci_key : CreateApiKeyRequest
ci_key = record { name = "ci"; permissions = []; expires_at = none }

-- A limiter that counts, and lets five requests through.
abbrev count_five : ℕ → ℕ → String → ℕ → Bool × ℕ
count_five times seconds identifier l = (ltb l times, l + 1)

limited_guarded_example :
    let c = context (signer "access") in
    let request = from_user (some "7") in
    let limited = apply_global_rate_limit (λ s. some 5) count_five "5/minute" request 0 in
    ((error : Error) × (serve_limited c one_key text
          (λ s. some 5)
          count_five
          "5/minute"
          (delete_todo 1)
          request
          (0, (app, false))
        ≡ (handle_exception text error, limited.1, (app, false))))
    ⊎ ((limited.0 ≡ ok tt)
        × (caller : CurrentUser × ℕ) × Permitted c "todo" "delete" request app caller)
limited_guarded_example =
    limited_guarded (context (signer "access")) one_key text (from_user (some "7")) app false
      (λ s. some 5) count_five "5/minute" 0 (delete_todo 1) "todo" "delete" refl

get_changes_nothing_example :
    (serve_limited
      (context (signer "access"))
      one_key
      text
      (λ s. some 5)
      count_five
      "5/minute"
      (get_todos none 2)
      (from_user (some "7"))
      (0, (app, false))).2
    ≡ (app, false)
get_changes_nothing_example =
    get_changes_nothing (context (signer "access")) one_key text (from_user (some "7")) app false
      (λ s. some 5) count_five "5/minute" 0 (get_todos none 2) refl

key_routes_change_nothing_example :
    let c = context (signer "access") in
    let request = from_user (some "7") in
    ((serve c one_key text (create_api_key ci_key "drawn") request (app, false)).1 ≡ (app, false))
    × ((serve c one_key text (revoke_api_key 1) request (app, false)).1 ≡ (app, false))
key_routes_change_nothing_example =
    key_routes_change_nothing (context (signer "access")) one_key text (from_user (some "7")) app
      false ci_key "drawn" 1

first_page_fails_example :
    serve
      (context (signer "access"))
      one_key
      text
      (get_todos none 1)
      (from_user (some "7"))
      (app, false)
    ≡ (internal_error, (app, false))
first_page_fails_example =
    first_page_fails (context (signer "access")) one_key text (from_user (some "7")) app false
      (record { id = some 7; email = "ann@example.org" }, 1) 7 1
      (unfold require_permission get_current_user get_current_tenant_id can load_policy_lines
          get_by_id in_tenant scalar_one_or_none in
        refl)
      refl (omega arith) (unfold user_rows in omega arith)

register_never_succeeds_example :
    let c = record (context numbered) { to_int = λ s. some 8 } in
    let (result, s) =
      Registration.register c.platform c.passwords c.to_int
        (some 1)
        newcomer
        "salt"
        "token"
        Samples.opened in
    let (reply, after) =
      serve c one_key text (register newcomer "salt" "token") (from_user none) (app, false) in
    (is_failure reply ≡ true) × (after ≡ (record app { accounts = s.committed }, false))
register_never_succeeds_example =
    register_never_succeeds (record (context numbered) { to_int = λ s. some 8 }) one_key text
      (from_user none) app false 1 newcomer "salt" "token" refl
