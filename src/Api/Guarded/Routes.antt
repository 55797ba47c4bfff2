-- ===== src/Api/Guarded/Routes.antt =====
-- The routes that require a permission, all of them.
use mathlib.Core.Path.{subst}
use python_codebase.Prelude.{ℕ, String, Bool, Option, none, some, ◌≡◌, refl, ◌⊎◌, inl, inr}
use python_codebase.Result.{Error, Result, ok, err}
use python_codebase.Session.{Session}
use python_codebase.Tokens.Revocation.{Redis}
use python_codebase.Middleware.{Request}
use python_codebase.Middleware.Rate.{apply_global_rate_limit}
use python_codebase.Tokens.Rotating.{Result-cases}
use python_codebase.Api.{AppDb, Context, CurrentUser, require_permission}
use python_codebase.Api.Errors.{handle_exception, answer}
use python_codebase.Api.Guarded.{Permitted, require_permission-cases}
use python_codebase.Api.Todos.{post_todo, list_todos, show_todo, patch_todo, remove_todo}
use python_codebase.Api.Roles
use python_codebase.Api.Roles.{
  post_role, show_role, patch_role, remove_role, grant_permission, withdraw_permission,
}
use python_codebase.Api.Permissions
use python_codebase.Api.Permissions.{
  post_permission, show_permission, patch_permission, remove_permission,
}
use python_codebase.Api.Auth.{get_me, post_logout}
use python_codebase.Api.Endpoints.{
  Endpoint, create_todo, get_todos, get_todo_detail, update_todo, delete_todo, create_role,
  list_roles, get_role, update_role, delete_role, assign_permission_to_role,
  remove_permission_from_role, create_permission, list_permissions, get_permission,
  update_permission, delete_permission, register, login, refresh_token, me, logout, create_api_key,
  list_api_keys, revoke_api_key, Body, needs, run, opened, serve, serve_limited,
}

module _ {R : Type 0} (c : Context) (redis : Redis R) (message : Error → String) (request : Request)
    (db : AppDb) (r : R) where
  -- A route raised before it did anything, or its caller is permitted.
  abbrev Guarded : Option (String × String) → Result Body × (Session AppDb × R) → Type 0
  Guarded none result = Unit {0}
  Guarded (some p) result =
      ((e : Error) × (result ≡ (err e, (opened db, r))))
      ⊎ ((caller : CurrentUser × ℕ) × Permitted c p.0 p.1 request db caller)

  behind :
      (resource action : String) (result : Result Body × (Session AppDb × R))
      → ((e : Error)
          → require_permission c resource action request (opened db) ≡ (err e, opened db)
          → result ≡ (err e, (opened db, r)))
      → Guarded (some (resource, action)) result
  behind resource action result raises =
      elim (require_permission-cases c request (opened db) resource action) [
        | inl (e, failed) ↦ inl (e, raises e failed)
        | inr (caller, permitted, _) ↦ inr (caller, permitted)
      ]

  run-Guarded : (e : Endpoint) → Guarded (needs e) (run c redis message e request (opened db, r))
  unfolding run post_todo list_todos show_todo patch_todo remove_todo post_role Roles.list_roles
      show_role patch_role remove_role grant_permission withdraw_permission post_permission
      Permissions.list_permissions show_permission patch_permission remove_permission get_me
      post_logout
  run-Guarded (create_todo _) = behind "todo" "create" _ (λ e failed. rw failed refl)
  run-Guarded (get_todos _ _) = behind "todo" "read" _ (λ e failed. rw failed refl)
  run-Guarded (get_todo_detail _) = behind "todo" "read" _ (λ e failed. rw failed refl)
  run-Guarded (update_todo _ _) = behind "todo" "update" _ (λ e failed. rw failed refl)
  run-Guarded (delete_todo _) = behind "todo" "delete" _ (λ e failed. rw failed refl)
  run-Guarded (create_role _ _) = behind "role" "create" _ (λ e failed. rw failed refl)
  run-Guarded (list_roles _ _) = behind "role" "read" _ (λ e failed. rw failed refl)
  run-Guarded (get_role _) = behind "role" "read" _ (λ e failed. rw failed refl)
  run-Guarded (update_role _) = behind "role" "update" _ (λ e failed. rw failed refl)
  run-Guarded (delete_role _) = behind "role" "delete" _ (λ e failed. rw failed refl)
  run-Guarded (assign_permission_to_role _ _) =
      behind "role" "create" _ (λ e failed. rw failed refl)
  run-Guarded (remove_permission_from_role _ _) =
      behind "role" "delete" _ (λ e failed. rw failed refl)
  run-Guarded (create_permission _) = behind "permission" "create" _ (λ e failed. rw failed refl)
  run-Guarded (list_permissions _ _) = behind "permission" "read" _ (λ e failed. rw failed refl)
  run-Guarded (get_permission _) = behind "permission" "read" _ (λ e failed. rw failed refl)
  run-Guarded (update_permission _) = behind "permission" "update" _ (λ e failed. rw failed refl)
  run-Guarded (delete_permission _) = behind "permission" "delete" _ (λ e failed. rw failed refl)
  run-Guarded me = behind "user" "me" _ (λ e failed. rw failed refl)
  run-Guarded (logout _) = behind "user" "update" _ (λ e failed. rw failed refl)
  run-Guarded (register _ _ _) = tt
  run-Guarded (login _ _ _) = tt
  run-Guarded (refresh_token _ _) = tt
  run-Guarded (create_api_key _ _) = tt
  run-Guarded (list_api_keys _ _) = tt
  run-Guarded (revoke_api_key _) = tt

  -- Behind the rate limit: the route's exception is answered and the tables and the revocation keys
  -- stay, or the caller is permitted.
  pub serve_guarded :
      (e : Endpoint) (resource action : String)
      → needs e ≡ some (resource, action)
      → ((error : Error) × (serve c redis message e request (db, r)
            ≡ (handle_exception message error, (db, r))))
        ⊎ ((caller : CurrentUser × ℕ) × Permitted c resource action request db caller)
  unfolding serve answer
  serve_guarded e resource action need =
      elim (subst (λ o. Guarded o (run c redis message e request (opened db, r))) need
        (run-Guarded e)) [
          | inl (error, raised) ↦ inl (error, rw raised refl)
          | inr permitted ↦ inr permitted
        ]

  -- A request to a route that requires a permission is answered by an exception's handler and
  -- leaves the tables and the revocation keys as they were, the limiter of the rate being all that
  -- may have changed; or the rate limit lets it through, and it comes from a user of the tables,
  -- read in the tenant of the request, whom the enforcer allows that permission by the policy lines
  -- of the tenant.
  pub limited_guarded :
      {L : Type 0} (to_int : String → Option ℕ) (limiter : ℕ → ℕ → String → L → Bool × L)
      (limit : String) (l : L) (e : Endpoint) (resource action : String)
      → needs e ≡ some (resource, action)
      → let l' = (apply_global_rate_limit to_int limiter limit request l).1 in
        ((error : Error) × (serve_limited c redis message to_int limiter limit e request
              (l, (db, r))
            ≡ (handle_exception message error, l', (db, r))))
        ⊎ (((apply_global_rate_limit to_int limiter limit request l).0 ≡ ok tt)
            × (caller : CurrentUser × ℕ) × Permitted c resource action request db caller)
  unfolding serve_limited
  limited_guarded to_int limiter limit l e resource action need =
      elim (Result-cases (apply_global_rate_limit to_int limiter limit request l).0) [
        | inr (error, refused) ↦ inl (error, rw refused refl)
        | inl (_, allowed) ↦ elim (serve_guarded e resource action need) [
          | inl (error, raised) ↦ inl (error, rw (allowed, raised) refl)
          | inr (caller, permitted) ↦ inr (rw allowed refl, caller, permitted)
        ]
      ]
