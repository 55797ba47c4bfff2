-- ===== src/Api/Endpoints.antt =====
-- The API as one function: the routes that src/core/routers/api/v1.py and src/core/routers/admin.py
-- include, their guards, their statuses, and what a request leaves in the database. The checks of the
-- schemas (types, lengths, the bounds of `limit`) and the match of the paths are FastAPI's.
use python_codebase.Prelude.{ℕ, String, Bool, false, Option, none, some}
use python_codebase.Result.{Error, Result, ok, err}
use python_codebase.State.{State, pure, ◌>>=◌}
use python_codebase.Session.{Session, Exec}
use python_codebase.Todo.Handlers.{CreateTodoCommand, UpdateTodoCommand, TodoWithOwner}
use python_codebase.Authorization.Handlers.{UpdateRoleCommand, UpdatePermissionCommand}
use python_codebase.Tokens.Refresh.{TokenPair, Draw}
use python_codebase.Tokens.Revocation.{Redis}
use python_codebase.Accounts.Registration.{RegisterUserCommand}
use python_codebase.Middleware.{Request}
use python_codebase.Api.{AppDb, Context}
use python_codebase.Api.Errors.{Reply, answer, handle_exception}
use python_codebase.Middleware.Rate.{apply_global_rate_limit}
use python_codebase.Api.Pages.{Page}
use python_codebase.Api.Todos.{
  TodoResponse, post_todo, list_todos, show_todo, patch_todo, remove_todo,
}
use python_codebase.Api.Roles
use python_codebase.Api.Roles.{
  RoleResponse, post_role, show_role, patch_role, remove_role, grant_permission,
  withdraw_permission,
}
use python_codebase.Api.Permissions
use python_codebase.Api.Permissions.{
  CreatePermissionRequest, PermissionResponse, post_permission, show_permission, patch_permission,
  remove_permission,
}
use python_codebase.Api.Auth.{
  UserResponse, post_register, post_login, post_refresh, get_me, post_logout,
}
use python_codebase.Api.Keys
use python_codebase.Api.Keys.{
  CreateApiKeyRequest, ApiKeyCreatedResponse, ApiKeyListResponse, post_api_key,
}

-- A route with what its request carries, and with what its handler draws or reads from the clock.
pub data Endpoint : Type 0 where
  create_todo : CreateTodoCommand → Endpoint
  get_todos : Option String → ℕ → Endpoint
  get_todo_detail : ℕ → Endpoint
  update_todo : ℕ → UpdateTodoCommand → Endpoint
  delete_todo : ℕ → Endpoint
  create_role : String → Option String → Endpoint
  list_roles : Option String → ℕ → Endpoint
  get_role : ℕ → Endpoint
  update_role : UpdateRoleCommand → Endpoint
  delete_role : ℕ → Endpoint
  assign_permission_to_role : ℕ → ℕ → Endpoint
  remove_permission_from_role : ℕ → ℕ → Endpoint
  create_permission : CreatePermissionRequest → Endpoint
  list_permissions : Option String → ℕ → Endpoint
  get_permission : ℕ → Endpoint
  update_permission : UpdatePermissionCommand → Endpoint
  delete_permission : ℕ → Endpoint
  register : RegisterUserCommand → String → String → Endpoint
  login : String → String → Draw → Endpoint
  refresh_token : String → Draw → Endpoint
  me : Endpoint
  logout : ℕ → Endpoint
  create_api_key : CreateApiKeyRequest → String → Endpoint
  list_api_keys : ℕ → ℕ → Endpoint
  revoke_api_key : ℕ → Endpoint

-- The bodies of the answers.
pub data Body : Type 0 where
  empty : Body
  of_todo : TodoResponse → Body
  of_todos : Page TodoResponse → Body
  of_detail : TodoWithOwner → Body
  of_role : RoleResponse → Body
  of_roles : Page RoleResponse → Body
  of_permission : PermissionResponse → Body
  of_permissions : Page PermissionResponse → Body
  of_user : UserResponse → Body
  of_tokens : TokenPair → Body
  of_key : ApiKeyCreatedResponse → Body
  of_keys : ApiKeyListResponse → Body

-- The permission that the decorator or the parameters of a route require.
abbrev pub needs : Endpoint → Option (String × String)
needs (create_todo command) = some ("todo", "create")
needs (get_todos cursor limit) = some ("todo", "read")
needs (get_todo_detail k) = some ("todo", "read")
needs (update_todo k command) = some ("todo", "update")
needs (delete_todo k) = some ("todo", "delete")
needs (create_role name description) = some ("role", "create")
needs (list_roles cursor limit) = some ("role", "read")
needs (get_role k) = some ("role", "read")
needs (update_role command) = some ("role", "update")
needs (delete_role k) = some ("role", "delete")
needs (assign_permission_to_role k l) = some ("role", "create")
needs (remove_permission_from_role k l) = some ("role", "delete")
needs (create_permission body) = some ("permission", "create")
needs (list_permissions cursor limit) = some ("permission", "read")
needs (get_permission k) = some ("permission", "read")
needs (update_permission command) = some ("permission", "update")
needs (delete_permission k) = some ("permission", "delete")
needs me = some ("user", "me")
needs (logout now) = some ("user", "update")
needs _ = none

-- `status_code` of a route
abbrev pub status_of : Endpoint → ℕ
status_of (create_todo command) = 201
status_of (delete_todo k) = 204
status_of (create_role name description) = 201
status_of (delete_role k) = 204
status_of (assign_permission_to_role k l) = 204
status_of (remove_permission_from_role k l) = 204
status_of (create_permission body) = 201
status_of (delete_permission k) = 204
status_of (register command salt token) = 201
status_of (logout now) = 204
status_of (create_api_key body drawn) = 201
status_of (revoke_api_key k) = 204
status_of _ = 200

-- `AsyncSessionLocal()` of `get_db`
abbrev pub opened : AppDb → Session AppDb
opened db = record { committed = db; working = db; is_committed = false }

abbrev pub done : Unit {0} → Body
done u = empty

module _ {R : Type 0} where
  abbrev pub finish :
      {A : Type 0} → (A → Body) → Session AppDb → R → Result A → Result Body × (Session AppDb × R)
  finish f s r (ok a) = (ok (f a), (s, r))
  finish f s r (err e) = (err e, (s, r))

  -- A route that leaves Redis alone.
  abbrev pub plain : {A : Type 0} → (A → Body) → Exec AppDb A → State (Session AppDb × R) Body
  plain f m (s, r) = let (result, s') = m s in finish f s' r result

  module _ (c : Context) (redis : Redis R) (message : Error → String) where
    -- The route's function.
    unfoldable pub run : Endpoint → Request → State (Session AppDb × R) Body
    run (create_todo command) request = plain of_todo (post_todo c command request)
    run (get_todos cursor limit) request = plain of_todos (list_todos c cursor limit request)
    run (get_todo_detail k) request = plain of_detail (show_todo c k request)
    run (update_todo k command) request = plain of_todo (patch_todo c k command request)
    run (delete_todo k) request = plain done (remove_todo c k request)
    run (create_role name description) request =
        plain of_role (post_role c name description request)
    run (list_roles cursor limit) request = plain of_roles (Roles.list_roles c cursor limit request)
    run (get_role k) request = plain of_role (show_role c k request)
    run (update_role command) request = plain of_role (patch_role c command request)
    run (delete_role k) request = plain done (remove_role c k request)
    run (assign_permission_to_role k l) request = plain done (grant_permission c k l request)
    run (remove_permission_from_role k l) request = plain done (withdraw_permission c k l request)
    run (create_permission body) request = plain of_permission (post_permission c body request)
    run (list_permissions cursor limit) request =
        plain of_permissions (Permissions.list_permissions c cursor limit request)
    run (get_permission k) request = plain of_permission (show_permission c k request)
    run (update_permission command) request =
        plain of_permission (patch_permission c command request)
    run (delete_permission k) request = plain done (remove_permission c k request)
    run (register command salt token) request = plain of_user (
        post_register c (message python_codebase.Result.user_already_exists) command salt token
          request)
    run (login username password draw) request =
        plain of_tokens (post_login c username password draw request)
    run (refresh_token token draw) request = plain of_tokens (post_refresh c token draw request)
    run me request = plain of_user (get_me c request)
    run (logout now) request = do finished ← post_logout c redis request now; pure (done finished)
    run (create_api_key body drawn) request = plain of_key (post_api_key c body drawn request)
    run (list_api_keys skip limit) request = plain of_keys (Keys.list_api_keys c skip limit request)
    run (revoke_api_key k) request = plain done (Keys.revoke_api_key c k request)

    -- A request that the rate limit has let through: a session is opened, the route runs, its exceptions are answered as they are where
    -- no middleware takes them, and the session is closed, so that what is not committed is gone.
    unfoldable pub serve : Endpoint → Request → AppDb × R → Reply Body × (AppDb × R)
    serve e request (db, r) =
        let (result, after) = run e request (opened db, r) in
        (answer message (status_of e) result, (after.0.committed, after.1))

    -- A request to a route, behind the rate limit that is a dependency of every one (src/main.py);
    -- `l` is what the limiter keeps in Redis.
    module _ {L : Type 0} (to_int : String → Option ℕ) (limiter : ℕ → ℕ → String → L → Bool × L)
        (limit : String) where
      abbrev by_verdict :
          Result (Unit {0}) → Endpoint → Request → L × (AppDb × R) → Reply Body × L × (AppDb × R)
      by_verdict (err e) endpoint request (l, s) = (handle_exception message e, l, s)
      by_verdict (ok u) endpoint request (l, s) =
          let (reply, s') = serve endpoint request s in (reply, l, s')

      unfoldable pub serve_limited :
          Endpoint → Request → L × (AppDb × R) → Reply Body × L × (AppDb × R)
      serve_limited e request (l, s) =
          let (verdict, l') = apply_global_rate_limit to_int limiter limit request l in
          by_verdict verdict e request (l', s)
