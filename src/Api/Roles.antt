-- ===== src/Api/Roles.antt =====
-- The routes of src/modules/authorization/presentation/routers/role_router.py. The service passes
-- each call on to the repository of the request's tenant.
use python_codebase.Prelude.{ℕ, String, Option, none, some, is_some}
use python_codebase.Result.{Result, ok, err, http_error, validation_error}
use python_codebase.State.{pure, from_result, or_raise, ◌>>=◌}
use python_codebase.Session.{Exec, Query, lift, transaction}
use python_codebase.Pagination.{direction_next}
use python_codebase.Authorization.{Role, AuthorizationDb}
use python_codebase.Authorization.Roles.{
  get_role, list_roles_cursor, create_role, update_role, delete_role,
}
use python_codebase.Authorization.Grants.{assign_permission_to_role, remove_permission_from_role}
use python_codebase.Authorization.Handlers.{UpdateRoleCommand, changed_role}
use python_codebase.Middleware.{Request}
use python_codebase.Api.{AppDb, Context, in_authorization, require_permission}
use python_codebase.Api.Pages.{Page, collect, given, read_cursor, next_link, prev_link}

-- `RoleResponse`
pub record RoleResponse : Type 0 where
  pub id : ℕ
  pub name : String
  pub description : Option String
  pub created_at : ℕ

-- `RoleResponse(...)`, whose id and times are not optional
abbrev complete_role : Role → Option ℕ → Option ℕ → Result RoleResponse
complete_role role (some k) (some at) =
    ok (record { id = k; name = role.name; description = role.description; created_at = at })
complete_role role none at = err validation_error
complete_role role (some k) none = err validation_error

abbrev pub plain_role : Role → Result RoleResponse
plain_role role = complete_role role role.id role.created_at

-- `_role_response`
abbrev pub role_response : Option Role → Result RoleResponse
role_response none = err (http_error 404 "Role not found")
role_response (some role) = plain_role role

-- `_created_at_datetime` of an item, and its id
abbrev pub role_position : Role → Exec AppDb (ℕ × ℕ)
role_position role = do
  at ← or_raise role.created_at (http_error 500 "Role timestamp is missing")
  k ← or_raise role.id validation_error
  pure (at, k)

-- The block of a route: the service's call and the commit.
abbrev pub block : {A : Type 0} → Query AuthorizationDb A → Exec AppDb A
block q = in_authorization (transaction q)

module _ (c : Context) where
  -- `create_role`
  unfoldable pub post_role : String → Option String → Request → Exec AppDb RoleResponse
  post_role name description request = do
    caller ← require_permission c "role" "create" request
    created ← block (
        create_role (some caller.1)
          (record { id = none; name = name; description = description; created_at = none }))
    from_result (plain_role created)

  -- `list_roles`
  unfoldable pub list_roles : Option String → ℕ → Request → Exec AppDb (Page RoleResponse)
  list_roles cursor limit request = do
    caller ← require_permission c "role" "read" request
    position ← read_cursor c (some direction_next) (given cursor)
    found ← in_authorization (lift (list_roles_cursor (some caller.1) position limit))
    next ← next_link c role_position found.1 found.0
    previous ← prev_link c role_position (given cursor) found.0
    responses ← from_result (collect plain_role found.0)
    pure (record {
      data_ = responses;
      next_cursor = next;
      prev_cursor = previous;
      has_next = found.1;
      has_prev = is_some cursor;
      limit = limit;
    })

  -- `get_role`
  unfoldable pub show_role : ℕ → Request → Exec AppDb RoleResponse
  show_role role_id request = do
    caller ← require_permission c "role" "read" request
    found ← in_authorization (lift (get_role (some caller.1) role_id))
    role ← or_raise found (http_error 404 "Role not found")
    from_result (plain_role role)

  -- `update_role`
  unfoldable pub patch_role : UpdateRoleCommand → Request → Exec AppDb RoleResponse
  patch_role command request = do
    caller ← require_permission c "role" "update" request
    found ← in_authorization (lift (get_role (some caller.1) command.role_id))
    existing ← or_raise found (http_error 404 "Role not found")
    updated ← block (update_role (some caller.1) c.expired (changed_role command existing))
    from_result (role_response updated)

  -- `delete_role`
  unfoldable pub remove_role : ℕ → Request → Exec AppDb (Unit {0})
  remove_role role_id request = do
    caller ← require_permission c "role" "delete" request
    block (delete_role (some caller.1) role_id)

  -- `assign_permission_to_role`
  unfoldable pub grant_permission : ℕ → ℕ → Request → Exec AppDb (Unit {0})
  grant_permission role_id permission_id request = do
    caller ← require_permission c "role" "create" request
    block (assign_permission_to_role (some caller.1) role_id permission_id)

  -- `remove_permission_from_role`
  unfoldable pub withdraw_permission : ℕ → ℕ → Request → Exec AppDb (Unit {0})
  withdraw_permission role_id permission_id request = do
    caller ← require_permission c "role" "delete" request
    block (remove_permission_from_role (some caller.1) role_id permission_id)
