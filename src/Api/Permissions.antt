-- ===== src/Api/Permissions.antt =====
-- The routes of src/modules/authorization/presentation/routers/permission_router.py.
use python_codebase.Prelude.{ℕ, String, Option, none, some, is_some}
use python_codebase.Result.{Result, ok, err, http_error, validation_error}
use python_codebase.State.{pure, from_result, or_raise, ◌>>=◌}
use python_codebase.Session.{Exec, lift}
use python_codebase.Pagination.{direction_next}
use python_codebase.Authorization.{Permission}
use python_codebase.Authorization.Permissions.{
  permission_key, get_permission, list_permissions_cursor, create_permission, update_permission,
  delete_permission,
}
use python_codebase.Authorization.Handlers.{UpdatePermissionCommand, changed_permission}
use python_codebase.Middleware.{Request}
use python_codebase.Api.{AppDb, Context, in_authorization, require_permission}
use python_codebase.Api.Pages.{Page, collect, given, read_cursor, next_link, prev_link}
use python_codebase.Api.Roles.{block}

-- `CreatePermissionRequest`
pub record CreatePermissionRequest : Type 0 where
  pub resource : String
  pub action : String
  pub description : Option String

-- `PermissionResponse`
pub record PermissionResponse : Type 0 where
  pub id : ℕ
  pub key : String
  pub resource : String
  pub action : String
  pub description : Option String
  pub created_at : ℕ

-- `PermissionResponse(...)`, whose id and times are not optional
abbrev complete_permission : Permission → Option ℕ → Option ℕ → Result PermissionResponse
complete_permission permission (some k) (some at) = ok (record {
  id = k;
  key = permission.key;
  resource = permission.resource;
  action = permission.action;
  description = permission.description;
  created_at = at;
})
complete_permission permission none at = err validation_error
complete_permission permission (some k) none = err validation_error

abbrev pub plain_permission : Permission → Result PermissionResponse
plain_permission permission = complete_permission permission permission.id permission.created_at

-- `_permission_response`
abbrev pub permission_response : Option Permission → Result PermissionResponse
permission_response none = err (http_error 404 "Permission not found")
permission_response (some permission) = plain_permission permission

-- `_created_at_datetime` of an item, and its id
abbrev pub permission_position : Permission → Exec AppDb (ℕ × ℕ)
permission_position permission = do
  at ← or_raise permission.created_at (http_error 500 "Permission timestamp is missing")
  k ← or_raise permission.id validation_error
  pure (at, k)

module _ (c : Context) where
  -- `create_permission`
  unfoldable pub post_permission : CreatePermissionRequest → Request → Exec AppDb PermissionResponse
  post_permission body request = do
    caller ← require_permission c "permission" "create" request
    created ← block (
        create_permission (some caller.1) c.title (record {
          id = none;
          key = permission_key body.resource body.action;
          resource = body.resource;
          action = body.action;
          description = body.description;
          created_at = none;
        }))
    from_result (plain_permission created)

  -- `list_permissions`
  unfoldable pub list_permissions :
      Option String → ℕ → Request → Exec AppDb (Page PermissionResponse)
  list_permissions cursor limit request = do
    caller ← require_permission c "permission" "read" request
    position ← read_cursor c (some direction_next) (given cursor)
    found ← in_authorization (lift (list_permissions_cursor (some caller.1) position limit))
    next ← next_link c permission_position found.1 found.0
    previous ← prev_link c permission_position (given cursor) found.0
    responses ← from_result (collect plain_permission found.0)
    pure (record {
      data_ = responses;
      next_cursor = next;
      prev_cursor = previous;
      has_next = found.1;
      has_prev = is_some cursor;
      limit = limit;
    })

  -- `get_permission`
  unfoldable pub show_permission : ℕ → Request → Exec AppDb PermissionResponse
  show_permission permission_id request = do
    caller ← require_permission c "permission" "read" request
    found ← in_authorization (lift (get_permission (some caller.1) permission_id))
    permission ← or_raise found (http_error 404 "Permission not found")
    from_result (plain_permission permission)

  -- `update_permission`
  unfoldable pub patch_permission :
      UpdatePermissionCommand → Request → Exec AppDb PermissionResponse
  patch_permission command request = do
    caller ← require_permission c "permission" "update" request
    found ← in_authorization (lift (get_permission (some caller.1) command.permission_id))
    existing ← or_raise found (http_error 404 "Permission not found")
    updated ←
        block (
          update_permission (some caller.1) c.title c.expired (changed_permission command existing))
    from_result (permission_response updated)

  -- `delete_permission`
  unfoldable pub remove_permission : ℕ → Request → Exec AppDb (Unit {0})
  remove_permission permission_id request = do
    caller ← require_permission c "permission" "delete" request
    block (delete_permission (some caller.1) permission_id)
