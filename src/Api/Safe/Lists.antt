-- ===== src/Api/Safe/Lists.antt =====
-- The lists and their links to other pages only read.
use python_codebase.Prelude.{ℕ, String, Bool, true, false, Option, none, some, List, refl}
use python_codebase.Result.{http_error}
use python_codebase.Session.{Exec}
use python_codebase.Pagination.Codec.{encode_cursor, decode_cursor}
use python_codebase.Pagination.{CursorDirection, direction_next, direction_prev}
use python_codebase.Authorization.{Role, Permission}
use python_codebase.Authorization.Roles.{list_roles_cursor}
use python_codebase.Authorization.Permissions.{list_permissions_cursor}
use python_codebase.Result.{validation_error, type_error}
use python_codebase.Todo.{get_by_user_cursor}
use python_codebase.Todo.Handlers.{get_todos_cursor}
use python_codebase.Api.Pages.{collect, given}
use python_codebase.Api.Todos.{todo_response, created_at_of}
use python_codebase.Middleware.{Request}
use python_codebase.Api.{Context}
use python_codebase.Api.Pages.{head?, encode_item, last?, read_cursor, next_link, prev_link}
use python_codebase.Api.Todos.{list_todos}
use python_codebase.Api.Roles
use python_codebase.Api.Roles.{show_role}
use python_codebase.Api.Permissions
use python_codebase.Api.Permissions.{show_permission}
use python_codebase.Api.Safe.{
  Keeps, >>=-Keeps, lift-Keeps, or_raise-Keeps, from_result-Keeps, permission-Keeps,
  authorization-Keeps, todos-Keeps,
}

module _ {S A : Type 0} (c : Context) (position : A → Exec S (ℕ × ℕ))
    (positions : (x : A) → Keeps (position x)) where
  item-Keeps : (d : CursorDirection) (o : Option A) → Keeps (encode_item c position d o)
  item-Keeps d none = record { same = λ s. refl }
  item-Keeps d (some x) = >>=-Keeps (position x) (positions x) (λ at.
      >>=-Keeps _ (from_result-Keeps (encode_cursor c.codec at.0 at.1 d))
        (λ text. record { same = λ s. refl }))

  next_link-Keeps : (more : Bool) (xs : List A) → Keeps (next_link c position more xs)
  next_link-Keeps false xs = record { same = λ s. refl }
  next_link-Keeps true xs = item-Keeps direction_next (last? xs)

  prev_link-Keeps : (cursor : Option String) (xs : List A) → Keeps (prev_link c position cursor xs)
  prev_link-Keeps none xs = record { same = λ s. refl }
  prev_link-Keeps (some text) xs = item-Keeps direction_prev (head? xs)

read_cursor-Keeps :
    {S : Type 0} (c : Context) (start : Option CursorDirection) (cursor : Option String)
    → Keeps {D = S} (read_cursor c start cursor)
read_cursor-Keeps c start none = record { same = λ s. refl }
read_cursor-Keeps c start (some text) =
    >>=-Keeps _ (from_result-Keeps (decode_cursor c.codec text)) (λ x. record { same = λ s. refl })

module _ (c : Context) (request : Request) where
  pub list_roles-Keeps :
      (cursor : Option String) (limit : ℕ) → Keeps (Roles.list_roles c cursor limit request)
  unfolding Roles.list_roles
  list_roles-Keeps cursor limit = >>=-Keeps _ (permission-Keeps c "role" "read" request) (λ caller.
      >>=-Keeps _ (read_cursor-Keeps c (some direction_next) (given cursor)) (λ position.
        >>=-Keeps _ (authorization-Keeps (list_roles_cursor (some caller.1) position limit))
          (λ found.
            >>=-Keeps _ (next_link-Keeps c Roles.role_position role_position-Keeps found.1 found.0)
              (λ next.
                >>=-Keeps _
                  (prev_link-Keeps c Roles.role_position role_position-Keeps (given cursor) found.0)
                  (λ previous.
                    >>=-Keeps _ (from_result-Keeps (collect Roles.plain_role found.0))
                      (λ responses. record { same = λ s. refl }))))))
    where
      role_position-Keeps : (x : Role) → Keeps (Roles.role_position x)
      role_position-Keeps x =
          >>=-Keeps _ (or_raise-Keeps x.created_at (http_error 500 "Role timestamp is missing"))
            (λ at.
              >>=-Keeps _ (or_raise-Keeps x.id validation_error) (λ k. record { same = λ s. refl }))

  pub list_permissions-Keeps :
      (cursor : Option String) (limit : ℕ)
      → Keeps (Permissions.list_permissions c cursor limit request)
  unfolding Permissions.list_permissions
  list_permissions-Keeps cursor limit =
      >>=-Keeps _ (permission-Keeps c "permission" "read" request) (λ caller.
        >>=-Keeps _ (read_cursor-Keeps c (some direction_next) (given cursor)) (λ position.
          >>=-Keeps _ (authorization-Keeps (list_permissions_cursor (some caller.1) position limit))
            (λ found.
              >>=-Keeps _
                (next_link-Keeps c Permissions.permission_position position-Keeps found.1 found.0)
                (λ next.
                  >>=-Keeps _
                    (prev_link-Keeps c Permissions.permission_position position-Keeps (given cursor)
                      found.0)
                    (λ previous.
                      >>=-Keeps _ (from_result-Keeps (collect Permissions.plain_permission found.0))
                        (λ responses. record { same = λ s. refl }))))))
    where
      position-Keeps : (x : Permission) → Keeps (Permissions.permission_position x)
      position-Keeps x =
          >>=-Keeps _
            (or_raise-Keeps x.created_at (http_error 500 "Permission timestamp is missing"))
            (λ at.
              >>=-Keeps _ (or_raise-Keeps x.id validation_error) (λ k. record { same = λ s. refl }))

  pub list_todos-Keeps :
      (cursor : Option String) (limit : ℕ) → Keeps (list_todos c cursor limit request)
  unfolding list_todos get_todos_cursor
  list_todos-Keeps cursor limit = >>=-Keeps _ (permission-Keeps c "todo" "read" request) (λ caller.
      >>=-Keeps _ (read_cursor-Keeps c none (given cursor)) (λ position.
        >>=-Keeps _ (or_raise-Keeps caller.0.id type_error) (λ k.
          >>=-Keeps _
            (todos-Keeps (get_todos_cursor (some caller.1) k position limit)
              (lift-Keeps (get_by_user_cursor (some caller.1) k position limit)))
            (λ found. >>=-Keeps _ (from_result-Keeps (collect todo_response found.0)) (λ responses.
              >>=-Keeps _
                (next_link-Keeps c created_at_of (λ x. record { same = λ s. refl }) found.1 found.0)
                (λ next.
                  >>=-Keeps _
                    (prev_link-Keeps c created_at_of (λ x. record { same = λ s. refl })
                      (given cursor) found.0)
                    (λ previous. record { same = λ s. refl })))))))
