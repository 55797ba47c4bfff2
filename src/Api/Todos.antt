-- ===== src/Api/Todos.antt =====
-- The routes of src/modules/todo/presentation/routers/todo_router.py. The facade of the users is that
-- of src/modules/user/facade.py, over the same session.
use python_codebase.Prelude.{ℕ, String, Bool, Option, none, some, is_some}
use python_codebase.Result.{
  Error, Result, ok, err, todo_not_found, unauthorized_todo_access, user_not_found, http_error,
  attribute_error, validation_error, type_error,
}
use python_codebase.State.{State, raise, pure, from_result, or_raise, ◌>>=◌}
use python_codebase.Session.{Exec}
use python_codebase.Users.{User, UserDb}
use python_codebase.Accounts.Registration.{detail_user}
use python_codebase.Todo.{Todo}
use python_codebase.Todo.Handlers.{
  CreateTodoCommand, UpdateTodoCommand, UserProfile, TodoWithOwner, create_todo, update_todo,
  delete_todo, get_todo_detail, get_todos_cursor,
}
use python_codebase.Middleware.{Request}
use python_codebase.Api.{AppDb, Context, CurrentUser, in_todos, require_permission}
use python_codebase.Api.Pages.{Page, collect, given, read_cursor, next_link, prev_link}

-- `TodoResponse`
pub record TodoResponse : Type 0 where
  pub id : ℕ
  pub title : String
  pub is_completed : Bool

-- `TodoResponse(...)`, whose id is not optional
abbrev pub todo_response : Todo → Result TodoResponse
todo_response todo = elim todo.id [
  | none ↦ err validation_error
  | some k ↦ ok (record { id = k; title = todo.title; is_completed = todo.is_completed })
]

abbrev shown : User → Result (Option UserProfile)
shown user = elim user.id [
  | none ↦ err validation_error
  | some k ↦ ok (some (record { id = k; email = user.email; username = user.username }))
]

-- `UserModuleFacade.get_user_profile`, as a function of the users' tables
unfoldable pub get_user_profile : Option ℕ → UserDb → ℕ → Result (Option UserProfile)
get_user_profile tenant_id db user_id =
    let (r, db') = detail_user tenant_id (some user_id) db in
    elim r [ ok user ↦ shown user | err e ↦ err e ]

-- What a route makes of the exceptions that it names.
abbrev pub todo_error : Error → Error
todo_error todo_not_found = http_error 404 "Todo not found"
todo_error unauthorized_todo_access = http_error 403 "Forbidden"
todo_error e = e

abbrev pub owner_error : Error → Error
owner_error user_not_found = http_error 404 "Todo owner not found"
owner_error e = todo_error e

abbrev recover : {S A : Type 0} → (Error → Error) → Result A → S → Result A × S
recover f (ok a) s = (ok a, s)
recover f (err e) s = (err (f e), s)

-- `try: ... except ...: raise`
abbrev pub catching : {S A : Type 0} → (Error → Error) → State S A → State S A
catching f m s = let (r, s') = m s in recover f r s'

-- `todo.created_at`, which a `Todo` does not have
abbrev pub created_at_of : Todo → Exec AppDb (ℕ × ℕ)
created_at_of todo = raise attribute_error

module _ (c : Context) where
  -- `current_user.get("id")`, which is there for a user that was read
  abbrev user_id : CurrentUser → Exec AppDb ℕ
  user_id current_user = or_raise current_user.id type_error

  -- `create_todo`
  unfoldable pub post_todo : CreateTodoCommand → Request → Exec AppDb TodoResponse
  post_todo command request = do
    caller ← require_permission c "todo" "create" request
    k ← user_id caller.0
    todo ← in_todos (create_todo (some caller.1) command k)
    from_result (todo_response todo)

  -- `get_todos`; a `Todo` has no `created_at`, so a link to another page raises AttributeError
  unfoldable pub list_todos : Option String → ℕ → Request → Exec AppDb (Page TodoResponse)
  list_todos cursor limit request = do
    caller ← require_permission c "todo" "read" request
    position ← read_cursor c none (given cursor)
    k ← user_id caller.0
    found ← in_todos (get_todos_cursor (some caller.1) k position limit)
    responses ← from_result (collect todo_response found.0)
    next ← next_link c created_at_of found.1 found.0
    previous ← prev_link c created_at_of (given cursor) found.0
    pure (record {
      data_ = responses;
      next_cursor = next;
      prev_cursor = previous;
      has_next = found.1;
      has_prev = is_some cursor;
      limit = limit;
    })

  -- `get_todo_detail`
  unfoldable pub show_todo : ℕ → Request → Exec AppDb TodoWithOwner
  show_todo todo_id request = do
    caller ← require_permission c "todo" "read" request
    k ← user_id caller.0
    catching owner_error (λ s.
        in_todos
          (get_todo_detail (some caller.1)
            (get_user_profile request.tenant_id s.working.accounts.users) todo_id k)
          s)

  -- `update_todo`
  unfoldable pub patch_todo : ℕ → UpdateTodoCommand → Request → Exec AppDb TodoResponse
  patch_todo todo_id command request = do
    caller ← require_permission c "todo" "update" request
    k ← user_id caller.0
    todo ← catching todo_error (in_todos (update_todo (some caller.1) todo_id command k))
    from_result (todo_response todo)

  -- `delete_todo`
  unfoldable pub remove_todo : ℕ → Request → Exec AppDb (Unit {0})
  remove_todo todo_id request = do
    caller ← require_permission c "todo" "delete" request
    k ← user_id caller.0
    catching todo_error (in_todos (delete_todo (some caller.1) todo_id k))
