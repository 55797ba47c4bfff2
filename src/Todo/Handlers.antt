-- ===== src/Todo/Handlers.antt =====
-- The use cases of src/modules/todo/application.
use python_codebase.Prelude.{
  ℕ, String, Bool, false, not, ◌&&◌, Option, none, some, List, ◌==◌, is_some, get_or, is_blank,
}
use python_codebase.Result.{
  Result, value_error, todo_not_found, unauthorized_todo_access, user_not_found,
}
use python_codebase.State.{pure, raise_if, or_raise, from_result, ◌>>=◌, ◌>>◌}
use python_codebase.Session.{Exec, lift, transaction}
use python_codebase.Pagination.{Cursor}
use python_codebase.Todo.{
  Todo, TodoDb, create, get_by_id, get_by_user_cursor, get_all_by_user, save, delete,
}

pub record CreateTodoCommand : Type 0 where
  pub title : String
  pub description : Option String

pub record UpdateTodoCommand : Type 0 where
  pub title : Option String
  pub description : Option String
  pub is_completed : Option Bool

abbrev pub title_is_blank : Option String → Bool
title_is_blank none = false
title_is_blank (some title) = is_blank title

-- `validate_update_todo_command`
unfoldable pub validate_update_todo_command : UpdateTodoCommand → Exec TodoDb Unit
validate_update_todo_command command = do
  raise_if
      (not (is_some command.title)
        && not (is_some command.description)
        && not (is_some command.is_completed))
      (value_error "At least one todo field must be provided")
  raise_if (title_is_blank command.title) (value_error "Todo title is required")

abbrev or_keep : {A : Type 0} → Option A → Option A → Option A
or_keep none old = old
or_keep (some new) old = some new

-- The assignments of `UpdateTodoHandler.execute`; `mark_completed` sets the flag.
unfoldable pub apply_command : UpdateTodoCommand → Todo → Todo
apply_command command todo = record todo {
  title = get_or command.title todo.title;
  description = or_keep command.description todo.description;
  is_completed = get_or command.is_completed todo.is_completed;
}

-- The owner as the user module shows it (src/modules/user/facade.py).
pub record UserProfile : Type 0 where
  pub id : ℕ
  pub email : String
  pub username : Option String

-- `TodoWithOwnerResponse`
pub record TodoWithOwner : Type 0 where
  pub id : Option ℕ
  pub title : String
  pub description : Option String
  pub is_completed : Bool
  pub owner : UserProfile

module _ (tenant_id : Option ℕ) where
  -- `CreateTodoHandler.execute`
  unfoldable pub create_todo : CreateTodoCommand → ℕ → Exec TodoDb Todo
  create_todo command user_id = do
    raise_if (is_blank command.title) (value_error "Todo title is required")
    transaction (save tenant_id (create command.title user_id command.description))

  -- `get_by_id`, and the two tests that three handlers make
  unfoldable pub owned_todo : ℕ → ℕ → Exec TodoDb Todo
  owned_todo todo_id user_id = do
    found ← lift (get_by_id tenant_id todo_id)
    todo ← or_raise found todo_not_found
    raise_if (not (todo.user_id == user_id)) unauthorized_todo_access
    pure todo

  -- `UpdateTodoHandler.execute`
  unfoldable pub update_todo : ℕ → UpdateTodoCommand → ℕ → Exec TodoDb Todo
  update_todo todo_id command user_id = do
    validate_update_todo_command command
    todo ← owned_todo todo_id user_id
    transaction (save tenant_id (apply_command command todo))

  -- `DeleteTodoHandler.execute`
  unfoldable pub delete_todo : ℕ → ℕ → Exec TodoDb Unit
  delete_todo todo_id user_id = do
    owned_todo todo_id user_id
    transaction (delete tenant_id todo_id)

  -- `GetTodoDetailWithOwnerHandler.execute`, with the user module's facade
  unfoldable pub get_todo_detail :
      (ℕ → Result (Option UserProfile)) → ℕ → ℕ → Exec TodoDb TodoWithOwner
  get_todo_detail get_user_profile todo_id user_id = do
    todo ← owned_todo todo_id user_id
    profile ← from_result (get_user_profile todo.user_id)
    owner ← or_raise profile user_not_found
    pure (record {
      id = todo.id;
      title = todo.title;
      description = todo.description;
      is_completed = todo.is_completed;
      owner = owner;
    })

  -- `GetTodosCursorQuery.execute`
  unfoldable pub get_todos_cursor : ℕ → Cursor → ℕ → Exec TodoDb (List Todo × Bool)
  get_todos_cursor user_id cursor limit = lift (get_by_user_cursor tenant_id user_id cursor limit)

  -- `GetTodosQueryHandler.execute`; the id is an integer of the request's user, never None
  unfoldable pub get_todos : ℕ → Exec TodoDb (List Todo)
  get_todos user_id = lift (get_all_by_user tenant_id user_id)
