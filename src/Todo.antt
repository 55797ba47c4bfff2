-- ===== src/Todo.antt =====
-- The todo module: src/modules/todo/domain, src/modules/todo/infrastructure and its tables.
mod Tests
pub mod Handlers
pub mod Rows
pub mod Lookup
pub mod Validity
pub mod Ownership
pub mod Lifecycle
pub mod Spec
pub mod View
pub mod Steps
pub mod Refinement
use python_codebase.Prelude.{
  ℕ, suc, ◌+◌, String, Bool, true, false, not, ◌&&◌, Option, none, some, List, [], ◌∷◌, ◌++◌, map,
  ◌==◌, filter, any, is_some, if◌then◌else◌,
}
use python_codebase.Result.{Result, scalar_one_or_none}
use python_codebase.State.{State, pure, from_result, gets, modify, ◌>>=◌, ◌>>◌}
use python_codebase.Session.{Query}
use python_codebase.Sql.{in_tenant, tenant_column}
use python_codebase.Pagination.{Cursor, get_page}

-- src/modules/todo/domain/entities/todo.py
pub record Todo : Type 0 where
  pub id : Option ℕ
  pub title : String
  pub description : Option String
  pub is_completed : Bool
  pub user_id : ℕ

-- A row of the table `todos`.
pub record TodoModel : Type 0 where
  pub id : ℕ
  pub title : String
  pub description : Option String
  pub is_completed : Bool
  pub user_id : ℕ
  pub tenant_id : ℕ
  pub created_at : ℕ
  pub deleted_at : Option ℕ

-- The table, its key sequence and the server's clock (`server_default=func.now()`).
pub record TodoDb : Type 0 where
  pub todos : List TodoModel
  pub next_id : ℕ
  pub now : ℕ

-- `Todo.create`
unfoldable pub create : String → ℕ → Option String → Todo
create title user_id description = record {
  id = none;
  title = title;
  description = description;
  is_completed = false;
  user_id = user_id;
}

-- `_to_entity`, written out once more in `get_by_id`, `get_all_by_user` and `save`
abbrev pub to_entity : TodoModel → Todo
to_entity m = record {
  id = some m.id;
  title = m.title;
  description = m.description;
  is_completed = m.is_completed;
  user_id = m.user_id;
}

abbrev to_entity? : Option TodoModel → Option Todo
to_entity? none = none
to_entity? (some m) = some (to_entity m)

-- The columns that `save` passes to the model; `created_at` and `deleted_at` are the database's.
abbrev pub write : Todo → ℕ → TodoModel → TodoModel
write todo tenant m = record m {
  title = todo.title;
  description = todo.description;
  is_completed = todo.is_completed;
  user_id = todo.user_id;
  tenant_id = tenant;
}

abbrev pub new_row : Todo → ℕ → ℕ → ℕ → TodoModel
new_row todo tenant id now = record {
  id = id;
  title = todo.title;
  description = todo.description;
  is_completed = todo.is_completed;
  user_id = todo.user_id;
  tenant_id = tenant;
  created_at = now;
  deleted_at = none;
}

unfoldable pub update_row : Todo → ℕ → ℕ → List TodoModel → List TodoModel
update_row todo tenant k [] = []
update_row todo tenant k (m ∷ ms) =
    (if m.id == k then write todo tenant m else m) ∷ update_row todo tenant k ms

-- `session.merge`, `flush` and `refresh`: a row with the key is overwritten, and else one is added,
-- with the key given or the sequence's next.
unfoldable pub merge : Todo → ℕ → Option ℕ → Query TodoDb ℕ
unfolding update_row
merge todo tenant none = do
  id ← gets (λ db. db.next_id)
  modify
      (λ db. record db { todos = db.todos ++ new_row todo tenant id db.now ∷ []; next_id = suc id })
  pure id
merge todo tenant (some k) = do
  exists ← gets (λ db. any (λ m. m.id == k) db.todos)
  modify (λ db. record db {
    todos =
        if exists
        then update_row todo tenant k db.todos
        else db.todos ++ new_row todo tenant k db.now ∷ [];
  })
  pure k

-- class SQLAlchemyTodoRepository
module _ (tenant_id : Option ℕ) where
  unfoldable pub get_by_id : ℕ → Query TodoDb (Option Todo)
  unfolding in_tenant scalar_one_or_none
  get_by_id todo_id = do
    models ← gets (λ db. filter (λ m. m.id == todo_id && in_tenant tenant_id m.tenant_id) db.todos)
    model ← from_result (scalar_one_or_none models)
    pure (to_entity? model)

  -- The rows that `get_by_user_cursor` pages through.
  unfoldable pub user_rows : ℕ → TodoDb → List TodoModel
  unfolding in_tenant
  user_rows user_id db =
      filter
        (λ m. m.user_id == user_id && not (is_some m.deleted_at) && in_tenant tenant_id m.tenant_id)
        db.todos

  unfoldable pub get_by_user_cursor : ℕ → Cursor → ℕ → Query TodoDb (List Todo × Bool)
  unfolding user_rows get_page
  get_by_user_cursor user_id cursor limit = do
    page ← gets (λ db. get_page (λ m. m.created_at) (λ m. m.id) cursor limit (user_rows user_id db))
    pure (map to_entity page.0, page.1)

  unfoldable pub get_all_by_user : ℕ → Query TodoDb (List Todo)
  unfolding in_tenant
  get_all_by_user user_id = gets (λ db.
      map to_entity
        (filter (λ m. m.user_id == user_id && in_tenant tenant_id m.tenant_id) db.todos))

  unfoldable pub save : Todo → Query TodoDb Todo
  unfolding merge tenant_column
  save todo = do
    tenant ← from_result (tenant_column tenant_id)
    id ← merge todo tenant todo.id
    pure (record todo { id = some id })

  unfoldable pub delete : ℕ → Query TodoDb Unit
  unfolding in_tenant
  delete todo_id = modify (λ db. record db {
    todos = filter (λ m. not (m.id == todo_id && in_tenant tenant_id m.tenant_id)) db.todos;
  })
