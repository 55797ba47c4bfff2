-- ===== src/Todo/Tests.antt =====
-- A table with the todos of two users of one tenant.
use Prim.Native.Nat.{ℕ}
use mathlib.Core.Path.{◌≡◌, refl}
use mathlib.Core.List.{List, [], ◌∷◌}
use mathlib.Core.Option.{Option, none, some}
use python_codebase.Prelude.{is_blank, arith, true, false}
use python_codebase.Result.{
  Result, ok, err, unauthorized_todo_access, todo_not_found, scalar_one_or_none,
}
use python_codebase.Todo.Spec.{Call, creating, updating, deleting, reading, new_todo, expect_all}
use python_codebase.Todo.View.{view, handle_calls}
use python_codebase.Todo.Refinement.{handle_calls_refines}
use python_codebase.Sql.{in_tenant, tenant_column}
use python_codebase.Session.{Session, transaction}
use python_codebase.Todo.{Todo, TodoModel, TodoDb, get_by_id, create, save, delete, merge}
use python_codebase.Todo.Rows.{IsValid}
use python_codebase.Todo.Handlers.{
  create_todo, owned_todo, apply_command, CreateTodoCommand, UpdateTodoCommand, UserProfile,
  validate_update_todo_command, update_todo, delete_todo,
}
use python_codebase.Todo.Lifecycle.{Deleted, delete_todo-Deleted}
use python_codebase.Todo.Ownership.{Updated, update_todo-Updated}

abbrev milk : TodoModel
milk = record {
  id = 1;
  title = "Buy milk";
  description = none;
  is_completed = false;
  user_id = 7;
  tenant_id = 3;
  created_at = 100;
  deleted_at = none;
}

abbrev db : TodoDb
db = record { todos = milk ∷ record milk { id = 2; user_id = 8 } ∷ []; next_id = 3; now = 200 }

abbrev opened : Session TodoDb
opened = record { committed = db; working = db; is_committed = false }

abbrev done : UpdateTodoCommand
done = record { title = none; description = none; is_completed = some true }

abbrev bread : CreateTodoCommand
bread = record { title = "Bake bread"; description = some "Rye" }

abbrev no_profile : ℕ → Result (Option UserProfile)
no_profile user_id = ok none

abbrev milk_todo : Todo
milk_todo = record {
  id = some 1;
  title = "Buy milk";
  description = none;
  is_completed = false;
  user_id = 7;
}

db-IsValid : IsValid db
db-IsValid = record {
  unique = ((omega arith, tt), (tt, tt));
  below = (omega arith, (omega arith, tt));
}

done_valid : validate_update_todo_command done opened ≡ (ok tt, opened)
unfolding validate_update_todo_command
done_valid = refl

milk_found : get_by_id (some 3) 1 db ≡ (ok (some milk_todo), db)
unfolding get_by_id
milk_found = refl

update_todo-Updated_example :
    Updated (some 3) 1 done 7 opened (update_todo (some 3) 1 done 7 opened)
update_todo-Updated_example = update_todo-Updated 1 done 7 opened (some 3) db-IsValid

-- The user 7 reads, is refused the todo of the user 8, makes one, and deletes the first.
abbrev calls : List Call
calls =
    reading 3 1 7
    ∷ updating 3 2 done 7
    ∷ creating 3 bread 7
    ∷ deleting 3 1 7
    ∷ reading 3 1 7
    ∷ reading 4 3 7
    ∷ []

answers_of_calls :
    (handle_calls calls db).0
    ≡ ok (some milk_todo)
      ∷ err unauthorized_todo_access
      ∷ ok (some (new_todo 3 bread 7))
      ∷ ok none
      ∷ err todo_not_found
      ∷ err todo_not_found
      ∷ []
unfolding create_todo update_todo delete_todo owned_todo validate_update_todo_command get_by_id
    apply_command save merge delete create transaction tenant_column in_tenant scalar_one_or_none
    is_blank
answers_of_calls = refl

handle_calls_refines_example :
    expect_all calls (view db) ≡ ((handle_calls calls db).0, view (handle_calls calls db).1)
handle_calls_refines_example =
    handle_calls_refines calls db db-IsValid
      (omega arith, (omega arith, (omega arith, (omega arith, (omega arith, (omega arith, tt))))))

delete_todo-Deleted_example : Deleted (some 3) 1 7 opened (delete_todo (some 3) 1 7 opened)
delete_todo-Deleted_example = delete_todo-Deleted (some 3) 1 7 opened db-IsValid
