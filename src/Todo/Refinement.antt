-- ===== src/Todo/Refinement.antt =====
-- Any requests, from any tenants, in their order.
use python_codebase.Prelude.{◌<◌, ◌≡◌, refl, List, [], ◌∷◌, All}
use python_codebase.Todo.{TodoDb}
use python_codebase.Todo.Rows.{IsValid}
use python_codebase.Todo.Spec.{
  Call, creating, updating, deleting, reading, tenant_of_call, expect_all,
}
use python_codebase.Todo.View.{view, handle_call, handle_calls, Refines}
use python_codebase.Todo.Steps.{create-Refines, update-Refines, delete-Refines, read-Refines}

call-Refines : (c : Call) (db : TodoDb) → IsValid db → 0 < tenant_of_call c → Refines c db
call-Refines (creating t command user_id) db v live = create-Refines t user_id command db v
call-Refines (updating t k command user_id) db v live = update-Refines t k user_id db v live command
call-Refines (deleting t k user_id) db v live = delete-Refines t k user_id db v live
call-Refines (reading t k user_id) db v live = read-Refines t k user_id db v live

-- From a table with unique keys below the next one, requests to create, change, delete and read
-- todos, of any users and of any tenants but 0, one after the other, are answered as the
-- specification answers them, and leave the table that stands for what it leaves.
pub handle_calls_refines :
    (cs : List Call) (db : TodoDb)
    → IsValid db
    → All (λ c. 0 < tenant_of_call c) cs
    → let (answers, db') = handle_calls cs db in expect_all cs (view db) ≡ (answers, view db')
handle_calls_refines [] db v live = refl
handle_calls_refines (c ∷ cs) db v live =
    let (done, valid) = call-Refines c db v live.0 in
    let rest = handle_calls_refines cs (handle_call c db).1 valid live.1 in rw (done, rest) refl
