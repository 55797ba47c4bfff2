-- ===== src/Todo/Ownership.antt =====
-- Who may read and change a todo, and what a change leaves alone.
use python_codebase.Prelude.{
  ℕ, ◌≡◌, refl, ap, sym, ◌∙◌, not, is_some, ◌&&◌, Option, none, some, [], ◌∷◌, map, ◌⊎◌, inl, inr,
  arith, true, ◌==◌, ==_iff, Bool-cases,
}
use python_codebase.Result.{Error, Result, ok, err, integrity_error, value_error}
use python_codebase.Session.{Session, transaction}
use python_codebase.Session.Atomicity.{transaction_lem}
use python_codebase.Sql.{tenant_column}
use python_codebase.Sql.{in_tenant_own}
use python_codebase.Todo.{Todo, TodoModel, TodoDb, to_entity, write, get_by_id, save}
use python_codebase.Todo.Rows.{
  IsValid, by_id, others, by_id-update_row, others-update_row, id-by_id,
}
use python_codebase.Todo.Lookup.{Row, get_by_id-cases, get_by_id_found, save_existing, saved_over}
use python_codebase.Todo.Handlers.{
  UpdateTodoCommand, validate_update_todo_command, apply_command, title_is_blank, owned_todo,
  update_todo,
}

-- What `update_todo` leaves, by how it ended. Where it raises, nothing is committed. Where it
-- returns, the todo was found and is the user's, the result is the todo with the command applied,
-- a later read finds it, and every other row is as it was.
abbrev pub Updated :
    Option ℕ → ℕ → UpdateTodoCommand → ℕ → Session TodoDb → Result Todo × Session TodoDb → Type 0
Updated t k command user_id s (err e, s') = s'.committed ≡ s.committed
Updated t k command user_id s (ok result, s') =
    (m : TodoModel) × (get_by_id t k s.working ≡ (ok (some (to_entity m)), s.working))
    × (m.user_id ≡ user_id)
    × (result ≡ apply_command command (to_entity m))
    × (get_by_id t k s'.committed ≡ (ok (some result), s'.committed))
    × (others k s'.committed.todos ≡ others k s.working.todos)

read_saved :
    (t k : ℕ) (todo : Todo) (db : TodoDb) (r : Row (some t) k db)
    → todo.id ≡ some k
    → get_by_id (some t) k (saved_over todo t k db) ≡ (ok (some todo), saved_over todo t k db)
read_saved t k todo db r id =
    let over = saved_over todo t k db in
    let row : by_id k over.todos ≡ write todo t r.model ∷ [] =
      by_id-update_row todo t k db.todos ∙ ap (map (write todo t)) r.only in
    let same : to_entity (write todo t r.model) ≡ todo =
      ground (arith, id, id-by_id k db.todos r.model [] r.only) in
    rw (get_by_id_found (some t) k over (write todo t r.model) row (in_tenant_own t)) (rw same)

save_without_tenant : (todo : Todo) (db : TodoDb) → save none todo db ≡ (err integrity_error, db)
unfolding save tenant_column
save_without_tenant todo db = refl

validate-cases :
    (command : UpdateTodoCommand) (s : Session TodoDb)
    → (validate_update_todo_command command s ≡ (ok tt, s))
      ⊎ ((e : Error) × (validate_update_todo_command command s ≡ (err e, s)))
unfolding validate_update_todo_command
validate-cases command s =
    elim (Bool-cases (
      not (is_some command.title)
      && not (is_some command.description)
      && not (is_some command.is_completed))) [
        | inl nothing ↦ inr (value_error "At least one todo field must be provided", rw nothing)
        | inr something ↦ elim (Bool-cases (title_is_blank command.title)) [
          | inl blank ↦ inr (value_error "Todo title is required", rw (something, blank))
          | inr fine ↦ inl (rw (something, fine))
        ]
      ]

pub id-apply_command :
    (command : UpdateTodoCommand) (todo : Todo) → (apply_command command todo).id ≡ todo.id
unfolding apply_command
id-apply_command command todo = refl

pub set_id :
    (todo : Todo) (k : ℕ) → todo.id ≡ some k → ◌≡◌ {A = Todo} (record todo { id = some k }) todo
set_id todo k e = ground (arith, e)

module _ (k : ℕ) (command : UpdateTodoCommand) (user_id : ℕ) (s : Session TodoDb) where
  write_todo :
      (t : Option ℕ) (r : Row t k s.working)
      → r.model.user_id ≡ user_id
      → Updated t k command user_id s
          (transaction (save t (apply_command command (to_entity r.model))) s)
  write_todo none r owner =
      rw
        (
          transaction_lem (save none (apply_command command (to_entity r.model))) s,
          save_without_tenant (apply_command command (to_entity r.model)) s.working,
        )
        refl
  write_todo (some t) r owner =
      let todo = apply_command command (to_entity r.model) in
      let id : todo.id ≡ some k =
        id-apply_command command (to_entity r.model)
        ∙ ap some (id-by_id k s.working.todos r.model [] r.only) in
      rw
        (transaction_lem (save (some t) todo) s, save_existing t k todo s.working r.model r.only id)
        (
          r.model,
          r.read,
          owner,
          set_id todo k id,
          rw (set_id todo k id) (read_saved t k todo s.working r id),
          others-update_row todo t k s.working.todos,
        )

  -- With unique keys, `update_todo` changes one todo of its owner, or nothing.
  pub update_todo-Updated :
      (t : Option ℕ)
      → IsValid s.working
      → Updated t k command user_id s (update_todo t k command user_id s)
  unfolding update_todo owned_todo
  update_todo-Updated t v = elim (validate-cases command s) [
    | inr (e, invalid) ↦ rw invalid refl
    | inl valid ↦ elim (get_by_id-cases t k s.working v) [
      | inl missing ↦ rw (valid, missing) refl
      | inr r ↦ elim (Bool-cases (r.model.user_id == user_id)) [
        | inr foreign ↦ rw (valid, r.read, foreign) refl
        | inl own ↦
            rw (valid, r.read, own) (write_todo t r ((==_iff r.model.user_id user_id).0 own))
      ]
    ]
  ]

abbrev todo_or : Todo → Result (Option Todo) × TodoDb → Todo
todo_or other (ok (some todo), db) = todo
todo_or other (ok none, db) = other
todo_or other (err e, db) = other

-- With unique keys, an update that is valid, by the owner of a todo of the tenant, returns the todo
-- with the command applied, and commits it.
update_todo_returns :
    (t k user_id : ℕ) (command : UpdateTodoCommand) (todo : Todo) (s : Session TodoDb)
    → IsValid s.working
    → validate_update_todo_command command s ≡ (ok tt, s)
    → get_by_id (some t) k s.working ≡ (ok (some todo), s.working)
    → todo.user_id ≡ user_id
    → let (r, s') = update_todo (some t) k command user_id s in
      (r ≡ ok (apply_command command todo))
      × (get_by_id (some t) k s'.committed ≡ (ok (some (apply_command command todo)), s'.committed))
unfolding update_todo owned_todo
update_todo_returns t k user_id command todo s v valid found owner =
    elim (get_by_id-cases (some t) k s.working v) [
      | inl missing ↦ cc (missing, found)
      | inr r ↦
          let same : to_entity r.model ≡ todo = ap (todo_or todo) (sym r.read ∙ found) in
          let own : (todo.user_id == user_id) ≡ true = (==_iff todo.user_id user_id).1 owner in
          let changed = apply_command command todo in
          let id : changed.id ≡ some k =
            id-apply_command command todo
            ∙ ap (λ (x : Todo). x.id) (sym same)
            ∙ ap some (id-by_id k s.working.todos r.model [] r.only) in
          rw
            (
              valid,
              found,
              own,
              transaction_lem (save (some t) changed) s,
              save_existing t k changed s.working r.model r.only id,
            )
            (ap ok (set_id changed k id), read_saved t k changed s.working r id)
    ]
