-- ===== src/Todo/Steps.antt =====
-- Each use case does what the specification expects of it.
use python_codebase.Prelude.{
  ℕ, suc, ◌<◌, ◌≡◌, refl, ap, sym, ◌∙◌, true, false, not, ◌&&◌, none, some, List, [], ◌∷◌, ◌++◌,
  ◌⊎◌, inl, inr, arith, ◌==◌, ==_iff, is_blank, is_some, filter, Bool-cases,
}
use python_codebase.Result.{Error, ok, err, value_error}
use python_codebase.Session.Atomicity.{transaction_lem}
use python_codebase.Todo.{
  Todo, TodoModel, TodoDb, create, to_entity, new_row, update_row, write, save, delete,
}
use python_codebase.Todo.Rows.{IsValid, by_id, by_id-update_row, filter-append, id-by_id}
use python_codebase.Todo.Lookup.{save_existing, saved_over}
use python_codebase.Todo.Validity.{save_new-IsValid, update_row-IsValid, delete-IsValid}
use python_codebase.Todo.Lifecycle.{keep, with_created, save-create, by_id-keep, by_id-below}
use python_codebase.Todo.Ownership.{set_id, id-apply_command}
use python_codebase.Todo.Handlers.{
  CreateTodoCommand, UpdateTodoCommand, validate_update_todo_command, title_is_blank, apply_command,
  create_todo, update_todo, delete_todo,
}
use python_codebase.Todo.Spec.{Store, creating, updating, deleting, reading, put, refusal, new_todo}
use python_codebase.Todo.View.{
  entry_of, view, opened, Read, owned_todo-cases, same_store, Refines, Refines-by, committed_to,
}

by_id-update_row_other :
    (todo : Todo) (t j k : ℕ) (ms : List TodoModel)
    → (j == k) ≡ false
    → by_id j (update_row todo t k ms) ≡ by_id j ms
unfolding update_row
by_id-update_row_other todo t j k [] apart = refl
by_id-update_row_other todo t j k (m ∷ ms) apart =
    ground (arith, apart, by_id-update_row_other todo t j k ms apart)

-- The rows that `delete` leaves.
abbrev kept : ℕ → ℕ → List TodoModel → List TodoModel
kept t k = filter (keep (some t) k)

by_id-kept_other :
    (t j k : ℕ) (ms : List TodoModel) → (j == k) ≡ false → by_id j (kept t k ms) ≡ by_id j ms
by_id-kept_other t j k [] apart = refl
by_id-kept_other t j k (m ∷ ms) apart = ground (arith, apart, by_id-kept_other t j k ms apart)

module _ (t k user_id : ℕ) (db : TodoDb) (v : IsValid db) (live : 0 < t) where
  pub read-Refines : Refines (reading t k user_id) db
  read-Refines = elim (owned_todo-cases t k user_id db v live) [
    | inl (e, ran, denied) ↦
        Refines-by (reading t k user_id) db (err e) (opened db) (rw ran refl) (rw denied refl) v
    | inr r ↦
        Refines-by (reading t k user_id) db (ok (some (to_entity r.model))) (opened db)
          (rw r.read refl) (rw r.granted_ refl) v
  ]

  deleted_view :
      (r : Read t k user_id db) (j : ℕ)
      → put k none (view db).at j ≡ entry_of (by_id j (kept t k db.todos))
  deleted_view r j = elim (Bool-cases (j == k)) [
    | inr apart ↦ rw (apart, by_id-kept_other t j k db.todos apart) refl
    | inl here ↦
        let same : j ≡ k = (==_iff j k).0 here in
        let own : (r.model.id == k) ≡ true =
          (==_iff r.model.id k).1 (id-by_id k db.todos r.model [] r.only) in
        rw (here, same, by_id-keep (some t) k db.todos, r.only, own, r.visible) refl
  ]

  pub delete-Refines : Refines (deleting t k user_id) db
  unfolding delete_todo delete
  delete-Refines = elim (owned_todo-cases t k user_id db v live) [
    | inl (e, ran, denied) ↦
        Refines-by (deleting t k user_id) db (err e) (opened db) (rw ran refl) (rw denied refl) v
    | inr r ↦
        Refines-by (deleting t k user_id) db (ok none)
          (committed_to (record db { todos = kept t k db.todos }))
          (rw (r.read, transaction_lem (delete (some t) k) (opened db)) refl)
          (rw r.granted_
            (ap (λ (a : Store). (ok none, a)) (same_store db.next_id _ _ (deleted_view r))))
          (delete-IsValid (some t) k db v)
  ]

  module _ (command : UpdateTodoCommand) where
    updated_view :
        (todo : Todo) (r : Read t k user_id db) (j : ℕ)
        → todo.id ≡ some k
        → put k (some (record { tenant = t; todo = todo })) (view db).at j
          ≡ entry_of (by_id j (update_row todo t k db.todos))
    updated_view todo r j id = elim (Bool-cases (j == k)) [
      | inr apart ↦ rw (apart, by_id-update_row_other todo t j k db.todos apart) refl
      | inl here ↦
          let same : j ≡ k = (==_iff j k).0 here in
          let own : to_entity (write todo t r.model) ≡ todo =
            ground (arith, id, id-by_id k db.todos r.model [] r.only) in
          rw (here, same, by_id-update_row todo t k db.todos, r.only)
            (ap (λ (x : Todo). some (record { tenant = t; todo = x })) (sym own))
    ]

    write-Refines :
        (r : Read t k user_id db)
        → validate_update_todo_command command (opened db) ≡ (ok tt, opened db)
        → refusal command ≡ none
        → Refines (updating t k command user_id) db
    unfolding update_todo
    write-Refines r valid welcome =
        let todo = apply_command command (to_entity r.model) in
        let id : todo.id ≡ some k =
          id-apply_command command (to_entity r.model)
          ∙ ap some (id-by_id k db.todos r.model [] r.only) in
        Refines-by (updating t k command user_id) db (ok (some todo))
          (committed_to (saved_over todo t k db))
          (rw
            (
              valid,
              r.read,
              transaction_lem (save (some t) todo) (opened db),
              save_existing t k todo db r.model r.only id,
              set_id todo k id,
            )
            refl)
          (rw (welcome, r.granted_)
            (ap (λ (a : Store). (ok (some todo), a))
              (same_store db.next_id _ _ (λ j. updated_view todo r j id))))
          (update_row-IsValid todo t k db v)

    validation_agrees :
        ((e : Error) × (refusal command ≡ some e)
          × (validate_update_todo_command command (opened db) ≡ (err e, opened db)))
        ⊎ ((refusal command ≡ none)
            × (validate_update_todo_command command (opened db) ≡ (ok tt, opened db)))
    unfolding validate_update_todo_command
    validation_agrees =
        elim (Bool-cases (
          not (is_some command.title)
          && not (is_some command.description)
          && not (is_some command.is_completed))) [
            | inl nothing ↦ inl (
              value_error "At least one todo field must be provided",
              rw nothing refl,
              rw nothing refl,
            )
            | inr something ↦ elim (Bool-cases (title_is_blank command.title)) [
              | inl blank ↦ inl (
                value_error "Todo title is required",
                rw (something, blank) refl,
                rw (something, blank) refl,
              )
              | inr fine ↦ inr (rw (something, fine) refl, rw (something, fine) refl)
            ]
          ]

    pub update-Refines : Refines (updating t k command user_id) db
    unfolding update_todo
    update-Refines = elim validation_agrees [
      | inl (e, refused, invalid) ↦
          Refines-by (updating t k command user_id) db (err e) (opened db) (rw invalid refl)
            (rw refused refl) v
      | inr (welcome, valid) ↦ elim (owned_todo-cases t k user_id db v live) [
        | inl (e, ran, denied) ↦
            Refines-by (updating t k command user_id) db (err e) (opened db) (rw (valid, ran) refl)
              (rw (welcome, denied) refl) v
        | inr r ↦ write-Refines r valid welcome
      ]
    ]

entry_of-append : (ms : List TodoModel) → entry_of (ms ++ []) ≡ entry_of ms
entry_of-append [] = refl
entry_of-append (m ∷ ms) = refl

created_view :
    (t user_id : ℕ) (command : CreateTodoCommand) (db : TodoDb) (j : ℕ)
    → IsValid db
    → put db.next_id
        (some (record { tenant = t; todo = new_todo db.next_id command user_id }))
        (view db).at
        j
      ≡ entry_of (by_id j (with_created t user_id command.title command.description db).todos)
created_view t user_id command db j v =
    let row = new_row (new_todo db.next_id command user_id) t db.next_id db.now in
    let split = filter-append (λ m. m.id == j) db.todos (row ∷ []) in
    elim (Bool-cases (j == db.next_id)) [
      | inl here ↦
          let same : j ≡ db.next_id = (==_iff j db.next_id).0 here in
          let own : (db.next_id == db.next_id) ≡ true = (==_iff db.next_id db.next_id).1 refl in
          rw (here, split, same, by_id-below db.next_id db.todos v.below, own) refl
      | inr apart ↦
          let differs : (db.next_id == j) ≡ false = ground (arith, apart) in
          rw (apart, split, differs) (sym (entry_of-append (by_id j db.todos)))
    ]

pub create-Refines :
    (t user_id : ℕ) (command : CreateTodoCommand) (db : TodoDb)
    → IsValid db
    → Refines (creating t command user_id) db
unfolding create_todo
create-Refines t user_id command db v = elim (Bool-cases (is_blank command.title)) [
  | inl blank ↦
      Refines-by (creating t command user_id) db (err (value_error "Todo title is required"))
        (opened db) (rw blank refl) (rw blank refl) v
  | inr titled ↦
      let fresh = create command.title user_id command.description in
      let after = with_created t user_id command.title command.description db in
      let saved = save-create t user_id command.title command.description db in
      Refines-by (creating t command user_id) db (ok (some (new_todo db.next_id command user_id)))
        (committed_to after)
        (rw (titled, transaction_lem (save (some t) fresh) (opened db), saved) refl)
        (rw titled (
          ap (λ (a : Store). (ok (some (new_todo db.next_id command user_id)), a))
            (same_store (suc db.next_id) _ _ (λ j. created_view t user_id command db j v))))
        (rw saved at (save_new-IsValid (some t) fresh db (unfold create in refl) v))
]
