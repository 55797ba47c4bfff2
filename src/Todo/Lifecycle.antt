-- ===== src/Todo/Lifecycle.antt =====
-- A todo from its creation to its deletion.
use python_codebase.Prelude.{
  ℕ, String, suc, ◌<◌, ◌≡◌, refl, ◌∙◌, Bool, true, false, not, ◌&&◌, Option, none, some, List, [],
  ◌∷◌, ◌++◌, is_blank, inl, inr, arith, ◌==◌, ==_iff, filter, All, Bool-cases,
}
use python_codebase.Result.{Result, ok, err}
use python_codebase.Session.{Session, transaction}
use python_codebase.Session.Atomicity.{transaction_lem}
use python_codebase.Sql.{in_tenant_own, in_tenant, tenant_column}
use python_codebase.Todo.{
  Todo, TodoModel, TodoDb, create, to_entity, new_row, merge, get_by_id, save, delete,
}
use python_codebase.Todo.Rows.{IsValid, by_id, others, filter-append, id-by_id}
use python_codebase.Todo.Lookup.{Row, get_by_id-cases, get_by_id_found, get_by_id_missing}
use python_codebase.Todo.Validity.{save_new-IsValid, delete-IsValid}
use python_codebase.Todo.Handlers.{CreateTodoCommand, owned_todo, create_todo, delete_todo}

-- What `delete_todo` leaves, by how it ended. Where it raises, nothing is committed. Where it
-- returns, the todo was found and is the user's, it is not found any more, every other row is as
-- it was, and the table is valid.
abbrev pub Deleted : Option ℕ → ℕ → ℕ → Session TodoDb → Result (Unit {0}) × Session TodoDb → Type 0
Deleted t k user_id s (err e, s') = s'.committed ≡ s.committed
Deleted t k user_id s (ok _, s') =
    (m : TodoModel) × (get_by_id t k s.working ≡ (ok (some (to_entity m)), s.working))
    × (m.user_id ≡ user_id)
    × (get_by_id t k s'.committed ≡ (ok none, s'.committed))
    × (others k s'.committed.todos ≡ others k s.working.todos)
    × IsValid s'.committed

abbrev pub keep : Option ℕ → ℕ → TodoModel → Bool
keep t k m = not (m.id == k && in_tenant t m.tenant_id)

others-keep :
    (t : Option ℕ) (k : ℕ) (ms : List TodoModel) → others k (filter (keep t k) ms) ≡ others k ms
others-keep t k [] = refl
others-keep t k (m ∷ ms) = ground (arith, others-keep t k ms)

pub by_id-keep :
    (t : Option ℕ) (k : ℕ) (ms : List TodoModel)
    → by_id k (filter (keep t k) ms) ≡ filter (keep t k) (by_id k ms)
by_id-keep t k [] = refl
by_id-keep t k (m ∷ ms) = ground (arith, by_id-keep t k ms)

module _ (t : Option ℕ) (k user_id : ℕ) (s : Session TodoDb) (v : IsValid s.working) where
  remove_todo :
      (r : Row t k s.working)
      → r.model.user_id ≡ user_id
      → Deleted t k user_id s (transaction (delete t k) s)
  unfolding delete
  remove_todo r owner =
      let here : (r.model.id == k) ≡ true =
        (==_iff r.model.id k).1 (id-by_id k s.working.todos r.model [] r.only) in
      let gone : by_id k (filter (keep t k) s.working.todos) ≡ [] =
        by_id-keep t k s.working.todos ∙ rw (r.only, here, r.visible) refl in
      rw (transaction_lem (delete t k) s) (
        r.model,
        r.read,
        owner,
        get_by_id_missing t k (delete t k s.working).1 gone,
        others-keep t k s.working.todos,
        delete-IsValid t k s.working v,
      )

  -- With unique keys, `delete_todo` either commits nothing, or the todo was found and is the user's,
  -- it is not found any more, no other row changes, and the table stays valid.
  pub delete_todo-Deleted : Deleted t k user_id s (delete_todo t k user_id s)
  unfolding delete_todo owned_todo
  delete_todo-Deleted = elim (get_by_id-cases t k s.working v) [
    | inl missing ↦ rw missing refl
    | inr r ↦ elim (Bool-cases (r.model.user_id == user_id)) [
      | inr foreign ↦ rw (r.read, foreign) refl
      | inl own ↦ rw (r.read, own) (remove_todo r ((==_iff r.model.user_id user_id).0 own))
    ]
  ]

pub by_id-below :
    (k : ℕ) (ms : List TodoModel) → All (λ (m : TodoModel). m.id < k) ms → by_id k ms ≡ []
by_id-below k [] h = refl
by_id-below k (m ∷ ms) h = ground (arith, by_id-below k ms h.1)

-- The entity that `Todo.create` makes, and the table with its row.
module _ (t user_id : ℕ) (title : String) (description : Option String) (db : TodoDb) where
  abbrev pub created : Todo
  created = record {
    id = some db.next_id;
    title = title;
    description = description;
    is_completed = false;
    user_id = user_id;
  }

  abbrev pub with_created : TodoDb
  with_created = record db {
    todos = db.todos ++ new_row created t db.next_id db.now ∷ [];
    next_id = suc db.next_id;
  }

  pub save-create : save (some t) (create title user_id description) db ≡ (ok created, with_created)
  unfolding save create tenant_column merge
  save-create = refl

  by_id-created :
      IsValid db → by_id db.next_id with_created.todos ≡ new_row created t db.next_id db.now ∷ []
  by_id-created v =
      rw
        (
          filter-append (λ m. m.id == db.next_id) db.todos
              (new_row created t db.next_id db.now ∷ []),
          by_id-below db.next_id db.todos v.below,
        )
        (ground arith)

-- A todo with a title that is not blank, created for a tenant, is returned with the sequence's key
-- and the user for its owner, it is committed, `get_by_id` finds it, the rows that were there stand
-- unchanged before it, and the table is valid.
create_todo_lem :
    (t user_id : ℕ) (command : CreateTodoCommand) (s : Session TodoDb)
    → IsValid s.working
    → is_blank command.title ≡ false
    → let (r, s') = create_todo (some t) command user_id s in
      let todo : Todo = record {
        id = some s.working.next_id;
        title = command.title;
        description = command.description;
        is_completed = false;
        user_id = user_id;
      } in
      (r ≡ ok todo)
      × (get_by_id (some t) s.working.next_id s'.committed ≡ (ok (some todo), s'.committed))
      × (s'.committed.todos
          ≡ s.working.todos ++ new_row todo t s.working.next_id s.working.now ∷ [])
      × IsValid s'.committed
unfolding create_todo
create_todo_lem t user_id command s v titled =
    let db = s.working in
    let fresh = create command.title user_id command.description in
    let after = with_created t user_id command.title command.description db in
    let saved = save-create t user_id command.title command.description db in
    rw (titled, transaction_lem (save (some t) fresh) s, saved)
      (
        refl,
        get_by_id_found (some t) db.next_id after _
            (by_id-created t user_id command.title command.description db v) (in_tenant_own t),
        refl,
        rw saved at (save_new-IsValid (some t) fresh db (unfold create in refl) v),
      )
