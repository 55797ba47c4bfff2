-- ===== src/Todo/Lookup.antt =====
-- What `get_by_id` finds, and what it finds after the writes.
use python_codebase.Prelude.{
  ℕ, ◌≡◌, true, false, Option, none, some, [], ◌∷◌, ◌⊎◌, inl, inr, Bool-cases,
}
use python_codebase.Result.{ok}
use python_codebase.Sql.{in_tenant, tenant_column}
use python_codebase.Todo.{Todo, TodoModel, TodoDb, to_entity, update_row, merge, get_by_id, save}
use python_codebase.Todo.Rows.{IsValid, by_id, filter-by_id, by_id-cases, any-by_id}

-- A row with the key, of the tenant, is found; and nothing else is.
pub get_by_id_found :
    (t : Option ℕ) (k : ℕ) (db : TodoDb) (m : TodoModel)
    → by_id k db.todos ≡ m ∷ []
    → in_tenant t m.tenant_id ≡ true
    → get_by_id t k db ≡ (ok (some (to_entity m)), db)
unfolding get_by_id
get_by_id_found t k db m e h = rw (filter-by_id k (λ x. in_tenant t x.tenant_id) db.todos, e, h)

pub get_by_id_foreign :
    (t : Option ℕ) (k : ℕ) (db : TodoDb) (m : TodoModel)
    → by_id k db.todos ≡ m ∷ []
    → in_tenant t m.tenant_id ≡ false
    → get_by_id t k db ≡ (ok none, db)
unfolding get_by_id
get_by_id_foreign t k db m e h = rw (filter-by_id k (λ x. in_tenant t x.tenant_id) db.todos, e, h)

pub get_by_id_missing :
    (t : Option ℕ) (k : ℕ) (db : TodoDb) → by_id k db.todos ≡ [] → get_by_id t k db ≡ (ok none, db)
unfolding get_by_id
get_by_id_missing t k db e = rw (filter-by_id k (λ x. in_tenant t x.tenant_id) db.todos, e)

-- The row that `get_by_id` read, where it found one.
pub record Row (t : Option ℕ) (k : ℕ) (db : TodoDb) : Type 0 where
  pub model : TodoModel
  pub only : by_id k db.todos ≡ model ∷ []
  pub visible : in_tenant t model.tenant_id ≡ true
  pub read : get_by_id t k db ≡ (ok (some (to_entity model)), db)

pub get_by_id-cases :
    (t : Option ℕ) (k : ℕ) (db : TodoDb)
    → IsValid db
    → (get_by_id t k db ≡ (ok none, db)) ⊎ Row t k db
get_by_id-cases t k db v = elim (by_id-cases k db.todos v.unique) [
  | inl absent ↦ inl (get_by_id_missing t k db absent)
  | inr (m, e) ↦ elim (Bool-cases (in_tenant t m.tenant_id)) [
    | inl mine ↦
        inr (record { model = m; only = e; visible = mine; read = get_by_id_found t k db m e mine })
    | inr theirs ↦ inl (get_by_id_foreign t k db m e theirs)
  ]
]

-- The tables after `save` of an entity with key `k`.
abbrev pub saved_over : Todo → ℕ → ℕ → TodoDb → TodoDb
saved_over todo t k db = record db { todos = update_row todo t k db.todos }

pub save_existing :
    (t k : ℕ) (todo : Todo) (db : TodoDb) (m : TodoModel)
    → by_id k db.todos ≡ m ∷ []
    → todo.id ≡ some k
    → save (some t) todo db ≡ (ok (record todo { id = some k }), saved_over todo t k db)
unfolding save tenant_column merge
save_existing t k todo db m e id = rw (id, any-by_id k db.todos m [] e)
