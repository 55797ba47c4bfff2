-- ===== src/Todo/Validity.antt =====
-- The writes keep the primary key unique and the sequence ahead of it.
use python_codebase.Prelude.{
  ℕ, suc, ◌<◌, ◌≡◌, ◌≢◌, refl, Bool, Option, none, some, List, [], ◌∷◌, ◌++◌, inl, inr, arith, ◌==◌,
  filter, All, Bool-cases,
}
use python_codebase.Sql.{tenant_column}
use python_codebase.Todo.{Todo, TodoModel, TodoDb, update_row, new_row, merge, save, delete}
use python_codebase.Todo.Rows.{IsValid, HasUniqueIds}

module _ (P : TodoModel → Type 0) where
  All-filter : (p : TodoModel → Bool) (ms : List TodoModel) → All P ms → All P (filter p ms)
  All-filter p [] h = tt
  All-filter p (m ∷ ms) h = elim (Bool-cases (p m)) [
    | inl e ↦ rw e (h.0, All-filter p ms h.1)
    | inr e ↦ rw e (All-filter p ms h.1)
  ]

  All-append : (ms : List TodoModel) (m : TodoModel) → All P ms → P m → All P (ms ++ m ∷ [])
  All-append [] m h p = (p, tt)
  All-append (x ∷ ms) m h p = (h.0, All-append ms m h.1 p)

-- The keys are all that these properties see of a row.
All-update_row :
    (P : ℕ → Type 0) (todo : Todo) (t k : ℕ) (ms : List TodoModel)
    → All (λ (m : TodoModel). P m.id) ms
    → All (λ (m : TodoModel). P m.id) (update_row todo t k ms)
unfolding update_row
All-update_row P todo t k [] h = tt
All-update_row P todo t k (m ∷ ms) h = elim (Bool-cases (m.id == k)) [
  | inl e ↦ rw e (h.0, All-update_row P todo t k ms h.1)
  | inr e ↦ rw e (h.0, All-update_row P todo t k ms h.1)
]

HasUniqueIds-filter :
    (p : TodoModel → Bool) (ms : List TodoModel) → HasUniqueIds ms → HasUniqueIds (filter p ms)
HasUniqueIds-filter p [] u = tt
HasUniqueIds-filter p (m ∷ ms) u = elim (Bool-cases (p m)) [
  | inl e ↦ rw e (All-filter (λ x. x.id ≢ m.id) p ms u.0, HasUniqueIds-filter p ms u.1)
  | inr e ↦ rw e (HasUniqueIds-filter p ms u.1)
]

HasUniqueIds-update_row :
    (todo : Todo) (t k : ℕ) (ms : List TodoModel)
    → HasUniqueIds ms
    → HasUniqueIds (update_row todo t k ms)
unfolding update_row
HasUniqueIds-update_row todo t k [] u = tt
HasUniqueIds-update_row todo t k (m ∷ ms) u = elim (Bool-cases (m.id == k)) [
  | inl e ↦
      rw e (All-update_row (λ i. i ≢ m.id) todo t k ms u.0, HasUniqueIds-update_row todo t k ms u.1)
  | inr e ↦
      rw e (All-update_row (λ i. i ≢ m.id) todo t k ms u.0, HasUniqueIds-update_row todo t k ms u.1)
]

HasUniqueIds-append :
    (n : ℕ) (ms : List TodoModel) (m : TodoModel)
    → HasUniqueIds ms
    → All (λ (x : TodoModel). x.id < n) ms
    → m.id ≡ n
    → HasUniqueIds (ms ++ m ∷ [])
HasUniqueIds-append n [] m u b e = (tt, tt)
HasUniqueIds-append n (x ∷ ms) m u b e = (
  All-append (λ y. y.id ≢ x.id) ms m u.0 (omega (arith, e, b.0)),
  HasUniqueIds-append n ms m u.1 b.1 e,
)

All-suc :
    (n : ℕ) (ms : List TodoModel)
    → All (λ (x : TodoModel). x.id < n) ms
    → All (λ (x : TodoModel). x.id < suc n) ms
All-suc n [] h = tt
All-suc n (m ∷ ms) h = (omega (arith, h.0), All-suc n ms h.1)

-- A new todo.
pub save_new-IsValid :
    (t : Option ℕ) (todo : Todo) (db : TodoDb)
    → todo.id ≡ none
    → IsValid db
    → IsValid (save t todo db).1
unfolding save tenant_column merge
save_new-IsValid none todo db e v = v
save_new-IsValid (some t) todo db e v = rw e (record {
  unique =
      HasUniqueIds-append db.next_id db.todos (new_row todo t db.next_id db.now) v.unique v.below
        refl;
  below =
      All-append (λ (x : TodoModel). x.id < suc db.next_id) db.todos
        (new_row todo t db.next_id db.now) (All-suc db.next_id db.todos v.below) (omega arith);
})

-- A todo that is there.
pub update_row-IsValid :
    (todo : Todo) (t k : ℕ) (db : TodoDb)
    → IsValid db
    → IsValid (record db { todos = update_row todo t k db.todos })
update_row-IsValid todo t k db v = record {
  unique = HasUniqueIds-update_row todo t k db.todos v.unique;
  below = All-update_row (λ i. i < db.next_id) todo t k db.todos v.below;
}

pub delete-IsValid : (t : Option ℕ) (k : ℕ) (db : TodoDb) → IsValid db → IsValid (delete t k db).1
unfolding delete
delete-IsValid t k db v = record {
  unique = HasUniqueIds-filter _ db.todos v.unique;
  below = All-filter (λ (x : TodoModel). x.id < db.next_id) _ db.todos v.below;
}
