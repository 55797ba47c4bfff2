-- ===== src/Todo/View.antt =====
-- The table of the todos as the map of the specification, and what the handlers read of it.
use mathlib.Core.Path.{subst}
use python_codebase.Prelude.{
  ℕ, zero, suc, ◌<◌, ◌≡◌, refl, ap, sym, ◌∙◌, true, false, Option, none, some, List, [], ◌∷◌, ◌⊎◌,
  inl, inr, arith, ◌==◌, Bool-cases,
}
use python_codebase.Result.{Error, Result, ok, err, todo_not_found, unauthorized_todo_access}
use python_codebase.State.{pure, ◌>>=◌, ◌>>◌}
use python_codebase.Session.{Session, Exec}
use python_codebase.Sql.{in_tenant}
use python_codebase.Todo.{Todo, TodoModel, TodoDb, to_entity}
use python_codebase.Todo.Rows.{IsValid, by_id, by_id-cases}
use python_codebase.Todo.Lookup.{get_by_id_found, get_by_id_foreign, get_by_id_missing}
use python_codebase.Todo.Handlers.{owned_todo, create_todo, update_todo, delete_todo}
use python_codebase.Todo.Spec.{
  Entry, Store, Call, creating, updating, deleting, reading, access, expect,
}

-- The table as a map.
abbrev pub entry_of : List TodoModel → Option Entry
entry_of [] = none
entry_of (m ∷ ms) = some (record { tenant = m.tenant_id; todo = to_entity m })

abbrev pub view : TodoDb → Store
view db = record { next = db.next_id; at = λ k. entry_of (by_id k db.todos) }

-- One request, on a session of its own.
abbrev pub opened : TodoDb → Session TodoDb
opened db = record { committed = db; working = db; is_committed = false }

abbrev pub use_case : Call → Exec TodoDb (Option Todo)
use_case (creating t command user_id) = do
  todo ← create_todo (some t) command user_id
  pure (some todo)
use_case (updating t k command user_id) = do
  todo ← update_todo (some t) k command user_id
  pure (some todo)
use_case (deleting t k user_id) = do delete_todo (some t) k user_id; pure none
use_case (reading t k user_id) = do todo ← owned_todo (some t) k user_id; pure (some todo)

abbrev pub handle_call : Call → TodoDb → Result (Option Todo) × TodoDb
handle_call c db = let (answer, s) = use_case c (opened db) in (answer, s.committed)

abbrev pub handle_calls : List Call → TodoDb → List (Result (Option Todo)) × TodoDb
handle_calls [] db = ([], db)
handle_calls (c ∷ cs) db =
    let (answer, db') = handle_call c db in
    let (answers, db'') = handle_calls cs db' in (answer ∷ answers, db'')

in_tenant_positive : (t row : ℕ) → 0 < t → in_tenant (some t) row ≡ (row == t)
unfolding in_tenant
in_tenant_positive zero row h = absurd (omega arith)
in_tenant_positive (suc t) row h = refl

-- What the handlers read, and what the specification grants.
module _ (t k user_id : ℕ) (db : TodoDb) where
  pub record Read : Type 0 where
    pub model : TodoModel
    pub only : by_id k db.todos ≡ model ∷ []
    pub visible : in_tenant (some t) model.tenant_id ≡ true
    pub read : owned_todo (some t) k user_id (opened db) ≡ (ok (to_entity model), opened db)
    pub granted_ : access t user_id ((view db).at k) ≡ ok (to_entity model)

  pub owned_todo-cases :
      IsValid db
      → 0 < t
      → ((e : Error) × (owned_todo (some t) k user_id (opened db) ≡ (err e, opened db))
          × (access t user_id ((view db).at k) ≡ err e))
        ⊎ Read
  unfolding owned_todo
  owned_todo-cases v live = elim (by_id-cases k db.todos v.unique) [
    | inl absent ↦
        inl (todo_not_found, rw (get_by_id_missing (some t) k db absent) refl, rw absent refl)
    | inr (m, only) ↦
        let same : in_tenant (some t) m.tenant_id ≡ (m.tenant_id == t) =
          in_tenant_positive t m.tenant_id live in
        elim (Bool-cases (m.tenant_id == t)) [
          | inr theirs ↦ inl (
            todo_not_found,
            rw (get_by_id_foreign (some t) k db m only (same ∙ theirs)) refl,
            rw (only, theirs) refl,
          )
          | inl mine ↦
              let found = get_by_id_found (some t) k db m only (same ∙ mine) in
              elim (Bool-cases (m.user_id == user_id)) [
                | inr foreign ↦ inl (
                  unauthorized_todo_access,
                  rw (found, foreign) refl,
                  rw (only, mine, foreign) refl,
                )
                | inl own ↦ inr (record {
                  model = m;
                  only = only;
                  visible = same ∙ mine;
                  read = rw (found, own) refl;
                  granted_ = rw (only, mine, own) refl;
                })
              ]
        ]
  ]

-- Stores with the same todos are the same.
pub same_store :
    (n : ℕ) (f g : ℕ → Option Entry)
    → ((j : ℕ) → f j ≡ g j)
    → ◌≡◌ {A = Store} (record { next = n; at = f }) (record { next = n; at = g })
same_store n f g h i = record { next = n; at = λ j. h j i }

-- One request does what is expected of it.
abbrev pub Matches : Result (Option Todo) × Store → Result (Option Todo) × TodoDb → Type 0
Matches expected done = (expected ≡ (done.0, view done.1)) × IsValid done.1

abbrev pub Refines : Call → TodoDb → Type 0
Refines c db = Matches (expect c (view db)) (handle_call c db)

pub Refines-by :
    (c : Call) (db : TodoDb) (answer : Result (Option Todo)) (s : Session TodoDb)
    → use_case c (opened db) ≡ (answer, s)
    → expect c (view db) ≡ (answer, view s.committed)
    → IsValid s.committed
    → Refines c db
Refines-by c db answer s ran expected valid =
    subst (Matches (expect c (view db)))
      (sym (ap (λ (x : Result (Option Todo) × Session TodoDb). (x.0, x.1.committed)) ran))
      (expected, valid)

-- What a committed block leaves.
abbrev pub committed_to : TodoDb → Session TodoDb
committed_to db = record { committed = db; working = db; is_committed = true }
