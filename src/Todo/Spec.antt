-- ===== src/Todo/Spec.antt =====
-- What the use cases of src/modules/todo/application promise, over the todos as a map from keys:
-- no rows, no order, no times and no deletion marks.
use python_codebase.Prelude.{
  ℕ, suc, false, not, ◌&&◌, Option, none, some, List, [], ◌∷◌, ◌==◌, is_some, is_blank,
  if◌then◌else◌,
}
use python_codebase.Result.{
  Error, Result, ok, err, value_error, todo_not_found, unauthorized_todo_access,
}
use python_codebase.Todo.{Todo}
use python_codebase.Todo.Handlers.{
  CreateTodoCommand, UpdateTodoCommand, title_is_blank, apply_command,
}

-- A todo, and the tenant that it belongs to.
pub record Entry : Type 0 where
  pub tenant : ℕ
  pub todo : Todo

pub record Store : Type 0 where
  pub next : ℕ
  pub at : ℕ → Option Entry

-- A request for a use case: the tenant, what it is about, and the user.
pub data Call : Type 0 where
  creating : ℕ → CreateTodoCommand → ℕ → Call
  updating : ℕ → ℕ → UpdateTodoCommand → ℕ → Call
  deleting : ℕ → ℕ → ℕ → Call
  reading : ℕ → ℕ → ℕ → Call

abbrev pub tenant_of_call : Call → ℕ
tenant_of_call (creating t command user_id) = t
tenant_of_call (updating t k command user_id) = t
tenant_of_call (deleting t k user_id) = t
tenant_of_call (reading t k user_id) = t

abbrev pub put : ℕ → Option Entry → (ℕ → Option Entry) → ℕ → Option Entry
put k entry at j = if j == k then entry else at j

-- The todo under a key, for a user of the tenant, or why not.
abbrev pub access : ℕ → ℕ → Option Entry → Result Todo
access t user_id none = err todo_not_found
access t user_id (some entry) =
    if entry.tenant == t
    then (if entry.todo.user_id == user_id then ok entry.todo else err unauthorized_todo_access)
    else err todo_not_found

abbrev pub refusal : UpdateTodoCommand → Option Error
refusal command =
    if not (is_some command.title)
      && not (is_some command.description)
      && not (is_some command.is_completed)
    then some (value_error "At least one todo field must be provided")
    else if title_is_blank command.title
    then some (value_error "Todo title is required")
    else none

abbrev pub new_todo : ℕ → CreateTodoCommand → ℕ → Todo
new_todo k command user_id = record {
  id = some k;
  title = command.title;
  description = command.description;
  is_completed = false;
  user_id = user_id;
}

-- A use case changes the store where the access is granted.
abbrev pub granted :
    Result Todo → Store → (Todo → Option Todo × Store) → Result (Option Todo) × Store
granted (err e) a change = (err e, a)
granted (ok todo) a change = let (answer, a') = change todo in (ok answer, a')

abbrev pub unless :
    Option Error → Store → Result (Option Todo) × Store → Result (Option Todo) × Store
unless none a rest = rest
unless (some e) a rest = (err e, a)

abbrev pub expect : Call → Store → Result (Option Todo) × Store
expect (creating t command user_id) a =
    if is_blank command.title then (err (value_error "Todo title is required"), a) else (
      ok (some (new_todo a.next command user_id)),
      record {
        next = suc a.next;
        at = put a.next (some (record { tenant = t; todo = new_todo a.next command user_id })) a.at;
      },
    )
expect (updating t k command user_id) a = unless (refusal command) a (
    granted (access t user_id (a.at k)) a (λ todo. (
      some (apply_command command todo),
      record a {
        at = put k (some (record { tenant = t; todo = apply_command command todo })) a.at;
      },
    )))
expect (deleting t k user_id) a =
    granted (access t user_id (a.at k)) a (λ todo. (none, record a { at = put k none a.at }))
expect (reading t k user_id) a = granted (access t user_id (a.at k)) a (λ todo. (some todo, a))

abbrev pub expect_all : List Call → Store → List (Result (Option Todo)) × Store
expect_all [] a = ([], a)
expect_all (c ∷ cs) a =
    let (answer, a') = expect c a in
    let (answers, a'') = expect_all cs a' in (answer ∷ answers, a'')
