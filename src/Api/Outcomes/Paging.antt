-- ===== src/Api/Outcomes/Paging.antt =====
-- The list of the todos, where there is more than one page.
use python_codebase.Prelude.{
  ℕ, zero, suc, ◌+◌, ◌<◌, String, true, false, none, some, List, [], ◌∷◌, ◌≡◌, refl, ◌∙◌, map,
  length, take, ltb, arith,
}
use python_codebase.Result.{Error, ok, err, attribute_error}
use python_codebase.Session.{Session}
use python_codebase.Tokens.Revocation.{Redis}
use python_codebase.Pagination.{Cursor, get_page, order_desc, apply_cursor_pagination}
use python_codebase.Pagination.Segments.{more_rows}
use python_codebase.Pagination.Walk.{length-order_desc}
use python_codebase.Todo.{Todo, TodoModel, to_entity, user_rows, get_by_user_cursor}
use python_codebase.Todo.Handlers.{get_todos_cursor}
use python_codebase.Middleware.{Request}
use python_codebase.Api.{AppDb, Context, CurrentUser, require_permission}
use python_codebase.Api.Errors.{answer, handle_exception, domain_exception}
use python_codebase.Api.Pages.{collect, next_link}
use python_codebase.Api.Todos.{TodoResponse, todo_response, created_at_of, list_todos}
use python_codebase.Api.Endpoints.{get_todos, run, opened, serve}
use python_codebase.Api.Outcomes.{internal_error}

abbrev first : Cursor
first = record { created_at = none; id = none; direction = none }

-- The first page of more rows than the limit has a row, and says that there are more.
cut :
    {A : Type 0} (l : ℕ) (ys : List A)
    → suc l < length ys
    → (y : A) × (zs : List A) × (take (suc l) (take (suc l + 1) ys) ≡ y ∷ zs)
      × (ltb (suc l) (length (take (suc l + 1) ys)) ≡ true)
cut l [] h = absurd (omega arith)
cut l (y ∷ ys) h =
    let e : suc l + 1 ≡ suc (suc l) = omega arith in
    rw e (y, take l (take (suc l) ys), refl, more_rows (suc l) (y ∷ ys) ∙ ground arith)

responses :
    (ms : List TodoModel)
    → (rs : List TodoResponse) × (collect todo_response (map to_entity ms) ≡ ok rs)
responses [] = ([], refl)
responses (m ∷ ms) =
    let (rs, e) = responses ms in
    (record { id = m.id; title = m.title; is_completed = m.is_completed } ∷ rs, rw e refl)

no_link :
    (c : Context) (x : Todo) (xs : List Todo) (s : Session AppDb)
    → next_link c created_at_of true (x ∷ xs) s ≡ (err attribute_error, s)
no_link c x [] s = refl
no_link c x (y ∷ ys) s = no_link c y ys s

-- What the query of the first page gives, for more rows than the limit.
module _ (t k l : ℕ) (db : AppDb) (many : suc l < length (user_rows (some t) k db.todos)) where
  abbrev rows : List TodoModel
  rows = order_desc (λ m. m.created_at) (λ m. m.id) (user_rows (some t) k db.todos)

  page :
      (m : TodoModel) × (ms : List TodoModel) × (get_todos_cursor
          (some t)
          k
          first
          (suc l)
          (record { committed = db.todos; working = db.todos; is_committed = false })
        ≡ (
          ok (map to_entity (m ∷ ms), true),
          record { committed = db.todos; working = db.todos; is_committed = false },
        ))
  unfolding get_todos_cursor get_by_user_cursor get_page apply_cursor_pagination
  page =
      let (m, ms, here, more) = cut l rows (
        rw
          (length-order_desc (λ (m : TodoModel). m.created_at) (λ m. m.id)
            (user_rows (some t) k db.todos))
          many) in
      (m, ms, rw (here, more) refl)

module _ {R : Type 0} (c : Context) (redis : Redis R) (message : Error → String) (request : Request)
    (db : AppDb) (r : R) where
  -- A permitted user with more todos than the limit gets 500 for the first page, and so no page and
  -- no cursor; nothing changes.
  pub first_page_fails :
      (caller : CurrentUser × ℕ) (k limit : ℕ)
      → require_permission c "todo" "read" request (opened db) ≡ (ok caller, opened db)
      → caller.0.id ≡ some k
      → 0 < limit
      → limit < length (user_rows (some caller.1) k db.todos)
      → serve c redis message (get_todos none limit) request (db, r) ≡ (internal_error, (db, r))
  unfolding serve run list_todos answer handle_exception domain_exception
  first_page_fails caller k zero permitted own pos many = absurd (omega arith)
  first_page_fails caller k (suc l) permitted own pos many =
      let (m, ms, read) = page caller.1 k l db many in
      let (rs, shown) = responses (m ∷ ms) in
      rw (permitted, own, read, shown, no_link c (to_entity m) (map to_entity ms) (opened db)) refl
