-- ===== src/Api/Safe.antt =====
-- Which routes leave the database as it was.
pub mod Lists
pub mod Routes
use python_codebase.Prelude.{
  ℕ, String, Bool, not, ◌==◌, true, false, Option, none, some, List, [], ◌∷◌, ◌≡◌, refl, ap, inl,
  inr, ◌∙◌, sym,
}
use python_codebase.Tokens.Rotating.{Result-cases}
use python_codebase.Result.{http_error, value_error, Error, Result, ok, err}
use python_codebase.State.{State, proceed, or_raise, raise_if, pure, from_result, ◌>>=◌, ◌>>◌}
use python_codebase.Session.{Session, Exec, Query, lift}
use python_codebase.Pagination.{CursorDirection, direction_next, direction_prev}
use python_codebase.ApiKeys.{generate, list_keys, count_keys, get_by_id, revoke}
use python_codebase.Authorization.{Role, Permission}
use python_codebase.Authorization.Roles.{list_roles_cursor}
use python_codebase.Authorization.Permissions.{list_permissions_cursor}
use python_codebase.Result.{
  validation_error, type_error, todo_not_found, unauthorized_todo_access, user_not_found,
}
use python_codebase.Todo
use python_codebase.Todo.{get_by_user_cursor}
use python_codebase.Todo.Handlers.{get_todos_cursor, UserProfile, owned_todo, get_todo_detail}
use python_codebase.Api.Pages.{collect, given}
use python_codebase.Api.Keys.{key_response}
use python_codebase.Api.Todos.{todo_response, created_at_of, owner_error, get_user_profile}
use python_codebase.Middleware.{Request}
use python_codebase.Tokens.Revocation.{Redis}
use python_codebase.Api.{
  AppDb, Context, CurrentUser, require_permission, get_current_tenant_id, in_api_keys, in_todos,
  in_authorization, reads,
}
use python_codebase.Api.Pages.{head?, encode_item, last?, read_cursor, next_link, prev_link}
use python_codebase.Api.Guarded.{require_permission-cases}
use python_codebase.Api.Todos.{catching, list_todos, show_todo}
use python_codebase.Api.Roles
use python_codebase.Api.Roles.{show_role}
use python_codebase.Authorization.Roles.{get_role as get_role_row}
use python_codebase.Authorization.Permissions.{get_permission as get_permission_row}
use python_codebase.Authorization.{AuthorizationDb}
use python_codebase.ApiKeys.{ApiKeyDb}
use python_codebase.Todo.{TodoDb}
use python_codebase.Accounts.{AccountDb, on_users}
use python_codebase.Accounts.Registration.{detail_user}
use python_codebase.Api.Permissions
use python_codebase.Api.Permissions.{show_permission}
use python_codebase.Api.Auth.{get_me}
use python_codebase.Api.Keys
use python_codebase.Api.Keys.{CreateApiKeyRequest, post_api_key}

-- A call that commits nothing.
pub record Keeps {D A : Type 0} (m : Exec D A) : Type 0 where
  pub same : (s : Session D) → (m s).1.committed ≡ s.committed

module _ {D : Type 0} where
  proceed-Keeps :
      {A B : Type 0} (r : Result A) (f : A → Exec D B) (s : Session D) (d : D)
      → s.committed ≡ d
      → ((a : A) → Keeps (f a))
      → (proceed r f s).1.committed ≡ d
  proceed-Keeps (ok a) f s d same rest = (rest a).same s ∙ same
  proceed-Keeps (err e) f s d same rest = same

  >>=-Keeps :
      {A B : Type 0} (m : Exec D A) {f : A → Exec D B}
      → Keeps m
      → ((a : A) → Keeps (f a))
      → Keeps (m >>= f)
  >>=-Keeps m {f} first rest = record {
    same = λ s. proceed-Keeps (m s).0 f (m s).1 s.committed (first.same s) rest;
  }

  -- A call of a repository that nothing commits after.
  lift-Keeps : {A : Type 0} (q : Query D A) → Keeps (lift q)
  lift-Keeps q = record { same = λ s. refl }

  or_raise-Keeps : {A : Type 0} (o : Option A) (e : Error) → Keeps {D = D} (or_raise o e)
  or_raise-Keeps none e = record { same = λ s. refl }
  or_raise-Keeps (some a) e = record { same = λ s. refl }

  raise_if-Keeps : (b : Bool) (e : Error) → Keeps {D = D} (raise_if b e)
  raise_if-Keeps true e = record { same = λ s. refl }
  raise_if-Keeps false e = record { same = λ s. refl }

  from_result-Keeps : {A : Type 0} (r : Result A) → Keeps {D = D} (from_result r)
  from_result-Keeps r = record { same = λ s. refl }

permission-Keeps :
    (c : Context) (resource action : String) (request : Request)
    → Keeps (require_permission c resource action request)
permission-Keeps c resource action request = record {
  same = λ s. elim (require_permission-cases c request s resource action) [
    | inl (e, failed) ↦ ap (λ x. x.1.committed) failed
    | inr (caller, _, passed) ↦ ap (λ x. x.1.committed) passed
  ];
}

-- The reads of the three parts of the tables.
module _ {A : Type 0} where
  authorization-Keeps : (q : Query AuthorizationDb A) → Keeps (in_authorization (lift q))
  authorization-Keeps q = record { same = λ s. refl }

  keys-Keeps : (q : Query ApiKeyDb A) → Keeps (in_api_keys (lift q))
  keys-Keeps q = record { same = λ s. refl }

  accounts-Keeps : (q : Query AccountDb A) → Keeps (reads q)
  accounts-Keeps q = record { same = λ s. refl }

  todos-Keeps : (m : Exec TodoDb A) → Keeps m → Keeps (in_todos m)
  todos-Keeps m h = record {
    same = λ s.
        ap (λ (d : TodoDb). record s.committed { todos = d })
          (h.same (record {
            committed = s.committed.todos;
            working = s.working.todos;
            is_committed = s.is_committed;
          }));
  }

  catching-Keeps : {D : Type 0} (f : Error → Error) (m : Exec D A) → Keeps m → Keeps (catching f m)
  catching-Keeps f m h = record {
    same = λ s. elim (Result-cases (m s).0) [
      | inl (a, e) ↦ rw (catching, e) (h.same s)
      | inr (x, e) ↦ rw (catching, e) (h.same s)
    ];
  }

module _ (t : Option ℕ) where
  owned-Keeps : (k l : ℕ) → Keeps (owned_todo t k l)
  unfolding owned_todo
  owned-Keeps k l = >>=-Keeps _ (lift-Keeps (Todo.get_by_id t k)) (λ found.
      >>=-Keeps _ (or_raise-Keeps found todo_not_found) (λ todo.
        >>=-Keeps _ (raise_if-Keeps (not (todo.user_id == l)) unauthorized_todo_access)
          (λ u. record { same = λ s. refl })))

  detail-Keeps :
      (profile : ℕ → Result (Option UserProfile)) (k l : ℕ) → Keeps (get_todo_detail t profile k l)
  unfolding get_todo_detail
  detail-Keeps profile k l = >>=-Keeps _ (owned-Keeps k l) (λ todo.
      >>=-Keeps _ (from_result-Keeps (profile todo.user_id)) (λ found.
        >>=-Keeps _ (or_raise-Keeps found user_not_found) (λ owner. record { same = λ s. refl })))

module _ (c : Context) (request : Request) where
  pub show_role-Keeps : (k : ℕ) → Keeps (show_role c k request)
  unfolding show_role
  show_role-Keeps k = >>=-Keeps _ (permission-Keeps c "role" "read" request) (λ caller.
      >>=-Keeps _ (authorization-Keeps (get_role_row (some caller.1) k))
        (λ found. >>=-Keeps _ (or_raise-Keeps found _) (λ role. from_result-Keeps _)))

  pub show_permission-Keeps : (k : ℕ) → Keeps (show_permission c k request)
  unfolding show_permission
  show_permission-Keeps k = >>=-Keeps _ (permission-Keeps c "permission" "read" request) (λ caller.
      >>=-Keeps _ (authorization-Keeps (get_permission_row (some caller.1) k))
        (λ found. >>=-Keeps _ (or_raise-Keeps found _) (λ permission. from_result-Keeps _)))

  pub get_me-Keeps : Keeps (get_me c request)
  unfolding get_me
  get_me-Keeps = >>=-Keeps _ (permission-Keeps c "user" "me" request) (λ caller.
      >>=-Keeps _ (accounts-Keeps (on_users (detail_user (some caller.1) caller.0.id)))
        (λ user. record { same = λ s. refl }))

  tenant-Keeps : Keeps (get_current_tenant_id request)
  unfolding get_current_tenant_id
  tenant-Keeps = or_raise-Keeps request.tenant_id (http_error 400 "Tenant not identified")

  pub post_api_key-Keeps :
      (body : CreateApiKeyRequest) (drawn : String) → Keeps (post_api_key c body drawn request)
  unfolding post_api_key
  post_api_key-Keeps body drawn = >>=-Keeps _ tenant-Keeps (λ t.
      >>=-Keeps _
        (keys-Keeps (
          generate c.platform.sha256 (some t) c.fits body.name body.permissions body.expires_at
            drawn))
        (λ made. from_result-Keeps _))

  pub list_api_keys-Keeps : (skip limit : ℕ) → Keeps (Keys.list_api_keys c skip limit request)
  unfolding Keys.list_api_keys
  list_api_keys-Keeps skip limit = >>=-Keeps _ tenant-Keeps (λ t.
      >>=-Keeps _ (keys-Keeps (list_keys (some t) skip limit)) (λ found.
        >>=-Keeps _ (keys-Keeps (count_keys (some t))) (λ total.
          >>=-Keeps _ (from_result-Keeps (collect key_response found))
            (λ items. record { same = λ s. refl }))))

  pub revoke_api_key-Keeps : (k : ℕ) → Keeps (Keys.revoke_api_key c k request)
  unfolding Keys.revoke_api_key
  revoke_api_key-Keeps k = >>=-Keeps _ tenant-Keeps (λ t.
      >>=-Keeps _ (keys-Keeps (get_by_id (some t) k)) (λ existing.
        >>=-Keeps _ (or_raise-Keeps existing (http_error 404 "API key not found"))
          (λ found. keys-Keeps (revoke k))))

  pub show_todo-Keeps : (k : ℕ) → Keeps (show_todo c k request)
  unfolding show_todo
  show_todo-Keeps k = >>=-Keeps _ (permission-Keeps c "todo" "read" request) (λ caller.
      >>=-Keeps _ (or_raise-Keeps caller.0.id type_error) (λ l.
        catching-Keeps owner_error _ (record {
          same = λ s.
              let profile = get_user_profile request.tenant_id s.working.accounts.users in
              (todos-Keeps (get_todo_detail (some caller.1) profile k l)
                  (detail-Keeps (some caller.1) profile k l)).same
                s;
        })))
