-- ===== src/Api/Safe/Routes.antt =====
-- GET is safe, and the keys that are made are not kept.
use python_codebase.Prelude.{ℕ, String, Bool, inl, inr, Option, true, false, ◌≡◌, refl, ap, ◌∙◌}
use python_codebase.Result.{Error, Result, ok, err}
use python_codebase.Session.{Session, Exec}
use python_codebase.Tokens.Revocation.{Redis}
use python_codebase.Middleware.{Request}
use python_codebase.Middleware.Rate.{apply_global_rate_limit}
use python_codebase.Tokens.Rotating.{Result-cases}
use python_codebase.Api.{AppDb, Context}
use python_codebase.Api.Keys.{CreateApiKeyRequest}
use python_codebase.Api.Safe.{
  Keeps, show_todo-Keeps, show_role-Keeps, show_permission-Keeps, get_me-Keeps, post_api_key-Keeps,
  list_api_keys-Keeps, revoke_api_key-Keeps,
}
use python_codebase.Api.Safe.Lists.{list_todos-Keeps, list_roles-Keeps, list_permissions-Keeps}
use python_codebase.Api.Endpoints.{
  Endpoint, get_todos, get_todo_detail, list_roles, get_role, list_permissions, get_permission, me,
  create_api_key, list_api_keys, revoke_api_key, Body, run, finish, plain, opened, serve,
  serve_limited,
}

-- The routes of `@router.get`.
abbrev pub is_get : Endpoint → Bool
is_get (get_todos cursor limit) = true
is_get (get_todo_detail k) = true
is_get (list_roles cursor limit) = true
is_get (get_role k) = true
is_get (list_permissions cursor limit) = true
is_get (get_permission k) = true
is_get me = true
is_get (list_api_keys skip limit) = true
is_get _ = false

module _ {R : Type 0} (c : Context) (redis : Redis R) (message : Error → String) (request : Request)
    (db : AppDb) (r : R) where
  -- What a route leaves: the committed tables, and the revocation keys.
  abbrev left : Result Body × (Session AppDb × R) → AppDb × R
  left x = (x.1.0.committed, x.1.1)

  left-finish :
      {A : Type 0} (f : A → Body) (s : Session AppDb) (result : Result A)
      → left (finish f s r result) ≡ (s.committed, r)
  left-finish f s (ok a) = refl
  left-finish f s (err e) = refl

  left-plain :
      {A : Type 0} (f : A → Body) (m : Exec AppDb A)
      → Keeps m
      → left (plain f m (opened db, r)) ≡ (db, r)
  left-plain f m keeps =
      left-finish f (m (opened db)).1 (m (opened db)).0
      ∙ ap (λ (d : AppDb). (d, r)) (keeps.same (opened db))

  left-run :
      (e : Endpoint)
      → is_get e ≡ true
      → left (run c redis message e request (opened db, r)) ≡ (db, r)
  unfolding run
  left-run (get_todos cursor limit) get = left-plain _ _ (list_todos-Keeps c request cursor limit)
  left-run (get_todo_detail k) get = left-plain _ _ (show_todo-Keeps c request k)
  left-run (list_roles cursor limit) get = left-plain _ _ (list_roles-Keeps c request cursor limit)
  left-run (get_role k) get = left-plain _ _ (show_role-Keeps c request k)
  left-run (list_permissions cursor limit) get =
      left-plain _ _ (list_permissions-Keeps c request cursor limit)
  left-run (get_permission k) get = left-plain _ _ (show_permission-Keeps c request k)
  left-run me get = left-plain _ _ (get_me-Keeps c request)
  left-run (list_api_keys skip limit) get =
      left-plain _ _ (list_api_keys-Keeps c request skip limit)
  left-run _ get = cc

  -- A GET to a modelled route, behind the rate limit, leaves the tables and the revocation keys as
  -- they were, whatever its route, its caller and its answer; the limiter of the rate is all that may
  -- have changed.
  pub get_changes_nothing :
      {L : Type 0} (to_int : String → Option ℕ) (limiter : ℕ → ℕ → String → L → Bool × L)
      (limit : String) (l : L) (e : Endpoint)
      → is_get e ≡ true
      → (serve_limited c redis message to_int limiter limit e request (l, (db, r))).2 ≡ (db, r)
  unfolding serve_limited serve
  get_changes_nothing to_int limiter limit l e get =
      elim (Result-cases (apply_global_rate_limit to_int limiter limit request l).0) [
        | inr (error, refused) ↦ rw refused refl
        | inl (_, allowed) ↦ rw allowed (left-run e get)
      ]

  -- The routes that make and revoke API keys leave the database as it was, whatever they answer:
  -- nothing commits their session.
  pub key_routes_change_nothing :
      (body : CreateApiKeyRequest) (drawn : String) (k : ℕ)
      → ((serve c redis message (create_api_key body drawn) request (db, r)).1 ≡ (db, r))
        × ((serve c redis message (revoke_api_key k) request (db, r)).1 ≡ (db, r))
  unfolding serve run
  key_routes_change_nothing body drawn k = (
    left-plain _ _ (post_api_key-Keeps c request body drawn),
    left-plain _ _ (revoke_api_key-Keeps c request k),
  )
