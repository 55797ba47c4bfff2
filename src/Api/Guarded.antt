-- ===== src/Api/Guarded.antt =====
-- What `require_permission` gives to the routes behind it.
pub mod Routes
use python_codebase.Prelude.{
  ℕ, String, Bool, true, false, not, has_id, ◌&&◌, Option, none, some, List, map, filter, ◌≡◌, refl,
  sym, ◌∙◌, ap, ◌⊎◌, inl, inr, Bool-cases, Option-cases, str_eq,
}
use python_codebase.Result.{Error, Result, ok, err, http_error, value_error, scalar_one_or_none}
use python_codebase.State.{State, ◌>>=◌}
use python_codebase.Session.{Session, Exec}
use python_codebase.Sql.{in_tenant}
use python_codebase.Users.{User, UserDb, UserModel, map_to_entity, get_by_id}
use python_codebase.Tokens.Rotating.{Result-cases}
use python_codebase.Authorization.{AuthorizationDb}
use python_codebase.Authorization.Access.{can, load_policy_lines, to_policy_line}
use python_codebase.Authorization.Policies.{mine}
use python_codebase.Authorization.Permissions.{permission_key}
use python_codebase.Middleware.{Request}
use python_codebase.Api.{
  AppDb, Context, CurrentUser, get_current_user, get_current_tenant_id, require_permission, text_of,
}

-- Who calls: a text of `request.state` that names a user of the tables, in the tenant of the request,
-- whom Casbin's enforcer allows the action by the tenant's policy lines.
pub record Permitted (c : Context) (resource action : String) (request : Request) (db : AppDb)
    (caller : CurrentUser × ℕ) : Type 0 where
  pub text : String
  pub key : ℕ
  pub user : User
  pub identified : request.user_id ≡ some text
  pub read : c.to_int text ≡ some key
  pub found :
      get_by_id request.tenant_id (some key) db.accounts.users ≡ (ok (some user), db.accounts.users)
  pub tenant : request.tenant_id ≡ some caller.1
  pub same : caller.0 ≡ record { id = user.id; email = user.email }
  pub allowed :
      c.enforce
        (map to_policy_line (filter (mine (some caller.1)) db.accounts.authorization.casbin_rules))
        (text_of c user.id)
        (permission_key resource action)
      ≡ true

-- A user is read, or not, or the query raises; the tables stay.
get_by_id-cases :
    (t k : Option ℕ) (db : UserDb)
    → ((e : Error) × (get_by_id t k db ≡ (err e, db)))
      ⊎ ((get_by_id t k db ≡ (ok none, db)) ⊎ ((u : User) × (get_by_id t k db ≡ (ok (some u), db))))
unfolding get_by_id
get_by_id-cases t k db = elim (Result-cases (scalar_one_or_none (rows db.users))) [
  | inr (e, failed) ↦ inl (e, rw failed refl)
  | inl (found, read) ↦ elim (Option-cases found) [
    | inl absent ↦ inr (inl (rw (read, absent) refl))
    | inr (m, here) ↦ inr (inr (map_to_entity m, rw (read, here) refl))
  ]
]
  where
    rows : List UserModel → List UserModel
    rows ms = filter (λ (m : UserModel). has_id k m.id && in_tenant t m.tenant_id) ms

module _ (c : Context) (request : Request) (s : Session AppDb) where
  -- `get_current_user` raises, or returns a user that the tables hold.
  current_user-cases :
      ((e : Error) × (get_current_user c request s ≡ (err e, s)))
      ⊎ ((text : String) × (k : ℕ) × (user : User) × (request.user_id ≡ some text)
          × (c.to_int text ≡ some k)
          × (get_by_id request.tenant_id (some k) s.working.accounts.users
              ≡ (ok (some user), s.working.accounts.users))
          × (get_current_user c request s ≡ (ok (record { id = user.id; email = user.email }), s)))
  unfolding get_current_user
  current_user-cases = elim (Option-cases request.user_id) [
    | inl absent ↦
        inl (http_error 401 "Not authenticated. Token invalid or missing.", rw absent refl)
    | inr (text, given) ↦ elim (Bool-cases (str_eq text "")) [
      | inl blank ↦
          inl
            (http_error 401 "Not authenticated. Token invalid or missing.", rw (given, blank) refl)
      | inr filled ↦ elim (Option-cases (c.to_int text)) [
        | inl bad ↦
            inl (value_error "invalid literal for int() with base 10", rw (given, filled, bad) refl)
        | inr (k, number) ↦
            elim (get_by_id-cases request.tenant_id (some k) s.working.accounts.users) [
              | inl (e, failed) ↦ inl (e, rw (given, filled, number, failed) refl)
              | inr (inl absent) ↦ inl (
                http_error 404 "Authenticated user not found in database",
                rw (given, filled, number, absent) refl,
              )
              | inr (inr (user, found)) ↦
                  inr (text, k, user, given, number, found, rw (given, filled, number, found) refl)
            ]
      ]
    ]
  ]

  -- What the service reads is the enforcer's answer on the tenant's policy lines.
  module _ (resource action : String) where
    abbrev allows : Option ℕ → ℕ → Bool
    allows k t =
        c.enforce
          (map to_policy_line
            (filter (mine (some t)) s.working.accounts.authorization.casbin_rules))
          (text_of c k) (permission_key resource action)

    -- `require_permission` raises and leaves the session, or lets a permitted caller on.
    pub require_permission-cases :
        ((e : Error) × (require_permission c resource action request s ≡ (err e, s)))
        ⊎ ((caller : CurrentUser × ℕ) × Permitted c resource action request s.working caller
            × (require_permission c resource action request s ≡ (ok caller, s)))
    unfolding require_permission get_current_tenant_id can load_policy_lines
    require_permission-cases = elim current_user-cases [
      | inl (e, failed) ↦ inl (e, rw failed refl)
      | inr (text, k, user, given, number, found, read) ↦ elim (Option-cases request.tenant_id) [
        | inl absent ↦ inl (http_error 400 "Tenant not identified", rw (read, absent) refl)
        | inr (t, tenant) ↦ elim (Bool-cases (allows user.id t)) [
          | inr denied ↦ inl (http_error 403 "Permission denied", rw (read, tenant, denied) refl)
          | inl allowed ↦ inr (
            (record { id = user.id; email = user.email }, t),
            record {
              text = text;
              key = k;
              user = user;
              identified = given;
              read = number;
              found = found;
              tenant = tenant;
              same = refl;
              allowed = allowed;
            },
            rw (read, tenant, allowed) refl,
          )
        ]
      ]
    ]
