-- ===== src/Authorization/Committed.antt =====
-- A renaming through its handler.
use python_codebase.Prelude.{
  Bool-cases, inl, inr, map, ℕ, ◌≡◌, refl, Option, some, false, any, not, ◌&&◌, ◌==◌, str_eq,
}
use python_codebase.Result.{Error, Result, ok, err, integrity_error}
use python_codebase.Session.{Session}
use python_codebase.Session.Atomicity.{transaction_lem, outcome}
use python_codebase.Authorization.{Role, RoleModel, AuthorizationDb, same_description}
use python_codebase.Authorization.Roles.{
  role_from_model, get_role_model, get_role, update_role, write_role,
}
use python_codebase.Authorization.Handlers.{UpdateRoleCommand, changed_role, handle_update_role}
use python_codebase.Authorization.Renaming.{rename_role_policies_lem}

nothing_committed :
    {D A : Type 0} (s : Session D) (r : Result A × D) (e : Error)
    → r.0 ≡ err e
    → ((outcome s r).0 ≡ err e) × ((outcome s r).1.committed ≡ s.committed)
nothing_committed s (ok b, d) e h = cc
nothing_committed s (err b, d) e h = (h, refl)

module _ (t : Option ℕ) (e : Error) (m : RoleModel) where
  update_role_raises :
      (k : ℕ) (role : Role) (db : AuthorizationDb)
      → role.id ≡ some k
      → get_role_model t k db ≡ (ok (some m), db)
      → (str_eq m.name role.name && same_description m.description role.description) ≡ false
      → (x : Error) × ((update_role t (err e) role db).0 ≡ err x)
  unfolding update_role
  update_role_raises k role db id found changed =
      let after = record db { roles = map (write_role m.id role) db.roles } in
      elim (Bool-cases (any (λ x. not (x.id == m.id) && str_eq x.name role.name) db.roles)) [
        | inl taken ↦ (integrity_error, rw (id, found, taken) refl)
        | inr free ↦ elim (Bool-cases (str_eq m.name role.name)) [
          | inl same ↦ (e, rw (id, found, free, same, rw same at changed) refl)
          | inr differ ↦ (
            e,
            rw (id, found, free, differ, rename_role_policies_lem t m.name role.name after) refl,
          )
        ]
      ]

  -- Where the read of a column that an UPDATE has expired raises, as it does under asyncio, no update
  -- that changes the name or the description of a role of the tenant returns or commits anything.
  pub handle_update_role-raises :
      (command : UpdateRoleCommand) (s : Session AuthorizationDb)
      → get_role_model t command.role_id s.working ≡ (ok (some m), s.working)
      → (str_eq m.name (changed_role command (role_from_model m)).name
          && same_description m.description (changed_role command (role_from_model m)).description)
        ≡ false
      → let (r, s') = handle_update_role t (err e) command s in
        ((x : Error) × (r ≡ err x)) × (s'.committed ≡ s.committed)
  unfolding handle_update_role get_role
  handle_update_role-raises command s found changed =
      let role = changed_role command (role_from_model m) in
      let (x, raised) = update_role_raises command.role_id role s.working refl found changed in
      let (answer, kept) = nothing_committed s (update_role t (err e) role s.working) x raised in
      rw (found, transaction_lem (update_role t (err e) role) s) ((x, answer), kept)
