-- ===== src/TwoFactor/Loading.antt =====
-- A user with a security record in the tables, as the service loads it.
use python_codebase.Prelude.{
  ℕ, ◌≡◌, refl, ap, sym, ◌∙◌, true, ◌&&◌, Option, some, [], ◌∷◌, map, ◌==◌, ==_iff, filter,
}
use python_codebase.Result.{ok, scalar_one_or_none}
use python_codebase.Sql.{in_tenant}
use python_codebase.Users.{
  UserModel, UserSecurity, UserSecurityModel, UserDb, rows_of, overwrite_security,
  map_to_entity_with_relations, get_by_id_with_relations, save_security,
}
use python_codebase.TwoFactor.{load}
use python_codebase.TwoFactor.Backup.{save_existing, saved, rows_of-overwrite, user_id-rows_of}

-- The user and the record that the service loads.
module _ (t : Option ℕ) (u : UserModel) (security : UserSecurity) where
  -- The table has one row of the user, of the tenant, and one record of that user.
  abbrev pub Stored : UserDb → Type 0
  Stored db =
      (filter (λ x. x.id == u.id && in_tenant t x.tenant_id) db.users ≡ u ∷ [])
      × ((m : UserSecurityModel) × (rows_of u.id db.security ≡ m ∷ []) × (m.fields ≡ security))

  pub get_by_id-Stored :
      (db : UserDb)
      → Stored db
      → get_by_id_with_relations t u.id db ≡ (ok (some (map_to_entity_with_relations db u)), db)
  unfolding get_by_id_with_relations scalar_one_or_none
  get_by_id-Stored db h = rw h.0 refl

  pub load-Stored :
      (db : UserDb)
      → Stored db
      → load t u.id db ≡ (ok (map_to_entity_with_relations db u, security), db)
  unfolding load
  load-Stored db h = rw (get_by_id-Stored db h, h.1.1, h.1.2) refl

  pub user_id-Stored : (db : UserDb) → Stored db → security.user_id ≡ u.id
  user_id-Stored db h =
      let (m, only, e) = h.1 in rw e at (user_id-rows_of u.id db.security m [] only)

pub Stored-saved :
    (t : Option ℕ) (u : UserModel) (old new : UserSecurity) (db : UserDb)
    → Stored t u old db
    → new.user_id ≡ u.id
    → Stored t u new (saved new db)
Stored-saved t u old new db h same =
    let (m, only, e) = h.1 in
    let rows : rows_of new.user_id db.security ≡ m ∷ [] = rw same only in
    let here : (m.fields.user_id == new.user_id) ≡ true =
      (==_iff m.fields.user_id new.user_id).1 (user_id-rows_of new.user_id db.security m [] rows) in
    let all : rows_of new.user_id (map (overwrite_security new) db.security)
        ≡ record m { fields = new } ∷ [] =
      rw (rows_of-overwrite new db.security, rows, here) refl in
    (
      h.0,
      (
        record m { fields = new },
        ap (λ k. rows_of k (map (overwrite_security new) db.security)) (sym same) ∙ all,
        refl,
      ),
    )

pub save-Stored :
    (t : Option ℕ) (u : UserModel) (old new : UserSecurity) (db : UserDb)
    → Stored t u old db
    → new.user_id ≡ u.id
    → save_security t new db ≡ (ok tt, saved new db)
save-Stored t u old new db h same =
    let (m, only, e) = h.1 in save_existing t new db m (rw same only)
