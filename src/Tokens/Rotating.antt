-- ===== src/Tokens/Rotating.antt =====
-- What a hash finds, and the tables after the block of a refresh.
use text.Mathlib.TextPositions.{eq_refl}
use python_codebase.Prelude.{
  ℕ, suc, ◌≡◌, refl, sym, ◌∙◌, String, true, false, not, ◌&&◌, Option, none, some, List, [], ◌∷◌,
  ◌++◌, map, ◌⊎◌, inl, inr, filter, any, ◌==◌, ==_iff, str_eq, eq_iff, Bool-cases,
}
use python_codebase.Result.{Error, Result, ok, err, scalar_one_or_none, integrity_error}
use python_codebase.Sql.{in_tenant, tenant_column}
use python_codebase.Tokens.{
  TokenSettings, Platform, RefreshToken, UserSession, SessionDb, entity, overwrite, row,
  get_by_token_hash, insert, overwrite_row, save, create_access_token, create_refresh_token,
}
use python_codebase.Tokens.Refresh.{TokenPair, Draw, successor, rotate}
use python_codebase.Tokens.Sessions.{
  with_hash, HasUniqueKeys, Only, All-with_hash, with_hash-cases, with_hash-overwrite,
  filter-with_hash, none-All, without-hash, hash-with_hash, with_hash-append,
}

module _ (t : Option ℕ) (h : String) (db : SessionDb) where
  pub get_found :
      (m : UserSession)
      → with_hash h db.sessions ≡ m ∷ []
      → in_tenant t m.tenant_id ≡ true
      → get_by_token_hash t h db ≡ (ok (some (entity m)), db)
  unfolding get_by_token_hash scalar_one_or_none
  get_found m e visible =
      rw (filter-with_hash h (λ x. in_tenant t x.tenant_id) db.sessions, e, visible) refl

  get_missing :
      filter (λ x. in_tenant t x.tenant_id) (with_hash h db.sessions) ≡ []
      → get_by_token_hash t h db ≡ (ok none, db)
  unfolding get_by_token_hash scalar_one_or_none
  get_missing e = rw (filter-with_hash h (λ x. in_tenant t x.tenant_id) db.sessions, e) refl

  -- What the repository reads by a hash.
  abbrev pub Found : UserSession → Type 0
  Found m = Only h m db.sessions × (get_by_token_hash t h db ≡ (ok (some (entity m)), db))

  pub get-cases :
      HasUniqueKeys db.sessions
      → (get_by_token_hash t h db ≡ (ok none, db)) ⊎ ((m : UserSession) × Found m)
  get-cases u = elim (with_hash-cases h db.sessions u) [
    | inl absent ↦ inl (get_missing (rw absent refl))
    | inr (m, only) ↦ elim (Bool-cases (in_tenant t m.tenant_id)) [
      | inl mine ↦ inr (m, (only, get_found m only.0 mine))
      | inr theirs ↦ inl (get_missing (rw (only.0, theirs) refl))
    ]
  ]

pub Result-cases :
    {A : Type 0} (r : Result A) → ((a : A) × (r ≡ ok a)) ⊎ ((e : Error) × (r ≡ err e))
Result-cases (ok a) = inl (a, refl)
Result-cases (err e) = inr (e, refl)

module _ (p : Platform) (settings : TokenSettings) (draw : Draw) (m : UserSession) where
  abbrev pub revoked : RefreshToken
  revoked = record (entity m) { is_revoked = true }

  abbrev pub next : RefreshToken
  next = successor p settings draw (entity m)

  abbrev pub issued : TokenPair
  issued = record {
    access_token = create_access_token p settings (p.str m.user_id) draw.now draw.access_jti;
    refresh_token = create_refresh_token p settings (p.str m.user_id) draw.now draw.refresh_jti;
  }

  abbrev pub written : ℕ → SessionDb → List UserSession
  written t db = map (overwrite revoked t m.id) db.sessions

  abbrev pub rotated : ℕ → SessionDb → SessionDb
  rotated t db = record {
    sessions = written t db ++ row next t db.next_id ∷ [];
    next_id = suc db.next_id;
  }

  abbrev pub Rotated : Option ℕ → SessionDb → Type 0
  Rotated t db =
      (t' : ℕ) × (t ≡ some t')
      × (any (λ x. str_eq x.refresh_token_hash next.token_hash) (written t' db) ≡ false)
      × (rotate p settings t draw (entity m) db ≡ (ok issued, rotated t' db))

  pub rotate-cases :
      (t : Option ℕ) (db : SessionDb)
      → ((e : Error) × ((d : SessionDb) × (rotate p settings t draw (entity m) db ≡ (err e, d))))
        ⊎ Rotated t db
  unfolding rotate save insert overwrite_row tenant_column
  rotate-cases none db = inl (integrity_error, (db, refl))
  rotate-cases (some t') db =
      elim (Bool-cases (
        any (λ x. not (x.id == m.id) && str_eq x.refresh_token_hash m.refresh_token_hash)
          db.sessions)) [
            | inl taken ↦ inl (integrity_error, (db, rw taken refl))
            | inr free ↦
                elim (Bool-cases
                  (any (λ x. str_eq x.refresh_token_hash next.token_hash) (written t' db))) [
                    | inl clash ↦ inl (
                      integrity_error,
                      (record db { sessions = written t' db }, rw (free, clash) refl),
                    )
                    | inr fresh ↦ inr (t', refl, fresh, rw (free, fresh) refl)
                  ]
          ]

module _ (p : Platform) (settings : TokenSettings) (draw : Draw) (m : UserSession) (t : ℕ)
    (h : String) (db : SessionDb) (only : Only h m db.sessions)
    (fresh : any
        (λ x. str_eq x.refresh_token_hash (next p settings draw m).token_hash)
        (written p settings draw m t db)
      ≡ false) where
  -- The row of the token that was refreshed.
  abbrev pub spent : UserSession
  spent = record m { is_revoked = true; tenant_id = t }

  old_row : with_hash h (written p settings draw m t db) ≡ spent ∷ []
  old_row =
      let here : (m.id == m.id) ≡ true = (==_iff m.id m.id).1 refl in
      with_hash-overwrite (revoked p settings draw m) t m.id h m db.sessions only.1 refl
      ∙ rw only.0 (rw here refl)

  differ : str_eq (next p settings draw m).token_hash h ≡ false
  differ = elim (Bool-cases (str_eq (next p settings draw m).token_hash h)) [
    | inl y ↦
        let n = (next p settings draw m).token_hash in
        let hash : m.refresh_token_hash ≡ n =
          hash-with_hash h db.sessions m [] only.0 ∙ sym ((eq_iff n h).0 y) in
        let apart =
          All-with_hash (λ x. str_eq x.refresh_token_hash n ≡ false) h
            (written p settings draw m t db) spent []
            (none-All n (written p settings draw m t db) fresh) old_row in
        cc (apart, (eq_iff m.refresh_token_hash n).1 hash)
    | inr n ↦ n
  ]

  pub old_rotated : with_hash h (rotated p settings draw m t db).sessions ≡ spent ∷ []
  old_rotated =
      rw
        (
          with_hash-append h (written p settings draw m t db)
              (row (next p settings draw m) t db.next_id ∷ []),
          old_row,
          differ,
        )
        refl

  pub new_rotated :
      with_hash (next p settings draw m).token_hash (rotated p settings draw m t db).sessions
      ≡ row (next p settings draw m) t db.next_id ∷ []
  new_rotated =
      rw
        (
          with_hash-append (next p settings draw m).token_hash (written p settings draw m t db)
              (row (next p settings draw m) t db.next_id ∷ []),
          without-hash (next p settings draw m).token_hash (written p settings draw m t db) fresh,
          eq_refl (next p settings draw m).token_hash,
        )
        refl
