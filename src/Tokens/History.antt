-- ===== src/Tokens/History.antt =====
-- Histories of the table of sessions: logins, refreshes and logouts of one tenant, in any order.
pub mod Invariant
use python_codebase.Prelude.{
  ℕ, suc, ◌≡◌, refl, ap, sym, ◌∙◌, String, Bool, true, false, not, ◌&&◌, Option, none, some, List,
  [], ◌∷◌, ◌++◌, map, ◌⊎◌, inl, inr, any, All, ◌==◌, ==_iff, str_eq, eq_iff, get_or, is_blank,
  arith, Bool-cases,
}
use python_codebase.Result.{Error, Result, ok, err, invalid_refresh_token, integrity_error}
use python_codebase.Sql.{in_tenant, in_tenant_own, tenant_column}
use python_codebase.Session.{Session}
use python_codebase.Tokens.{
  TokenSettings, Platform, RefreshToken, UserSession, SessionDb, entity, overwrite, row,
  get_by_token_hash, insert, save, revoke_of, revoke_by_user_id,
}
use python_codebase.Tokens.Refresh.{TokenPair, Draw, rotate, refresh}
use python_codebase.Tokens.Sessions.{
  with_hash, with_id, HasUniqueKeys, Only, All-with_hash, with_hash-overwrite, none-All,
  without-hash, hash-with_hash, with_hash-append,
}
use python_codebase.Tokens.Rotating.{
  get-cases, get_found, revoked, next, written, rotated, Rotated, rotate-cases,
}
use python_codebase.Tokens.Unique.{
  HasUniqueKeys-map, HasUniqueKeys-append, Below, Below-map, Below-append, Keeps-revoke_of,
  Keeps-overwrite,
}
use python_codebase.Tokens.Revoking.{with_hash-revoke, tenant-revoke_of, revoke_of_revoked}

module _ (p : Platform) (settings : TokenSettings) (t : ℕ) where
  -- One committed write: a login's new session, a refresh of a session that is not revoked, or a
  -- logout.
  pub data Step : SessionDb → SessionDb → Type 0 where
    begun :
        (token : RefreshToken) (db db' : SessionDb)
        → token.id ≡ none
        → save (some t) token db ≡ (ok tt, db')
        → Step db db'
    refreshed :
        (draw : Draw) (h : String) (m : UserSession) (pair : TokenPair) (db db' : SessionDb)
        → get_by_token_hash (some t) h db ≡ (ok (some (entity m)), db)
        → m.is_revoked ≡ false
        → rotate p settings (some t) draw (entity m) db ≡ (ok pair, db')
        → Step db db'
    ended : (user_id : ℕ) (db : SessionDb) → Step db (revoke_by_user_id (some t) user_id db).1

  pub data Reach (db : SessionDb) : SessionDb → Type 0 where
    here : Reach db db
    then : {db1 db2 : SessionDb} → Reach db db1 → Step db1 db2 → Reach db db2

  -- The two indexes are unique, and the sequence is ahead of every key.
  abbrev pub IsConsistent : SessionDb → Type 0
  IsConsistent db = HasUniqueKeys db.sessions × Below db.next_id db.sessions

  -- The session of a hash is revoked.
  abbrev pub IsSpent : String → SessionDb → Type 0
  IsSpent h db =
      (m : UserSession) × (with_hash h db.sessions ≡ m ∷ [])
      × (m.is_revoked ≡ true)
      × (in_tenant (some t) m.tenant_id ≡ true)

  -- The tables with a new session.
  abbrev pub appended : RefreshToken → SessionDb → SessionDb
  appended token db = record {
    sessions = db.sessions ++ row token t db.next_id ∷ [];
    next_id = suc db.next_id;
  }

  pub save_new :
      (token : RefreshToken) (db db' : SessionDb)
      → token.id ≡ none
      → save (some t) token db ≡ (ok tt, db')
      → (any (λ x. str_eq x.refresh_token_hash token.token_hash) db.sessions ≡ false)
        × (db' ≡ appended token db)
  unfolding save insert tenant_column
  save_new token db db' unsaved e =
      elim (Bool-cases (any (λ x. str_eq x.refresh_token_hash token.token_hash) db.sessions)) [
        | inl taken ↦ cc (rw (unsaved, taken) at e)
        | inr free ↦ (free, sym (ap (λ r. r.1) (rw (unsaved, free) at e)))
      ]

  pub appended-IsConsistent :
      (token : RefreshToken) (db : SessionDb)
      → any (λ x. str_eq x.refresh_token_hash token.token_hash) db.sessions ≡ false
      → IsConsistent db
      → IsConsistent (appended token db)
  appended-IsConsistent token db free c = (
    HasUniqueKeys-append db.next_id db.sessions (row token t db.next_id) c.0 c.1 refl free,
    Below-append db.next_id db.sessions (row token t db.next_id) c.1 refl,
  )

  -- A hash that a row has is not a new one.
  other_hash :
      (h : String) (m : UserSession) (n : String) (ms : List UserSession)
      → with_hash h ms ≡ m ∷ []
      → any (λ x. str_eq x.refresh_token_hash n) ms ≡ false
      → str_eq n h ≡ false
  other_hash h m n ms only free = elim (Bool-cases (str_eq n h)) [
    | inl y ↦
        let same : n ≡ h = (eq_iff n h).0 y in
        cc (sym (ap (λ k. with_hash k ms) same) ∙ without-hash n ms free, only)
    | inr apart ↦ apart
  ]

  pub appended-IsSpent :
      (token : RefreshToken) (h : String) (db : SessionDb)
      → any (λ x. str_eq x.refresh_token_hash token.token_hash) db.sessions ≡ false
      → IsSpent h db
      → IsSpent h (appended token db)
  appended-IsSpent token h db free (m, only, gone, mine) =
      let apart = other_hash h m token.token_hash db.sessions only free in
      (
        m,
        rw (with_hash-append h db.sessions (row token t db.next_id ∷ []), only, apart) refl,
        gone,
        mine,
      )

  -- The write over the row of the token that is refreshed.
  module _ (draw : Draw) (h : String) (m : UserSession) (db : SessionDb)
      (only : Only h m db.sessions) where
    abbrev pub marked : SessionDb
    marked = record db { sessions = written p settings draw m t db }

    pub marked-IsConsistent : IsConsistent db → IsConsistent marked
    marked-IsConsistent c =
        let keeps = Keeps-overwrite (revoked p settings draw m) t m.id m db.sessions only.1 refl in
        let f = overwrite (revoked p settings draw m) t m.id in
        (HasUniqueKeys-map f db.sessions keeps c.0, Below-map f db.next_id db.sessions keeps c.1)

    pub marked-IsSpent : (k : String) → IsSpent k db → IsSpent k marked
    marked-IsSpent k (x, found, gone, mine) =
        let f = overwrite (revoked p settings draw m) t m.id in
        let step : with_hash k marked.sessions ≡ f x ∷ [] =
          with_hash-overwrite (revoked p settings draw m) t m.id k m db.sessions only.1 refl
          ∙ rw found refl in
        elim (Bool-cases (x.id == m.id)) [
          | inl same ↦ (f x, step, rw same refl, rw same (in_tenant_own t))
          | inr other ↦ (f x, step, rw other gone, rw other mine)
        ]
