-- ===== src/Tokens/History/Invariant.antt =====
-- What every history keeps: the keys are unique, and what is revoked stays revoked.
use mathlib.Core.Path.{subst}
use python_codebase.Prelude.{
  ℕ, ◌≡◌, refl, ap, sym, ◌∙◌, String, false, Option, none, some, inl, inr, any, str_eq, get_or,
  is_blank,
}
use python_codebase.Result.{Result, ok, err, invalid_refresh_token}
use python_codebase.Session.{Session}
use python_codebase.Tokens.{
  TokenSettings, Platform, RefreshToken, UserSession, SessionDb, entity, get_by_token_hash,
  revoke_of, revoke_by_user_id,
}
use python_codebase.Tokens.Refresh.{TokenPair, Draw, rotate, refresh}
use python_codebase.Tokens.Sessions.{Only}
use python_codebase.Tokens.Rotating.{get-cases, get_found, next, written, rotated, rotate-cases}
use python_codebase.Tokens.Unique.{HasUniqueKeys-map, Below-map, Keeps-revoke_of}
use python_codebase.Tokens.Revoking.{with_hash-revoke, tenant-revoke_of, revoke_of_revoked}
use python_codebase.Tokens.History.{
  Step, begun, refreshed, ended, Reach, here, then, IsConsistent, IsSpent, appended, save_new,
  appended-IsConsistent, appended-IsSpent, marked, marked-IsConsistent, marked-IsSpent,
}

module _ (p : Platform) (settings : TokenSettings) (t : ℕ) where
  abbrev read_or : RefreshToken → Result (Option RefreshToken) → RefreshToken
  read_or d (ok (some x)) = x
  read_or d (ok none) = d
  read_or d (err e) = d

  -- A refresh that returns has found one session, and has written over it and begun another.
  refreshed-cases :
      (draw : Draw) (h : String) (m : UserSession) (pair : TokenPair) (db db' : SessionDb)
      → IsConsistent p settings t db
      → get_by_token_hash (some t) h db ≡ (ok (some (entity m)), db)
      → rotate p settings (some t) draw (entity m) db ≡ (ok pair, db')
      → (x : UserSession) × ((only : Only h x db.sessions) × (any
              (λ y. str_eq y.refresh_token_hash (next p settings draw x).token_hash)
              (written p settings draw x t db)
            ≡ false)
          × (db'
              ≡ appended p settings t
                  (next p settings draw x)
                  (record db { sessions = written p settings draw x t db })))
  refreshed-cases draw h m pair db db' c read ran = elim (get-cases (some t) h db c.0) [
    | inl absent ↦ cc (sym absent ∙ read)
    | inr (x, (only, found)) ↦
        let same : entity x ≡ entity m = ap (λ r. read_or (entity x) r.0) (sym found ∙ read) in
        let run : rotate p settings (some t) draw (entity x) db ≡ (ok pair, db') =
          ap (λ z. rotate p settings (some t) draw z db) same ∙ ran in
        elim (rotate-cases p settings draw x (some t) db) [
          | inl (e, (d, failed)) ↦ cc (sym failed ∙ run)
          | inr (t', equal, free, rotated_so) ↦
              let back : t' ≡ t = sym (ap (λ o. get_or o t) equal) in
              let wrote =
                subst
                  (λ k.
                    (any (λ y. str_eq y.refresh_token_hash (next p settings draw x).token_hash)
                        (written p settings draw x k db)
                      ≡ false)
                    × (db' ≡ rotated p settings draw x k db))
                  back (free, ap (λ r. r.1) (sym run ∙ rotated_so)) in
              (x, (only, wrote.0, wrote.1))
        ]
  ]

  Step-IsConsistent :
      {db db' : SessionDb}
      → Step p settings t db db'
      → IsConsistent p settings t db
      → IsConsistent p settings t db'
  unfolding revoke_by_user_id
  Step-IsConsistent (begun token db db' unsaved e) c =
      let (free, same) = save_new p settings t token db db' unsaved e in
      subst (IsConsistent p settings t) (sym same)
        (appended-IsConsistent p settings t token db free c)
  Step-IsConsistent (refreshed draw h m pair db db' read live ran) c =
      let (x, (only, free, same)) = refreshed-cases draw h m pair db db' c read ran in
      subst (IsConsistent p settings t) (sym same) (
        appended-IsConsistent p settings t (next p settings draw x)
          (marked p settings t draw h x db only) free
          (marked-IsConsistent p settings t draw h x db only c))
  Step-IsConsistent (ended k db) c =
      let keeps = Keeps-revoke_of (some t) k db.sessions in
      (
        HasUniqueKeys-map (revoke_of (some t) k) db.sessions keeps c.0,
        Below-map (revoke_of (some t) k) db.next_id db.sessions keeps c.1,
      )

  Step-IsSpent :
      (h : String) {db db' : SessionDb}
      → Step p settings t db db'
      → IsConsistent p settings t db
      → IsSpent p settings t h db
      → IsSpent p settings t h db'
  unfolding revoke_by_user_id
  Step-IsSpent h (begun token db db' unsaved e) c spent =
      let (free, same) = save_new p settings t token db db' unsaved e in
      subst (IsSpent p settings t h) (sym same)
        (appended-IsSpent p settings t token h db free spent)
  Step-IsSpent h (refreshed draw k m pair db db' read live ran) c spent =
      let (x, (only, free, same)) = refreshed-cases draw k m pair db db' c read ran in
      subst (IsSpent p settings t h) (sym same) (
        appended-IsSpent p settings t (next p settings draw x) h
          (marked p settings t draw k x db only) free
          (marked-IsSpent p settings t draw k x db only h spent))
  Step-IsSpent h (ended k db) c (m, only, gone, mine) = (
    revoke_of (some t) k m,
    with_hash-revoke (some t) k h db.sessions ∙ rw only refl,
    revoke_of_revoked (some t) k m gone,
    rw (tenant-revoke_of (some t) k m) mine,
  )

  Reach-IsSpent :
      (h : String) {db db' : SessionDb}
      → Reach p settings t db db'
      → IsConsistent p settings t db
      → IsSpent p settings t h db
      → IsConsistent p settings t db' × IsSpent p settings t h db'
  Reach-IsSpent h here c spent = (c, spent)
  Reach-IsSpent h (then before step) c spent =
      let (c1, spent1) = Reach-IsSpent h before c spent in
      (Step-IsConsistent step c1, Step-IsSpent h step c1 spent1)

  -- From consistent tables in which the session of a token is revoked, and after any history of
  -- logins, refreshes and logouts of the tenant, the tables are consistent, and a refresh with the
  -- token is refused as revoked and changes nothing.
  pub revoked_forever :
      (token : String) (draw : Draw) (db : SessionDb) (s : Session SessionDb)
      → IsConsistent p settings t db
      → IsSpent p settings t (p.sha256 token) db
      → Reach p settings t db s.working
      → is_blank token ≡ false
      → IsConsistent p settings t s.working
        × (refresh p settings (some t) token draw s
            ≡ (err (invalid_refresh_token "Refresh token has been revoked"), s))
  unfolding refresh
  revoked_forever token draw db s c spent run given =
      let (c', (m, only, gone, mine)) = Reach-IsSpent (p.sha256 token) run c spent in
      (c', rw (given, get_found (some t) (p.sha256 token) s.working m only mine, gone) refl)
