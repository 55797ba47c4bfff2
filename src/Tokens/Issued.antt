-- ===== src/Tokens/Issued.antt =====
-- A refresh token from its issue to its first use.
use text.Mathlib.TextPositions.{eq_refl}
use python_codebase.Prelude.{
  ℕ, ◌+◌, ◌≤◌, ◌<◌, ◌≡◌, refl, ap, ◌∙◌, String, true, false, not, ◌&&◌, some, List, [], ◌∷◌, inl,
  inr, any, ◌==◌, str_eq, ltb, is_blank, arith, Bool-cases,
}
use python_codebase.Result.{Result, ok, err}
use python_codebase.Lockout.{minutes}
use python_codebase.Session.{Session, Query, transaction}
use python_codebase.Session.Atomicity.{transaction_lem, outcome}
use python_codebase.Sql.{in_tenant, tenant_column}
use python_codebase.Tokens.{
  TokenSettings, Platform, AcceptsOwnToken, UserSession, SessionDb, entity, seconds, claims,
  create_refresh_token, decode_token, require_token_type, insert, overwrite_row, save,
}
use python_codebase.Tokens.Refresh.{Draw, refresh_payload, rotate, refresh}
use python_codebase.Tokens.Sessions.{with_hash, cons-injective, hash-with_hash}
use python_codebase.Tokens.Rotating.{get_found, issued, written, next}

module _ (p : Platform) (settings : TokenSettings) where
  -- The token's own claims come back, from its issue to its end.
  payload-create_refresh_token :
      (sub jti : String) (start now : ℕ)
      → AcceptsOwnToken p
          (claims p settings sub "refresh" settings.refresh_token_expire_minutes start jti)
      → seconds start ≤ seconds now
      → seconds now < seconds (start + minutes settings.refresh_token_expire_minutes)
      → refresh_payload p settings (create_refresh_token p settings sub start jti) now
        ≡ ok (claims p settings sub "refresh" settings.refresh_token_expire_minutes start jti)
  unfolding refresh_payload decode_token create_refresh_token require_token_type
  payload-create_refresh_token sub jti start now accepts begun ended =
      rw (accepts settings.secret_key (seconds now) begun ended) refl

clash-none :
    (h : String) (k : ℕ) (ms : List UserSession)
    → with_hash h ms ≡ []
    → any (λ x. not (x.id == k) && str_eq x.refresh_token_hash h) ms ≡ false
clash-none h k [] e = refl
clash-none h k (x ∷ ms) e = elim (Bool-cases (str_eq x.refresh_token_hash h)) [
  | inl y ↦ cc (rw y at e)
  | inr n ↦ ground (arith, n, clash-none h k ms (rw n at e))
]

clash-only :
    (h : String) (m : UserSession) (ms : List UserSession)
    → with_hash h ms ≡ m ∷ []
    → any (λ x. not (x.id == m.id) && str_eq x.refresh_token_hash h) ms ≡ false
clash-only h m [] e = refl
clash-only h m (x ∷ ms) e = elim (Bool-cases (str_eq x.refresh_token_hash h)) [
  | inl y ↦
      let first : x ≡ m = cons-injective x m (with_hash h ms) [] (rw y at e) in
      let rest : with_hash h ms ≡ [] = ground (arith, rw y at e) in
      ground (arith, ap (λ (z : UserSession). z.id) first, clash-none h m.id ms rest)
  | inr n ↦ ground (arith, n, clash-only h m ms (rw n at e))
]

rotate_returns :
    (p : Platform) (settings : TokenSettings) (t : ℕ) (draw : Draw) (m : UserSession) (h : String)
    (db : SessionDb)
    → with_hash h db.sessions ≡ m ∷ []
    → any
        (λ x. str_eq x.refresh_token_hash (next p settings draw m).token_hash)
        (written p settings draw m t db)
      ≡ false
    → (rotate p settings (some t) draw (entity m) db).0 ≡ ok (issued p settings draw m)
unfolding rotate save insert overwrite_row tenant_column
rotate_returns p settings t draw m h db only fresh =
    let clash : any (λ x. not (x.id == m.id) && str_eq x.refresh_token_hash m.refresh_token_hash)
          db.sessions
        ≡ false =
      ap (λ z. any (λ x. not (x.id == m.id) && str_eq x.refresh_token_hash z) db.sessions)
        (hash-with_hash h db.sessions m [] only)
      ∙ clash-only h m db.sessions only in
    rw (clash, fresh) refl

outcome-ok :
    {D A : Type 0} (s : Session D) (r : Result A × D) (a : A) → r.0 ≡ ok a → (outcome s r).0 ≡ ok a
outcome-ok s (ok b, d) a e = e
outcome-ok s (err b, d) a e = e

ok-transaction :
    {D A : Type 0} (q : Query D A) (s : Session D) (a : A)
    → (q s.working).0 ≡ ok a
    → (transaction q s).0 ≡ ok a
ok-transaction q s a e = rw (transaction_lem q s) (outcome-ok s (q s.working) a e)

module _ (p : Platform) (settings : TokenSettings) (t : ℕ) (jti : String) (start : ℕ) (draw : Draw)
    (m : UserSession) (s : Session SessionDb) where
  -- The token of the session.
  abbrev pub token : String
  token = create_refresh_token p settings (p.str m.user_id) start jti

  -- A refresh token that `create_refresh_token` made for a user at a time, whose session is the one
  -- row with its hash, of the tenant, not revoked and not expired, is accepted from its issue to
  -- its end, and the handler returns the new pair, unless the new token's hash is in the table
  -- already. What is relied on: `jwt.decode` accepts what `jwt.encode` signed.
  pub refresh_returns :
      AcceptsOwnToken p (
        claims p settings
          (p.str m.user_id)
          "refresh"
          settings.refresh_token_expire_minutes
          start
          jti)
      → seconds start ≤ seconds draw.now
      → seconds draw.now < seconds (start + minutes settings.refresh_token_expire_minutes)
      → is_blank token ≡ false
      → with_hash (p.sha256 token) s.working.sessions ≡ m ∷ []
      → in_tenant (some t) m.tenant_id ≡ true
      → m.is_revoked ≡ false
      → draw.now ≤ m.expires_at
      → any
          (λ x. str_eq x.refresh_token_hash (next p settings draw m).token_hash)
          (written p settings draw m t s.working)
        ≡ false
      → (refresh p settings (some t) token draw s).0 ≡ ok (issued p settings draw m)
  unfolding refresh rotate
  refresh_returns accepts begun ended filled only mine live unexpired fresh =
      let early : ltb m.expires_at draw.now ≡ false = ground arith in
      rw
        (
          filled,
          get_found (some t) (p.sha256 token) s.working m only mine,
          live,
          early,
          payload-create_refresh_token p settings (p.str m.user_id) jti start draw.now accepts begun
              ended,
          eq_refl (p.str m.user_id),
        )
        (ok-transaction (rotate p settings (some t) draw (entity m)) s (issued p settings draw m)
          (rotate_returns p settings t draw m (p.sha256 token) s.working only fresh))
