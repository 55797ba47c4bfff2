-- ===== src/Tokens/Rotation.antt =====
-- A refresh token works once: the refresh handler on every branch.
use python_codebase.Prelude.{
  ℕ, ◌+◌, ◌≡◌, refl, String, true, false, Option, some, [], ◌∷◌, inl, inr, str_eq, ltb, is_blank,
  Bool-cases,
}
use python_codebase.Result.{Result, ok, err, invalid_refresh_token}
use python_codebase.Session.{Session, transaction}
use python_codebase.Session.Atomicity.{transaction_lem}
use python_codebase.Lockout.{minutes}
use python_codebase.Sql.{in_tenant_own}
use python_codebase.Tokens.{
  Claims, TokenSettings, Platform, UserSession, SessionDb, entity, row, get_by_token_hash,
}
use python_codebase.Tokens.Refresh.{TokenPair, Draw, refresh_payload, rotate, refresh}
use python_codebase.Tokens.Sessions.{with_hash, HasUniqueKeys, Only}
use python_codebase.Tokens.Rotating.{
  get_found, get-cases, Result-cases, next, rotated, rotate-cases, old_rotated, new_rotated,
}

module _ (p : Platform) (settings : TokenSettings) (t : Option ℕ) (token : String)
    (draw again : Draw) (s : Session SessionDb) where
  -- What a refresh leaves, by how it ended. Where it raises, nothing is committed. Where it
  -- returns, the token's session was stored, was not revoked and had not expired, the token's
  -- payload is a refresh token's of the session's user, any further refresh with the same token is
  -- refused as revoked, and the new token has a session of the same user that is not revoked and
  -- that ends at the time the settings say.
  abbrev pub Refreshed : Result TokenPair × Session SessionDb → Type 0
  Refreshed (err e, s') = s'.committed ≡ s.committed
  Refreshed (ok pair, s') =
      (m : UserSession) × (get_by_token_hash t (p.sha256 token) s.working
        ≡ (ok (some (entity m)), s.working))
      × (m.is_revoked ≡ false)
      × (ltb m.expires_at draw.now ≡ false)
      × ((payload : Claims) × (refresh_payload p settings token draw.now ≡ ok payload)
          × (str_eq payload.sub (p.str m.user_id) ≡ true))
      × ((refresh p settings t token again s').0
          ≡ err (invalid_refresh_token "Refresh token has been revoked"))
      × (get_by_token_hash t (p.sha256 pair.refresh_token) s'.committed ≡ (
        ok (
            some (record {
              id = some s.working.next_id;
              user_id = m.user_id;
              token_hash = p.sha256 pair.refresh_token;
              expires_at = draw.now + minutes settings.refresh_token_expire_minutes;
              is_revoked = false;
            })),
        s'.committed,
      ))

  replay :
      (m : UserSession) (t' : ℕ) (s' : Session SessionDb)
      → t ≡ some t'
      → is_blank token ≡ false
      → with_hash (p.sha256 token) s'.working.sessions
        ≡ record m { is_revoked = true; tenant_id = t' } ∷ []
      → (refresh p settings t token again s').0
        ≡ err (invalid_refresh_token "Refresh token has been revoked")
  unfolding refresh
  replay m t' s' own filled e =
      rw
        (
          filled,
          get_found t (p.sha256 token) s'.working (record m { is_revoked = true; tenant_id = t' }) e
              (rw own (in_tenant_own t')),
        )
        refl

  commit_rotation :
      (m : UserSession) (payload : Claims)
      → is_blank token ≡ false
      → Only (p.sha256 token) m s.working.sessions
      → get_by_token_hash t (p.sha256 token) s.working ≡ (ok (some (entity m)), s.working)
      → m.is_revoked ≡ false
      → ltb m.expires_at draw.now ≡ false
      → refresh_payload p settings token draw.now ≡ ok payload
      → str_eq payload.sub (p.str m.user_id) ≡ true
      → Refreshed (transaction (rotate p settings t draw (entity m)) s)
  commit_rotation m payload filled only read live unexpired valid sub =
      elim (rotate-cases p settings draw m t s.working) [
        | inl (e, (d, fails)) ↦
            rw (transaction_lem (rotate p settings t draw (entity m)) s, fails) refl
        | inr (t', own, fresh, done) ↦
            let after = rotated p settings draw m t' s.working in
            rw (transaction_lem (rotate p settings t draw (entity m)) s, done)
              (
                m,
                read,
                live,
                unexpired,
                (payload, valid, sub),
                replay m t' (record { committed = after; working = after; is_committed = true }) own
                    filled (old_rotated p settings draw m t' (p.sha256 token) s.working only fresh),
                get_found t (next p settings draw m).token_hash after
                    (row (next p settings draw m) t' s.working.next_id)
                    (new_rotated p settings draw m t' (p.sha256 token) s.working only fresh)
                    (rw own (in_tenant_own t')),
              )
      ]

  -- With unique keys and hashes, a refresh token works once: a refresh commits nothing, or it
  -- checks the token, ends its session and begins another of the same user.
  pub refresh-Refreshed :
      HasUniqueKeys s.working.sessions → Refreshed (refresh p settings t token draw s)
  unfolding refresh rotate
  refresh-Refreshed u = elim (Bool-cases (is_blank token)) [
    | inl blank ↦ rw blank refl
    | inr filled ↦ elim (get-cases t (p.sha256 token) s.working u) [
      | inl missing ↦ rw (filled, missing) refl
      | inr (m, found) ↦ elim (Bool-cases m.is_revoked) [
        | inl dead ↦ rw (filled, found.1, dead) refl
        | inr live ↦ elim (Bool-cases (ltb m.expires_at draw.now)) [
          | inl late ↦ rw (filled, found.1, live, late) refl
          | inr unexpired ↦ elim (Result-cases (refresh_payload p settings token draw.now)) [
            | inr (e, invalid) ↦ rw (filled, found.1, live, unexpired, invalid) refl
            | inl (payload, valid) ↦ elim (Bool-cases (str_eq payload.sub (p.str m.user_id))) [
              | inr foreign ↦ rw (filled, found.1, live, unexpired, valid, foreign) refl
              | inl sub ↦
                  rw (filled, found.1, live, unexpired, valid, sub)
                    (commit_rotation m payload filled found.0 found.1 live unexpired valid sub)
            ]
          ]
        ]
      ]
    ]
  ]
