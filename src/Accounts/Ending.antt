-- ===== src/Accounts/Ending.antt =====
-- What a logout ends, and the revocation of an access token.
use Prim.Native.Char.{Char}
use python_codebase.Prelude.{
  zero, ◌≤◌, arith, ℕ, suc, ◌+◌, ◌*◌, ◌<◌, ◌≡◌, refl, String, false, Option, none, inl, inr,
  Bool-cases, Option-cases, is_blank,
}
use python_codebase.Result.{Error, err}
use python_codebase.Session.{Session, transaction}
use python_codebase.Session.Atomicity.{transaction-fails}
use python_codebase.Accounts.{Driver}
use python_codebase.Accounts.Logout.{LogoutUserCommand, revoke_sessions, logout}
use python_codebase.Tokens.{
  Claims, SessionDb, TokenSettings, Platform, AcceptsOwnToken, seconds, claims, create_access_token,
  decode_token, require_token_type,
}
use python_codebase.Tokens.Revocation.{
  Redis, KeepsKeys, time_to_live, time_to_live_within, key, set_key, by_claims, revoke_access_token,
  is_access_token_revoked, authenticate_jwt,
}

module _ {R : Type 0} (redis : Redis R) (p : Platform) (settings : TokenSettings) where
  set_key_lem :
      (jti : String) (n now : ℕ) (r : R)
      → 0 < n
      → set_key redis p settings jti n now r ≡ redis.setex (key jti) n "1" now r
  set_key_lem jti zero now r h = ground arith
  set_key_lem jti (suc n) now r h = refl

  by_claims_lem :
      (first : Char) (rest : String) (exp now : ℕ) (r : R)
      → 0 < time_to_live exp now
      → by_claims redis p settings (String.◌∷◌ first rest) exp now r
        ≡ redis.setex (key (String.◌∷◌ first rest)) (time_to_live exp now) "1" now r
  by_claims_lem first rest zero now r h =
      let over : time_to_live 0 now ≡ 0 = unfold time_to_live in omega arith in ground (arith, over)
  by_claims_lem first rest (suc e) now r h =
      set_key_lem (String.◌∷◌ first rest) (time_to_live (suc e) now) now r h

  -- The claims of an access token.
  abbrev pub access_claims : String → ℕ → String → Claims
  access_claims sub start jti =
      claims p settings sub "access" settings.access_token_expire_minutes start jti

  -- An access token that `create_access_token` made is refused from its revocation on, until the
  -- time to live of the key is over. What is relied on: `jwt.decode` accepts what `jwt.encode`
  -- signed, and Redis keeps a key for its time.
  pub revoked_token_refused :
      (sub : String) (first : Char) (rest : String) (start now later : ℕ) (r : R)
      → KeepsKeys redis
      → AcceptsOwnToken p (access_claims sub start (String.◌∷◌ first rest))
      → seconds start ≤ seconds now
      → now ≤ later
      → later
        < now + time_to_live (access_claims sub start (String.◌∷◌ first rest)).exp now * 1000000
      → let token = create_access_token p settings sub start (String.◌∷◌ first rest) in
        authenticate_jwt redis p settings token later
          (revoke_access_token redis p settings token now r)
        ≡ none
  unfolding authenticate_jwt revoke_access_token is_access_token_revoked decode_token
      create_access_token require_token_type
  revoked_token_refused sub first rest start now later r keeps accepts begun order early =
      let c = access_claims sub start (String.◌∷◌ first rest) in
      let ttl = time_to_live c.exp now in
      let bounds : now + ttl * 1000000 ≤ c.exp * 1000000 =
        time_to_live_within c.exp now (omega arith) in
      let decoded_now = accepts settings.secret_key (seconds now) begun (omega arith) in
      let decoded_later = accepts settings.secret_key (seconds later) (omega arith) (omega arith) in
      rw
        (
          decoded_later,
          decoded_now,
          by_claims_lem first rest c.exp now r (omega arith),
          keeps (key (String.◌∷◌ first rest)) "1" ttl now later r early,
        )
        refl

module _ {R : Type 0} (redis : Redis R) (p : Platform) (settings : TokenSettings) (driver : Driver)
    (to_int : String → Option ℕ) (t : Option ℕ) (command : LogoutUserCommand) (e : Error) where
  block_fails :
      (s : Session SessionDb)
      → driver.text_as_integer command.user_id ≡ err e
      → transaction (revoke_sessions redis p settings driver to_int t command) s
        ≡ (err e, record { committed = s.committed; working = s.committed; is_committed = false })
  unfolding revoke_sessions
  block_fails s refused =
      transaction-fails (revoke_sessions redis p settings driver to_int t command) s e
        (rw refused refl)

  -- Where the driver refuses the text of the user id for the integer column, as asyncpg does, no
  -- logout returns, whatever its command: the sessions are left as they were committed, and no
  -- access token is revoked.
  pub logout_blocked :
      (now : ℕ) (s : Session SessionDb) (r : R)
      → driver.text_as_integer command.user_id ≡ err e
      → let (result, s', r') = logout redis p settings driver to_int t command now (s, r) in
        ((x : Error) × (result ≡ err x)) × (s'.committed ≡ s.committed) × (r' ≡ r)
  unfolding logout
  logout_blocked now s r refused = elim (Option-cases (to_int command.user_id)) [
    | inl none_read ↦ rw none_read ((_, refl), refl, refl)
    | inr (k, number) ↦ elim (Bool-cases (is_blank command.access_token)) [
      | inl blank ↦ rw (number, blank) ((_, refl), refl, refl)
      | inr given ↦ rw (number, given, block_fails s refused) ((e, refl), refl, refl)
    ]
  ]
