-- ===== src/ApiKeys.antt =====
-- API keys: src/modules/api_key/application/service.py over
-- src/modules/api_key/infrastructure/repository.py, and `ApiKeyAuthProvider`
-- (src/core/security/providers.py). The permissions, which the repository writes as JSON and reads
-- back, are a list. `sha256` is hashlib's; the text of a new key is drawn outside.
pub mod Lifecycle
mod Tests
use Prim.Native.String.{◌++◌ as append}
use python_codebase.Prelude.{
  ℕ, zero, suc, ◌≤◌, String, Bool, true, false, not, ◌&&◌, ◌||◌, Option, none, some, List, [], ◌∷◌,
  ◌++◌, map, filter, length, take, drop, ltb, leb, ◌==◌, str_eq, is_some, after_prefix, first_chars,
  if◌then◌else◌,
}
use python_codebase.Result.{Result, ok, err, scalar_one_or_none, data_error}
use python_codebase.State.{pure, from_result, gets, modify, raise_if, ◌>>=◌, ◌>>◌}
use python_codebase.Session.{Query}
use python_codebase.Sql.{in_tenant, tenant_column}
use python_codebase.Tokens.Revocation.{Identity}

pub record ApiKey : Type 0 where
  pub id : Option ℕ
  pub key_prefix : String
  pub key_hash : String
  pub name : String
  pub permissions : List String
  pub expires_at : Option ℕ
  pub is_active : Bool
  pub created_at : Option ℕ
  pub last_used_at : Option ℕ

pub record ApiKeyModel : Type 0 where
  pub id : ℕ
  pub key_prefix : String
  pub key_hash : String
  pub name : String
  pub permissions : List String
  pub expires_at : Option ℕ
  pub is_active : Bool
  pub created_at : ℕ
  pub last_used_at : Option ℕ
  pub tenant_id : ℕ

-- The table, its key sequence and the server's clock.
pub record ApiKeyDb : Type 0 where
  pub keys : List ApiKeyModel
  pub next_id : ℕ
  pub now : ℕ

-- `_to_entity`
abbrev pub to_entity : ApiKeyModel → ApiKey
to_entity m = record {
  id = some m.id;
  key_prefix = m.key_prefix;
  key_hash = m.key_hash;
  name = m.name;
  permissions = m.permissions;
  expires_at = m.expires_at;
  is_active = m.is_active;
  created_at = some m.created_at;
  last_used_at = m.last_used_at;
}

abbrev to_entity? : Option ApiKeyModel → Option ApiKey
to_entity? none = none
to_entity? (some m) = some (to_entity m)

-- `.order_by(created_at.desc())`: a row goes before the first that is not newer
abbrev insert_newest : ApiKeyModel → List ApiKeyModel → List ApiKeyModel
insert_newest m [] = m ∷ []
insert_newest m (x ∷ xs) =
    let rest = insert_newest m xs in if ltb m.created_at x.created_at then x ∷ rest else m ∷ x ∷ xs

abbrev newest_first : List ApiKeyModel → List ApiKeyModel
newest_first [] = []
newest_first (m ∷ ms) = insert_newest m (newest_first ms)

-- Does a text column of this many characters take the text? The database's own check.
abbrev pub FitsColumn : Type 0
FitsColumn = ℕ → String → Bool

module _ (tenant_id : Option ℕ) where
  -- `create`, with the lengths of src/modules/api_key/infrastructure/models.py
  unfoldable pub create : FitsColumn → ApiKey → Query ApiKeyDb ApiKey
  create fits api_key = do
    tenant ← from_result (tenant_column tenant_id)
    raise_if (not (fits 8 api_key.key_prefix && fits 128 api_key.key_hash && fits 255 api_key.name))
        data_error
    k ← gets (λ db. db.next_id)
    modify (λ db. record db {
      keys =
          db.keys
          ++ record {
            id = db.next_id;
            key_prefix = api_key.key_prefix;
            key_hash = api_key.key_hash;
            name = api_key.name;
            permissions = api_key.permissions;
            expires_at = api_key.expires_at;
            is_active = api_key.is_active;
            created_at = db.now;
            last_used_at = none;
            tenant_id = tenant;
          }
            ∷ [];
      next_id = suc db.next_id;
    })
    pure (record api_key { id = some k })

  unfoldable pub get_by_id : ℕ → Query ApiKeyDb (Option ApiKey)
  get_by_id id = do
    models ← gets (λ db. filter (λ m. m.id == id && in_tenant tenant_id m.tenant_id) db.keys)
    model ← from_result (scalar_one_or_none models)
    pure (to_entity? model)

  unfoldable pub get_by_key_hash : String → Query ApiKeyDb (Option ApiKey)
  get_by_key_hash key_hash = do
    models ←
        gets (λ db.
          filter (λ m. str_eq m.key_hash key_hash && in_tenant tenant_id m.tenant_id) db.keys)
    model ← from_result (scalar_one_or_none models)
    pure (to_entity? model)

  -- `list`
  unfoldable pub list_keys : ℕ → ℕ → Query ApiKeyDb (List ApiKey)
  list_keys skip limit = gets (λ db. map to_entity (
      take limit
        (drop skip (newest_first (filter (λ m. in_tenant tenant_id m.tenant_id) db.keys)))))

  -- `count`
  unfoldable pub count_keys : Query ApiKeyDb ℕ
  count_keys = gets (λ db. length (filter (λ m. in_tenant tenant_id m.tenant_id) db.keys))

-- `revoke` and `update_last_used` ask for the row by its key alone.
abbrev pub revoke_row : ℕ → ApiKeyModel → ApiKeyModel
revoke_row id m = if m.id == id then record m { is_active = false } else m

unfoldable pub revoke : ℕ → Query ApiKeyDb (Unit {0})
revoke id = modify (λ db. record db { keys = map (revoke_row id) db.keys })

abbrev pub touch_row : ℕ → ℕ → ApiKeyModel → ApiKeyModel
touch_row id now m = if m.id == id then record m { last_used_at = some now } else m

unfoldable pub update_last_used : ℕ → ℕ → Query ApiKeyDb (Unit {0})
update_last_used id now = modify (λ db. record db { keys = map (touch_row id now) db.keys })

abbrev pub is_over : Option ℕ → ℕ → Bool
is_over none now = false
is_over (some t) now = ltb t now

module _ (sha256 : String → String) (tenant_id : Option ℕ) where
  -- The key that `generate` makes of the drawn text.
  abbrev pub raw_key : String → String
  raw_key drawn = append "api_" drawn

  -- `generate`
  unfoldable pub generate :
      FitsColumn → String → List String → Option ℕ → String → Query ApiKeyDb (ApiKey × String)
  generate fits name permissions expires_at drawn = do
    api_key ← create tenant_id fits (record {
      id = none;
      key_prefix = first_chars 12 (raw_key drawn);
      key_hash = sha256 (raw_key drawn);
      name = name;
      permissions = permissions;
      expires_at = expires_at;
      is_active = true;
      created_at = none;
      last_used_at = none;
    })
    pure (api_key, raw_key drawn)

  abbrev touch : Option ℕ → ℕ → Query ApiKeyDb (Unit {0})
  touch none now = pure tt
  touch (some id) now = update_last_used id now

  abbrev accept : Option ApiKey → ℕ → Query ApiKeyDb (Option ApiKey)
  accept none now = pure none
  accept (some api_key) now =
      if not api_key.is_active || is_over api_key.expires_at now
      then pure none
      else (do touch api_key.id now; pure (some api_key))

  abbrev by_prefix : Bool → String → ℕ → Query ApiKeyDb (Option ApiKey)
  by_prefix false key now = pure none
  by_prefix true key now = do api_key ← get_by_key_hash tenant_id (sha256 key); accept api_key now

  -- `validate`
  unfoldable pub validate : String → ℕ → Query ApiKeyDb (Option ApiKey)
  validate key = by_prefix (is_some (after_prefix "api_" key)) key

  abbrev text_of : (ℕ → String) → Option ℕ → String
  text_of str none = "None"
  text_of str (some k) = str k

  -- `ApiKeyAuthProvider.authenticate`: the identity has the id of the key, not of a user.
  unfoldable pub authenticate_key : (ℕ → String) → String → ℕ → Query ApiKeyDb (Option Identity)
  authenticate_key str token now = do
    found ← validate token now
    elim found [
      | none ↦ pure none
      | some api_key ↦
          pure (some (record { user_id = text_of str api_key.id; provider = "api_key" }))
    ]
