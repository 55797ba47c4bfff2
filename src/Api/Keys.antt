-- ===== src/Api/Keys.antt =====
-- The routes of src/modules/api_key/presentation/routers.py. They have no unit of work, and nothing
-- commits their session.
use python_codebase.Prelude.{ℕ, String, Bool, Option, none, some, List}
use python_codebase.Result.{Result, ok, err, http_error, validation_error}
use python_codebase.State.{pure, from_result, or_raise, ◌>>=◌, ◌>>◌}
use python_codebase.Session.{Exec, lift}
use python_codebase.ApiKeys.{ApiKey, generate, list_keys, count_keys, get_by_id, revoke}
use python_codebase.Middleware.{Request}
use python_codebase.Api.{AppDb, Context, in_api_keys, get_current_tenant_id}
use python_codebase.Api.Pages.{collect}

-- `CreateApiKeyRequest`
pub record CreateApiKeyRequest : Type 0 where
  pub name : String
  pub permissions : List String
  pub expires_at : Option ℕ

-- `ApiKeyCreatedResponse`
pub record ApiKeyCreatedResponse : Type 0 where
  pub id : ℕ
  pub name : String
  pub key_prefix : String
  pub key : String
  pub expires_at : Option ℕ
  pub created_at : ℕ

-- `ApiKeyResponse`
pub record ApiKeyResponse : Type 0 where
  pub id : ℕ
  pub key_prefix : String
  pub name : String
  pub permissions : List String
  pub expires_at : Option ℕ
  pub is_active : Bool
  pub created_at : ℕ
  pub last_used_at : Option ℕ

-- `ApiKeyListResponse`
pub record ApiKeyListResponse : Type 0 where
  pub items : List ApiKeyResponse
  pub total : ℕ

abbrev created_response : ApiKey → String → Option ℕ → Option ℕ → Result ApiKeyCreatedResponse
created_response api_key raw (some k) (some at) = ok (record {
  id = k;
  name = api_key.name;
  key_prefix = api_key.key_prefix;
  key = raw;
  expires_at = api_key.expires_at;
  created_at = at;
})
created_response api_key raw none at = err validation_error
created_response api_key raw (some k) none = err validation_error

abbrev complete_key : ApiKey → Option ℕ → Option ℕ → Result ApiKeyResponse
complete_key k (some id) (some at) = ok (record {
  id = id;
  key_prefix = k.key_prefix;
  name = k.name;
  permissions = k.permissions;
  expires_at = k.expires_at;
  is_active = k.is_active;
  created_at = at;
  last_used_at = k.last_used_at;
})
complete_key k none at = err validation_error
complete_key k (some id) none = err validation_error

abbrev pub key_response : ApiKey → Result ApiKeyResponse
key_response k = complete_key k k.id k.created_at

module _ (c : Context) where
  -- `create_api_key`; the key's text is drawn outside
  unfoldable pub post_api_key :
      CreateApiKeyRequest → String → Request → Exec AppDb ApiKeyCreatedResponse
  post_api_key body drawn request = do
    tenant_id ← get_current_tenant_id request
    made ← in_api_keys (
        lift (
          generate c.platform.sha256 (some tenant_id) c.fits body.name body.permissions
            body.expires_at drawn))
    from_result (created_response made.0 made.1 made.0.id made.0.created_at)

  -- `list_api_keys`
  unfoldable pub list_api_keys : ℕ → ℕ → Request → Exec AppDb ApiKeyListResponse
  list_api_keys skip limit request = do
    tenant_id ← get_current_tenant_id request
    found ← in_api_keys (lift (list_keys (some tenant_id) skip limit))
    total ← in_api_keys (lift (count_keys (some tenant_id)))
    items ← from_result (collect key_response found)
    pure (record { items = items; total = total })

  -- `revoke_api_key`
  unfoldable pub revoke_api_key : ℕ → Request → Exec AppDb (Unit {0})
  revoke_api_key api_key_id request = do
    tenant_id ← get_current_tenant_id request
    existing ← in_api_keys (lift (get_by_id (some tenant_id) api_key_id))
    or_raise existing (http_error 404 "API key not found")
    in_api_keys (lift (revoke api_key_id))
