-- ===== src/Settings/Tests.antt =====
-- Settings of a production server.
use mathlib.Core.Path.{◌≡◌, refl}
use python_codebase.Prelude.{◌↔◌}
use python_codebase.Result.{ok}
use python_codebase.Settings.{
  Settings, pos, negsuc, validate_production_security, IsSecure, production_accepted_iff,
}

-- A refresh token would end a minute before it starts.
abbrev live : Settings
live = record {
  app_env = "Production";
  database_url = "postgresql+asyncpg://db/app";
  redis_url = "redis://cache";
  secret_key = "own";
  jwt_issuer = "app";
  jwt_audience = "app";
  access_token_expire_minutes = pos 30;
  refresh_token_expire_minutes = negsuc 0;
  cors_allow_origins = "https://example.org, *";
}

production_accepted_iff_example : (validate_production_security live ≡ ok live) ↔ IsSecure live
production_accepted_iff_example = production_accepted_iff live refl
