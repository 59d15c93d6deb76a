-- ===== src/Core/Settings.antt =====
-- backend/app/core/config.py: the settings that the modelled code reads, with their defaults.
use keel_be.Prelude.{ℕ, String, ◌*◌}

pub record Settings : Type 0 where
  pub secret_key : String
  pub jwt_algorithm : String
  pub access_token_expire_minutes : ℕ
  pub refresh_token_expire_days : ℕ
  pub bcrypt_rounds : ℕ
  pub chat_model : String
  pub embedding_model : String
  pub embed_batch_size : ℕ
  pub embed_max_rpm : ℕ
  pub chat_top_k : ℕ
  pub context_max_tokens : ℕ
  pub max_upload_mb : ℕ
  pub login_max_attempts : ℕ
  pub lockout_min : ℕ

abbrev pub defaults : Settings
defaults = record {
  secret_key = "dev-only-change-me";
  jwt_algorithm = "HS256";
  access_token_expire_minutes = 15;
  refresh_token_expire_days = 30;
  bcrypt_rounds = 12;
  chat_model = "gpt-4o-mini";
  embedding_model = "text-embedding-3-small";
  embed_batch_size = 100;
  embed_max_rpm = 3000;
  chat_top_k = 10;
  context_max_tokens = 8000;
  max_upload_mb = 500;
  login_max_attempts = 10;
  lockout_min = 15;
}

-- The property of the same name.
unfoldable pub max_upload_bytes : Settings → ℕ
max_upload_bytes s = s.max_upload_mb * 1024 * 1024
