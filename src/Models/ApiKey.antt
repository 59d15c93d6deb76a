-- ===== src/Models/ApiKey.antt =====
-- backend/app/models/api_key.py: workspace API keys, of which only the hash is stored.
use keel_be.Prelude.{ℕ, String, Bool, Option}
use keel_be.Prelude.Rows.{Keyed}
use keel_be.Models.Enums.{ApiKeyScope}

pub record ApiKey : Type 0 where
  pub id : ℕ
  pub workspace_id : ℕ
  pub name : String
  pub key_prefix : String
  pub key_hash : String
  pub scope : ApiKeyScope
  pub rate_limit_per_minute : ℕ
  pub last_used_at : Option ℕ
  pub request_count : ℕ
  pub revoked : Bool
  pub created_by_id : Option ℕ

pub record ApiCallLog : Type 0 where
  pub workspace_id : ℕ
  pub endpoint : String
  pub api_key_id : Option ℕ
  pub created_at : ℕ

instance abbrev pub api_key_key : Keyed ApiKey
api_key_key = record { key = λ r. r.id }
