-- ===== src/Models/Connector.antt =====
-- backend/app/models/connector.py: the connectors of a workspace and their credentials.
use keel_be.Prelude.{ℕ, String, Option, Text}
use keel_be.Prelude.Rows.{Keyed}
use keel_be.Models.Enums.{ConnectorType, ConnectorStatus}

-- The column `type` is named `kind`.
pub record Connector : Type 0 where
  pub id : ℕ
  pub workspace_id : ℕ
  pub kind : ConnectorType
  pub name : String
  pub status : ConnectorStatus
  pub last_synced_at : Option ℕ
  pub last_sync_document_count : Option ℕ

pub record ConnectorCredential : Type 0 where
  pub id : ℕ
  pub connector_id : ℕ
  pub encrypted_refresh_token : Option Text
  pub scopes : Option Text

instance abbrev pub connector_key : Keyed Connector
connector_key = record { key = λ r. r.id }

instance abbrev pub credential_key : Keyed ConnectorCredential
credential_key = record { key = λ r. r.id }
