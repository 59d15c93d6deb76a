-- ===== src/Models/Enums.antt =====
-- The enumerations of backend/app/models/base.py.
use keel_be.Prelude.{Bool, true, false}

pub data Role : Type 0 where
  admin standard : Role

pub data SourceType : Type 0 where
  manual_upload google_drive onedrive api_push : SourceType

pub data IngestionStatus : Type 0 where
  queued processing parsing tagging chunking embedding entity_extraction : IngestionStatus
  graph_mapping finalizing completed failed duplicate : IngestionStatus

pub data EmbeddingStatus : Type 0 where
  pending in_progress completed failed : EmbeddingStatus

pub data ApiKeyScope : Type 0 where
  read_only read_write : ApiKeyScope

pub data ConnectorType : Type 0 where
  google_drive onedrive : ConnectorType

pub data ConnectorStatus : Type 0 where
  connected disconnected coming_soon : ConnectorStatus

abbrev pub is_admin_role : Role → Bool
is_admin_role Role.admin = true
is_admin_role Role.standard = false
