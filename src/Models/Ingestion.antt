-- ===== src/Models/Ingestion.antt =====
-- backend/app/models/document.py and ingestion.py: documents, their chunks, the jobs, the
-- dead-letter rows.
use keel_be.Prelude.{ℕ, String, Option, List, Text}
use keel_be.Prelude.Rows.{Keyed}
use keel_be.Models.Connector.{Connector, ConnectorCredential}
use keel_be.Models.Enums.{SourceType, IngestionStatus, EmbeddingStatus}

pub record DocMetadata : Type 0 where
  pub page_count : Option ℕ
  pub entities : Option ℕ

pub record Document : Type 0 where
  pub id : ℕ
  pub workspace_id : ℕ
  pub name : Text
  pub filename : Text
  pub file_type : Text
  pub mime_type : Option Text
  pub size_bytes : ℕ
  pub source_type : SourceType
  pub connector_id : Option ℕ
  pub external_document_id : Option Text
  pub storage_path : Option Text
  pub tags : List Text
  pub doc_metadata : DocMetadata
  pub ingestion_status : IngestionStatus
  pub current_step : Option String
  pub chunk_count : Option ℕ
  pub embedding_status : EmbeddingStatus
  pub content_hash : Option String
  pub uploaded_by_id : Option ℕ
  pub uploaded_by : String

pub record DocumentChunk : Type 0 where
  pub id : ℕ
  pub document_id : ℕ
  pub workspace_id : ℕ
  pub chunk_index : ℕ
  pub chunk_text : Text
  pub token_count : ℕ
  pub section_ref : Option Text
  pub source_type : SourceType

pub record IngestionJob : Type 0 where
  pub id : ℕ
  pub document_id : ℕ
  pub workspace_id : ℕ
  pub status : IngestionStatus
  pub current_step : String
  pub steps_completed : ℕ
  pub steps_total : ℕ
  pub error : Option String
  pub completed_at : Option ℕ

pub record IngestionError : Type 0 where
  pub document_id : ℕ
  pub workspace_id : ℕ
  pub step_failed : String
  pub error_type : String
  pub error_message : String
  pub retry_count : ℕ

instance abbrev pub document_key : Keyed Document
document_key = record { key = λ r. r.id }

instance abbrev pub chunk_key : Keyed DocumentChunk
chunk_key = record { key = λ r. r.id }

instance abbrev pub job_key : Keyed IngestionJob
job_key = record { key = λ r. r.id }

-- The tables of ingestion and of the connectors, each with its oldest row first.
pub record IngestionDb : Type 0 where
  pub documents : List Document
  pub chunks : List DocumentChunk
  pub jobs : List IngestionJob
  pub errors : List IngestionError
  pub connectors : List Connector
  pub credentials : List ConnectorCredential
