-- ===== src/Dashboard.antt =====
-- backend/app/services/dashboard_service.py: the counters, feeds and health of a workspace.
pub mod Tenant
mod Tests
use keel_be.Prelude.{
  ℕ, ◌+◌, String, Text, Bool, true, false, ◌&&◌, ◌||◌, not, Option, none, some, or_else, List, [],
  ◌∷◌, map, ◌==◌, leb, length, select, str_eq, take, if◌then◌else◌,
}
use keel_be.Models.Enums.{IngestionStatus, ConnectorStatus}
use keel_be.Models.Ingestion.{Document}
use keel_be.Models.Connector.{Connector}
use keel_be.Models.Chat.{ChatMessage}
use keel_be.Models.ApiKey.{ApiCallLog}

-- The tables that the dashboard reads.
pub record Tables (Score : Type 0) : Type 0 where
  pub documents : List Document
  pub connectors : List Connector
  pub messages : List (ChatMessage Score)
  pub call_logs : List ApiCallLog

pub record Metrics : Type 0 where
  pub documents_uploaded : ℕ
  pub sources_connected : ℕ
  pub documents_processed : ℕ
  pub chunks_generated : ℕ
  pub embeddings_created : ℕ
  pub ai_tags_generated : ℕ
  pub chat_queries_this_month : ℕ
  pub api_calls_this_month : ℕ

pub record ActivityEvent : Type 0 where
  pub document_id : ℕ
  pub document_name : Text
  pub status : IngestionStatus

pub record ConnectorSync : Type 0 where
  pub connector_id : ℕ
  pub connector_name : String
  pub last_synced_at : Option ℕ
  pub document_count : ℕ

-- The response; the parts of `PipelineHealth` that are constant are left out.
pub record Dashboard : Type 0 where
  pub metrics : Metrics
  pub recent_activity : List ActivityEvent
  pub recent_documents : List Document
  pub connector_sync : List ConnectorSync
  pub sources : String
  pub ingestion : String

abbrev pub is_completed : IngestionStatus → Bool
is_completed IngestionStatus.completed = true
is_completed _ = false

-- `_IN_PROGRESS`
abbrev pub in_progress : IngestionStatus → Bool
in_progress IngestionStatus.completed = false
in_progress IngestionStatus.failed = false
in_progress IngestionStatus.duplicate = false
in_progress _ = true

abbrev pub is_connected : ConnectorStatus → Bool
is_connected ConnectorStatus.connected = true
is_connected _ = false

-- `any(…)`
abbrev pub any {ℓ} : {A : Type ℓ} → (A → Bool) → List A → Bool
any p [] = false
any p (x ∷ xs) = p x || any p xs

-- `SUM` of a column, 0 for no rows.
abbrev pub sum_by {ℓ} : {A : Type ℓ} → (A → ℕ) → List A → ℕ
sum_by f [] = 0
sum_by f (x ∷ xs) = f x + sum_by f xs

abbrev pub connector_row : Connector → ConnectorSync
connector_row c = record {
  connector_id = c.id;
  connector_name = c.name;
  last_synced_at = c.last_synced_at;
  document_count = or_else c.last_sync_document_count 0;
}

abbrev pub activity : Document → ActivityEvent
activity d = record { document_id = d.id; document_name = d.name; status = d.ingestion_status }

module _ {Score : Type 0} (updated_first : List Document → List Document)
    (month_start workspace_id : ℕ) where
  abbrev pub own_documents : Tables Score → List Document
  own_documents t = select (λ d. d.workspace_id == workspace_id) t.documents

  abbrev pub own_connectors : Tables Score → List Connector
  own_connectors t = select (λ c. c.workspace_id == workspace_id) t.connectors

  -- `ORDER BY updated_at DESC LIMIT 20`
  abbrev pub recent_documents_of : Tables Score → List Document
  recent_documents_of t = take 20 (updated_first (own_documents t))

  abbrev pub connected_sources : Tables Score → List Connector
  connected_sources t =
      select (λ c. c.workspace_id == workspace_id && is_connected c.status) t.connectors

  unfoldable pub metrics_of : Tables Score → Metrics
  metrics_of t =
      let chunks = sum_by (λ (d : Document). or_else d.chunk_count 0) (own_documents t) in
      record {
        documents_uploaded = length (own_documents t);
        sources_connected = length (connected_sources t);
        documents_processed = length (
            select (λ d. d.workspace_id == workspace_id && is_completed d.ingestion_status)
              t.documents);
        chunks_generated = chunks;
        embeddings_created = chunks;
        ai_tags_generated = sum_by (λ (d : Document). length d.tags) (own_documents t);
        chat_queries_this_month = length (
            select
              (λ m.
                m.workspace_id == workspace_id
                && (str_eq m.role "user" && leb month_start m.created_at))
              t.messages);
        api_calls_this_month = length (
            select (λ l. l.workspace_id == workspace_id && leb month_start l.created_at)
              t.call_logs);
      }

  unfoldable pub build_dashboard : Tables Score → Dashboard
  unfolding metrics_of
  build_dashboard t =
      let recent = recent_documents_of t in
      record {
        metrics = metrics_of t;
        recent_activity = map activity recent;
        recent_documents = take 10 recent;
        connector_sync =
            map connector_row
              (select (λ (c : Connector). is_connected c.status) (own_connectors t));
        sources =
            if not (length (connected_sources t) == 0) || not (length (own_documents t) == 0)
            then "active"
            else "idle";
        ingestion =
            if any (λ (d : Document). in_progress d.ingestion_status) recent
            then "processing"
            else "idle";
      }
