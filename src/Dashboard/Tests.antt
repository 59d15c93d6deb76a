-- ===== src/Dashboard/Tests.antt =====
-- The dashboard of a workspace with one connector, beside a connector of another.
use keel_be.Prelude.{ℕ, ◌≡◌, ◌≤◌, none, some, [], ◌∷◌, length}
use keel_be.Models.Enums.{ConnectorType, ConnectorStatus}
use keel_be.Models.Connector.{Connector}
use keel_be.Dashboard.{Tables, build_dashboard}
use keel_be.Dashboard.Tenant.{own, build_dashboard-own}

abbrev drive : ℕ → ℕ → Connector
drive id workspace_id = record {
  id = id;
  workspace_id = workspace_id;
  kind = ConnectorType.google_drive;
  name = "Google Drive";
  status = ConnectorStatus.connected;
  last_synced_at = none;
  last_sync_document_count = some 3;
}

abbrev tables : Tables ℕ
tables = record {
  documents = [];
  connectors = drive 70 20 ∷ drive 71 21 ∷ [];
  messages = [];
  call_logs = [];
}

build_dashboard-own_example :
    let d = build_dashboard (λ ds. ds) 5 20 tables in
    (build_dashboard (λ ds. ds) 5 20 (own (λ ds. ds) 5 20 tables) ≡ d)
    × (d.metrics.documents_processed ≤ d.metrics.documents_uploaded)
    × (length d.connector_sync ≡ d.metrics.sources_connected)
    × (length d.recent_activity ≤ 20)
    × (length d.recent_documents ≤ 10)
build_dashboard-own_example = build_dashboard-own (λ ds. ds) 5 20 tables
