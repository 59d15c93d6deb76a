-- ===== src/WorkspaceSettings.antt =====
-- backend/app/services/settings_service.py and schemas/settings.py: the settings of a workspace.
pub mod Updates
mod Tests
use keel_be.Prelude.{ℕ, String, Bool, Option, none, some, or_else, List, [], ◌∷◌}
use keel_be.Prelude.Rows.{get, update}
use keel_be.Models.Identity.{Organization, Workspace, Db, organization_key, workspace_key}
use keel_be.Core.Errors.{Kind, app, app_error}
use keel_be.Core.Session.{Result, Exec, pure, query, write, commit, required, ◌>>=◌, ◌>>◌}

pub record ReadOnlySettings : Type 0 where
  pub parser : String
  pub embedding_model : String
  pub vector_store : String
  pub graph_store : String

pub record Settings : Type 0 where
  pub workspace_name : String
  pub organization_name : String
  pub auto_start_ingestion : Bool
  pub chat_model : String
  pub chat_top_k : ℕ
  pub min_similarity_threshold : ℕ
  pub rest_api_enabled : Bool
  pub default_rate_limit_per_minute : ℕ
  pub sync_mode : String
  pub read_only : ReadOnlySettings

-- `WorkspaceSettingsUpdate`: a field that is `none` was not sent.
pub record Patch : Type 0 where
  pub workspace_name : Option String
  pub organization_name : Option String
  pub auto_start_ingestion : Option Bool
  pub chat_model : Option String
  pub chat_top_k : Option ℕ
  pub min_similarity_threshold : Option ℕ
  pub rest_api_enabled : Option Bool
  pub default_rate_limit_per_minute : Option ℕ

-- The parts of `ModelConfig` that are not constants.
pub record ModelConfig : Type 0 where
  pub embedding_model : String
  pub dimensions : ℕ
  pub max_input_tokens : ℕ
  pub chunk_target : ℕ
  pub chunk_max : ℕ
  pub chat_model : String
  pub max_context_tokens : ℕ
  pub retrieval_context_tokens : ℕ

-- `_to_settings`
pub to_settings : Workspace → Organization → Settings
to_settings ws org = record {
  workspace_name = ws.name;
  organization_name = org.name;
  auto_start_ingestion = ws.auto_start_ingestion;
  chat_model = ws.chat_model;
  chat_top_k = ws.chat_top_k;
  min_similarity_threshold = ws.min_similarity;
  rest_api_enabled = ws.rest_api_enabled;
  default_rate_limit_per_minute = ws.default_rate_limit_per_minute;
  sync_mode = "manual";
  read_only = record {
    parser = "Docling 2.x";
    embedding_model = ws.embedding_model;
    vector_store = "Qdrant Community";
    graph_store = "Neo4j Community";
  };
}

-- `_load`
pub load : ℕ → Exec Db (Workspace × Organization)
load workspace_id = do
  found ← query (λ db. get workspace_id db.workspaces)
  ws ← required (app (app_error Kind.not_found "Workspace not found")) found
  owner ← query (λ db. get ws.organization_id db.organizations)
  org ← required (app (app_error Kind.not_found "Organization not found")) owner
  pure (ws, org)

pub get_settings : ℕ → Exec Db Settings
unfolding load to_settings
get_settings workspace_id = do (ws, org) ← load workspace_id; pure (to_settings ws org)

-- `if patch.x is not None: row.x = patch.x`
pub patch_workspace : Patch → Workspace → Workspace
patch_workspace patch ws = record ws {
  name = or_else patch.workspace_name ws.name;
  auto_start_ingestion = or_else patch.auto_start_ingestion ws.auto_start_ingestion;
  chat_model = or_else patch.chat_model ws.chat_model;
  chat_top_k = or_else patch.chat_top_k ws.chat_top_k;
  min_similarity = or_else patch.min_similarity_threshold ws.min_similarity;
  rest_api_enabled = or_else patch.rest_api_enabled ws.rest_api_enabled;
  default_rate_limit_per_minute =
      or_else patch.default_rate_limit_per_minute ws.default_rate_limit_per_minute;
}

pub patch_organization : Patch → Organization → Organization
patch_organization patch org = record org { name = or_else patch.organization_name org.name }

pub update_settings : ℕ → Patch → Exec Db Settings
unfolding load to_settings patch_workspace patch_organization
update_settings workspace_id patch = do
  (ws, org) ← load workspace_id
  write (λ db. record db { workspaces = update ws.id (patch_workspace patch) db.workspaces })
  write (λ db. record db {
    organizations = update org.id (patch_organization patch) db.organizations;
  })
  commit
  pure (to_settings (patch_workspace patch ws) (patch_organization patch org))

pub get_model_config : ℕ → Exec Db ModelConfig
unfolding load
get_model_config workspace_id = do
  (ws, _) ← load workspace_id
  pure (record {
    embedding_model = ws.embedding_model;
    dimensions = ws.embedding_dims;
    max_input_tokens = 8191;
    chunk_target = 512;
    chunk_max = 1024;
    chat_model = ws.chat_model;
    max_context_tokens = 128000;
    retrieval_context_tokens = 8000;
  })
