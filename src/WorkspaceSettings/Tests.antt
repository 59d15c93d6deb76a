-- ===== src/WorkspaceSettings/Tests.antt =====
-- The settings of a workspace, of which one is changed.
use keel_be.Prelude.{◌≡◌, refl, none, some, arith}
use keel_be.Prelude.Rows.{get}
use keel_be.Fixtures.{identity_db, docs, keel}
use keel_be.Models.Identity.{Db, workspace_key}
use keel_be.Core.Session.{ok, get_db}
use keel_be.WorkspaceSettings.{Patch, Settings, get_settings, update_settings}
use keel_be.WorkspaceSettings.Updates.{get_settings-update_settings}

abbrev patch : Patch
patch = record {
  workspace_name = none;
  organization_name = none;
  auto_start_ingestion = none;
  chat_model = none;
  chat_top_k = some 7;
  min_similarity_threshold = none;
  rest_api_enabled = none;
  default_rate_limit_per_minute = none;
}

get_settings-update_settings_example :
    (settings : Settings) × (db' : Db) × (get_db (update_settings 20 patch) identity_db
      ≡ (ok settings, db'))
    × (get_db (get_settings 20) db' ≡ (ok settings, db'))
    × (settings.workspace_name ≡ docs.name)
    × (settings.organization_name ≡ keel.name)
    × (settings.auto_start_ingestion ≡ docs.auto_start_ingestion)
    × (settings.chat_model ≡ docs.chat_model)
    × (settings.chat_top_k ≡ 7)
    × (settings.min_similarity_threshold ≡ docs.min_similarity)
    × (settings.rest_api_enabled ≡ docs.rest_api_enabled)
    × (settings.default_rate_limit_per_minute ≡ docs.default_rate_limit_per_minute)
    × (settings.read_only.embedding_model ≡ docs.embedding_model)
    × (get 21 db'.workspaces ≡ get 21 identity_db.workspaces)
get_settings-update_settings_example =
    get_settings-update_settings 20 21 patch identity_db {ws = docs} {org = keel} refl refl
      (λ (e : 20 ≡ 21). ground arith)
