-- ===== src/WorkspaceSettings/Updates.antt =====
-- backend/app/services/settings_service.py: what an update changes.
use mathlib.Core.Option
use keel_be.Prelude.{ℕ, ◌≡◌, ◌≢◌, refl, ap, ◌∙◌, arith, some, or_else}
use keel_be.Prelude.Rows.{get, update, key-get, get-update_self, get-update_ne}
use keel_be.Models.Identity.{Organization, Workspace, Db, organization_key, workspace_key}
use keel_be.Core.Session.{ok, get_db}
use keel_be.WorkspaceSettings.{
  Patch, Settings, to_settings, load, get_settings, update_settings, patch_workspace,
  patch_organization,
}

module _ (workspace_id : ℕ) (db : Db) {ws : Workspace} {org : Organization}
    (found : get workspace_id db.workspaces ≡ some ws)
    (owner : get ws.organization_id db.organizations ≡ some org) where
  read_settings : get_db (get_settings workspace_id) db ≡ (ok (to_settings ws org), db)
  unfolding get_db get_settings load
  read_settings = ground (arith, found, owner)

  -- The tables after an update.
  abbrev updated : Patch → Db
  updated patch = record db {
    workspaces = update workspace_id (patch_workspace patch) db.workspaces;
    organizations = update ws.organization_id (patch_organization patch) db.organizations;
  }

  update_settings-updated :
      (patch : Patch)
      → get_db (update_settings workspace_id patch) db ≡ (
        ok (to_settings (patch_workspace patch ws) (patch_organization patch org)),
        updated patch,
      )
  unfolding get_db update_settings load
  update_settings-updated patch = ground (
    arith,
    found,
    owner,
    key-get workspace_id db.workspaces {r = ws} found,
    key-get ws.organization_id db.organizations {r = org} owner,
  )

-- The settings that an update answers are those that the next request reads: each field that was
-- sent has the value sent, each that was not sent the one of the stored row, and the embedding model
-- is the stored one whatever was sent. The row of another workspace is as before. (The workspace and
-- its organization exist.)
pub get_settings-update_settings :
    (workspace_id other : ℕ) (patch : Patch) (db : Db) {ws : Workspace} {org : Organization}
    → get workspace_id db.workspaces ≡ some ws
    → get ws.organization_id db.organizations ≡ some org
    → workspace_id ≢ other
    → (settings : Settings) × (db' : Db) × (get_db (update_settings workspace_id patch) db
        ≡ (ok settings, db'))
      × (get_db (get_settings workspace_id) db' ≡ (ok settings, db'))
      × (settings.workspace_name ≡ or_else patch.workspace_name ws.name)
      × (settings.organization_name ≡ or_else patch.organization_name org.name)
      × (settings.auto_start_ingestion ≡ or_else patch.auto_start_ingestion ws.auto_start_ingestion)
      × (settings.chat_model ≡ or_else patch.chat_model ws.chat_model)
      × (settings.chat_top_k ≡ or_else patch.chat_top_k ws.chat_top_k)
      × (settings.min_similarity_threshold
          ≡ or_else patch.min_similarity_threshold ws.min_similarity)
      × (settings.rest_api_enabled ≡ or_else patch.rest_api_enabled ws.rest_api_enabled)
      × (settings.default_rate_limit_per_minute
          ≡ or_else patch.default_rate_limit_per_minute ws.default_rate_limit_per_minute)
      × (settings.read_only.embedding_model ≡ ws.embedding_model)
      × (get other db'.workspaces ≡ get other db.workspaces)
unfolding patch_workspace patch_organization to_settings
get_settings-update_settings workspace_id other patch db {ws} {org} found owner ne =
    let db' = updated workspace_id db {ws = ws} {org = org} found owner patch in
    (
      to_settings (patch_workspace patch ws) (patch_organization patch org),
      db',
      update_settings-updated workspace_id db {ws = ws} {org = org} found owner patch,
      read_settings workspace_id db' {ws = patch_workspace patch ws}
          {org = patch_organization patch org}
          (get-update_self workspace_id (patch_workspace patch) db.workspaces (λ r. refl)
            ∙ ap (Option.map (patch_workspace patch)) found)
          (get-update_self ws.organization_id (patch_organization patch) db.organizations
              (λ r. refl)
            ∙ ap (Option.map (patch_organization patch)) owner),
      refl,
      refl,
      refl,
      refl,
      refl,
      refl,
      refl,
      refl,
      refl,
      get-update_ne workspace_id other (patch_workspace patch) db.workspaces (λ r. refl) ne,
    )
