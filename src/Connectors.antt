-- ===== src/Connectors.antt =====
-- backend/app/services/connector_service.py: the connectors of a workspace, on the world of the
-- documents; `sync` is in Connectors/Sync.antt.
pub mod Sync
pub mod Synced
pub mod Reports
pub mod Moves
mod Tests
pub mod States
pub mod Lifecycle
use keel_be.Prelude.{
  ℕ, String, Text, Bool, true, false, not, ◌&&◌, Option, none, some, List, [], ◌∷◌, ◌++◌, map, ◌==◌,
  codes, is_nonempty, str_eq, join, decimal, or_else, select, text_eq, if◌then◌else◌,
}
use keel_be.Prelude.Rows.{get, update}
use keel_be.Models.Enums.{ConnectorType, ConnectorStatus}
use keel_be.Models.Connector.{Connector, ConnectorCredential, connector_key, credential_key}
use keel_be.Models.Ingestion.{IngestionDb}
use keel_be.Core.Errors.{Exc, Kind, app, app_error, app_error_with}
use keel_be.Core.Session.{then_result, Result, ok, err, Exec, Run, ◌>>=◌, ◌>>◌}
use keel_be.Core.Session as Db
use keel_be.Documents.{World, in_db}
use keel_be.Drive.{Libraries, GoogleSettings, DriveItem, Response}
use keel_be.Drive as Drive

-- What an operation takes from its surroundings: the adapter's libraries and settings, the clock,
-- the identifiers that `uuid4` draws, and the reading of an identifier by `uuid.UUID`.
pub record Env : Type 0 where
  pub lib : Libraries
  pub settings : GoogleSettings
  pub now : ℕ
  pub drive_id : ℕ
  pub onedrive_id : ℕ
  pub credential_id : ℕ
  pub uuid : Text → Result ℕ

-- Equality of the values of the columns `type` and `status`.
abbrev pub same_type : ConnectorType → ConnectorType → Bool
same_type ConnectorType.google_drive ConnectorType.google_drive = true
same_type ConnectorType.google_drive ConnectorType.onedrive = false
same_type ConnectorType.onedrive ConnectorType.google_drive = false
same_type ConnectorType.onedrive ConnectorType.onedrive = true

abbrev pub is_coming_soon : ConnectorStatus → Bool
is_coming_soon ConnectorStatus.coming_soon = true
is_coming_soon ConnectorStatus.connected = false
is_coming_soon ConnectorStatus.disconnected = false

abbrev pub of_workspace : ℕ → Connector → Bool
of_workspace workspace_id c = c.workspace_id == workspace_id

abbrev pub connectors_of : ℕ → IngestionDb → List Connector
connectors_of workspace_id db = select (of_workspace workspace_id) db.connectors

-- `kind in have`
abbrev pub has_type : ConnectorType → List Connector → Bool
has_type kind [] = false
has_type kind (c ∷ cs) = let rest = has_type kind cs in if same_type c.kind kind then true else rest

abbrev pub new_connector : ℕ → ℕ → ConnectorType → String → ConnectorStatus → Connector
new_connector id workspace_id kind name status = record {
  id = id;
  workspace_id = workspace_id;
  kind = kind;
  name = name;
  status = status;
  last_synced_at = none;
  last_sync_document_count = none;
}

-- `if card.type not in have: db.add(card)`
abbrev pub card_if_absent : List Connector → Connector → List Connector
card_if_absent existing card = if has_type card.kind existing then [] else card ∷ []

abbrev pub connector_not_found : Exc
connector_not_found = app (app_error Kind.not_found "Connector not found")

abbrev pub not_authorized : String → Exc
not_authorized message = app (app_error_with Kind.bad_request message "CONNECTOR_NOT_AUTHORIZED")

abbrev pub add_connectors : List Connector → Exec IngestionDb Unit
add_connectors cs = Db.write (λ db. record db { connectors = db.connectors ++ cs })

abbrev pub set_connector : ℕ → (Connector → Connector) → Exec IngestionDb Unit
set_connector i f = Db.write (λ db. record db { connectors = update i f db.connectors })

-- The query of a connector's credential.
abbrev pub credentials_of : ℕ → IngestionDb → List ConnectorCredential
credentials_of connector_id db = select (λ c. c.connector_id == connector_id) db.credentials

-- The credential that the callback stores: the refresh token is replaced if Google sent one.
pub stored_credential :
    Libraries → GoogleSettings → Option Text → ConnectorCredential → ConnectorCredential
stored_credential lib settings refresh cred = record cred {
  encrypted_refresh_token = elim refresh [
    | none ↦ cred.encrypted_refresh_token
    | some token ↦
        if is_nonempty token
        then some (Drive.encrypt_token lib settings token)
        else cred.encrypted_refresh_token
  ];
  scopes = some (join (codes " ") Drive.scopes);
}

-- A node of the browser of files.
pub record FolderNode : Type 0 where
  pub id : Text
  pub name : Text
  pub is_folder : Bool
  pub mime_type : Option Text

pub folder_node : DriveItem → FolderNode
folder_node item = record {
  id = item.id;
  name = or_else item.name [];
  is_folder = elim item.mime_type [ none ↦ false | some mime ↦ text_eq mime Drive.folder_mime ];
  mime_type = item.mime_type;
}

-- `_get`
pub get_connector : ℕ → ℕ → Run World Connector
get_connector workspace_id connector_id = do
  found ← in_db (Db.query (λ db. get connector_id db.connectors))
  c ← in_db (Db.required connector_not_found found)
  in_db (Db.guard (c.workspace_id == workspace_id) connector_not_found)
  in_db (Db.pure c)

-- What `disconnect` assigns.
pub disconnected_row : Connector → Connector
disconnected_row r = if is_coming_soon r.status then r else record r {
  status = ConnectorStatus.disconnected;
  last_synced_at = none;
  last_sync_document_count = none;
}

unfoldable pub disconnect : ℕ → ℕ → Run World Unit
unfolding get_connector disconnected_row
disconnect workspace_id connector_id = do
  c ← get_connector workspace_id connector_id
  in_db (set_connector c.id disconnected_row)
  in_db Db.commit

module _ (env : Env) where
  unfoldable pub ensure_default_connectors : ℕ → Run World Unit
  ensure_default_connectors workspace_id = do
    existing ← in_db (Db.query (connectors_of workspace_id))
    in_db (
        add_connectors (
          card_if_absent existing (
            new_connector env.drive_id workspace_id ConnectorType.google_drive "Google Drive"
              ConnectorStatus.disconnected)))
    in_db (
        add_connectors (
          card_if_absent existing (
            new_connector env.onedrive_id workspace_id ConnectorType.onedrive "OneDrive"
              ConnectorStatus.coming_soon)))
    in_db Db.commit

  unfoldable pub list_connectors : ℕ → Run World (List Connector)
  unfolding ensure_default_connectors
  list_connectors workspace_id = do
    ensure_default_connectors workspace_id
    in_db (Db.query (connectors_of workspace_id))

  -- The consent page of Google, or `none` for `{"connected": False}`.
  abbrev pub start_answer : ConnectorType → Connector → Run World (Option Text)
  start_answer conn_type c = in_db (
      Db.pure (
        if same_type conn_type ConnectorType.google_drive
          && not (is_coming_soon c.status)
          && Drive.is_configured env.lib env.settings
        then some (Drive.build_auth_url env.lib env.settings (decimal c.id))
        else none))

  pub start_oauth : ℕ → ConnectorType → Run World (Option Text)
  unfolding ensure_default_connectors
  start_oauth workspace_id conn_type = do
    ensure_default_connectors workspace_id
    found ← in_db (
        Db.query (λ db.
          select (λ c. of_workspace workspace_id c && same_type c.kind conn_type) db.connectors))
    one ← in_db (Db.scalar_one_or_none found)
    c ← in_db (Db.required connector_not_found one)
    start_answer conn_type c

  -- `if cred is None: cred = ConnectorCredential(…); db.add(cred)`, and what the callback assigns.
  abbrev pub store_credential : ℕ → Option Text → Option ConnectorCredential → Exec IngestionDb Unit
  store_credential connector_id refresh none =
      let cred : ConnectorCredential = record {
        id = env.credential_id;
        connector_id = connector_id;
        encrypted_refresh_token = none;
        scopes = none;
      } in
      Db.write (λ db. record db {
        credentials = db.credentials ++ stored_credential env.lib env.settings refresh cred ∷ [];
      })
  store_credential connector_id refresh (some cred) = Db.write (λ db. record db {
    credentials = update cred.id (stored_credential env.lib env.settings refresh) db.credentials;
  })

  pub complete_oauth : Text → Text → Run World ℕ
  complete_oauth code state = do
    text_id ← in_db (
        Db.required
          (app (app_error_with Kind.bad_request "Invalid OAuth state" "INVALID_OAUTH_STATE"))
          (Drive.verify_state env.lib env.settings state))
    connector_id ← in_db (Db.lift (env.uuid text_id))
    found ← in_db (Db.query (λ db. get connector_id db.connectors))
    c ← in_db (Db.required connector_not_found found)
    tokens ← in_db (Db.lift (Drive.exchange_code env.lib env.settings code))
    creds ← in_db (Db.query (credentials_of c.id))
    cred ← in_db (Db.scalar_one_or_none creds)
    in_db (store_credential c.id (tokens.field "refresh_token") cred)
    in_db (
        set_connector c.id (λ r. record r {
          status = ConnectorStatus.connected;
          last_synced_at = some (or_else r.last_synced_at env.now);
        }))
    in_db Db.commit
    in_db (Db.pure c.id)

  -- What a stored credential gives.
  abbrev pub token_of : Option ConnectorCredential → Result (Option Text)
  token_of none = ok none
  token_of (some cred) = elim cred.encrypted_refresh_token [
    | none ↦ ok none
    | some blob ↦
        if is_nonempty blob
        then then_result (Drive.decrypt_token env.lib env.settings blob) (λ refresh.
          then_result (Drive.refresh_access_token env.lib env.settings refresh)
            (λ token. ok (some token)))
        else ok none
  ]

  -- `_access_token`
  unfoldable pub access_token : Connector → Run World (Option Text)
  access_token c = do
    creds ← in_db (Db.query (credentials_of c.id))
    cred ← in_db (Db.scalar_one_or_none creds)
    in_db (Db.lift (token_of cred))

  pub get_folders : ℕ → ℕ → Run World (List FolderNode)
  unfolding get_connector access_token
  get_folders workspace_id connector_id = do
    c ← get_connector workspace_id connector_id
    found ← access_token c
    token ← in_db (
        Db.required
          (not_authorized "Google Drive is not authorized. Please reconnect the connector.") found)
    items ← in_db (Db.lift (Drive.list_files env.lib env.settings token none))
    in_db (Db.pure (map folder_node items))
