-- ===== src/Connectors/Tests.antt =====
-- A connector signed, listed, synced and disconnected.
use keel_be.Prelude.{
  ◌≡◌, ◌↔◌, refl, ◌+◌, true, none, some, [], ◌∷◌, ◌++◌, List, codes, arith, text_eq,
}
use keel_be.Prelude.Rows.{get}
use keel_be.Models.Enums.{ConnectorType, ConnectorStatus}
use keel_be.Models.Connector.{Connector, connector_key}
use keel_be.Core.Settings.{defaults}
use keel_be.Core.Session.{ok, open_session}
use keel_be.Documents.{World, queued_document}
use keel_be.Models.Ingestion.{Document}
use keel_be.Drive.{
  decrypt_token, refresh_access_token, Libraries, GoogleSettings, Response, sign_state,
  verify_state, state_signature,
}
use keel_be.Drive.State.{verify_state-sign_state}
use keel_be.Connectors.{Env, access_token}
use keel_be.Connectors.Sync.{SyncEnv, Report, synced_document, sync, already_synced}
use keel_be.Connectors.Synced.{documents}
use keel_be.Connectors.Reports.{Synced, sync_lem, sync_again}
use keel_be.Connectors.Moves.{Moves}
use keel_be.Connectors.States.{Request, serve_all, serve_all-Moves}

-- A drive where every file is `report.pdf`, of four bytes.
abbrev answer : Response
answer = record {
  status = 200;
  field = λ key. some (codes "report.pdf");
  files = [];
  content = codes "%PDF";
}

abbrev lib : Libraries
lib = record {
  hexdigest = λ key message. codes "0123456789abcdef" ++ message;
  urlencode = λ fields. [];
  post = λ url fields. ok answer;
  request = λ url params headers. ok answer;
  encrypt = λ key token. token;
  decrypt = λ key blob. ok blob;
}

abbrev google : GoogleSettings
google = record {
  google_client_id = codes "id";
  google_client_secret = codes "secret";
  google_redirect_uri = codes "https://keel.io";
  secret_key = codes "dev";
}

abbrev env : Env
env = record {
  lib = lib;
  settings = google;
  now = 7;
  drive_id = 70;
  onedrive_id = 71;
  credential_id = 80;
  uuid = λ t. ok 70;
}

abbrev sync_env : SyncEnv
sync_env = record {
  connectors = env;
  settings = defaults;
  docs = λ n. record { lower = λ t. t; broker_up = true; job_id = 90 + n; takes = λ d. true };
  doc_id = λ n. 100 + n;
  int = λ t. ok 4;
}

abbrev drive : Connector
drive = record {
  id = 70;
  workspace_id = 20;
  kind = ConnectorType.google_drive;
  name = "Google Drive";
  status = ConnectorStatus.connected;
  last_synced_at = none;
  last_sync_document_count = none;
}

abbrev world_with : List Document → World
world_with rows = record {
  session = open_session (record {
    documents = rows;
    chunks = [];
    jobs = [];
    errors = [];
    connectors = drive ∷ [];
    credentials =
        record {
          id = 80;
          connector_id = 70;
          encrypted_refresh_token = some (codes "token");
          scopes = none;
        }
        ∷ [];
  });
  files = [];
  broker = [];
}

abbrev world : World
world = world_with []

abbrev synced_file : Document
unfolding queued_document
synced_file =
    queued_document (λ t. t)
      (synced_document sync_env 20 0 drive (codes "f") (codes "report.pdf") (codes "pdf") answer
        (codes "%PDF"))

verify_state-sign_state_example :
    (verify_state lib google (codes "70.0123456789abcdef") ≡ some (codes "70"))
    ↔ (codes "70.0123456789abcdef" ≡ sign_state lib google (codes "70"))
unfolding state_signature
verify_state-sign_state_example =
    verify_state-sign_state lib google (codes "70.0123456789abcdef") (codes "70")
      ((λ e. ground arith), ((λ e. ground arith), tt)) refl

sync_lem_example :
    (report : Report) × (w' : World) × (sync sync_env 20 70 (codes "f" ∷ codes "g" ∷ []) world
      ≡ (ok report, w'))
    × Synced sync_env 20 70 world (codes "f" ∷ codes "g" ∷ []) drive report w'
unfolding access_token decrypt_token refresh_access_token
sync_lem_example =
    sync_lem sync_env 20 70 world (codes "f" ∷ codes "g" ∷ []) {c = drive}
      {token = codes "report.pdf"} refl refl refl refl (λ n d. refl) (λ fid. omega arith)

sync_again_example :
    (w' : World) × (sync sync_env 20 70 (codes "f" ∷ codes "f" ∷ []) (world_with (synced_file ∷ []))
      ≡ (
        ok (record { requested = 2; counts = record { created = 0; skipped = 2; failed = 0 } }),
        w',
      ))
    × (documents w' ≡ synced_file ∷ [])
    × (w'.files ≡ [])
    × (w'.broker ≡ [])
unfolding access_token decrypt_token refresh_access_token already_synced queued_document text_eq
sync_again_example =
    sync_again sync_env 20 70 (world_with (synced_file ∷ [])) (codes "f" ∷ codes "f" ∷ [])
      {c = drive} {token = codes "report.pdf"} refl refl refl refl (refl, (refl, tt))

serve_all-Moves_example :
    (c' : Connector) × (get 70
        (serve_all
          (Request.list env 20 ∷ Request.remove 20 70 ∷ [])
          world).session.committed.connectors
      ≡ some c')
    × Moves ConnectorStatus.connected c'.status
serve_all-Moves_example =
    serve_all-Moves (Request.list env 20 ∷ Request.remove 20 70 ∷ []) 70 world {c = drive} refl
