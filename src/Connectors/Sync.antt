-- ===== src/Connectors/Sync.antt =====
-- backend/app/services/connector_service.py: `sync`, which brings the selected files of Google Drive
-- into the documents of a workspace.
use keel_be.Prelude.{
  ℕ, suc, Text, Bool, true, false, Option, none, some, List, [], ◌∷◌, ◌==◌, ◌&&◌, is_nonempty,
  length, select, text_eq, ltb, if◌then◌else◌, is_some,
}
use keel_be.Models.Enums.{ConnectorType, SourceType}
use keel_be.Models.Connector.{Connector, connector_key}
use keel_be.Models.Ingestion.{Document, IngestionDb}
use keel_be.Core.Errors.{Exc, Kind, app, app_error_with, other}
use keel_be.Core.Settings.{Settings, max_upload_bytes}
use keel_be.Core.Session.{Result, ok, err, Run, ◌>>=◌, ◌>>◌}
use keel_be.Core.Session as Db
use keel_be.Documents.{
  World, NewDocument, in_db, build_path, save_bytes, create_queued_document, detect_file_type,
}
use keel_be.Documents as Docs
use keel_be.Drive.{Response}
use keel_be.Drive as Drive
use keel_be.Connectors.{Env, not_authorized, same_type, set_connector, get_connector, access_token}

abbrev pub unsupported : Exc
unsupported =
    app (app_error_with Kind.bad_request "Sync is only supported for Google Drive" "UNSUPPORTED")

-- What became of one file.
pub data Outcome : Type 0 where
  created skipped failed : Outcome

pub record Counts : Type 0 where
  pub created : ℕ
  pub skipped : ℕ
  pub failed : ℕ

-- `created += 1`, `skipped += 1`, `failed += 1`
abbrev pub tally : Outcome → Counts → Counts
tally Outcome.created c = record c { created = suc c.created }
tally Outcome.skipped c = record c { skipped = suc c.skipped }
tally Outcome.failed c = record c { failed = suc c.failed }

pub record Report : Type 0 where
  pub requested : ℕ
  pub counts : Counts

-- The surroundings of a sync: those of the connectors, the settings, what the `n`-th file draws, and
-- `int` of a text.
pub record SyncEnv : Type 0 where
  pub connectors : Env
  pub settings : Settings
  pub docs : ℕ → Docs.Env
  pub doc_id : ℕ → ℕ
  pub int : Text → Result ℕ

-- The document stands for the file in the workspace.
abbrev pub stands_for : ℕ → Text → Document → Bool
stands_for workspace_id external_id d =
    d.workspace_id == workspace_id
    && elim d.external_document_id [ none ↦ false | some e ↦ text_eq e external_id ]

-- What the loop works on: the world, and whether its session can be used. After a flush that failed it
-- cannot until it is rolled back, which the loop never does.
pub record Open : Type 0 where
  pub world : World
  pub usable : Bool

-- What does not need the database.
abbrev pub beside : {A : Type 0} → Run World A → Run Open A
beside m o = let (r, w) = m o.world in (r, record o { world = w })

-- A statement, which raises `PendingRollbackError` in a session that cannot be used.
abbrev pub pending_rollback : Exc
pending_rollback = other "PendingRollbackError" "rolled back due to an exception during flush"

abbrev pub in_session : {A : Type 0} → Run World A → Run Open A
in_session m o = if o.usable then beside m o else (err pending_rollback, o)

-- Statements that flush: if they raise, the session cannot be used any more.
abbrev pub is_ok : {A : Type 0} → Result A → Bool
is_ok (ok a) = true
is_ok (err e) = false

abbrev pub flushing : {A : Type 0} → Run World A → Run Open A
flushing m o = let (r, w) = m o.world in (r, record { world = w; usable = is_ok r })

-- `_already_synced`
unfoldable pub already_synced : ℕ → Text → IngestionDb → Bool
already_synced workspace_id external_id db =
    is_some (Db.first (select (stands_for workspace_id external_id) db.documents))

-- `meta.get("name") or fid`
abbrev pub file_name : Response → Text → Text
file_name meta fid = elim (meta.field "name") [
  | none ↦ fid
  | some name ↦ if is_nonempty name then name else fid
]

-- `except InvalidFileTypeError`
abbrev pub caught_file_type : Result Text → Result (Option Text)
caught_file_type (ok file_type) = ok (some file_type)
caught_file_type (err (app e)) = elim e.kind [ Kind.invalid_file_type ↦ ok none | _ ↦ err (app e) ]
caught_file_type (err e) = err e

-- `try: … except Exception: failed += 1`
abbrev pub outcome_of : Result Outcome → Outcome
outcome_of (ok outcome) = outcome
outcome_of (err e) = Outcome.failed

abbrev pub best_effort : Run Open Outcome → Run Open Outcome
best_effort m o = let (r, o') = m o in (ok (outcome_of r), o')

module _ (env : SyncEnv) (workspace_id : ℕ) where
  -- `int(meta.get("size") or 0)`
  abbrev pub file_size : Response → Result ℕ
  file_size meta = elim (meta.field "size") [
    | none ↦ ok 0
    | some size ↦ if is_nonempty size then env.int size else ok 0
  ]

  abbrev pub synced_document : ℕ → Connector → Text → Text → Text → Response → List ℕ → NewDocument
  synced_document n c fid name file_type meta content = record {
    document_id = env.doc_id n;
    workspace_id = workspace_id;
    name = name;
    filename = name;
    file_type = file_type;
    mime_type = meta.field "mimeType";
    size_bytes = length content;
    source_type = SourceType.google_drive;
    storage_path = some (build_path (env.docs n) workspace_id (env.doc_id n) name);
    connector_id = some c.id;
    external_document_id = some fid;
    tags = [];
    uploaded_by = "Connector sync";
    uploaded_by_id = none;
  }

  -- A file whose name has a type that is allowed.
  unfoldable pub fetch_file :
      ℕ → Connector → Text → Text → Text → Response → Option Text → Run Open Outcome
  fetch_file n c token fid name meta none = beside (in_db (Db.pure Outcome.skipped))
  fetch_file n c token fid name meta (some file_type) = do
    content ←
        beside (
          in_db
            (Db.lift (Drive.download_file env.connectors.lib env.connectors.settings token fid)))
    beside
        (save_bytes (env.docs n) (build_path (env.docs n) workspace_id (env.doc_id n) name) content)
    flushing
        (create_queued_document (env.docs n) (synced_document n c fid name file_type meta content))
    beside (in_db (Db.pure Outcome.created))

  -- A file that is not in the workspace yet.
  unfoldable pub new_file : ℕ → Connector → Text → Text → Run Open Outcome
  unfolding fetch_file
  new_file n c token fid = do
    meta ←
        beside (
          in_db (Db.lift (Drive.get_metadata env.connectors.lib env.connectors.settings token fid)))
    size ← beside (in_db (Db.lift (file_size meta)))
    let name = file_name meta fid
    if ltb (max_upload_bytes env.settings) size
        then beside (in_db (Db.pure Outcome.skipped))
        else (beside
              (in_db (Db.lift (caught_file_type (detect_file_type (env.docs n).lower name none))))
            >>= fetch_file n c token fid name meta)

  -- The body of the loop.
  unfoldable pub sync_file : ℕ → Connector → Text → Text → Run Open Outcome
  unfolding already_synced new_file
  sync_file n c token fid = best_effort (do
    present ← in_session (in_db (Db.query (already_synced workspace_id fid)))
    if present then beside (in_db (Db.pure Outcome.skipped)) else new_file n c token fid)

  -- The loop, from the `n`-th file.
  unfoldable pub sync_files : ℕ → Connector → Text → List Text → Counts → Run Open Counts
  unfolding sync_file
  sync_files n c token [] counts = beside (in_db (Db.pure counts))
  sync_files n c token (fid ∷ fids) counts = do
    outcome ← sync_file n c token fid
    sync_files (suc n) c token fids (tally outcome counts)

  -- What follows the loop.
  abbrev pub finish_sync : Connector → List Text → Counts → Run Open Report
  finish_sync c file_ids counts =
      beside (
        in_db (
          set_connector c.id (λ r. record r {
            last_synced_at = some env.connectors.now;
            last_sync_document_count = some counts.created;
          })))
      >> in_session (in_db Db.commit)
      >> beside (in_db (Db.pure (record { requested = length file_ids; counts = counts })))

  -- The loop and what follows it, in the session of the request.
  abbrev pub sync_all : Connector → Text → List Text → Run World Report
  sync_all c token file_ids w =
      let (r, o) =
        (sync_files 0 c token file_ids (record { created = 0; skipped = 0; failed = 0 })
            >>= finish_sync c file_ids)
          (record { world = w; usable = true }) in
      (r, o.world)

  unfoldable pub sync : ℕ → List Text → Run World Report
  unfolding get_connector access_token sync_files
  sync connector_id file_ids = do
    c ← get_connector workspace_id connector_id
    in_db (Db.guard (same_type c.kind ConnectorType.google_drive) unsupported)
    found ← access_token env.connectors c
    token ← in_db (Db.required (not_authorized "Connector is not authorized") found)
    sync_all c token file_ids
