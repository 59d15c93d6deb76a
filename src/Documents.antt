-- ===== src/Documents.antt =====
-- backend/app/services/document_service.py: documents from their upload to the queue of the worker.
-- `stores/storage.py` is the list of files of a world, and the broker the list of what was sent to it.
pub mod Owners
pub mod Pages
mod Tests
use keel_be.Prelude.{
  ℕ, String, Text, ◌+◌, ◌-◌, ◌*◌, min, max, Bool, true, false, not, ◌&&◌, Option, none, some, List,
  [], ◌∷◌, ◌++◌, map, ◌==◌, take, drop, select, length, codes, is_nonempty, strip, mem_text,
  text_eq, decimal, if◌then◌else◌,
}
use keel_be.Prelude.Rows.{get, update, remove}
use keel_be.Models.Enums.{SourceType, IngestionStatus, EmbeddingStatus}
use keel_be.Models.Ingestion.{
  Document, DocumentChunk, IngestionJob, IngestionError, IngestionDb, document_key, job_key,
}
use keel_be.Core.Errors.{Exc, Kind, app, app_error, other}
use keel_be.Core.Session.{Result, ok, err, Session, Exec, Run, ◌>>=◌, ◌>>◌}
use keel_be.Core.Session as Db

-- What an operation works on: its session, the stored files, and the messages sent to the broker.
pub record World : Type 0 where
  pub session : Session IngestionDb
  pub files : List (Text × Text)
  pub broker : List ℕ

-- A step in the session.
abbrev pub in_db : {A : Type 0} → Exec IngestionDb A → Run World A
in_db m w = let (r, s) = m w.session in (r, record w { session = s })

-- `_ALLOWED`, `_SIGNATURES`
abbrev pub allowed : List Text
allowed =
    codes "pdf"
    ∷ codes "docx"
    ∷ codes "txt"
    ∷ codes "csv"
    ∷ codes "xlsx"
    ∷ codes "pptx"
    ∷ codes "png"
    ∷ codes "jpg"
    ∷ []

abbrev pub signatures : List (Text × List ℕ)
signatures =
    (codes "pdf", codes "%PDF")
    ∷ (codes "png", 0x89 ∷ codes "PNG")
    ∷ (codes "jpg", 0xff ∷ 0xd8 ∷ 0xff ∷ [])
    ∷ (codes "docx", codes "PK")
    ∷ (codes "xlsx", codes "PK")
    ∷ (codes "pptx", codes "PK")
    ∷ []

-- `_SIGNATURES.get(ext)`
abbrev pub signature_of : Text → List (Text × List ℕ) → Option (List ℕ)
signature_of ext [] = none
signature_of ext (s ∷ ss) = if text_eq s.0 ext then some s.1 else signature_of ext ss

-- `data.startswith(sig)`
abbrev pub starts : List ℕ → List ℕ → Bool
starts [] content = true
starts (c ∷ sig) [] = false
starts (c ∷ sig) (d ∷ content) = c == d && starts sig content

-- What stands after the last full stop, the empty text if there is none.
abbrev pub after_last_dot : Text → Option Text
after_last_dot [] = none
after_last_dot (c ∷ s) = elim (after_last_dot s) [
  | some ext ↦ some ext
  | none ↦ if c == b'.' then some s else none
]

abbrev pub fits_signature : Option (List ℕ) → Option (List ℕ) → Bool
fits_signature none sig = true
fits_signature (some content) none = true
fits_signature (some content) (some sig) = starts sig (take 8 content)

-- `detect_file_type filename data`, for `str.lower`; the message leaves out the extension.
unfoldable pub detect_file_type : (Text → Text) → Text → Option (List ℕ) → Result Text
detect_file_type lower filename content =
    let ext : Text = elim (after_last_dot filename) [ none ↦ [] | some e ↦ lower e ] in
    if mem_text ext allowed
    then if fits_signature content (signature_of ext signatures)
      then ok ext
      else err (app (app_error Kind.invalid_file_type "File content does not match its extension"))
    else err (app (app_error Kind.invalid_file_type "Unsupported file type"))

-- `_enqueue`: a broker that is down loses the message, and nothing is raised.
unfoldable pub enqueue : Bool → ℕ → Run World Unit
enqueue broker_up document_id w =
    (ok tt, record w { broker = if broker_up then w.broker ++ document_id ∷ [] else w.broker })

-- `[t.strip().lower() for t in tags if t.strip()][:20]`
unfoldable pub clean_tags : (Text → Text) → List Text → List Text
clean_tags lower tags =
    take 20 (map (λ t. lower (strip t)) (select (λ t. is_nonempty (strip t)) tags))

-- The arguments of `create_queued_document`; `document_id` is the one given or drawn.
pub record NewDocument : Type 0 where
  pub document_id : ℕ
  pub workspace_id : ℕ
  pub name : Text
  pub filename : Text
  pub file_type : Text
  pub mime_type : Option Text
  pub size_bytes : ℕ
  pub source_type : SourceType
  pub storage_path : Option Text
  pub connector_id : Option ℕ
  pub external_document_id : Option Text
  pub tags : List Text
  pub uploaded_by : String
  pub uploaded_by_id : Option ℕ

unfoldable pub queued_document : (Text → Text) → NewDocument → Document
queued_document lower n = record {
  id = n.document_id;
  workspace_id = n.workspace_id;
  name = n.name;
  filename = n.filename;
  file_type = n.file_type;
  mime_type = n.mime_type;
  size_bytes = n.size_bytes;
  source_type = n.source_type;
  connector_id = n.connector_id;
  external_document_id = n.external_document_id;
  storage_path = n.storage_path;
  tags = clean_tags lower n.tags;
  doc_metadata = record { page_count = none; entities = none };
  ingestion_status = IngestionStatus.queued;
  current_step = none;
  chunk_count = none;
  embedding_status = EmbeddingStatus.pending;
  content_hash = none;
  uploaded_by_id = n.uploaded_by_id;
  uploaded_by = n.uploaded_by;
}

-- `IngestionJob(document_id=…, workspace_id=…, steps_total=16)`
unfoldable pub new_job : ℕ → ℕ → ℕ → IngestionJob
new_job id document_id workspace_id = record {
  id = id;
  document_id = document_id;
  workspace_id = workspace_id;
  status = IngestionStatus.queued;
  current_step = "queued";
  steps_completed = 0;
  steps_total = 16;
  error = none;
  completed_at = none;
}

abbrev pub add_document : Document → Exec IngestionDb Unit
add_document doc = Db.write (λ db. record db { documents = db.documents ++ doc ∷ [] })

abbrev pub add_job : IngestionJob → Exec IngestionDb Unit
add_job job = Db.write (λ db. record db { jobs = db.jobs ++ job ∷ [] })

abbrev pub document_not_found : Exc
document_not_found = app (app_error Kind.not_found "Document not found")

-- What the functions below take from their surroundings: `str.lower`, whether the broker is up, the
-- identifier that `uuid4` gives a job, and whether the database takes the row of a document: it refuses
-- one with a name over the length of its column.
pub record Env : Type 0 where
  pub lower : Text → Text
  pub broker_up : Bool
  pub job_id : ℕ
  pub takes : Document → Bool

-- The row of a document goes with the rows that refer to it, by `ondelete="CASCADE"`.
pub delete_rows : ℕ → IngestionDb → IngestionDb
delete_rows i db = record {
  documents = remove i db.documents;
  chunks = select (λ c. not (c.document_id == i)) db.chunks;
  jobs = select (λ j. not (j.document_id == i)) db.jobs;
  errors = select (λ e. not (e.document_id == i)) db.errors;
  connectors = db.connectors;
  credentials = db.credentials;
}

-- What the driver raises for a row that is refused.
abbrev pub data_error : Exc
data_error = other "DBAPIError" "value too long"

module _ (env : Env) where
  -- A flush that fails raises, and the session can be used again only after a rollback: `get_db` rolls
  -- it back at the end of a request that raises, and the one request that goes on, `sync` in
  -- `Connectors/Sync.antt`, says what becomes of it.
  unfoldable pub create_queued_document : NewDocument → Run World (Document × IngestionJob)
  unfolding queued_document new_job enqueue
  create_queued_document n =
      let doc = queued_document env.lower n in
      let job = new_job env.job_id doc.id n.workspace_id in
      if env.takes doc
      then (in_db (add_document doc)
          >> in_db (add_job job)
          >> in_db Db.commit
          >> enqueue env.broker_up doc.id
          >> in_db (Db.pure (doc, job)))
      else in_db (Db.lift (err data_error))

  -- `LocalStorage.save_bytes`, on a disk that does not fail.
  unfoldable pub save_bytes : Text → Text → Run World Unit
  save_bytes path content w =
      (ok tt, record w { files = (path, content) ∷ select (λ f. not (text_eq f.0 path)) w.files })

  -- `build_path`, for identifiers written as numbers.
  abbrev pub build_path : ℕ → ℕ → Text → Text
  build_path workspace_id document_id filename =
      codes "workspaces/"
      ++ (decimal workspace_id ++ (codes "/raw/" ++ (decimal document_id ++ (b'/' ∷ filename))))

  -- `ingest_text` with `_create_with_id`; `encode` is UTF-8.
  pub ingest_text :
      (Text → Text) → ℕ → ℕ → Text → Text → List Text → String → Run World (Document × IngestionJob)
  unfolding save_bytes create_queued_document
  ingest_text encode doc_id workspace_id content title tags uploaded_by =
      let filename = title ++ codes ".txt" in
      let path = build_path workspace_id doc_id filename in
      save_bytes path (encode content)
      >> create_queued_document (record {
        document_id = doc_id;
        workspace_id = workspace_id;
        name = title;
        filename = filename;
        file_type = codes "txt";
        mime_type = none;
        size_bytes = length (encode content);
        source_type = SourceType.api_push;
        storage_path = some path;
        connector_id = none;
        external_document_id = none;
        tags = tags;
        uploaded_by = uploaded_by;
        uploaded_by_id = none;
      })

  -- `_get_owned`
  pub get_owned : ℕ → ℕ → Run World Document
  get_owned workspace_id doc_id = do
    found ← in_db (Db.query (λ db. get doc_id db.documents))
    doc ← in_db (Db.required document_not_found found)
    in_db (Db.guard (doc.workspace_id == workspace_id) document_not_found)
    in_db (Db.pure doc)

  abbrev pub set_document : ℕ → (Document → Document) → Exec IngestionDb Unit
  set_document i f = Db.write (λ db. record db { documents = update i f db.documents })

  pub update_tags : ℕ → ℕ → List Text → Run World Document
  unfolding get_owned
  update_tags workspace_id doc_id tags = do
    doc ← get_owned workspace_id doc_id
    in_db (set_document doc.id (λ d. record d { tags = clean_tags env.lower tags }))
    in_db Db.commit
    in_db (Db.pure (record doc { tags = clean_tags env.lower tags }))

  pub delete_document : ℕ → ℕ → Run World Unit
  unfolding get_owned delete_rows
  delete_document workspace_id doc_id = do
    doc ← get_owned workspace_id doc_id
    in_db (Db.write (delete_rows doc.id))
    in_db Db.commit

  pub reprocess : ℕ → ℕ → Run World (Document × IngestionJob)
  unfolding get_owned new_job enqueue
  reprocess workspace_id doc_id = do
    doc ← get_owned workspace_id doc_id
    let job = new_job env.job_id doc.id workspace_id
    in_db (set_document doc.id (λ d. record d { ingestion_status = IngestionStatus.queued }))
    in_db (add_job job)
    in_db Db.commit
    enqueue env.broker_up doc.id
    in_db (Db.pure (record doc { ingestion_status = IngestionStatus.queued }, job))

-- The value of an ingestion status, and of a source.
abbrev pub status_value : IngestionStatus → Text
status_value IngestionStatus.queued = codes "queued"
status_value IngestionStatus.processing = codes "processing"
status_value IngestionStatus.parsing = codes "parsing"
status_value IngestionStatus.tagging = codes "tagging"
status_value IngestionStatus.chunking = codes "chunking"
status_value IngestionStatus.embedding = codes "embedding"
status_value IngestionStatus.entity_extraction = codes "entity_extraction"
status_value IngestionStatus.graph_mapping = codes "graph_mapping"
status_value IngestionStatus.finalizing = codes "finalizing"
status_value IngestionStatus.completed = codes "completed"
status_value IngestionStatus.failed = codes "failed"
status_value IngestionStatus.duplicate = codes "duplicate"

abbrev pub source_value : SourceType → Text
source_value SourceType.manual_upload = codes "manual_upload"
source_value SourceType.google_drive = codes "google_drive"
source_value SourceType.onedrive = codes "onedrive"
source_value SourceType.api_push = codes "api_push"

-- The filters and the order that a listing asks for; a filter that is `None` or empty is not applied.
pub record Listing : Type 0 where
  pub limit : ℕ
  pub search : Option Text
  pub status : Option Text
  pub source_type : Option Text
  pub file_type : Option Text
  pub tag : Option Text
  pub sort : Text
  pub order : Text

-- What the database does: `ILIKE` with the text between two `%`, and `ORDER BY`. The order of rows that
-- tie in the column is any, and may differ from one query to the next: here from one page to the next,
-- since `OFFSET` is part of the query.
pub record Sql : Type 0 where
  pub ilike : Text → Text → Bool
  pub order_by : ℕ → Text → Text → List Document → List Document

-- `if value: stmt = stmt.where(…)`
abbrev pub where_set : Option Text → (Text → Bool) → Bool
where_set none p = true
where_set (some v) p = if is_nonempty v then p v else true

-- The conditions of the statement.
pub matches : Sql → ℕ → Listing → Document → Bool
matches sql workspace_id l d =
    d.workspace_id == workspace_id
    && where_set l.search (sql.ilike d.name)
    && where_set l.status (text_eq (status_value d.ingestion_status))
    && where_set l.source_type (text_eq (source_value d.source_type))
    && where_set l.file_type (text_eq d.file_type)
    && where_set l.tag (λ t. mem_text t d.tags)

abbrev pub page_size : Listing → ℕ
page_size l = max 1 (min l.limit 200)

-- `list_documents`: `before` is the number of pages before the one asked for, `page - 1`.
pub list_documents : Sql → ℕ → ℕ → Listing → Run World (List Document × ℕ)
list_documents sql workspace_id before l = do
  found ← in_db (Db.query (λ db. select (matches sql workspace_id l) db.documents))
  let skipped = before * page_size l
  let sorted = sql.order_by skipped l.sort l.order found
  let rows = take (page_size l) (drop skipped sorted)
  in_db (Db.pure (rows, length found))

-- `get_job`
pub get_job : ℕ → ℕ → Run World IngestionJob
get_job workspace_id job_id = do
  found ← in_db (Db.query (λ db. get job_id db.jobs))
  job ← in_db (Db.required (app (app_error Kind.not_found "Unknown job")) found)
  in_db (Db.guard (job.workspace_id == workspace_id) (app (app_error Kind.not_found "Unknown job")))
  in_db (Db.pure job)
