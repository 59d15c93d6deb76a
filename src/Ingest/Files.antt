-- ===== src/Ingest/Files.antt =====
-- backend/app/api/ingest.py: who may send documents in, and what becomes of a file.
use keel_be.Prelude.{ℕ, ◌≡◌, ◌≤◌, ◌<◌, refl, ap, Text, true, false, none, some, List, arith, length}
use keel_be.Prelude.Rows.{get, get-append}
use keel_be.Models.Enums.{IngestionStatus}
use keel_be.Models.Ingestion.{Document, document_key, job_key}
use keel_be.Core.Errors.{Exc, Kind, app, app_error}
use keel_be.Core.Principal.{Principal, can_write, ensure_write_scope}
use keel_be.Core.Session.{ok, err}
use keel_be.Core.Settings.{max_upload_bytes}
use keel_be.Documents.{queued_document, create_queued_document, enqueue, detect_file_type}
use keel_be.Storage.{get_bytes, put, or_missing}
use keel_be.Storage.Paths.{find-put_self}
use keel_be.Ingest.{
  State, Env, FileForm, JobResponse, ingest_file, ingest_file_part, ingest_text, ingest_record,
  store, store_whole, file_document, file_too_large, name_of, path_of, truthy, log_api_call,
}

abbrev pub forbidden : Exc
forbidden = app (app_error Kind.forbidden "read_write scope required for ingestion")

-- A key that may only read can send nothing in: a file, a part of one, a text and a record are each
-- refused with 403, and documents, stored files, queue and log stay as they were.
pub read_only_refused :
    (env : Env) (p : Principal) (s : State) (form : FileForm)
    (upload_id content title record_type record_id : Text) (n : ℕ) (tags : List Text)
    (fields : List (Text × Text))
    → can_write p ≡ false
    → (ingest_file env p form s ≡ (err forbidden, s))
      × (ingest_file_part env p upload_id n content s ≡ (err forbidden, s))
      × (ingest_text env p content title tags s ≡ (err forbidden, s))
      × (ingest_record env p record_type record_id fields tags s ≡ (err forbidden, s))
unfolding ingest_file ingest_file_part ingest_text ingest_record ensure_write_scope
read_only_refused env p s form upload_id content title record_type record_id n tags fields denied =
    (ground (arith, denied), ground (arith, denied), ground (arith, denied), ground (arith, denied))

module _ (env : Env) (p : Principal) (form : FileForm) (s : State) (file_type : Text)
    (allowed : can_write p ≡ true) (whole : truthy form.total_parts ≡ none)
    (typed : detect_file_type env.docs.lower (name_of env form) (some form.content)
      ≡ ok file_type) where
  -- A file over the limit that is sent whole is refused with `FILE_TOO_LARGE`: no row is written and
  -- nothing is sent to the worker, but its bytes stay stored.
  pub large_file_stays :
      max_upload_bytes env.settings < length form.content
      → (s' : State) × (ingest_file env p form s ≡ (err file_too_large, s'))
        × (s'.world.session ≡ s.world.session)
        × (s'.world.broker ≡ s.world.broker)
        × (get_bytes (path_of env p form) s'.world.files ≡ ok form.content)
  unfolding ingest_file store store_whole ensure_write_scope get_bytes
  large_file_stays large = (
    record s {
      world = record s.world { files = put (path_of env p form) form.content s.world.files };
    },
    ground (arith, allowed, whole, typed, large),
    refl,
    refl,
    ap or_missing (find-put_self (path_of env p form) form.content s.world.files),
  )

  -- A file of an allowed type within the limit that is sent whole, by a principal that may write, is
  -- stored and committed as a queued document of the sender's workspace, with its name, its type and
  -- the size of its content, and the bytes that are stored under that document's path are the content.
  -- (The identifier of the document is new, and the database takes its row.)
  pub ingest_file_lem :
      length form.content ≤ max_upload_bytes env.settings
      → env.docs.takes (
          queued_document env.docs.lower
            (file_document env p form s.users (length form.content) file_type))
        ≡ true
      → get env.document_id s.world.session.working.documents ≡ none
      → (s' : State) × (response : JobResponse) × (d : Document) × (path : Text) × (ingest_file env
            p form s
          ≡ (ok response, s'))
        × (response.document_id ≡ env.document_id)
        × (get env.document_id s'.world.session.committed.documents ≡ some d)
        × (d.workspace_id ≡ p.workspace_id)
        × (d.ingestion_status ≡ IngestionStatus.queued)
        × (d.filename ≡ name_of env form)
        × (d.file_type ≡ file_type)
        × (d.size_bytes ≡ length form.content)
        × (d.storage_path ≡ some path)
        × (get_bytes path s'.world.files ≡ ok form.content)
  unfolding ingest_file store store_whole ensure_write_scope get_bytes create_queued_document
      enqueue queued_document file_document log_api_call
  ingest_file_lem small taken fresh =
      let stored : State = record s {
        world = record s.world { files = put (path_of env p form) form.content s.world.files };
      } in
      let d = file_document env p form s.users (length form.content) file_type in
      let created = create_queued_document env.docs d stored.world in
      (
        (log_api_call env.now p "/api/ingest/file" (record stored { world = created.1 })).1,
        record {
          document_id = env.document_id;
          job_id = env.docs.job_id;
          status = IngestionStatus.queued;
        },
        queued_document env.docs.lower d,
        path_of env p form,
        ground (arith, allowed, whole, typed, small, taken),
        refl,
        rw taken (
            get-append env.document_id s.world.session.working.documents
              (queued_document env.docs.lower d) fresh refl),
        refl,
        refl,
        refl,
        refl,
        refl,
        refl,
        rw taken (ap or_missing (find-put_self (path_of env p form) form.content s.world.files)),
      )
