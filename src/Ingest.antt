-- ===== src/Ingest.antt =====
-- backend/app/api/ingest.py and common.py: the endpoints that take documents in.
pub mod Files
mod Tests
use keel_be.Prelude.{
  ℕ, String, Text, Bool, true, false, ◌&&◌, Option, none, some, is_some, or_else, List, [], ◌∷◌,
  ◌++◌, map, ◌==◌, codes, is_nonempty, length, ltb, strip, join, if◌then◌else◌,
}
use keel_be.Prelude.Rows.{get}
use keel_be.Models.Enums.{SourceType, IngestionStatus}
use keel_be.Models.Identity.{User, user_key}
use keel_be.Models.ApiKey.{ApiCallLog}
use keel_be.Models.Ingestion.{Document, IngestionJob}
use keel_be.Core.Errors.{Exc, Kind, app, app_error_with}
use keel_be.Core.Principal.{Principal, ensure_write_scope}
use keel_be.Core.Session.{Result, ok, err, Run, ◌>>=◌, ◌>>◌}
use keel_be.Core.Settings.{Settings, max_upload_bytes}
use keel_be.Documents.{
  World, NewDocument, build_path, create_queued_document, detect_file_type, get_job,
}
use keel_be.Documents as Docs
use keel_be.Storage.{save_part, size, put}

-- What the endpoints work on: the world of the documents, the users, and the log of calls.
pub record State : Type 0 where
  pub world : World
  pub users : List User
  pub call_logs : List ApiCallLog

-- What they take from their surroundings: that of the documents, the settings, the clock, the identifier drawn for
-- a document, UTF-8, and `complete_multipart` of the backend that is configured.
pub record Env : Type 0 where
  pub docs : Docs.Env
  pub settings : Settings
  pub now : ℕ
  pub document_id : ℕ
  pub encode : Text → Text
  pub complete_multipart : Text → Text → ℕ → Run (List (Text × Text)) Text

-- The form of `POST /ingest/file`; `filename` and `content_type` are those of the file sent.
pub record FileForm : Type 0 where
  pub content : Text
  pub filename : Option Text
  pub content_type : Option Text
  pub file_name : Option Text
  pub tags : Option Text
  pub upload_id : Option Text
  pub part_number : Option ℕ
  pub total_parts : Option ℕ

pub record JobResponse : Type 0 where
  pub document_id : ℕ
  pub job_id : ℕ
  pub status : IngestionStatus

abbrev pub in_world : {A : Type 0} → Run World A → Run State A
in_world m s = let (r, w) = m s.world in (r, record s { world = w })

abbrev in_files : {A : Type 0} → Run (List (Text × Text)) A → Run State A
in_files m s =
    let (r, fs) = m s.world.files in (r, record s { world = record s.world { files = fs } })

abbrev pub lift : {A : Type 0} → Result A → Run State A
lift r s = (r, s)

-- `value or other`, for a text and for a number of a form.
abbrev or_text : Option Text → Text → Text
or_text none d = d
or_text (some t) d = if is_nonempty t then t else d

abbrev pub truthy : Option ℕ → Option ℕ
truthy none = none
truthy (some n) = if n == 0 then none else some n

-- `tags.split(",")`; `word` is the piece being read.
unfoldable pub split_commas : Text → Text → List Text
split_commas word [] = word ∷ []
split_commas word (c ∷ s) =
    let next = word ∷ split_commas [] s in
    let longer = split_commas (word ++ c ∷ []) s in if c == b',' then next else longer

abbrev tag_list : Option Text → List Text
tag_list none = []
tag_list (some tags) = if is_nonempty tags then map strip (split_commas [] tags) else []

abbrev pub file_too_large : Exc
file_too_large =
    app (app_error_with Kind.bad_request "File exceeds the 500 MB limit" "FILE_TOO_LARGE")

-- `_uploader_name`
pub uploader_name : Principal → List User → String
uploader_name p users = elim p.user_id [
  | none ↦ "API"
  | some i ↦ elim (get i users) [ none ↦ "user" | some user ↦ user.full_name ]
]

-- `_source_type`
pub source_type : Principal → SourceType
source_type p = if is_some p.api_key_id then SourceType.api_push else SourceType.manual_upload

-- `log_api_call`
unfoldable pub log_api_call : ℕ → Principal → String → Run State Unit
log_api_call now p endpoint s = (
  ok tt,
  record s {
    call_logs = s.call_logs ++ elim p.api_key_id [
      | none ↦ []
      | some key ↦
          record {
            workspace_id = p.workspace_id;
            endpoint = endpoint;
            api_key_id = some key;
            created_at = now;
          }
          ∷ []
    ];
  },
)

abbrev job_response : Document × IngestionJob → JobResponse
job_response created = record {
  document_id = created.0.id;
  job_id = created.1.id;
  status = created.0.ingestion_status;
}

module _ (env : Env) where
  -- `file_name or file.filename or "upload"`
  abbrev pub name_of : FileForm → Text
  name_of form = or_text form.file_name (or_text form.filename (codes "upload"))

  abbrev pub path_of : Principal → FileForm → Text
  path_of p form = build_path env.docs p.workspace_id env.document_id (name_of form)

  -- The last part of an upload: it is saved, and the parts are assembled.
  unfoldable pub store_parts : Principal → FileForm → Text → ℕ → Run State (ℕ × Text)
  store_parts p form upload_id total_parts = do
    in_files (λ fs. (
      ok tt,
      save_part upload_id (or_else (truthy form.part_number) total_parts) form.content fs,
    ))
    in_files (env.complete_multipart upload_id (path_of p form) total_parts)
    size_bytes ← (λ s. (size (path_of p form) s.world.files, s))
    file_type ← lift (detect_file_type env.docs.lower (name_of form) none)
    (λ s. (ok (size_bytes, file_type), s))

  -- A file sent whole.
  unfoldable pub store_whole : Principal → FileForm → Run State (ℕ × Text)
  store_whole p form = do
    file_type ← lift (detect_file_type env.docs.lower (name_of form) (some form.content))
    in_files (λ fs. (ok tt, put (path_of p form) form.content fs))
    (λ s. (ok (length form.content, file_type), s))

  -- `if upload_id and total_parts`
  unfoldable pub store : Principal → FileForm → Run State (ℕ × Text)
  unfolding store_parts store_whole
  store p form = elim (truthy form.total_parts) [
    | none ↦ store_whole p form
    | some total_parts ↦
        if is_nonempty (or_text form.upload_id [])
        then store_parts p form (or_text form.upload_id []) total_parts
        else store_whole p form
  ]

  unfoldable pub file_document : Principal → FileForm → List User → ℕ → Text → NewDocument
  file_document p form users size_bytes file_type = record {
    document_id = env.document_id;
    workspace_id = p.workspace_id;
    name = name_of form;
    filename = name_of form;
    file_type = file_type;
    mime_type = form.content_type;
    size_bytes = size_bytes;
    source_type = source_type p;
    storage_path = some (path_of p form);
    connector_id = none;
    external_document_id = none;
    tags = tag_list form.tags;
    uploaded_by = uploader_name p users;
    uploaded_by_id = p.user_id;
  }

  -- What follows the storage of a file.
  abbrev pub queue_file : Principal → FileForm → ℕ × Text → Run State JobResponse
  queue_file p form stored =
      if ltb (max_upload_bytes env.settings) stored.0 then lift (err file_too_large) else (λ s.
        (in_world (create_queued_document env.docs (file_document p form s.users stored.0 stored.1))
            >>= λ created.
                log_api_call env.now p "/api/ingest/file" >> lift (ok (job_response created)))
          s)

  unfoldable pub ingest_file : Principal → FileForm → Run State JobResponse
  unfolding store
  ingest_file p form = lift (ensure_write_scope p) >> (store p form >>= queue_file p form)

  unfoldable pub ingest_file_part : Principal → Text → ℕ → Text → Run State Unit
  ingest_file_part p upload_id part_number content =
      lift (ensure_write_scope p)
      >> in_files (λ fs. (ok tt, save_part upload_id part_number content fs))

  -- `document_service.ingest_text`, logged for an endpoint.
  unfoldable pub ingest_content :
      Principal → String → Text → Text → List Text → Run State JobResponse
  ingest_content p endpoint content title tags s =
      (in_world (
            Docs.ingest_text env.docs env.encode env.document_id p.workspace_id content title tags
              (uploader_name p s.users))
          >>= λ created. log_api_call env.now p endpoint >> lift (ok (job_response created)))
        s

  unfoldable pub ingest_text : Principal → Text → Text → List Text → Run State JobResponse
  unfolding ingest_content
  ingest_text p content title tags =
      lift (ensure_write_scope p) >> ingest_content p "/api/ingest/text" content title tags

  -- A record is ingested as a text; a field is its name and its value as `str` shows it.
  abbrev field_line : Text × Text → Text
  field_line f = f.0 ++ (codes ": " ++ f.1)

  unfoldable pub ingest_record :
      Principal → Text → Text → List (Text × Text) → List Text → Run State JobResponse
  unfolding ingest_content
  ingest_record p record_type record_id fields tags =
      lift (ensure_write_scope p)
      >> ingest_content p "/api/ingest/record"
          (record_type ++ (b' ' ∷ record_id ++ (10 ∷ join (10 ∷ []) (map field_line fields))))
          (record_type ++ (b':' ∷ record_id)) tags

  unfoldable pub ingest_status : Principal → ℕ → Run State IngestionJob
  ingest_status p job_id = in_world (get_job p.workspace_id job_id)
