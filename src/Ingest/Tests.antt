-- ===== src/Ingest/Tests.antt =====
-- A file sent whole: by a key that may only read, over the limit, and within it.
use keel_be.Prelude.{ℕ, ◌≡◌, refl, none, some, Text, [], ◌∷◌, codes, arith, true, mem_text}
use keel_be.Prelude.Rows.{get}
use keel_be.Models.Enums.{Role, ApiKeyScope, IngestionStatus}
use keel_be.Models.Ingestion.{Document, document_key}
use keel_be.Core.Principal.{Principal, can_write}
use keel_be.Core.Session.{ok, err, open_session}
use keel_be.Core.Settings.{defaults, max_upload_bytes}
use keel_be.Documents.{detect_file_type}
use keel_be.Storage.{complete_local, get_bytes}
use keel_be.Fixtures.{ada}
use keel_be.Ingest.{
  State, Env, FileForm, JobResponse, ingest_file, ingest_file_part, ingest_text, ingest_record,
  file_too_large, name_of, path_of,
}
use keel_be.Ingest.Files.{forbidden, read_only_refused, large_file_stays, ingest_file_lem}

abbrev env_with : ℕ → Env
env_with mb = record {
  docs = record { lower = λ t. t; broker_up = true; job_id = 90; takes = λ d. true };
  settings = record defaults { max_upload_mb = mb };
  now = 50;
  document_id = 7;
  encode = λ t. t;
  complete_multipart = complete_local;
}

abbrev env : Env
env = env_with 500

abbrev ada_principal : Principal
ada_principal = record {
  workspace_id = 20;
  user_id = some 1;
  role = some Role.admin;
  api_key_id = none;
  scope = none;
}

abbrev reader : Principal
reader = record {
  workspace_id = 20;
  user_id = none;
  role = none;
  api_key_id = some 50;
  scope = some ApiKeyScope.read_only;
}

abbrev form : FileForm
form = record {
  content = codes "a,b";
  filename = some (codes "t.csv");
  content_type = none;
  file_name = none;
  tags = none;
  upload_id = none;
  part_number = none;
  total_parts = none;
}

abbrev state : State
state = record {
  world = record {
    session = open_session (record {
      documents = [];
      chunks = [];
      jobs = [];
      errors = [];
      connectors = [];
      credentials = [];
    });
    files = [];
    broker = [];
  };
  users = ada ∷ [];
  call_logs = [];
}

read_only_refused_example :
    (ingest_file env reader form state ≡ (err forbidden, state))
    × (ingest_file_part env reader [] 1 [] state ≡ (err forbidden, state))
    × (ingest_text env reader [] [] [] state ≡ (err forbidden, state))
    × (ingest_record env reader [] [] [] [] state ≡ (err forbidden, state))
unfolding can_write
read_only_refused_example = read_only_refused env reader state form [] [] [] [] [] 1 [] [] refl

large_file_stays_example :
    (s' : State) × (ingest_file (env_with 0) ada_principal form state ≡ (err file_too_large, s'))
    × (s'.world.session ≡ state.world.session)
    × (s'.world.broker ≡ state.world.broker)
    × (get_bytes (path_of (env_with 0) ada_principal form) s'.world.files ≡ ok form.content)
unfolding can_write detect_file_type max_upload_bytes mem_text
large_file_stays_example =
    large_file_stays (env_with 0) ada_principal form state (codes "csv") refl refl refl
      (omega arith)

ingest_file_lem_example :
    (s' : State) × (response : JobResponse) × (d : Document) × (path : Text) × (ingest_file env
        ada_principal form state
      ≡ (ok response, s'))
    × (response.document_id ≡ 7)
    × (get 7 s'.world.session.committed.documents ≡ some d)
    × (d.workspace_id ≡ 20)
    × (d.ingestion_status ≡ IngestionStatus.queued)
    × (d.filename ≡ name_of env form)
    × (d.file_type ≡ codes "csv")
    × (d.size_bytes ≡ 3)
    × (d.storage_path ≡ some path)
    × (get_bytes path s'.world.files ≡ ok form.content)
unfolding can_write detect_file_type max_upload_bytes mem_text
ingest_file_lem_example =
    ingest_file_lem env ada_principal form state (codes "csv") refl refl refl (omega arith) refl
      refl
