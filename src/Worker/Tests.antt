-- ===== src/Worker/Tests.antt =====
-- A document of one chunk that runs through, one that cannot be parsed, and a task that gives up.
use keel_be.Prelude.{
  ℕ, suc, ◌≡◌, refl, Bool, true, none, some, List, [], ◌∷◌, ◌++◌, leb, length, map, codes, arith,
  inr, if◌then◌else◌,
}
use keel_be.Models.Enums.{IngestionStatus, EmbeddingStatus, SourceType}
use keel_be.Models.Ingestion.{Document, DocumentChunk, IngestionJob}
use keel_be.Core.Errors.{parse_error}
use keel_be.Core.Session.{Result, ok, err, Run}
use keel_be.Parsing.{ParsedDocument, empty_document}
use keel_be.Chunking.{ChunkData}
use keel_be.Worker.{
  Work, Services, start_state, run_loaded, chunk_rows, VectorPoint, transient, Retry, reraised,
  planned, raised, deliver,
}
use keel_be.Worker.Pipeline.{Serves, run_loaded_lem}
use keel_be.Worker.Outcomes.{PlansRetries, Delivered, deliver_lem, exhausted_unmarked}

abbrev page : ParsedDocument
page = record empty_document { text = codes "hello" }

abbrev piece : ChunkData
piece = record {
  chunk_index = 0;
  chunk_text = codes "hello";
  token_count = 1;
  section_ref = none;
  row_range = none;
}

-- Services that all answer, but the parser and the commits as given.
abbrev services : Result ParsedDocument → Bool → Services
services parsed there = record {
  Vector = ℕ;
  Graph = Unit;
  get_bytes = λ path. ok (codes "hello");
  parse = λ bytes file_type size. parsed;
  generate_tags = λ text. codes "greeting" ∷ [];
  chunk_parsed = λ p. piece ∷ [];
  sha256 = λ bytes. "hash";
  embed = λ texts. ok (7 ∷ []);
  upsert = λ points. ok tt;
  extract = λ text. ok (2, tt);
  upsert_graph = λ graph first. ok tt;
  now = 1000;
  chunk_id = λ i. 60;
  present = λ n. there;
}

abbrev doc : Document
doc = record {
  id = 5;
  workspace_id = 20;
  name = codes "hello";
  filename = codes "hello.txt";
  file_type = codes "txt";
  mime_type = none;
  size_bytes = 5;
  source_type = SourceType.api_push;
  connector_id = none;
  external_document_id = none;
  storage_path = some (codes "p");
  tags = [];
  doc_metadata = record { page_count = none; entities = none };
  ingestion_status = IngestionStatus.queued;
  current_step = none;
  chunk_count = none;
  embedding_status = EmbeddingStatus.pending;
  content_hash = none;
  uploaded_by_id = none;
  uploaded_by = "api";
}

abbrev queued_job : IngestionJob
queued_job = record {
  id = 90;
  document_id = 5;
  workspace_id = 20;
  status = IngestionStatus.queued;
  current_step = "queued";
  steps_completed = 0;
  steps_total = 16;
  error = none;
  completed_at = none;
}

abbrev work : Work
work = record { doc = doc; job = queued_job; chunks = []; errors = [] }

abbrev hello_rows : List DocumentChunk
hello_rows = chunk_rows (services (ok page) true) 5 20 SourceType.api_push 0 (piece ∷ [])

length-hello_rows : 1 ≡ length hello_rows
unfolding chunk_rows
length-hello_rows = refl

abbrev all_serve : Serves (services (ok page) true) work.doc
all_serve = record {
  path = codes "p";
  bytes = codes "hello";
  parsed = page;
  vectors = 7 ∷ [];
  found = (2, tt);
  stored = refl;
  fetched = refl;
  nonempty = refl;
  parses = refl;
  embeds = refl;
  one_each = length-hello_rows;
  upserts = λ points. refl;
  extracts = refl;
  maps = λ first. refl;
  present = λ n. refl;
}

run_loaded_lem_example :
    let (r, st) = run_loaded (services (ok page) true) (start_state work []) in
    let w = st.session.committed in
    (r ≡ ok tt)
    × (w.doc.ingestion_status ≡ IngestionStatus.completed)
    × (w.doc.embedding_status ≡ EmbeddingStatus.completed)
    × (w.doc.tags ≡ codes "greeting" ∷ [])
    × (w.doc.chunk_count ≡ some (length hello_rows))
    × (w.chunks ≡ [] ++ hello_rows)
    × (map (λ c. c.chunk_text) hello_rows ≡ map (λ c. c.chunk_text) (piece ∷ []))
    × (map (λ c. c.chunk_index) hello_rows ≡ map (λ c. c.chunk_index) (piece ∷ []))
    × (map (λ c. c.document_id) hello_rows ≡ map (λ (c : ChunkData). 5) (piece ∷ []))
    × (map (λ c. c.workspace_id) hello_rows ≡ map (λ (c : ChunkData). 20) (piece ∷ []))
    × (w.job.status ≡ IngestionStatus.completed)
    × (w.job.steps_completed ≡ 16)
    × (w.job.completed_at ≡ some 1000)
    × (w.errors ≡ [])
    × (added : List (VectorPoint ℕ)) × (st.index ≡ [] ++ added)
    × (map (λ p. p.chunk_id) added ≡ map (λ c. c.id) hello_rows)
    × (map (λ p. p.chunk_text) added ≡ map (λ c. c.chunk_text) hello_rows)
    × (map (λ p. p.document_id) added ≡ map (λ c. c.document_id) hello_rows)
    × (map (λ p. p.workspace_id) added ≡ map (λ c. c.workspace_id) hello_rows)
    × (map (λ p. p.vector) added ≡ 7 ∷ [])
run_loaded_lem_example = run_loaded_lem (services (ok page) true) work [] all_serve

abbrev unparsed : Services
unparsed = services (err (parse_error "corrupt")) true

-- Up to the third retry another delivery is planned, then the exception is raised again.
retry : ℕ → Retry
retry n = if leb 3 n then reraised else planned

-- A run that always fails; the state counts the runs.
abbrev failing : ℕ → Run ℕ Unit
failing n runs = (err (transient "down"), suc runs)

retry-PlansRetries : PlansRetries retry
unfolding retry
retry-PlansRetries = (λ n h. ground arith, λ n h. inr (ground arith))

deliver_lem_example :
    Delivered retry failing
      (λ m s. s)
      0
      0
      (deliver retry failing (λ m s. s) 4 0 0).0
      (deliver retry failing (λ m s. s) 4 0 0).1
deliver_lem_example = deliver_lem retry failing (λ m s. s) retry-PlansRetries 0

exhausted_unmarked_example : deliver retry failing (λ m s. s) 4 0 0 ≡ (raised (transient "down"), 4)
unfolding retry
exhausted_unmarked_example =
    exhausted_unmarked retry failing (λ m s. s) 0 "down" refl refl refl refl (λ n t. refl)
