-- ===== src/Worker.antt =====
-- backend/ingestion/worker_flow.py and tasks.py: the pipeline that a queued document runs through, and
-- the task that runs it. The rows that a run has loaded are its `Work`; the services that it calls are
-- the record `Services`, and so is whether its rows are still there at each commit.
pub mod Pipeline
pub mod Outcomes
mod Tests
use Prim.Native.String.{◌++◌ as append, slice}
use keel_be.Prelude.{
  ℕ, zero, suc, String, Text, ◌+◌, Bool, true, false, not, Option, none, some, List, [], ◌∷◌, ◌++◌,
  map, ltb, ◌==◌, str_eq, select, length, is_nonempty, if◌then◌else◌,
}
use keel_be.Models.Enums.{SourceType, IngestionStatus, EmbeddingStatus}
use keel_be.Models.Ingestion.{DocMetadata, Document, DocumentChunk, IngestionJob, IngestionError}
use keel_be.Core.Errors.{Exc, app, multiple_rows, stale_data, parse_error, other}
use keel_be.Core.Session.{Result, ok, err, Session, Exec, Run, ◌>>=◌, ◌>>◌}
use keel_be.Core.Session as Db
use keel_be.Parsing.{ParsedDocument, empty_document}
use keel_be.Chunking.{ChunkData}
use keel_be.Documents.{new_job}

-- The rows of a run: the document, its newest job, the chunks of all documents, the dead letters.
pub record Work : Type 0 where
  pub doc : Document
  pub job : IngestionJob
  pub chunks : List DocumentChunk
  pub errors : List IngestionError

-- `VectorPoint`, with the part of its payload that identifies the chunk.
pub record VectorPoint (Vector : Type 0) : Type 0 where
  pub chunk_id : ℕ
  pub vector : Vector
  pub workspace_id : ℕ
  pub document_id : ℕ
  pub chunk_text : Text

pub record Services : Type 1 where
  pub Vector : Type 0
  pub Graph : Type 0
  pub get_bytes : Text → Result (List ℕ)
  pub parse : List ℕ → Text → ℕ → Result ParsedDocument
  pub generate_tags : Text → List Text
  pub chunk_parsed : ParsedDocument → List ChunkData
  pub sha256 : List ℕ → String
  pub embed : List Text → Result (List Vector)
  pub upsert : List (VectorPoint Vector) → Result Unit
  pub extract : Text → Result (ℕ × Graph)
  pub upsert_graph : Graph → Option ℕ → Result Unit
  pub now : ℕ
  -- What `uuid4` returns for a chunk's row, by its position.
  pub chunk_id : ℕ → ℕ
  -- Whether the rows of the run are still there at its n-th commit.
  pub present : ℕ → Bool

-- The state of a run. `index` holds the vectors that were written to Qdrant.
pub record State (Vector : Type 0) : Type 0 where
  pub session : Session Work
  pub commits : ℕ
  pub current : String
  pub index : List (VectorPoint Vector)

-- `str(exc)` and `type(exc).__name__`
unfoldable pub text_of : Exc → String
text_of (app e) = e.message
text_of multiple_rows = "Multiple rows were found when one or none was required"
text_of stale_data = ""
text_of (parse_error m) = m
text_of (other t m) = m

unfoldable pub type_of : Exc → String
type_of (app e) = "AppError"
type_of multiple_rows = "MultipleResultsFound"
type_of stale_data = "StaleDataError"
type_of (parse_error m) = "ParseError"
type_of (other t m) = t

abbrev pub permanent : String → Exc
permanent m = other "PermanentIngestionError" m

abbrev pub transient : String → Exc
transient m = other "TransientIngestionError" m

abbrev pub steps_total : ℕ
steps_total = 16

-- What `_dead_letter` writes.
unfoldable pub dead_letter_rows : String → Exc → Work → Work
unfolding text_of type_of
dead_letter_rows step exc w = record w {
  errors =
      w.errors
      ++ record {
        document_id = w.doc.id;
        workspace_id = w.doc.workspace_id;
        step_failed = step;
        error_type = type_of exc;
        error_message = slice (text_of exc) 0 2000;
        retry_count = 0;
      }
        ∷ [];
  doc = record w.doc { ingestion_status = IngestionStatus.failed };
  job = record w.job {
    status = IngestionStatus.failed;
    current_step = step;
    error = some (slice (text_of exc) 0 2000);
  };
}

-- The new chunks of a document in place of its old ones.
unfoldable pub replace_chunks : List DocumentChunk → Work → Work
replace_chunks rows w = record w {
  chunks = select (λ c. not (c.document_id == w.doc.id)) w.chunks ++ rows;
  doc = record w.doc { chunk_count = some (length rows) };
}

module _ (sv : Services) where
  abbrev pub Flow : Type 0 → Type 0
  Flow A = Run (State sv.Vector) A

  abbrev in_db : {A : Type 0} → Exec Work A → Flow A
  in_db m st = let (r, s) = m st.session in (r, record st { session = s })

  abbrev pub return : {A : Type 0} → A → Flow A
  return a st = (ok a, st)

  abbrev call : {A : Type 0} → Result A → Flow A
  call r st = (r, st)

  abbrev modify : (Work → Work) → Flow Unit
  modify f = in_db (Db.write f)

  abbrev reading : {A : Type 0} → (Work → A) → Flow A
  reading f = in_db (Db.query f)

  -- `await db.commit()`, which raises `StaleDataError` if the rows are gone.
  pub commit : Flow Unit
  commit st =
      if sv.present st.commits
      then (
        ok tt,
        record st {
          session = record st.session { committed = st.session.working };
          commits = st.commits + 1;
        },
      )
      else (err stale_data, record st { commits = st.commits + 1 })

  -- `current = step`
  abbrev enter : String → Flow Unit
  enter step st = (ok tt, record st { current = step })

  -- `_set_status`
  pub set_status : IngestionStatus → String → ℕ → Flow Unit
  unfolding commit
  set_status status step done =
      modify (λ w. record w {
        doc = record w.doc { ingestion_status = status; current_step = some step };
        job = record w.job { status = status; current_step = step; steps_completed = done };
      })
      >> commit

  -- `_dead_letter`
  pub dead_letter : String → Exc → Flow Unit
  unfolding commit dead_letter_rows
  dead_letter step exc = modify (dead_letter_rows step exc) >> commit

  -- The rows of the chunks; `i` is the position of the first.
  unfoldable pub chunk_rows : ℕ → ℕ → SourceType → ℕ → List ChunkData → List DocumentChunk
  chunk_rows document_id workspace_id source i [] = []
  chunk_rows document_id workspace_id source i (c ∷ cs) =
      record {
        id = sv.chunk_id i;
        document_id = document_id;
        workspace_id = workspace_id;
        chunk_index = c.chunk_index;
        chunk_text = c.chunk_text;
        token_count = c.token_count;
        section_ref = c.section_ref;
        source_type = source;
      }
      ∷ chunk_rows document_id workspace_id source (i + 1) cs

  -- The points of `zip(chunk_rows, vectors)`.
  unfoldable pub points_of : List DocumentChunk → List sv.Vector → List (VectorPoint sv.Vector)
  points_of [] vs = []
  points_of (r ∷ rows) [] = []
  points_of (r ∷ rows) (v ∷ vs) =
      record {
        chunk_id = r.id;
        vector = v;
        workspace_id = r.workspace_id;
        document_id = r.document_id;
        chunk_text = r.chunk_text;
      }
      ∷ points_of rows vs

  -- Step 1.
  pub fetch : Flow (List ℕ)
  unfolding set_status
  fetch = do
    enter "retrieve"
    set_status IngestionStatus.processing "retrieve" 1
    path ← reading (λ w. w.doc.storage_path)
    call (elim path [ none ↦ ok [] | some p ↦ sv.get_bytes p ])

  -- Steps 2 and 3.
  pub parse : List ℕ → Flow ParsedDocument
  unfolding set_status
  parse bytes = do
    enter "parse"
    set_status IngestionStatus.parsing "parse" 3
    doc ← reading (λ w. w.doc)
    call (
        if is_nonempty bytes
        then sv.parse bytes doc.file_type doc.size_bytes
        else ok empty_document)

  -- Steps 4 and 5: tags that are there are kept.
  pub tag : ParsedDocument → Flow Unit
  unfolding set_status commit
  tag parsed = do
    enter "tagging"
    set_status IngestionStatus.tagging "tagging" 5
    tags ← reading (λ w. w.doc.tags)
    if is_nonempty tags
        then return tt
        else (modify (λ w. record w { doc = record w.doc { tags = sv.generate_tags parsed.text } })
            >> commit)

  -- Steps 6 to 10.
  pub chunk : List ℕ → ParsedDocument → Flow (List DocumentChunk)
  unfolding set_status commit replace_chunks chunk_rows
  chunk bytes parsed = do
    enter "chunking"
    set_status IngestionStatus.chunking "chunking" 6
    let chunks = sv.chunk_parsed parsed
    modify (λ w. record w {
      doc = record w.doc {
        content_hash = if is_nonempty bytes then some (sv.sha256 bytes) else none;
      };
    })
    enter "persist_chunks"
    doc ← reading (λ w. w.doc)
    let rows = chunk_rows doc.id doc.workspace_id doc.source_type 0 chunks
    modify (replace_chunks rows)
    commit
    return rows

  -- `vector_store.upsert`
  pub upsert : List (VectorPoint sv.Vector) → Flow Unit
  upsert points st = elim (sv.upsert points) [
    | err e ↦ (err e, st)
    | ok _ ↦ (ok tt, record st { index = st.index ++ points })
  ]

  pub index_rows : List DocumentChunk → Flow Unit
  unfolding upsert points_of
  index_rows rows = do
    vectors ← call (sv.embed (map (λ r. r.chunk_text) rows))
    upsert (points_of rows vectors)

  -- Steps 11 and 12.
  pub embed_rows : List DocumentChunk → Flow Unit
  unfolding set_status commit index_rows
  embed_rows rows = do
    enter "embedding"
    set_status IngestionStatus.embedding "embedding" 12
    modify (λ w. record w { doc = record w.doc { embedding_status = EmbeddingStatus.in_progress } })
    commit
    if is_nonempty rows then index_rows rows else return tt
    modify (λ w. record w { doc = record w.doc { embedding_status = EmbeddingStatus.completed } })
    commit

  -- Steps 13 and 14; the answer is the number of entities.
  pub map_graph : ParsedDocument → List DocumentChunk → Flow ℕ
  unfolding set_status
  map_graph parsed rows = do
    enter "graph"
    set_status IngestionStatus.graph_mapping "graph" 14
    found ← call (sv.extract parsed.text)
    call (sv.upsert_graph found.1 (elim rows [ [] ↦ none | r ∷ _ ↦ some r.id ]))
    return found.0

  -- Steps 15 and 16.
  pub finish : ParsedDocument → ℕ → Flow Unit
  unfolding set_status commit
  finish parsed entities = do
    enter "finalize"
    modify (λ w. record w {
      doc = record w.doc {
        doc_metadata = record { page_count = some parsed.page_count; entities = some entities };
      };
    })
    set_status IngestionStatus.finalizing "finalize" 15
    set_status IngestionStatus.completed "completed" steps_total
    modify (λ w. record w { job = record w.job { completed_at = some sv.now } })
    commit

  -- The body of the `try` in `run`.
  pub pipeline : Flow Unit
  unfolding fetch parse tag chunk embed_rows map_graph finish
  pipeline = do
    bytes ← fetch
    parsed ← parse bytes
    tag parsed
    rows ← chunk bytes parsed
    embed_rows rows
    entities ← map_graph parsed rows
    finish parsed entities

  -- What the `except` clauses do.
  pub handle : Exc → Flow Unit
  unfolding dead_letter commit text_of
  handle (parse_error m) st =
      (dead_letter st.current (parse_error m) >> in_db (Db.raise (permanent m))) st
  handle stale_data st = in_db Db.rollback st
  handle e st =
      (modify (λ w. record w {
        doc = record w.doc {
          embedding_status =
              if str_eq st.current "embedding"
              then EmbeddingStatus.failed
              else w.doc.embedding_status;
        };
      })
          >> commit
          >> in_db (Db.raise (transient (append st.current (append ": " (text_of e))))))
        st

  pub handled : Result Unit → Flow Unit
  unfolding handle
  handled (ok _) st = (ok tt, st)
  handled (err e) st = handle e st

  pub run_loaded : Flow Unit
  unfolding handled pipeline
  run_loaded st = let (r, st') = pipeline st in handled r st'

-- `job` of a run: the newest of the document, or a new one.
abbrev pub job_or_new : ℕ → Document → Option IngestionJob → IngestionJob
job_or_new job_id doc (some job) = job
job_or_new job_id doc none = new_job job_id doc.id doc.workspace_id

abbrev pub start_state : {Vector : Type 0} → Work → List (VectorPoint Vector) → State Vector
start_state w index = record {
  session = Db.open_session w;
  commits = 0;
  current = "retrieve";
  index = index;
}

-- `run`: for the document and the newest job that the session finds.
pub run :
    (sv : Services)
    → ℕ
    → Option Document
    → Option IngestionJob
    → List DocumentChunk
    → List IngestionError
    → List (VectorPoint sv.Vector)
    → Result Unit × Option (State sv.Vector)
unfolding run_loaded new_job
run sv job_id none newest chunks errors index = (ok tt, none)
run sv job_id (some doc) newest chunks errors index =
    let work : Work = record {
      doc = doc;
      job = job_or_new job_id doc newest;
      chunks = chunks;
      errors = errors;
    } in
    let (r, st) = run_loaded sv (start_state work index) in (r, some st)

-- `mark_failed`, on the rows that its session finds: a stale row is rolled back and logged.
pub mark_failed : (present : Bool) → String → String → Work → Work
unfolding dead_letter_rows
mark_failed present step error w = if present then dead_letter_rows step (transient error) w else w

-- What `self.retry(exc=exc)` of the task library does: it plans another delivery, raises
-- `MaxRetriesExceededError`, or raises the exception that it was given.
pub data Retry : Type 0 where
  planned max_retries_exceeded reraised : Retry

pub data Ended : Type 0 where
  finished rescheduled : Ended
  raised : Exc → Ended

-- Whether an exception is `PermanentIngestionError`, or `TransientIngestionError`.
abbrev pub is_type : String → Exc → Bool
is_type t (other u m) = str_eq u t
is_type t (app e) = false
is_type t multiple_rows = false
is_type t stale_data = false
is_type t (parse_error m) = false

-- The task, on any state: `attempt n` is the run of the delivery after n retries.
module _ {S : Type 0} (retry : ℕ → Retry) (attempt : ℕ → Run S Unit)
    (give_up : String → S → S) where
  pub after_transient : Retry → Exc → S → Ended × S
  unfolding text_of
  after_transient planned e s = (rescheduled, s)
  after_transient max_retries_exceeded e s = (finished, give_up (text_of e) s)
  after_transient reraised e s = (raised e, s)

  pub ended : ℕ → Result Unit → S → Ended × S
  unfolding after_transient
  ended retries (ok _) s = (finished, s)
  ended retries (err e) s =
      if is_type "PermanentIngestionError" e
      then (finished, s)
      else if is_type "TransientIngestionError" e
      then after_transient (retry retries) e s
      else (raised e, s)

  -- `ingest_document`
  pub ingest_document : ℕ → S → Ended × S
  unfolding ended
  ingest_document retries s = let (r, s') = attempt retries s in ended retries r s'

  -- The deliveries of a task, one after the other, with fuel for their number.
  pub deliver : ℕ → ℕ → S → Ended × S
  unfolding ingest_document
  deliver zero retries s = (rescheduled, s)
  deliver (suc fuel) retries s =
      let (r, s') = ingest_document retries s in
      let rest = deliver fuel (retries + 1) s' in
      elim r [ rescheduled ↦ rest | finished ↦ (finished, s') | raised e ↦ (raised e, s') ]
