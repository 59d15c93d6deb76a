-- ===== src/Worker/Pipeline.antt =====
-- backend/ingestion/worker_flow.py: a run in which every service answers.
use mathlib.Core.List.{append-nil}
use keel_be.Prelude.{
  ◌+◌, ℕ, String, Text, ◌≡◌, ap, refl, inl, inr, true, not, Option, some, List, [], ◌∷◌, ◌++◌, ◌==◌,
  map, select, length, is_nonempty, arith, if◌then◌else◌, Bool-cases,
}
use keel_be.Models.Enums.{IngestionStatus, EmbeddingStatus}
use keel_be.Models.Ingestion.{Document, DocumentChunk}
use keel_be.Core.Session.{ok}
use keel_be.Parsing.{ParsedDocument}
use keel_be.Chunking.{ChunkData}
use keel_be.Worker.{
  Work, Services, State, start_state, run_loaded, pipeline, handled, fetch, parse, tag, chunk,
  embed_rows, map_graph, finish, set_status, commit, upsert, index_rows, chunk_rows, points_of,
  replace_chunks, VectorPoint,
}

-- Every service answers, for the bytes, the parsed document, the vectors and the graph named here,
-- with one vector for each text sent, and the rows of the run are not taken away.
pub record Serves (sv : Services) (doc : Document) : Type 0 where
  pub path : Text
  pub bytes : List ℕ
  pub parsed : ParsedDocument
  pub vectors : List sv.Vector
  pub found : ℕ × sv.Graph
  pub stored : doc.storage_path ≡ some path
  pub fetched : sv.get_bytes path ≡ ok bytes
  pub nonempty : is_nonempty bytes ≡ true
  pub parses : sv.parse bytes doc.file_type doc.size_bytes ≡ ok parsed
  pub embeds :
      sv.embed (
        map
          (λ r. r.chunk_text)
          (chunk_rows sv doc.id doc.workspace_id doc.source_type 0 (sv.chunk_parsed parsed)))
      ≡ ok vectors
  pub one_each :
      length vectors
      ≡ length (chunk_rows sv doc.id doc.workspace_id doc.source_type 0 (sv.chunk_parsed parsed))
  pub upserts : (points : List (VectorPoint sv.Vector)) → sv.upsert points ≡ ok tt
  pub extracts : sv.extract parsed.text ≡ ok found
  pub maps : (first : Option ℕ) → sv.upsert_graph found.1 first ≡ ok tt
  pub present : (n : ℕ) → sv.present n ≡ true

module _ (sv : Services) (w : Work) (index : List (VectorPoint sv.Vector))
    (s : Serves sv w.doc) where
  abbrev start : State sv.Vector
  start = start_state w index

  -- What `_set_status` and its commit leave.
  abbrev status_set : IngestionStatus → String → ℕ → State sv.Vector → State sv.Vector
  status_set status step done st =
      let w' : Work = record st.session.working {
        doc = record st.session.working.doc { ingestion_status = status; current_step = some step };
        job = record st.session.working.job {
          status = status;
          current_step = step;
          steps_completed = done;
        };
      } in
      record st { session = record { committed = w'; working = w' }; commits = st.commits + 1 }

  set_status_lem :
      (status : IngestionStatus) (step : String) (done : ℕ) (st : State sv.Vector)
      → set_status sv status step done st ≡ (ok tt, status_set status step done st)
  unfolding set_status commit
  set_status_lem status step done st = rw (s.present st.commits) refl

  abbrev st1 : State sv.Vector
  st1 = status_set IngestionStatus.processing "retrieve" 1 start

  fetch_lem : fetch sv start ≡ (ok s.bytes, st1)
  unfolding fetch
  fetch_lem =
      rw (set_status_lem IngestionStatus.processing "retrieve" 1 start, s.stored, s.fetched) refl

  abbrev st2 : State sv.Vector
  st2 = status_set IngestionStatus.parsing "parse" 3 (record st1 { current = "parse" })

  parse_lem : parse sv s.bytes st1 ≡ (ok s.parsed, st2)
  unfolding parse
  parse_lem =
      rw
        (
          set_status_lem IngestionStatus.parsing "parse" 3 (record st1 { current = "parse" }),
          s.nonempty,
          s.parses,
        )
        refl

  -- What a write and its commit leave.
  abbrev saved : (Work → Work) → State sv.Vector → State sv.Vector
  saved f st = record st {
    session = record { committed = f st.session.working; working = f st.session.working };
    commits = st.commits + 1;
  }

  abbrev entered : String → State sv.Vector → State sv.Vector
  entered step st = record st { current = step }

  abbrev tags_after : List Text
  tags_after = if is_nonempty w.doc.tags then w.doc.tags else sv.generate_tags s.parsed.text

  abbrev st3 : State sv.Vector
  st3 = status_set IngestionStatus.tagging "tagging" 5 (entered "tagging" st2)

  abbrev st4 : State sv.Vector
  st4 = record (saved (λ w. record w { doc = record w.doc { tags = tags_after } }) st3) {
    commits = if is_nonempty w.doc.tags then st3.commits else st3.commits + 1;
  }

  tag_lem : tag sv s.parsed st2 ≡ (ok tt, st4)
  unfolding tag commit
  tag_lem =
      rw (set_status_lem IngestionStatus.tagging "tagging" 5 (entered "tagging" st2))
        (elim (Bool-cases (is_nonempty w.doc.tags)) [
          | inl tagged ↦ rw tagged refl
          | inr untagged ↦ rw (untagged, s.present) refl
        ])

  abbrev rows : List DocumentChunk
  rows = chunk_rows sv w.doc.id w.doc.workspace_id w.doc.source_type 0 (sv.chunk_parsed s.parsed)

  abbrev st5 : State sv.Vector
  st5 = status_set IngestionStatus.chunking "chunking" 6 (entered "chunking" st4)

  abbrev st6 : State sv.Vector
  st6 =
      saved
        (λ w.
          replace_chunks rows
            (record w { doc = record w.doc { content_hash = some (sv.sha256 s.bytes) } }))
        (entered "persist_chunks" st5)

  chunk_lem : chunk sv s.bytes s.parsed st4 ≡ (ok rows, st6)
  unfolding chunk commit replace_chunks chunk_rows
  chunk_lem =
      rw
        (
          set_status_lem IngestionStatus.chunking "chunking" 6 (entered "chunking" st4),
          s.nonempty,
          s.present,
        )
        refl

  abbrev in_progress : Work → Work
  in_progress w = record w { doc = record w.doc { embedding_status = EmbeddingStatus.in_progress } }

  abbrev embedded : Work → Work
  embedded w = record w { doc = record w.doc { embedding_status = EmbeddingStatus.completed } }

  abbrev st7 : State sv.Vector
  st7 =
      saved in_progress
        (status_set IngestionStatus.embedding "embedding" 12 (entered "embedding" st6))

  abbrev points : List (VectorPoint sv.Vector)
  points = if is_nonempty rows then points_of sv rows s.vectors else []

  abbrev st8 : State sv.Vector
  st8 = saved embedded (record st7 { index = index ++ points })

  embed_lem : embed_rows sv rows st6 ≡ (ok tt, st8)
  unfolding embed_rows commit index_rows upsert
  embed_lem =
      rw
        (
          set_status_lem IngestionStatus.embedding "embedding" 12 (entered "embedding" st6),
          s.present,
        )
        (elim (Bool-cases (is_nonempty rows)) [
          | inl some' ↦ rw (some', s.embeds, upsert, s.upserts, s.present) refl
          | inr none' ↦ rw (none', s.present, append-nil) refl
        ])

  abbrev st9 : State sv.Vector
  st9 = status_set IngestionStatus.graph_mapping "graph" 14 (entered "graph" st8)

  map_graph_lem : map_graph sv s.parsed rows st8 ≡ (ok s.found.0, st9)
  unfolding map_graph
  map_graph_lem =
      rw
        (
          set_status_lem IngestionStatus.graph_mapping "graph" 14 (entered "graph" st8),
          s.extracts,
          s.maps,
        )
        refl

  abbrev described : Work → Work
  described w = record w {
    doc = record w.doc {
      doc_metadata = record { page_count = some s.parsed.page_count; entities = some s.found.0 };
    };
  }

  abbrev before_finalizing : State sv.Vector
  before_finalizing = record (entered "finalize" st9) {
    session = record st9.session { working = described st9.session.working };
  }

  abbrev st10 : State sv.Vector
  st10 =
      saved (λ w. record w { job = record w.job { completed_at = some sv.now } })
        (status_set IngestionStatus.completed "completed" 16
          (status_set IngestionStatus.finalizing "finalize" 15 before_finalizing))

  finish_lem : finish sv s.parsed s.found.0 st9 ≡ (ok tt, st10)
  unfolding finish commit
  finish_lem =
      rw
        (
          set_status_lem IngestionStatus.finalizing "finalize" 15 before_finalizing,
          set_status_lem IngestionStatus.completed "completed" 16
              (status_set IngestionStatus.finalizing "finalize" 15 before_finalizing),
          s.present,
        )
        refl

  -- The point of a chunk and its vector.
  abbrev point_of : DocumentChunk → sv.Vector → VectorPoint sv.Vector
  point_of c v = record {
    chunk_id = c.id;
    vector = v;
    workspace_id = c.workspace_id;
    document_id = c.document_id;
    chunk_text = c.chunk_text;
  }

  -- The row of a chunk and its position.
  abbrev row_of : ℕ → ChunkData → DocumentChunk
  row_of i c = record {
    id = sv.chunk_id i;
    document_id = w.doc.id;
    workspace_id = w.doc.workspace_id;
    chunk_index = c.chunk_index;
    chunk_text = c.chunk_text;
    token_count = c.token_count;
    section_ref = c.section_ref;
    source_type = w.doc.source_type;
  }

  no_points :
      (rs : List DocumentChunk) (vs : List sv.Vector)
      → (if is_nonempty rs then points_of sv rs vs else []) ≡ points_of sv rs vs
  unfolding points_of
  no_points [] vs = refl
  no_points (r ∷ rs) vs = refl

  -- What a point takes from its chunk, read off the points, is read off the chunks.
  map-points_of :
      {B : Type 0} (f : VectorPoint sv.Vector → B) (g : DocumentChunk → B)
      → ((c : DocumentChunk) (v : sv.Vector) → f (point_of c v) ≡ g c)
      → (rs : List DocumentChunk) (vs : List sv.Vector) → length vs ≡ length rs
      → map f (points_of sv rs vs) ≡ map g rs
  unfolding points_of
  map-points_of f g same [] vs h = refl
  map-points_of f g same (r ∷ rs) [] h = absurd (omega (arith, h))
  map-points_of f g same (r ∷ rs) (v ∷ vs) h =
      rw (same r v, map-points_of f g same rs vs (omega (arith, h))) refl

  vectors-points_of :
      (rs : List DocumentChunk) (vs : List sv.Vector)
      → length vs ≡ length rs
      → map (λ p. p.vector) (points_of sv rs vs) ≡ vs
  unfolding points_of
  vectors-points_of [] [] h = refl
  vectors-points_of [] (v ∷ vs) h = absurd (omega (arith, h))
  vectors-points_of (r ∷ rs) [] h = absurd (omega (arith, h))
  vectors-points_of (r ∷ rs) (v ∷ vs) h =
      ap (λ l. v ∷ l) (vectors-points_of rs vs (omega (arith, h)))

  pipeline_lem : pipeline sv start ≡ (ok tt, st10)
  unfolding pipeline
  pipeline_lem =
      rw (fetch_lem, parse_lem, tag_lem, chunk_lem, embed_lem, map_graph_lem, finish_lem) refl

  -- What a row takes from its chunk, read off the rows, is read off the chunks.
  map-chunk_rows :
      {B : Type 0} (f : DocumentChunk → B) (g : ChunkData → B)
      → ((i : ℕ) (c : ChunkData) → f (row_of i c) ≡ g c)
      → (i : ℕ) (cs : List ChunkData)
      → map f (chunk_rows sv w.doc.id w.doc.workspace_id w.doc.source_type i cs) ≡ map g cs
  unfolding chunk_rows
  map-chunk_rows f g same i [] = refl
  map-chunk_rows f g same i (c ∷ cs) = rw (same i c, map-chunk_rows f g same (i + 1) cs) refl

  -- If the document has a stored file that is not empty, and every service answers, with one vector for
  -- each text that it is sent, a run returns, and what it has committed is a document that is completed,
  -- with its tags kept or, if it had none, generated, and a job that is completed after 16 steps; the
  -- chunks of the parsed document, with their texts and numbers and the document's workspace, are the only ones of the document, those of other documents stand as
  -- they were, and the document counts its own. To the index the run adds one point for each chunk, in
  -- their order, with the chunk's identifier, text, document and workspace and its own vector.
  pub run_loaded_lem :
      let (r, st) = run_loaded sv start in
      let w' = st.session.committed in
      (r ≡ ok tt)
      × (w'.doc.ingestion_status ≡ IngestionStatus.completed)
      × (w'.doc.embedding_status ≡ EmbeddingStatus.completed)
      × (w'.doc.tags
          ≡ (if is_nonempty w.doc.tags then w.doc.tags else sv.generate_tags s.parsed.text))
      × (w'.doc.chunk_count ≡ some (length rows))
      × (w'.chunks ≡ select (λ c. not (c.document_id == w.doc.id)) w.chunks ++ rows)
      × (map (λ c. c.chunk_text) rows ≡ map (λ c. c.chunk_text) (sv.chunk_parsed s.parsed))
      × (map (λ c. c.chunk_index) rows ≡ map (λ c. c.chunk_index) (sv.chunk_parsed s.parsed))
      × (map (λ c. c.document_id) rows ≡ map (λ c. w.doc.id) (sv.chunk_parsed s.parsed))
      × (map (λ c. c.workspace_id) rows ≡ map (λ c. w.doc.workspace_id) (sv.chunk_parsed s.parsed))
      × (w'.job.status ≡ IngestionStatus.completed)
      × (w'.job.steps_completed ≡ 16)
      × (w'.job.completed_at ≡ some sv.now)
      × (w'.errors ≡ w.errors)
      × (added : List (VectorPoint sv.Vector)) × (st.index ≡ index ++ added)
      × (map (λ p. p.chunk_id) added ≡ map (λ c. c.id) rows)
      × (map (λ p. p.chunk_text) added ≡ map (λ c. c.chunk_text) rows)
      × (map (λ p. p.document_id) added ≡ map (λ c. c.document_id) rows)
      × (map (λ p. p.workspace_id) added ≡ map (λ c. c.workspace_id) rows)
      × (map (λ p. p.vector) added ≡ s.vectors)
  unfolding run_loaded handled replace_chunks
  run_loaded_lem = rw pipeline_lem (
    refl,
    refl,
    refl,
    refl,
    refl,
    refl,
    map-chunk_rows (λ c. c.chunk_text) (λ c. c.chunk_text) (λ i c. refl) 0
        (sv.chunk_parsed s.parsed),
    map-chunk_rows (λ c. c.chunk_index) (λ c. c.chunk_index) (λ i c. refl) 0
        (sv.chunk_parsed s.parsed),
    map-chunk_rows (λ c. c.document_id) (λ c. w.doc.id) (λ i c. refl) 0 (sv.chunk_parsed s.parsed),
    map-chunk_rows (λ c. c.workspace_id) (λ c. w.doc.workspace_id) (λ i c. refl) 0
        (sv.chunk_parsed s.parsed),
    refl,
    refl,
    refl,
    refl,
    points_of sv rows s.vectors,
    ap (λ ps. index ++ ps) (no_points rows s.vectors),
    map-points_of (λ p. p.chunk_id) (λ c. c.id) (λ c v. refl) rows s.vectors s.one_each,
    map-points_of (λ p. p.chunk_text) (λ c. c.chunk_text) (λ c v. refl) rows s.vectors s.one_each,
    map-points_of (λ p. p.document_id) (λ c. c.document_id) (λ c v. refl) rows s.vectors s.one_each,
    map-points_of (λ p. p.workspace_id) (λ c. c.workspace_id) (λ c v. refl) rows s.vectors
        s.one_each,
    vectors-points_of rows s.vectors s.one_each,
  )
