-- ===== src/Retrieval.antt =====
-- backend/app/services/retrieval_service.py: the search for a query, its augmentation by the graph,
-- and the assembly of the context under a cap of tokens.
pub mod Tenant
pub mod Context
mod Tests
use Prim.Native.String.{String}
use keel_be.Prelude.{
  ℕ, zero, suc, ◌+◌, Text, Bool, true, false, not, ◌&&◌, Option, none, some, List, [], ◌∷◌, ◌++◌,
  map, ltb, leb, ◌==◌, length, codes, is_nonempty, str_eq, mem_text, select, join, if◌then◌else◌,
}
use keel_be.Core.Session.{Result, ok, err}
use keel_be.Core.Settings.{Settings}
use keel_be.VectorStore.{Payload, field, SearchHit, Qdrant, search_points}

pub record RetrievedChunk (Score : Type 0) : Type 0 where
  pub chunk_id : Text
  pub document_id : Text
  pub document_name : Text
  pub source_type : Text
  pub section_ref : Option Text
  pub chunk_text : Text
  pub score : Score
  pub metadata : Payload

-- `p.get(key, default)`
abbrev text_or : Option Text → Text → Text
text_or none d = d
text_or (some t) d = t

-- `_chunk_from_hit`
unfoldable pub chunk_from_hit : {Score : Type 0} → SearchHit Score → RetrievedChunk Score
chunk_from_hit hit = record {
  chunk_id = hit.chunk_id;
  document_id = text_or (field "document_id" hit.payload) [];
  document_name = text_or (field "document_name" hit.payload) [];
  source_type = text_or (field "source_type" hit.payload) (codes "manual_upload");
  section_ref = field "section_ref" hit.payload;
  chunk_text = text_or (field "chunk_text" hit.payload) [];
  score = hit.score;
  metadata = select (λ e. not (str_eq e.0 "chunk_text")) hit.payload;
}

abbrev pub graph_augment_limit : ℕ
graph_augment_limit = 5

-- What `retrieve` calls: the gateway's `embed` of one text, the vector database, the order of its
-- scores, and the graph's documents for the names found in a query (empty on any failure there).
pub record Sources : Type 1 where
  pub qdrant : Qdrant
  pub leb_score : qdrant.Score → qdrant.Score → Bool
  pub embed_query : Text → Result qdrant.Vector
  pub find_document_ids : Text → Text → List Text
  pub default_threshold : qdrant.Score

module _ (src : Sources) where
  abbrev Hit : Type 0
  Hit = SearchHit src.qdrant.Score

  abbrev pub Chunk : Type 0
  Chunk = RetrievedChunk src.qdrant.Score

  -- `chunks.sort(key=score, reverse=True)`: stable, the highest first.
  pub insert_by_score : Chunk → List Chunk → List Chunk
  insert_by_score c [] = c ∷ []
  insert_by_score c (d ∷ ds) =
      let later = d ∷ insert_by_score c ds in
      if src.leb_score d.score c.score then c ∷ d ∷ ds else later

  pub sort_by_score : List Chunk → List Chunk
  unfolding insert_by_score
  sort_by_score [] = []
  sort_by_score (c ∷ cs) = insert_by_score c (sort_by_score cs)

  -- The hits whose chunks are not there yet: `seen` is the set of the identifiers found at first.
  pub unseen : List Text → List Hit → List Chunk
  unseen seen [] = []
  unseen seen (h ∷ hs) =
      let rest = unseen seen hs in
      if mem_text h.chunk_id seen then rest else chunk_from_hit h ∷ rest

  -- The augmentation by the documents of the graph; a failure of the search there adds nothing.
  pub augmented : Text → Text → src.qdrant.Vector → src.qdrant.Score → List Chunk → List Chunk
  unfolding unseen
  augmented workspace query vector threshold chunks =
      let ids = src.find_document_ids workspace query in
      if is_nonempty ids
      then (elim (search_points src.qdrant workspace vector graph_augment_limit (some threshold)
          none (some ids)) [
            | err _ ↦ chunks
            | ok extra ↦ chunks ++ unseen (map (λ (c : Chunk). c.chunk_id) chunks) extra
          ])
      else chunks

  abbrev pub number_or : Option ℕ → ℕ → ℕ
  number_or none d = d
  number_or (some n) d = if n == 0 then d else n

  abbrev pub score_or : Option src.qdrant.Score → src.qdrant.Score
  score_or none = src.default_threshold
  score_or (some t) = t

  -- `retrieve workspace query top_k min_score source_types augment`
  pub retrieve :
      Settings
      → Text
      → Text
      → Option ℕ
      → Option src.qdrant.Score
      → Option (List Text)
      → Bool
      → Result (List Chunk)
  unfolding augmented sort_by_score
  retrieve settings workspace query top_k min_score source_types augment =
      let k = number_or top_k settings.chat_top_k in
      let threshold = score_or min_score in
      elim (src.embed_query query) [
        | err e ↦ err e
        | ok vector ↦
            elim (search_points src.qdrant workspace vector k (some threshold) source_types none) [
              | err e ↦ err e
              | ok hits ↦
                  let chunks : List Chunk = map chunk_from_hit hits in
                  ok (
                    sort_by_score (
                      if augment
                      then augmented workspace query vector threshold chunks
                      else chunks))
            ]
      ]

-- The variables of the loop of `assemble_context`.
pub record Assembly (Score : Type 0) : Type 0 where
  pub parts : List Text
  pub used : List (RetrievedChunk Score)
  pub total : ℕ
  pub truncated : Bool

-- The block of a chunk: its source, its section if there is one, its text.
unfoldable pub block_of : {Score : Type 0} → RetrievedChunk Score → Text
block_of c =
    codes "[Source: "
    ++ (c.document_name
        ++ ((elim c.section_ref [
          | none ↦ codes "]"
          | some r ↦ if is_nonempty r then codes " — " ++ (r ++ codes "]") else codes "]"
        ])
            ++ (10 ∷ c.chunk_text)))

-- `max_tokens or settings.context_max_tokens`
abbrev pub cap_of : Settings → Option ℕ → ℕ
cap_of settings none = settings.context_max_tokens
cap_of settings (some n) = if n == 0 then settings.context_max_tokens else n

module _ {Score : Type 0} (count_tokens : Text → ℕ) where
  -- The loop: a chunk that does not fit is passed over.
  pub assemble : ℕ → Assembly Score → List (RetrievedChunk Score) → Assembly Score
  assemble cap a [] = a
  assemble cap a (c ∷ cs) =
      let tk = count_tokens (block_of c) in
      assemble cap
        (if ltb cap (a.total + tk) then record a { truncated = true } else record a {
          parts = a.parts ++ block_of c ∷ [];
          used = a.used ++ c ∷ [];
          total = a.total + tk;
        })
        cs

  -- `assemble_context chunks max_tokens`; the answer is the context, with the rest of the loop's result.
  unfoldable pub assemble_context :
      Settings → Option ℕ → List (RetrievedChunk Score) → Text × Assembly Score
  unfolding assemble
  assemble_context settings max_tokens chunks =
      let a =
        assemble (cap_of settings max_tokens)
          (record { parts = []; used = []; total = 0; truncated = false }) chunks in
      (join (10 ∷ 10 ∷ []) a.parts, a)
