-- ===== src/Retrieval/Tenant.antt =====
-- backend/app/services/retrieval_service.py: the workspace of the chunks that a search returns.
use Prim.Native.String.{String}
use mathlib.Core.Path.{subst}
use keel_be.Prelude.{
  ℕ, Text, ◌≡◌, refl, ◌∙◌, inl, inr, Bool, true, false, not, Option, none, some, List, [], ◌∷◌,
  ◌++◌, map, All, is_nonempty, str_eq, eq_iff, text_eq-eq, mem_text, select, arith, Bool-cases,
  Option-cases, if◌then◌else◌,
}
use keel_be.Core.Session.{Result, ok, err}
use keel_be.Core.Settings.{Settings}
use keel_be.VectorStore.{
  Payload, field, SearchHit, Condition, match_value, meets, QdrantLaws, search_points, must_of,
  collection_name, any_of,
}
use keel_be.Retrieval.{
  RetrievedChunk, Sources, Chunk, chunk_from_hit, insert_by_score, sort_by_score, unseen, augmented,
  retrieve, number_or, score_or, graph_augment_limit,
}

-- Dropping the text of a payload keeps its other keys.
field-select :
    (k : String) (p : Payload)
    → str_eq "chunk_text" k ≡ false
    → field k (select (λ e. not (str_eq e.0 "chunk_text")) p) ≡ field k p
field-select k [] h = refl
field-select k (e ∷ p) h =
    ground (arith, field-select k p h, eq_iff e.0 "chunk_text", eq_iff e.0 k, eq_iff "chunk_text" k)

-- The chunk carries the workspace in its metadata.
abbrev pub IsOf : {Score : Type 0} → Text → RetrievedChunk Score → Type 0
IsOf workspace c = field "workspace_id" c.metadata ≡ some workspace

module _ {Score : Type 0} (workspace : Text) where
  chunk_from_hit-IsOf :
      (h : SearchHit Score)
      → meets h.payload (match_value "workspace_id" workspace) ≡ true
      → IsOf workspace (chunk_from_hit h)
  unfolding chunk_from_hit meets
  chunk_from_hit-IsOf h m =
      field-select "workspace_id" h.payload refl
      ∙ elim (Option-cases (field "workspace_id" h.payload)) [
        | inl absent ↦ absurd (ground arith)
        | inr (w, found) ↦ ground (arith, text_eq-eq w workspace)
      ]

module _ (src : Sources) (laws : QdrantLaws src.qdrant) (workspace : Text) where
  -- Every hit of a search is of the workspace.
  abbrev HitsOf : List (SearchHit src.qdrant.Score) → Type 0
  HitsOf hs = All (λ h. meets h.payload (match_value "workspace_id" workspace) ≡ true) hs

  heads_of :
      (must : List Condition) (hs : List (SearchHit src.qdrant.Score))
      → All
          (λ p. All (λ c. meets p.payload c ≡ true) (match_value "workspace_id" workspace ∷ must))
          hs
      → HitsOf hs
  heads_of must [] h = tt
  heads_of must (p ∷ hs) h = (h.0.0, heads_of must hs h.1)

  search_points-HitsOf :
      (v : src.qdrant.Vector) (k : ℕ) (t : Option src.qdrant.Score)
      (sources ids : Option (List Text)) {hs : List (SearchHit src.qdrant.Score)}
      → search_points src.qdrant workspace v k t sources ids ≡ ok hs
      → HitsOf hs
  unfolding search_points
  search_points-HitsOf v k t sources ids {hs} e =
      heads_of (any_of "source_type" sources ++ any_of "document_id" ids) hs
        (laws.filtered (collection_name workspace) v (must_of workspace sources ids) k t e)

  abbrev ChunksOf : List (Chunk src) → Type 0
  ChunksOf cs = All (IsOf workspace) cs

  map-ChunksOf :
      (hs : List (SearchHit src.qdrant.Score)) → HitsOf hs → ChunksOf (map chunk_from_hit hs)
  map-ChunksOf [] h = tt
  map-ChunksOf (x ∷ hs) h = (chunk_from_hit-IsOf workspace x h.0, map-ChunksOf hs h.1)

  chosen :
      (b : Bool) (cs ds : List (Chunk src))
      → ChunksOf cs
      → ChunksOf ds
      → ChunksOf (if b then cs else ds)
  chosen true cs ds h k = h
  chosen false cs ds h k = k

  unseen-ChunksOf :
      (seen : List Text) (hs : List (SearchHit src.qdrant.Score))
      → HitsOf hs
      → ChunksOf (unseen src seen hs)
  unfolding unseen
  unseen-ChunksOf seen [] h = tt
  unseen-ChunksOf seen (x ∷ hs) h = elim (Bool-cases (mem_text x.chunk_id seen)) [
    | inl old ↦ rw old (unseen-ChunksOf seen hs h.1)
    | inr new ↦ rw new (chunk_from_hit-IsOf workspace x h.0, unseen-ChunksOf seen hs h.1)
  ]

  append-ChunksOf : (cs ds : List (Chunk src)) → ChunksOf cs → ChunksOf ds → ChunksOf (cs ++ ds)
  append-ChunksOf [] ds h k = k
  append-ChunksOf (c ∷ cs) ds h k = (h.0, append-ChunksOf cs ds h.1 k)

  insert-ChunksOf :
      (c : Chunk src) (cs : List (Chunk src))
      → IsOf workspace c
      → ChunksOf cs
      → ChunksOf (insert_by_score src c cs)
  unfolding insert_by_score
  insert-ChunksOf c [] h k = (h, tt)
  insert-ChunksOf c (d ∷ ds) h k =
      chosen (src.leb_score d.score c.score) _ _ (h, k) (k.0, insert-ChunksOf c ds h k.1)

  sort-ChunksOf : (cs : List (Chunk src)) → ChunksOf cs → ChunksOf (sort_by_score src cs)
  unfolding sort_by_score
  sort-ChunksOf [] h = tt
  sort-ChunksOf (c ∷ cs) h = insert-ChunksOf c (sort_by_score src cs) h.0 (sort-ChunksOf cs h.1)

  augmented-ChunksOf :
      (query : Text) (v : src.qdrant.Vector) (t : src.qdrant.Score) (cs : List (Chunk src))
      → ChunksOf cs
      → ChunksOf (augmented src workspace query v t cs)
  unfolding augmented
  augmented-ChunksOf query v t cs h =
      elim (Bool-cases (is_nonempty (src.find_document_ids workspace query))) [
        | inr none' ↦ rw none' h
        | inl some' ↦ rw some' (
            extra-ChunksOf cs h
              (search_points src.qdrant workspace v graph_augment_limit (some t) none
                (some (src.find_document_ids workspace query)))
              refl)
      ]
    where
      extra-ChunksOf :
          (cs : List (Chunk src))
          → ChunksOf cs
          → (r : Result (List (SearchHit src.qdrant.Score)))
          → search_points src.qdrant workspace v graph_augment_limit
              (some t)
              none
              (some (src.find_document_ids workspace query))
            ≡ r
          → ChunksOf (elim r [
            | err _ ↦ cs
            | ok extra ↦ cs ++ unseen src (map (λ (c : Chunk src). c.chunk_id) cs) extra
          ])
      extra-ChunksOf cs h (err e) q = h
      extra-ChunksOf cs h (ok hs) q =
          append-ChunksOf cs _ h
            (unseen-ChunksOf _ hs (search_points-HitsOf v graph_augment_limit (some t) none _ q))

  -- The chunks of an answer, if it is one.
  abbrev AnswerOf : Result (List (Chunk src)) → Type 0
  AnswerOf (ok cs) = ChunksOf cs
  AnswerOf (err e) = Unit

  retrieve-AnswerOf :
      (settings : Settings) (query : Text) (top_k : Option ℕ) (min_score : Option src.qdrant.Score)
      (sources : Option (List Text)) (augment : Bool)
      → AnswerOf (retrieve src settings workspace query top_k min_score sources augment)
  unfolding retrieve
  retrieve-AnswerOf settings query top_k min_score sources augment =
      by_vector (src.embed_query query)
    where
      threshold : src.qdrant.Score
      threshold = score_or src min_score

      Found : src.qdrant.Vector → Result (List (SearchHit src.qdrant.Score))
      Found v =
          search_points src.qdrant workspace v (number_or src top_k settings.chat_top_k)
            (some threshold) sources none

      by_hits :
          (v : src.qdrant.Vector) (found : Result (List (SearchHit src.qdrant.Score)))
          → Found v ≡ found
          → AnswerOf (elim found [
            | err e ↦ err e
            | ok hits ↦
                let chunks : List (Chunk src) = map chunk_from_hit hits in
                ok (
                  sort_by_score src
                    (if augment then augmented src workspace query v threshold chunks else chunks))
          ])
      by_hits v (err e) q = tt
      by_hits v (ok hits) q =
          let here = map-ChunksOf hits (search_points-HitsOf v _ _ sources none q) in
          sort-ChunksOf _ (chosen augment _ _ (augmented-ChunksOf query v threshold _ here) here)

      by_vector :
          (answer : Result src.qdrant.Vector)
          → AnswerOf (elim answer [
            | err e ↦ err e
            | ok v ↦ elim (Found v) [
              | err e ↦ err e
              | ok hits ↦
                  let chunks : List (Chunk src) = map chunk_from_hit hits in
                  ok (
                    sort_by_score src (
                      if augment then augmented src workspace query v threshold chunks else chunks))
            ]
          ])
      by_vector (err e) = tt
      by_vector (ok v) = by_hits v (Found v) refl

-- If `retrieve` for a workspace answers, then every chunk of its answer carries that workspace, those
-- that the graph added included. (Qdrant answers only points that meet the filter.)
pub retrieve-ChunksOf :
    (src : Sources)
    → QdrantLaws src.qdrant
    → (settings : Settings) (workspace query : Text) (top_k : Option ℕ)
      (min_score : Option src.qdrant.Score) (sources : Option (List Text)) (augment : Bool)
      {cs : List (Chunk src)}
    → retrieve src settings workspace query top_k min_score sources augment ≡ ok cs
    → All (IsOf workspace) cs
retrieve-ChunksOf src laws settings workspace query top_k min_score sources augment e =
    subst (AnswerOf src laws workspace) e
      (retrieve-AnswerOf src laws workspace settings query top_k min_score sources augment)
