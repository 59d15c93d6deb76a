-- ===== src/VectorStore.antt =====
-- backend/app/stores/vector_store.py: the filter of every search. Qdrant is the parameter `Qdrant`;
-- a payload is a list of keys with their text values.
use keel_be.Prelude.{
  ℕ, String, Text, ◌≡◌, ◌≤◌, Bool, true, false, Option, none, some, List, [], ◌∷◌, ◌++◌, length,
  codes, is_nonempty, str_eq, text_eq, mem_text, All, if◌then◌else◌,
}
use keel_be.Core.Session.{Result, ok}

abbrev pub Payload : Type 0
Payload = List (String × Text)

-- `payload.get(key)`
abbrev pub field : String → Payload → Option Text
field k [] = none
field k ((j, v) ∷ p) = if str_eq j k then some v else field k p

-- `models.FieldCondition` with `MatchValue` or `MatchAny`.
pub data Condition : Type 0 where
  match_value : String → Text → Condition
  match_any : String → List Text → Condition

-- Whether a payload has a value that a condition asks for.
unfoldable pub meets : Payload → Condition → Bool
meets p (match_value k v) = elim (field k p) [ none ↦ false | some w ↦ text_eq w v ]
meets p (match_any k vs) = elim (field k p) [ none ↦ false | some w ↦ mem_text w vs ]

-- `SearchHit`; a point of Qdrant's answer has the same fields.
pub record SearchHit (Score : Type 0) : Type 0 where
  pub chunk_id : Text
  pub score : Score
  pub payload : Payload

-- `client.query_points`: collection, vector, conditions that must hold, limit, score threshold.
pub record Qdrant : Type 1 where
  pub Vector : Type 0
  pub Score : Type 0
  pub query_points :
      Text → Vector → List Condition → ℕ → Option Score → Result (List (SearchHit Score))

-- What Qdrant documents: every point of an answer meets every condition of the filter, and there are
-- at most as many as asked for.
pub record QdrantLaws (q : Qdrant) : Type 0 where
  pub filtered :
      (collection : Text) (v : q.Vector) (must : List Condition) (limit : ℕ)
      (threshold : Option q.Score) {points : List (SearchHit q.Score)}
      → q.query_points collection v must limit threshold ≡ ok points
      → All (λ p. All (λ c. meets p.payload c ≡ true) must) points
  pub limited :
      (collection : Text) (v : q.Vector) (must : List Condition) (limit : ℕ)
      (threshold : Option q.Score) {points : List (SearchHit q.Score)}
      → q.query_points collection v must limit threshold ≡ ok points
      → length points ≤ limit

-- `collection_name`, for the text of a workspace's identifier.
unfoldable pub collection_name : Text → Text
collection_name workspace = codes "ws_" ++ workspace

-- A condition on one of several values, if there are any.
abbrev pub any_of : String → Option (List Text) → List Condition
any_of k none = []
any_of k (some vs) = if is_nonempty vs then match_any k vs ∷ [] else []

-- `must` in `search`.
unfoldable pub must_of : Text → Option (List Text) → Option (List Text) → List Condition
must_of workspace source_types document_ids =
    match_value "workspace_id" workspace
    ∷ (any_of "source_type" source_types ++ any_of "document_id" document_ids)

-- `search workspace vector top_k score_threshold source_types document_ids`
unfoldable pub search_points :
    (q : Qdrant)
    → Text
    → q.Vector
    → ℕ
    → Option q.Score
    → Option (List Text)
    → Option (List Text)
    → Result (List (SearchHit q.Score))
unfolding must_of collection_name
search_points q workspace v top_k threshold source_types document_ids =
    q.query_points (collection_name workspace) v (must_of workspace source_types document_ids) top_k
      threshold
