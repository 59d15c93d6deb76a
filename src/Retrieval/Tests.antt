-- ===== src/Retrieval/Tests.antt =====
-- A vector database of two points, and runs of the search and of the assembly over it.
use keel_be.Prelude.{
  subst, text_eq, ℕ, zero, suc, ◌≡◌, ◌≤◌, refl, Text, Bool, true, ◌&&◌, Option, none, some, List,
  [], ◌∷◌, map, take, select, length, ltb, leb, All, codes, join, arith, Bool-cases, inl, inr,
}
use keel_be.Core.Session.{Result, ok, err}
use keel_be.Core.Settings.{defaults}
use keel_be.VectorStore.{SearchHit, Condition, meets, Qdrant, QdrantLaws, search_points}
use keel_be.Retrieval.{
  RetrievedChunk, Assembly, Sources, chunk_from_hit, retrieve, assemble_context, block_of,
}
use keel_be.Retrieval.Tenant.{IsOf, retrieve-ChunksOf}
use keel_be.Retrieval.Context.{tokens_of, fitting, assemble_context_lem}

abbrev Hit : Type 0
Hit = SearchHit ℕ

abbrev point_of : Text → Text → Hit
point_of workspace text = record {
  chunk_id = text;
  score = 9;
  payload = ("workspace_id", workspace) ∷ ("chunk_text", text) ∷ [];
}

abbrev points : List Hit
points = point_of (codes "7") (codes "ours") ∷ point_of (codes "8") (codes "theirs") ∷ []

meets_all : List Condition → Hit → Bool
meets_all [] h = true
meets_all (c ∷ cs) h = meets h.payload c && meets_all cs h

meets_all-All :
    (cs : List Condition) (h : Hit) → meets_all cs h ≡ true → All (λ c. meets h.payload c ≡ true) cs
unfolding meets_all
meets_all-All [] h e = tt
meets_all-All (c ∷ cs) h e = (ground arith, meets_all-All cs h (ground arith))

abbrev Met : List Condition → Hit → Type 0
Met cs h = All (λ c. meets h.payload c ≡ true) cs

selected_Met : (cs : List Condition) (hs : List Hit) → All (Met cs) (select (meets_all cs) hs)
selected_Met cs [] = tt
selected_Met cs (h ∷ hs) = elim (Bool-cases (meets_all cs h)) [
  | inl met ↦ rw met (meets_all-All cs h met, selected_Met cs hs)
  | inr unmet ↦ rw unmet (selected_Met cs hs)
]

take-Met :
    (cs : List Condition) (n : ℕ) (hs : List Hit) → All (Met cs) hs → All (Met cs) (take n hs)
take-Met cs zero hs h = tt
take-Met cs (suc n) [] h = tt
take-Met cs (suc n) (x ∷ hs) h = (h.0, take-Met cs n hs h.1)

take_le : (n : ℕ) (hs : List Hit) → length (take n hs) ≤ n
take_le zero hs = omega arith
take_le (suc n) [] = omega arith
take_le (suc n) (x ∷ hs) = omega (arith, take_le n hs)

abbrev qdrant : Qdrant
qdrant = record {
  Vector = Unit;
  Score = ℕ;
  query_points =
      λ collection v must limit threshold. ok (take limit (select (meets_all must) points));
}

hits_of : Result (List Hit) → List Hit
hits_of (ok hs) = hs
hits_of (err e) = []

qdrant-QdrantLaws : QdrantLaws qdrant
unfolding hits_of
qdrant-QdrantLaws = record {
  filtered = λ collection v must limit threshold e.
      subst (λ r. All (Met must) (hits_of r)) e
        (take-Met must limit (select (meets_all must) points) (selected_Met must points));
  limited = λ collection v must limit threshold e.
      subst (λ r. length (hits_of r) ≤ limit) e (take_le limit (select (meets_all must) points));
}

abbrev sources : Sources
sources = record {
  qdrant = qdrant;
  leb_score = leb;
  embed_query = λ query. ok tt;
  find_document_ids = λ workspace query. codes "d" ∷ [];
  default_threshold = 1;
}

retrieve-ChunksOf_example :
    All (IsOf (codes "7")) (map chunk_from_hit (point_of (codes "7") (codes "ours") ∷ []))
unfolding retrieve search_points meets_all meets text_eq
retrieve-ChunksOf_example =
    retrieve-ChunksOf sources qdrant-QdrantLaws defaults (codes "7") (codes "query") none none none
      true refl

abbrev chunks : List (RetrievedChunk ℕ)
unfolding chunk_from_hit
chunks = map chunk_from_hit points

abbrev assembly : Option ℕ → Text × Assembly ℕ
assembly cap = assemble_context length defaults cap chunks

assemble_context_lem_example :
    let (text, a) = assembly (some 20) in
    (a.used ≡ fitting length 20 0 chunks)
    × (text ≡ join (10 ∷ 10 ∷ []) (map block_of a.used))
    × (a.total ≡ tokens_of length a.used)
    × (a.total ≤ 20)
    × (a.truncated ≡ ltb 20 (tokens_of length chunks))
assemble_context_lem_example = assemble_context_lem length defaults (some 20) chunks refl
