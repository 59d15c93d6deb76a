-- ===== src/Graph.antt =====
-- backend/app/stores/graph_store.py: the graph that entities and relations are merged into.
pub mod Shape
mod Tests
use keel_be.Prelude.{
  ℕ, Text, Bool, true, false, ◌&&◌, ◌||◌, Option, none, some, List, [], ◌∷◌, ◌++◌, map, ◌==◌,
  is_nonempty, take, text_eq, if◌then◌else◌,
}
use keel_be.Ner.{Entity, Relation}

-- An `Entity` node, by the columns that are unique together.
pub record Node : Type 0 where
  pub workspace_id : ℕ
  pub entity_type : Text
  pub canonical_name : Text

pub record Mention : Type 0 where
  pub document_id : ℕ
  pub node : Node
  pub chunk_id : Option ℕ

pub record Edge : Type 0 where
  pub source : Node
  pub target : Node
  pub rel_type : Text
  pub document_id : ℕ
  pub confidence : ℕ

-- The graph; a document is its workspace and its identifier. Its metadata are left out, and the
-- confidence of a mention, which is always 1.
pub record Graph : Type 0 where
  pub documents : List (ℕ × ℕ)
  pub nodes : List Node
  pub mentions : List Mention
  pub edges : List Edge

unfoldable pub same_node : Node → Node → Bool
same_node m n =
    m.workspace_id == n.workspace_id
    && text_eq m.entity_type n.entity_type
    && text_eq m.canonical_name n.canonical_name

abbrev pub has_node : Node → List Node → Bool
has_node n [] = false
has_node n (m ∷ ms) = same_node m n || has_node n ms

-- `MERGE (e:Entity {…})`
unfoldable pub merge_node : Node → List Node → List Node
merge_node n ns = if has_node n ns then ns else ns ++ n ∷ []

abbrev pub has_document : ℕ → ℕ → List (ℕ × ℕ) → Bool
has_document ws doc [] = false
has_document ws doc (d ∷ ds) = (d.0 == ws && d.1 == doc) || has_document ws doc ds

-- `MERGE (d)-[r:MENTIONS]->(e) SET …`
unfoldable pub merge_mention : Mention → List Mention → List Mention
merge_mention m [] = m ∷ []
merge_mention m (x ∷ xs) =
    let later = x ∷ merge_mention m xs in
    if x.document_id == m.document_id && same_node x.node m.node
    then record x { chunk_id = m.chunk_id } ∷ xs
    else later

-- `MERGE (a)-[r:REL {rel_type:$rt}]->(b) SET …`
unfoldable pub merge_edge : Edge → List Edge → List Edge
merge_edge e [] = e ∷ []
merge_edge e (x ∷ xs) =
    let later = x ∷ merge_edge e xs in
    if same_node x.source e.source && same_node x.target e.target && text_eq x.rel_type e.rel_type
    then record x { document_id = e.document_id; confidence = e.confidence } ∷ xs
    else later

-- The statements that an upsert runs.
pub data Statement : Type 0 where
  merge_document : ℕ → ℕ → Statement
  mention : Mention → Statement
  relate : Edge → Statement

unfoldable pub run_statement : Statement → Graph → Graph
unfolding merge_node merge_mention merge_edge
run_statement (merge_document ws doc) g = record g {
  documents =
      if has_document ws doc g.documents then g.documents else g.documents ++ (ws, doc) ∷ [];
}
run_statement (mention m) g =
    if has_document m.node.workspace_id m.document_id g.documents
    then record g { nodes = merge_node m.node g.nodes; mentions = merge_mention m g.mentions }
    else g
run_statement (relate e) g = record g {
  nodes = merge_node e.target (merge_node e.source g.nodes);
  edges = merge_edge e g.edges;
}

unfoldable pub run_all : List Statement → Graph → Graph
run_all [] g = g
run_all (s ∷ ss) g = run_all ss (run_statement s g)

-- `type_by_name.get(name)`: the last entity of that name.
abbrev pub type_by_name : Text → List Entity → Option Text
type_by_name name [] = none
type_by_name name (e ∷ es) = elim (type_by_name name es) [
  | some t ↦ some t
  | none ↦ if text_eq e.canonical_name name then some e.entity_type else none
]

module _ (ws doc : ℕ) (chunk : Option ℕ) where
  abbrev node_of : Text → Text → Node
  node_of entity_type name = record {
    workspace_id = ws;
    entity_type = entity_type;
    canonical_name = name;
  }

  mention_statements : List Entity → List Statement
  mention_statements es =
      map
        (λ (e : Entity). mention (record {
          document_id = doc;
          node = node_of e.entity_type e.canonical_name;
          chunk_id = chunk;
        }))
        es

  relation_statements : List Entity → List Relation → List Statement
  relation_statements es [] = []
  relation_statements es (r ∷ rs) =
      let rest = relation_statements es rs in
      elim (type_by_name r.source es) [
        | none ↦ rest
        | some src_type ↦ elim (type_by_name r.target es) [
          | none ↦ rest
          | some tgt_type ↦
              relate (record {
                source = node_of src_type r.source;
                target = node_of tgt_type r.target;
                rel_type = r.rel_type;
                document_id = doc;
                confidence = r.confidence;
              })
              ∷ rest
        ]
      ]

  -- What an upsert runs; nothing, if there is nothing to merge.
  pub statements : List Entity → List Relation → List Statement
  unfolding mention_statements relation_statements
  statements es rs =
      if is_nonempty es || is_nonempty rs
      then merge_document ws doc ∷ (mention_statements es ++ relation_statements es rs)
      else []

  -- `upsert_graph`, against a server that answers the given number of statements: what follows the
  -- one that fails is not run, and nothing is raised.
  unfoldable pub upsert_graph : ℕ → List Entity → List Relation → Graph → Graph
  unfolding run_all
  upsert_graph answered es rs = run_all (take answered (statements es rs))
