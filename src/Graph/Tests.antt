-- ===== src/Graph/Tests.antt =====
-- A person and a project, related, with a server that fails before the last statement.
use keel_be.Prelude.{[], ◌∷◌, codes, none, List}
use keel_be.Ner.{Entity, Relation}
use keel_be.Graph.{Graph, upsert_graph}
use keel_be.Graph.Shape.{IsValid, upsert_graph-IsValid}

abbrev found : List Entity
found =
    record { canonical_name = codes "Ada"; entity_type = codes "PERSON" }
    ∷ record { canonical_name = codes "Keel"; entity_type = codes "PROJECT" }
    ∷ []

abbrev related : List Relation
related =
    record {
      source = codes "Ada";
      target = codes "Keel";
      rel_type = codes "BELONGS_TO";
      confidence = 5000;
    }
    ∷ []

abbrev empty_graph : Graph
empty_graph = record { documents = []; nodes = []; mentions = []; edges = [] }

upsert_graph-IsValid_example : IsValid (upsert_graph 20 5 none 3 found related empty_graph)
upsert_graph-IsValid_example =
    upsert_graph-IsValid 20 5 none 3 found related empty_graph
      (record { unique = tt; mentioned = tt; related = tt })
