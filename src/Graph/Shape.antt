-- ===== src/Graph/Shape.antt =====
-- backend/app/stores/graph_store.py: the shape of the graph.
use keel_be.Prelude.{
  ℕ, ◌≡◌, refl, ap, ◌∙◌, true, false, ◌&&◌, ◌||◌, Option, List, [], ◌∷◌, ◌++◌, ◌==◌, arith, take,
  All, text_eq, text_eq-eq, text_eq_refl, Bool-cases, inl, inr,
}
use keel_be.Ner.{Entity, Relation}
use keel_be.Graph.{
  Node, Mention, Edge, Graph, Statement, merge_document, mention, relate, same_node, has_node,
  merge_node, merge_mention, merge_edge, run_statement, run_all, statements, upsert_graph,
  has_document,
}

same_node_refl : (n : Node) → same_node n n ≡ true
unfolding same_node
same_node_refl n = ground (arith, text_eq_refl n.entity_type, text_eq_refl n.canonical_name)

same_node-eq :
    (m n : Node)
    → same_node m n ≡ true
    → (m.workspace_id ≡ n.workspace_id)
      × (m.entity_type ≡ n.entity_type)
      × (m.canonical_name ≡ n.canonical_name)
unfolding same_node
same_node-eq m n h = (
  ground (arith, h),
  text_eq-eq m.entity_type n.entity_type (ground (arith, h)),
  text_eq-eq m.canonical_name n.canonical_name (ground (arith, h)),
)

-- No two nodes have the columns of the constraint in common.
abbrev pub Unique : List Node → Type 0
Unique [] = Unit
Unique (n ∷ ns) = (has_node n ns ≡ false) × Unique ns

-- The nodes are unique, and a mention and a relation join nodes that are there.
pub record IsValid (g : Graph) : Type 0 where
  pub unique : Unique g.nodes
  pub mentioned : All (λ (m : Mention). has_node m.node g.nodes ≡ true) g.mentions
  pub related :
      All
        (λ (e : Edge). (has_node e.source g.nodes ≡ true) × (has_node e.target g.nodes ≡ true))
        g.edges

has_node-append :
    (x : Node) (ns : List Node) (n : Node)
    → has_node x (ns ++ n ∷ []) ≡ (has_node x ns || same_node n x)
has_node-append x [] n = ground arith
has_node-append x (m ∷ ns) n = ground (arith, has_node-append x ns n)

same_node_sym : (m n : Node) → same_node m n ≡ true → same_node n m ≡ true
unfolding same_node
same_node_sym m n h =
    let (w, t, c) = same_node-eq m n h in
    ground (
      arith,
      w,
      ap (λ x. text_eq n.entity_type x) t ∙ text_eq_refl n.entity_type,
      ap (λ x. text_eq n.canonical_name x) c ∙ text_eq_refl n.canonical_name,
    )

Unique-append :
    (ns : List Node) (n : Node) → has_node n ns ≡ false → Unique ns → Unique (ns ++ n ∷ [])
Unique-append [] n h u = (refl, tt)
Unique-append (m ∷ ns) n h u = elim (Bool-cases (same_node n m)) [
  | inl same ↦ absurd (ground (arith, h, same_node_sym n m same))
  | inr differs ↦ (
    has_node-append m ns n ∙ ground (arith, u.0, differs),
    Unique-append ns n (ground (arith, h)) u.1,
  )
]

merge_node-Unique : (n : Node) (ns : List Node) → Unique ns → Unique (merge_node n ns)
unfolding merge_node
merge_node-Unique n ns u = elim (Bool-cases (has_node n ns)) [
  | inl there ↦ rw there u
  | inr absent ↦ rw absent (Unique-append ns n absent u)
]

has_node-merge_self : (n : Node) (ns : List Node) → has_node n (merge_node n ns) ≡ true
unfolding merge_node
has_node-merge_self n ns = elim (Bool-cases (has_node n ns)) [
  | inl there ↦ rw there there
  | inr absent ↦ ground (arith, absent, has_node-append n ns n, same_node_refl n)
]

has_node-merge :
    (x n : Node) (ns : List Node) → has_node x ns ≡ true → has_node x (merge_node n ns) ≡ true
unfolding merge_node
has_node-merge x n ns h = elim (Bool-cases (has_node n ns)) [
  | inl there ↦ rw there h
  | inr absent ↦ ground (arith, absent, h, has_node-append x ns n)
]

All-weaken :
    {A : Type 0} {P Q : A → Type 0} (f : (x : A) → P x → Q x) (xs : List A) → All P xs → All Q xs
All-weaken f [] h = tt
All-weaken f (x ∷ xs) h = (f x h.0, All-weaken f xs h.1)

merge_mention-All :
    (ns : List Node) (m : Mention) (ms : List Mention)
    → has_node m.node ns ≡ true
    → All (λ (x : Mention). has_node x.node ns ≡ true) ms
    → All (λ (x : Mention). has_node x.node ns ≡ true) (merge_mention m ms)
unfolding merge_mention
merge_mention-All ns m [] h a = (h, tt)
merge_mention-All ns m (x ∷ ms) h a =
    elim (Bool-cases (x.document_id == m.document_id && same_node x.node m.node)) [
      | inl hit ↦ rw hit (a.0, a.1)
      | inr miss ↦ rw miss (a.0, merge_mention-All ns m ms h a.1)
    ]

abbrev Joined : List Node → Edge → Type 0
Joined ns e = (has_node e.source ns ≡ true) × (has_node e.target ns ≡ true)

merge_edge-All :
    (ns : List Node) (e : Edge) (es : List Edge)
    → Joined ns e
    → All (Joined ns) es
    → All (Joined ns) (merge_edge e es)
unfolding merge_edge
merge_edge-All ns e [] h a = (h, tt)
merge_edge-All ns e (x ∷ es) h a =
    elim (Bool-cases (
      same_node x.source e.source
      && same_node x.target e.target
      && text_eq x.rel_type e.rel_type)) [
        | inl hit ↦ rw hit (a.0, a.1)
        | inr miss ↦ rw miss (a.0, merge_edge-All ns e es h a.1)
      ]

run_statement-IsValid : (s : Statement) (g : Graph) → IsValid g → IsValid (run_statement s g)
unfolding run_statement
run_statement-IsValid (merge_document ws doc) g v = record {
  unique = v.unique;
  mentioned = v.mentioned;
  related = v.related;
}
run_statement-IsValid (mention m) g v =
    elim (Bool-cases (has_document m.node.workspace_id m.document_id g.documents)) [
      | inr absent ↦ rw absent v
      | inl there ↦ rw there (record {
        unique = merge_node-Unique m.node g.nodes v.unique;
        mentioned =
            merge_mention-All (merge_node m.node g.nodes) m g.mentions
              (has_node-merge_self m.node g.nodes)
              (All-weaken (λ (x : Mention) h. has_node-merge x.node m.node g.nodes h) g.mentions
                v.mentioned);
        related =
            All-weaken
              (λ (x : Edge) h. (
                has_node-merge x.source m.node g.nodes h.0,
                has_node-merge x.target m.node g.nodes h.1,
              ))
              g.edges v.related;
      })
    ]
run_statement-IsValid (relate e) g v =
    let ns = merge_node e.source g.nodes in
    let grow : (x : Node) → has_node x g.nodes ≡ true → has_node x (merge_node e.target ns) ≡ true =
      λ x h. has_node-merge x e.target ns (has_node-merge x e.source g.nodes h) in
    record {
      unique = merge_node-Unique e.target ns (merge_node-Unique e.source g.nodes v.unique);
      mentioned = All-weaken (λ (x : Mention) h. grow x.node h) g.mentions v.mentioned;
      related =
          merge_edge-All (merge_node e.target ns) e g.edges
            (
              has_node-merge e.source e.target ns (has_node-merge_self e.source g.nodes),
              has_node-merge_self e.target ns,
            )
            (All-weaken (λ (x : Edge) h. (grow x.source h.0, grow x.target h.1)) g.edges v.related);
    }

run_all-IsValid : (ss : List Statement) (g : Graph) → IsValid g → IsValid (run_all ss g)
unfolding run_all
run_all-IsValid [] g v = v
run_all-IsValid (s ∷ ss) g v = run_all-IsValid ss (run_statement s g) (run_statement-IsValid s g v)

-- An upsert, wherever the server fails in it, keeps the nodes unique by workspace, type and name, and
-- each mention and each relation joins nodes that are in the graph.
pub upsert_graph-IsValid :
    (ws doc : ℕ) (chunk : Option ℕ) (answered : ℕ) (es : List Entity) (rs : List Relation)
    (g : Graph)
    → IsValid g
    → IsValid (upsert_graph ws doc chunk answered es rs g)
unfolding upsert_graph
upsert_graph-IsValid ws doc chunk answered es rs g v =
    run_all-IsValid (take answered (statements ws doc chunk es rs)) g v
