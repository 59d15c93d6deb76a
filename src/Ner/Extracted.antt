-- ===== src/Ner/Extracted.antt =====
-- backend/app/services/ner.py: what an extraction answers.
use keel_be.Prelude.{
  ℕ, ◌≡◌, Text, true, ◌&&◌, List, [], ◌∷◌, arith, All, Bool-cases, inl, inr, is_nonempty, or_else,
  mem_text, strip, take,
}
use keel_be.Core.Session.{Result, ok, err, then_result}
use keel_be.Ner.{
  Entity, Relation, RawEntity, RawRelation, Extraction, entity_types, relation_types, kind_of,
  entities_of, relations_of, extract, parse_answer, or_nothing,
}

abbrev KnownEntity : Entity → Type 0
KnownEntity e = mem_text e.entity_type entity_types ≡ true

abbrev KnownRelation : Relation → Type 0
KnownRelation r = mem_text r.rel_type relation_types ≡ true

-- Entities and relations of the types that the graph knows.
abbrev pub Known : List Entity × List Relation → Type 0
Known found = All KnownEntity found.0 × All KnownRelation found.1

module _ (upper : Text → Text) where
  entities_of-Known : (es : List RawEntity) → All KnownEntity (entities_of upper es)
  unfolding entities_of
  entities_of-Known [] = tt
  entities_of-Known (e ∷ es) =
      elim (Bool-cases
        (is_nonempty (or_else e.name []) && mem_text (kind_of upper e.kind) entity_types)) [
          | inr other ↦ rw other (entities_of-Known es)
          | inl named ↦ rw named (ground (arith, named), entities_of-Known es)
        ]

  abbrev KnownRelations : Result (List Relation) → Type 0
  KnownRelations (ok rs) = All KnownRelation rs
  KnownRelations (err e) = Unit

  add_relation :
      (confidence : Result ℕ) (rest : Result (List Relation)) (r : ℕ → Relation)
      → ((n : ℕ) → KnownRelation (r n))
      → KnownRelations rest
      → KnownRelations (then_result confidence (λ n. then_result rest (λ found. ok (r n ∷ found))))
  add_relation (err e) rest r h k = tt
  add_relation (ok n) (err e) r h k = tt
  add_relation (ok n) (ok found) r h k = (h n, k)

  relations_of-Known : (rs : List RawRelation) → KnownRelations (relations_of upper rs)
  unfolding relations_of
  relations_of-Known [] = tt
  relations_of-Known (r ∷ rs) =
      elim (Bool-cases (
        is_nonempty (or_else r.source [])
        && is_nonempty (or_else r.target [])
        && mem_text (kind_of upper r.kind) relation_types)) [
          | inr other ↦ rw other (relations_of-Known rs)
          | inl named ↦ rw named (
              add_relation r.confidence (relations_of upper rs) _ (λ n. ground (arith, named))
                (relations_of-Known rs))
        ]

  parsed-Known :
      (answer : Result Extraction)
      → Known (
          or_nothing upper (
            then_result answer (λ data'.
              then_result
                (relations_of upper data'.relationships)
                (λ relations. ok (entities_of upper data'.entities, relations)))))
  parsed-Known (err e) = (tt, tt)
  parsed-Known (ok data') =
      go (relations_of upper data'.relationships) (relations_of-Known data'.relationships)
    where
      go :
          (rs : Result (List Relation))
          → KnownRelations rs
          → Known (
              or_nothing upper
                (then_result rs (λ relations. ok (entities_of upper data'.entities, relations))))
      go (err e) h = (tt, tt)
      go (ok rs) h = (entities_of-Known data'.entities, h)

  -- Whatever the model answers, and whether it answers or not, an extraction returns entities and
  -- relations of the known types only.
  pub extract-Known :
      (call : Text → Result Text) (loads : Text → Result Extraction) (text : Text)
      → Known (extract upper call loads text)
  unfolding extract
  extract-Known call loads text = elim (Bool-cases (is_nonempty (strip text))) [
    | inr blank ↦ rw blank (tt, tt)
    | inl filled ↦ rw filled (go (call (take 24000 text)))
  ]
    where
      go :
          (answer : Result Text)
          → Known (
              or_nothing upper (
                then_result answer (λ a. then_result (parse_answer loads a) (λ data'.
                  then_result
                    (relations_of upper data'.relationships)
                    (λ relations. ok (entities_of upper data'.entities, relations))))))
      go (err e) = (tt, tt)
      go (ok a) = parsed-Known (parse_answer loads a)
