-- ===== src/Ner.antt =====
-- backend/app/services/ner.py: the entities and relations that a model finds in a text.
pub mod Extracted
mod Tests
use keel_be.Prelude.{
  ℕ, Text, Bool, ◌&&◌, Option, none, some, or_else, List, [], ◌∷◌, ◌++◌, ◌==◌, codes, is_nonempty,
  take, strip, strip_by, mem_text, text_eq, if◌then◌else◌,
}
use keel_be.Core.Session.{Result, ok, err, then_result}

pub record Entity : Type 0 where
  pub canonical_name : Text
  pub entity_type : Text

-- `confidence` is in ten-thousandths.
pub record Relation : Type 0 where
  pub source : Text
  pub target : Text
  pub rel_type : Text
  pub confidence : ℕ

abbrev pub entity_types : List Text
entity_types =
    codes "PERSON"
    ∷ codes "ORGANIZATION"
    ∷ codes "PROJECT"
    ∷ codes "DOCUMENT"
    ∷ codes "PRODUCT"
    ∷ codes "DATE"
    ∷ codes "INDUSTRY"
    ∷ []

abbrev pub relation_types : List Text
relation_types =
    codes "MENTIONS" ∷ codes "AUTHORED_BY" ∷ codes "BELONGS_TO" ∷ codes "REFERENCES" ∷ []

-- What the JSON of an answer holds: the fields as texts, and `float` of a confidence.
pub record RawEntity : Type 0 where
  pub name : Option Text
  pub kind : Option Text

pub record RawRelation : Type 0 where
  pub source : Option Text
  pub target : Option Text
  pub kind : Option Text
  pub confidence : Result ℕ

pub record Extraction : Type 0 where
  pub entities : List RawEntity
  pub relationships : List RawRelation

-- The position of the first and of the last of a character, `none` for -1.
unfoldable pub from_first : ℕ → Text → Option Text
from_first c [] = none
from_first c (d ∷ s) = let later = from_first c s in if d == c then some (d ∷ s) else later

unfoldable pub to_last : ℕ → Text → Option Text
to_last c [] = none
to_last c (d ∷ s) = elim (to_last c s) [
  | some t ↦ some (d ∷ t)
  | none ↦ if d == c then some (d ∷ []) else none
]

-- The text without the fence of a code block.
abbrev pub unfenced : Text → Text
unfenced t = if text_eq (take 3 t) (codes "```") then strip_by (λ c. c == b'`') t else t

-- `_parse`, for `json.loads`: what stands from the first brace to the last one; an end before the
-- start leaves the empty text.
unfoldable pub parse_answer : (Text → Result Extraction) → Text → Result Extraction
unfolding from_first to_last
parse_answer loads content =
    let text = unfenced (strip content) in
    let nothing : Extraction = record { entities = []; relationships = [] } in
    elim (to_last b'}' text) [
      | none ↦ ok nothing
      | some upto ↦ elim (from_first b'{' text) [
        | none ↦ ok nothing
        | some _ ↦ loads (or_else (from_first b'{' upto) [])
      ]
    ]

module _ (upper : Text → Text) where
  -- `str(x.get("type", "")).strip().upper()`
  abbrev pub kind_of : Option Text → Text
  kind_of kind = upper (strip (or_else kind []))

  unfoldable pub entities_of : List RawEntity → List Entity
  entities_of [] = []
  entities_of (e ∷ es) =
      let rest = entities_of es in
      if is_nonempty (or_else e.name []) && mem_text (kind_of e.kind) entity_types
      then record { canonical_name = strip (or_else e.name []); entity_type = kind_of e.kind }
        ∷ rest
      else rest

  unfoldable pub relations_of : List RawRelation → Result (List Relation)
  relations_of [] = ok []
  relations_of (r ∷ rs) =
      let rest = relations_of rs in
      if is_nonempty (or_else r.source [])
        && is_nonempty (or_else r.target [])
        && mem_text (kind_of r.kind) relation_types
      then then_result r.confidence (λ confidence. then_result rest (λ found. ok (
          record {
            source = strip (or_else r.source []);
            target = strip (or_else r.target []);
            rel_type = kind_of r.kind;
            confidence = confidence;
          }
          ∷ found)))
      else rest

  -- `except Exception`
  abbrev pub or_nothing : Result (List Entity × List Relation) → List Entity × List Relation
  or_nothing (ok found) = found
  or_nothing (err e) = ([], [])

  -- `extract`, for the answer of the model to the head of a text.
  unfoldable pub extract :
      (Text → Result Text) → (Text → Result Extraction) → Text → List Entity × List Relation
  unfolding parse_answer entities_of relations_of
  extract call loads text =
      if is_nonempty (strip text)
      then or_nothing (
          then_result (call (take 24000 text)) (λ answer.
            then_result (parse_answer loads answer) (λ data'.
              then_result (relations_of data'.relationships)
                (λ relations. ok (entities_of data'.entities, relations)))))
      else ([], [])
