-- ===== src/Ner/Tests.antt =====
-- An answer with an entity of a type that is not known.
use keel_be.Prelude.{codes, some, [], ◌∷◌}
use keel_be.Core.Session.{ok}
use keel_be.Ner.{Extraction, extract}
use keel_be.Ner.Extracted.{Known, extract-Known}

abbrev answer : Extraction
answer = record {
  entities =
      record { name = some (codes "Ada"); kind = some (codes "PERSON") }
      ∷ record { name = some (codes "x"); kind = some (codes "COLOUR") }
      ∷ [];
  relationships =
      record {
        source = some (codes "Ada");
        target = some (codes "Keel");
        kind = some (codes "MENTIONS");
        confidence = ok 5000;
      }
      ∷ [];
}

extract-Known_example :
    Known (extract (λ t. t) (λ t. ok (codes "{}")) (λ t. ok answer) (codes "Ada works on Keel."))
extract-Known_example =
    extract-Known (λ t. t) (λ t. ok (codes "{}")) (λ t. ok answer) (codes "Ada works on Keel.")
