-- ===== src/Chunking/Tests.antt =====
-- Runs of the chunker on a short text, on one that is over the cap, and on a table.
use keel_be.Prelude.{
  ℕ, ◌*◌, ◌<◌, ◌≡◌, refl, Text, true, Option, none, some, List, [], ◌∷◌, All, length, codes, join,
  split_words, before_last_space, arith,
}
use keel_be.Parsing.{ParsedDocument, empty_document}
use keel_be.Chunking.{split_tokens, chunk_parsed, space, count_tokens}
use keel_be.Chunking.Pieces.{Fits, split_tokens-Fits, split_tokens_loses}
use keel_be.Chunking.Index.{Numbered, chunk_parsed-Numbered}

-- A tokenizer that makes many tokens of each character.
abbrev costly : Option (Text → ℕ)
costly = some (λ t. length t * 300)

split_tokens-Fits_example : All (Fits costly) (split_tokens costly (codes "ab cd"))
split_tokens-Fits_example = split_tokens-Fits costly (codes "ab cd")

split_tokens_loses_example :
    (p : Text) × (split_tokens costly (codes "ab cd") ≡ p ∷ [])
    × (length p < length (join space (split_words (codes "ab cd"))))
unfolding split_words before_last_space join count_tokens
split_tokens_loses_example =
    split_tokens_loses costly (codes "ab cd") (ground arith) refl (ground arith)

abbrev rows_of : Text → List (List Text)
rows_of text = (codes "name" ∷ []) ∷ (codes "ada" ∷ []) ∷ (codes "bob" ∷ []) ∷ []

abbrev table : ParsedDocument
table = record empty_document { is_tabular = true; headers = codes "name" ∷ [] }

chunk_parsed-Numbered_example : Numbered 0 (chunk_parsed none rows_of table)
chunk_parsed-Numbered_example = chunk_parsed-Numbered none rows_of table
