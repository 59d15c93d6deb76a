-- ===== src/Chunking/Table.antt =====
-- backend/app/services/chunking.py: the rows in the blocks of a table.
use mathlib.Core.List.{append_assoc, append-nil, flatten}
use keel_be.Prelude.{
  ℕ, ◌+◌, ◌≡◌, refl, sym, ◌∙◌, ◌≤◌, ◌<◌, inl, inr, Text, true, Option, List, [], ◌∷◌, ◌++◌, map,
  leb, All, length, drop, join, codes, is_nonempty, arith, Bool-cases, length-append, if◌then◌else◌,
}
use keel_be.Parsing.{ParsedDocument}
use keel_be.Chunking.{ChunkData, rows_per_chunk, row_chunk, row_chunks, chunk_tabular, chunk_parsed}

-- The blocks that a batch and the rows after it make.
blocks : List Text → List Text → List (List Text)
blocks batch [] = if is_nonempty batch then batch ∷ [] else []
blocks batch (row ∷ rows) =
    let full = (batch ++ row ∷ []) ∷ blocks [] rows in
    let more = blocks (batch ++ row ∷ []) rows in
    if leb rows_per_chunk (length (batch ++ row ∷ [])) then full else more

flatten-blocks : (batch rows : List Text) → flatten (blocks batch rows) ≡ batch ++ rows
unfolding blocks flatten
flatten-blocks [] [] = refl
flatten-blocks (b ∷ batch) [] = refl
flatten-blocks batch (row ∷ rows) =
    elim (Bool-cases (leb rows_per_chunk (length (batch ++ row ∷ [])))) [
      | inl full ↦ rw (full, flatten-blocks [] rows) (append_assoc batch (row ∷ []) rows)
      | inr more ↦
          rw (more, flatten-blocks (batch ++ row ∷ []) rows) (append_assoc batch (row ∷ []) rows)
    ]

-- A block of at least one row and at most 50.
abbrev pub IsBlock : List Text → Type 0
IsBlock b = (1 ≤ length b) × (length b ≤ rows_per_chunk)

blocks-IsBlock :
    (batch rows : List Text) → length batch < rows_per_chunk → All IsBlock (blocks batch rows)
unfolding blocks
blocks-IsBlock [] [] h = tt
blocks-IsBlock (b ∷ batch) [] h = ((omega arith, omega arith), tt)
blocks-IsBlock batch (row ∷ rows) h =
    elim (Bool-cases (leb rows_per_chunk (length (batch ++ row ∷ [])))) [
      | inl full ↦ rw full (
        (
          omega (arith, length-append batch (row ∷ [])),
          omega (arith, length-append batch (row ∷ [])),
        ),
        blocks-IsBlock [] rows (omega arith),
      )
      | inr more ↦ rw more (blocks-IsBlock (batch ++ row ∷ []) rows (ground arith))
    ]

append_next :
    (out : List ChunkData) (c : ChunkData) (rest : ℕ → List ChunkData)
    → (out ++ c ∷ []) ++ rest (length (out ++ c ∷ [])) ≡ out ++ c ∷ rest (length out + 1)
append_next out c rest =
    rw (length-append out (c ∷ [])) (append_assoc out (c ∷ []) (rest (length out + 1)))

module _ (encoder : Option (Text → ℕ)) (header : Text) where
  -- The chunks of blocks that follow one another, from a number and a first row on.
  pub block_chunks : ℕ → ℕ → List (List Text) → List ChunkData
  block_chunks index start [] = []
  block_chunks index start (b ∷ bs) =
      row_chunk encoder header index b start ∷ block_chunks (index + 1) (start + length b) bs

  row_chunks-blocks :
      (rows batch : List Text) (start : ℕ) (out : List ChunkData)
      → row_chunks encoder header rows batch start out
        ≡ out ++ block_chunks (length out) start (blocks batch rows)
  unfolding row_chunks blocks block_chunks
  row_chunks-blocks [] [] start out = sym (append-nil out)
  row_chunks-blocks [] (b ∷ batch) start out = refl
  row_chunks-blocks (row ∷ rows) batch start out =
      elim (Bool-cases (leb rows_per_chunk (length (batch ++ row ∷ [])))) [
        | inl full ↦ rw full (
            row_chunks-blocks rows [] (start + length (batch ++ row ∷ []))
              (out ++ row_chunk encoder header (length out) (batch ++ row ∷ []) start ∷ [])
            ∙ append_next out (row_chunk encoder header (length out) (batch ++ row ∷ []) start)
                (λ n. block_chunks n (start + length (batch ++ row ∷ [])) (blocks [] rows)))
        | inr more ↦ rw more (row_chunks-blocks rows (batch ++ row ∷ []) start out)
      ]

module _ (encoder : Option (Text → ℕ)) (read : Text → List (List Text))
    (parsed : ParsedDocument) where
  abbrev table_rows : List Text
  table_rows = map (join (codes ",")) (drop 1 (read parsed.text))

  -- The chunks of a table are those of blocks of 1 to 50 rows, which joined are all its rows but the
  -- header, in order; each chunk repeats the header line and carries the numbers of its rows.
  pub chunk_tabular-blocks :
      parsed.is_tabular ≡ true
      → (bs : List (List Text)) × (flatten bs ≡ table_rows)
        × All IsBlock bs
        × (chunk_parsed encoder read parsed
            ≡ block_chunks encoder (join (codes ",") parsed.headers) 0 0 bs)
  unfolding chunk_parsed chunk_tabular
  chunk_tabular-blocks table = (
    blocks [] table_rows,
    flatten-blocks [] table_rows,
    blocks-IsBlock [] table_rows (omega arith),
    rw table (row_chunks-blocks encoder (join (codes ",") parsed.headers) table_rows [] 0 []),
  )
