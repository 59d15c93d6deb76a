-- ===== src/Chunking/Index.antt =====
-- backend/app/services/chunking.py: the numbers of the chunks.
use keel_be.Prelude.{
  ℕ, suc, ◌+◌, ◌≡◌, refl, ap, subst, inl, inr, Text, Option, List, [], ◌∷◌, ◌++◌, leb, length,
  is_nonempty, strip, arith, Bool-cases, length-append, if◌then◌else◌,
}
use keel_be.Parsing.{Section, ParsedDocument}
use keel_be.Chunking.{
  ChunkData, State, rows_per_chunk, emit, flush, add_section, add_sections, merge_last,
  chunk_text_of, row_chunk, row_chunks, chunk_tabular, chunk_parsed, split_tokens,
}

-- The chunks are numbered from `n` on.
abbrev pub Numbered : ℕ → List ChunkData → Type 0
Numbered n [] = Unit
Numbered n (c ∷ cs) = (c.chunk_index ≡ n) × Numbered (suc n) cs

Numbered-append :
    (n : ℕ) (cs ds : List ChunkData)
    → Numbered n cs
    → Numbered (n + length cs) ds
    → Numbered n (cs ++ ds)
Numbered-append n [] ds h k = subst (λ m. Numbered m ds) (omega arith) k
Numbered-append n (c ∷ cs) ds h k =
    (h.0, Numbered-append (suc n) cs ds h.1 (subst (λ m. Numbered m ds) (omega arith) k))

module _ (encoder : Option (Text → ℕ)) where
  emit-Numbered : (n : ℕ) (ref : Option Text) (ps : List Text) → Numbered n (emit encoder n ref ps)
  unfolding emit
  emit-Numbered n ref [] = tt
  emit-Numbered n ref (p ∷ ps) = (
    refl,
    subst (λ m. Numbered m (emit encoder (n + 1) ref ps)) (omega arith)
        (emit-Numbered (n + 1) ref ps),
  )

  length-emit :
      (n : ℕ) (ref : Option Text) (ps : List Text) → length (emit encoder n ref ps) ≡ length ps
  unfolding emit
  length-emit n ref [] = refl
  length-emit n ref (p ∷ ps) = ap suc (length-emit (n + 1) ref ps)

  -- The counter of the loop is the number of chunks, which are numbered.
  abbrev Counted : State encoder → Type 0
  Counted s = Numbered 0 s.out × (s.idx ≡ length s.out)

  flush-Counted : (s : State encoder) → Counted s → Counted (flush encoder s)
  unfolding flush
  flush-Counted s h =
      let ps = if is_nonempty (strip s.buffer) then split_tokens encoder s.buffer else [] in
      let es = emit encoder s.idx s.buf_ref ps in
      (
        Numbered-append 0 s.out es h.0
            (subst (λ m. Numbered m es) (omega (arith, h.1)) (emit-Numbered s.idx s.buf_ref ps)),
        omega (arith, h.1, length-append s.out es, length-emit s.idx s.buf_ref ps),
      )

  add_section-Counted :
      (s : State encoder) (sec : Section) → Counted s → Counted (add_section encoder s sec)
  unfolding add_section
  add_section-Counted s sec h = ground (arith, flush-Counted s h)

  add_sections-Counted :
      (s : State encoder) (secs : List Section) → Counted s → Counted (add_sections encoder s secs)
  unfolding add_sections
  add_sections-Counted s [] h = h
  add_sections-Counted s (sec ∷ secs) h =
      add_sections-Counted (add_section encoder s sec) secs (add_section-Counted s sec h)

  merge_last-Numbered :
      (n : ℕ) (cs : List ChunkData) → Numbered n cs → Numbered n (merge_last encoder cs)
  unfolding merge_last
  merge_last-Numbered n [] h = tt
  merge_last-Numbered n (c ∷ []) h = h
  merge_last-Numbered n (c ∷ d ∷ []) h = ground arith
  merge_last-Numbered n (c ∷ d ∷ e ∷ cs) h = (h.0, merge_last-Numbered (suc n) (d ∷ e ∷ cs) h.1)

  row_chunks-Numbered :
      (header : Text) (rows batch : List Text) (start : ℕ) (out : List ChunkData)
      → Numbered 0 out
      → Numbered 0 (row_chunks encoder header rows batch start out)
  unfolding row_chunks row_chunk
  row_chunks-Numbered header [] batch start out h = elim (Bool-cases (is_nonempty batch)) [
    | inl rest ↦ rw rest (Numbered-append 0 out _ h (omega arith, tt))
    | inr none' ↦ rw none' h
  ]
  row_chunks-Numbered header (row ∷ rows) batch start out h =
      elim (Bool-cases (leb rows_per_chunk (length (batch ++ row ∷ [])))) [
        | inl full ↦
            rw full
              (row_chunks-Numbered header rows [] _ _ (Numbered-append 0 out _ h (omega arith, tt)))
        | inr more ↦ rw more (row_chunks-Numbered header rows (batch ++ row ∷ []) start out h)
      ]

  -- The chunks of any document, of text or a table, are numbered 0, 1, 2, … without a gap.
  pub chunk_parsed-Numbered :
      (read : Text → List (List Text)) (parsed : ParsedDocument)
      → Numbered 0 (chunk_parsed encoder read parsed)
  unfolding chunk_parsed chunk_tabular chunk_text_of
  chunk_parsed-Numbered read parsed = elim (Bool-cases parsed.is_tabular) [
    | inl table ↦ rw table (row_chunks-Numbered _ _ [] 0 [] tt)
    | inr text ↦
        rw text (merge_last-Numbered 0 _ (flush-Counted _ (add_sections-Counted _ _ (tt, refl))).0)
  ]
