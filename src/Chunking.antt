-- ===== src/Chunking.antt =====
-- backend/app/services/chunking.py: the text of a document in pieces of a bounded number of tokens,
-- and a table in blocks of rows. The tokenizer and the reader of CSV are parameters.
pub mod Pieces
pub mod Index
pub mod Table
mod Tests
use keel_be.Prelude.{
  ℕ, zero, suc, ◌+◌, ◌-◌, ◌*◌, ◌/◌, max, Text, Bool, true, false, Option, none, some, List, [], ◌∷◌,
  ◌++◌, map, ltb, leb, length, take, drop, codes, is_nonempty, strip, join, split_words,
  before_last_space, decimal, if◌then◌else◌,
}
use keel_be.Parsing.{Section, ParsedDocument}

abbrev pub target_tokens : ℕ
target_tokens = 512

abbrev pub max_tokens : ℕ
max_tokens = 1024

abbrev pub overlap_tokens : ℕ
overlap_tokens = 64

abbrev pub min_tokens : ℕ
min_tokens = 50

abbrev pub rows_per_chunk : ℕ
rows_per_chunk = 50

pub record ChunkData : Type 0 where
  pub chunk_index : ℕ
  pub chunk_text : Text
  pub token_count : ℕ
  pub section_ref : Option Text
  pub row_range : Option (ℕ × ℕ)

-- `max(1, int(TARGET_TOKENS * 0.75))` and `max(1, int(step * 0.75))`
abbrev pub window_words : ℕ
window_words = max 1 (target_tokens * 3 / 4)

abbrev pub step_words : ℕ
step_words = max 1 (max 1 (target_tokens - overlap_tokens) * 3 / 4)

abbrev pub space : Text
space = 32 ∷ []

abbrev pub blank_line : Text
blank_line = 10 ∷ 10 ∷ []

-- The words of the windows, before they are joined.
pub windows : ℕ → List Text → List (List Text)
windows zero words = []
windows (suc fuel) [] = []
windows (suc fuel) (w ∷ ws) = take window_words (w ∷ ws) ∷ windows fuel (drop step_words (w ∷ ws))

-- What `tiktoken` encodes a text to, by length, if it is installed.
module _ (encoder : Option (Text → ℕ)) where
  unfoldable pub count_tokens : Text → ℕ
  count_tokens text = elim encoder [ some encode ↦ encode text | none ↦ max 1 (length text / 4) ]

  -- The inner loop of `_split_tokens`: the last word goes while the piece is too long.
  pub trim : ℕ → Text → Text
  trim zero piece = piece
  trim (suc fuel) piece =
      if ltb max_tokens (count_tokens piece)
      then elim (before_last_space piece) [ some shorter ↦ trim fuel shorter | none ↦ piece ]
      else piece

  pub trimmed : Text → Text
  trimmed piece = trim (length piece) piece

  -- `_split_tokens`
  pub split_tokens : Text → List Text
  split_tokens text =
      let words = split_words text in
      map (λ ws. trimmed (join space ws)) (windows (length words) words)

  -- The chunks of the pieces of one flush, numbered on.
  pub emit : ℕ → Option Text → List Text → List ChunkData
  emit idx ref [] = []
  emit idx ref (p ∷ ps) =
      record {
        chunk_index = idx;
        chunk_text = p;
        token_count = count_tokens p;
        section_ref = ref;
        row_range = none;
      }
      ∷ emit (idx + 1) ref ps

  -- The variables of `_chunk_text`.
  pub record State : Type 0 where
    pub out : List ChunkData
    pub idx : ℕ
    pub buffer : Text
    pub buf_ref : Option Text

  -- `flush`
  pub flush : State → State
  flush s =
      let pieces = if is_nonempty (strip s.buffer) then split_tokens s.buffer else [] in
      record s {
        out = s.out ++ emit s.idx s.buf_ref pieces;
        idx = s.idx + length pieces;
        buffer = [];
      }

  -- `ref or other`, for a reference that may be `None` or empty.
  abbrev ref_or : Option Text → Option Text → Option Text
  ref_or none other = other
  ref_or (some r) other = if is_nonempty r then some r else other

  -- One round of the loop over the sections.
  pub add_section : State → Section → State
  add_section s sec =
      let s' =
        if ltb target_tokens (count_tokens (s.buffer ++ (space ++ sec.text)))
        then record (flush s) { buf_ref = sec.ref }
        else s in
      record s' {
        buffer =
            if is_nonempty s'.buffer
            then strip (s'.buffer ++ (blank_line ++ sec.text))
            else sec.text;
        buf_ref = ref_or s'.buf_ref sec.ref;
      }

  pub add_sections : State → List Section → State
  add_sections s [] = s
  add_sections s (sec ∷ secs) = add_sections (add_section s sec) secs

  -- The merge of a trailing small chunk into the one before it.
  pub merge_last : List ChunkData → List ChunkData
  merge_last [] = []
  merge_last (c ∷ []) = c ∷ []
  merge_last (c ∷ d ∷ []) =
      let text = c.chunk_text ++ (blank_line ++ d.chunk_text) in
      if ltb d.token_count min_tokens
      then record c { chunk_text = text; token_count = count_tokens text } ∷ []
      else c ∷ d ∷ []
  merge_last (c ∷ d ∷ e ∷ cs) = c ∷ merge_last (d ∷ e ∷ cs)

  -- `_chunk_text`
  pub chunk_text_of : ParsedDocument → List ChunkData
  chunk_text_of parsed =
      let start : State = record { out = []; idx = 0; buffer = []; buf_ref = none } in
      let sections =
        if is_nonempty parsed.sections
        then parsed.sections
        else record { ref = none; text = parsed.text } ∷ [] in
      merge_last (flush (add_sections start sections)).out

  -- `_emit_row_chunk`
  pub row_chunk : Text → ℕ → List Text → ℕ → ChunkData
  row_chunk header_line index block start =
      let body = join (10 ∷ []) block in
      let text = if is_nonempty header_line then header_line ++ 10 ∷ body else body in
      record {
        chunk_index = index;
        chunk_text = text;
        token_count = count_tokens text;
        section_ref = some (
            codes "Rows "
            ++ (decimal (start + 1) ++ (codes "-" ++ decimal (start + length block))));
        row_range = some (start + 1, start + length block);
      }

  -- The loop over the rows: `batch` holds the rows of the block that is being filled.
  pub row_chunks : Text → List Text → List Text → ℕ → List ChunkData → List ChunkData
  row_chunks header_line [] batch start out =
      if is_nonempty batch then out ++ row_chunk header_line (length out) batch start ∷ [] else out
  row_chunks header_line (row ∷ rows) batch start out =
      let batch' = batch ++ row ∷ [] in
      let emitted =
        row_chunks header_line rows [] (start + length batch')
          (out ++ row_chunk header_line (length out) batch' start ∷ []) in
      let filling = row_chunks header_line rows batch' start out in
      if leb rows_per_chunk (length batch') then emitted else filling

  -- `_chunk_tabular`: `read` gives the rows of a text, of which the first is the header.
  pub chunk_tabular : (Text → List (List Text)) → ParsedDocument → List ChunkData
  chunk_tabular read parsed =
      row_chunks (join (codes ",") parsed.headers)
        (map (join (codes ",")) (drop 1 (read parsed.text))) [] 0 []

  unfoldable pub chunk_parsed : (Text → List (List Text)) → ParsedDocument → List ChunkData
  chunk_parsed read parsed =
      if parsed.is_tabular then chunk_tabular read parsed else chunk_text_of parsed
