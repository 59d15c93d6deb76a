-- ===== src/Parsing.antt =====
-- backend/app/services/parsing.py: plain text, tables and Markdown, and the choice of a parser. UTF-8,
-- the reader of CSV and Docling are the parameter `Parsers`; messages leave out the type's name.
pub mod Total
mod Tests
use mathlib.Core.List.{reverse}
use keel_be.Prelude.{
  ℕ, Text, Bool, true, false, ◌&&◌, ◌||◌, Option, none, some, List, [], ◌∷◌, map, ◌==◌, leb, codes,
  is_nonempty, is_space, strip, lstrip_by, mem_text, text_eq, join, select, if◌then◌else◌,
}
use keel_be.Core.Errors.{parse_error}
use keel_be.Core.Session.{Result, ok, err}

pub record Section : Type 0 where
  pub ref : Option Text
  pub text : Text

pub record ParsedDocument : Type 0 where
  pub text : Text
  pub page_count : ℕ
  pub sections : List Section
  pub is_tabular : Bool
  pub headers : List Text

-- `ParsedDocument()`
abbrev pub empty_document : ParsedDocument
empty_document = record {
  text = [];
  page_count = 1;
  sections = [];
  is_tabular = false;
  headers = [];
}

-- What the parsers call. `docling` is `none` where it is not installed, and otherwise gives the Markdown
-- of a document and the number of its pages, or fails.
pub record Parsers : Type 0 where
  pub decode : List ℕ → Text
  pub lower : Text → Text
  pub read_csv : Text → List (List Text)
  pub docling : Option (List ℕ → Option (Text × ℕ))

-- `text.split("\n\n")`; `part` is the part being read, last letter first.
parts_from : Text → Text → List Text
parts_from part [] = reverse part ∷ []
parts_from part (c ∷ []) = reverse (c ∷ part) ∷ []
parts_from part (c ∷ d ∷ s) =
    let ended = parts_from [] s in
    let longer = parts_from (c ∷ part) (d ∷ s) in
    if c == 10 && d == 10 then reverse part ∷ ended else longer

-- The characters that end a line for `str.splitlines()`.
is_line_end : ℕ → Bool
is_line_end c =
    (leb 10 c && leb c 13) || (leb 28 c && leb c 30) || c == 0x85 || c == 0x2028 || c == 0x2029

-- `text.splitlines()`: a return followed by a new line is one end.
lines_from : Text → Text → List Text
unfolding is_line_end
lines_from line [] = if is_nonempty line then reverse line ∷ [] else []
lines_from line (c ∷ []) = if is_line_end c then reverse line ∷ [] else reverse (c ∷ line) ∷ []
lines_from line (c ∷ d ∷ s) =
    let after_two = lines_from [] s in
    let after_one = lines_from [] (d ∷ s) in
    let longer = lines_from (c ∷ line) (d ∷ s) in
    if c == 13 && d == 10
    then reverse line ∷ after_two
    else if is_line_end c
    then reverse line ∷ after_one
    else longer

-- `sections or [Section(None, text)]`
abbrev pub or_whole : List Section → Text → List Section
or_whole [] text = record { ref = none; text = text } ∷ []
or_whole (s ∷ ss) text = s ∷ ss

-- `_parse_txt`, for the decoded text.
pub parse_txt : Text → ParsedDocument
unfolding parts_from
parse_txt text =
    let paras = map strip (select (λ p. is_nonempty (strip p)) (parts_from [] text)) in
    record empty_document {
      text = text;
      sections = or_whole (map (λ p. record { ref = none; text = p }) paras) text;
    }

-- `_parse_csv`, for the decoded text: the header only.
pub parse_csv : (Text → List (List Text)) → Text → ParsedDocument
parse_csv read text = record empty_document {
  text = text;
  is_tabular = true;
  headers = elim (read text) [ [] ↦ [] | row ∷ _ ↦ row ];
}

abbrev starts_hash : Text → Bool
starts_hash [] = false
starts_hash (c ∷ s) = c == b'#'

-- `line.lstrip("# ").strip() or current_ref`
heading : Text → Option Text → Option Text
heading line current =
    let title = strip (lstrip_by (λ c. c == b'#' || c == 32) line) in
    if is_nonempty title then some title else current

-- The loop of `_sections_from_markdown` over the blocks, with the heading in force.
sections_from : Option Text → List Text → List Section
unfolding lines_from heading
sections_from current [] = []
sections_from current (raw ∷ blocks) =
    let block = strip raw in
    let under : Option Text → List Section = λ ref. sections_from ref blocks in
    elim (lines_from [] block) [
      | [] ↦ under current
      | line ∷ lines ↦
          if starts_hash (lstrip_by is_space line)
          then (let ref = heading line current in
              let rest = strip (join (10 ∷ []) lines) in
              if is_nonempty rest then record { ref = ref; text = rest } ∷ under ref else under ref)
          else record { ref = current; text = block } ∷ under current
    ]

-- `_sections_from_markdown`
pub sections_from_markdown : Text → List Section
unfolding sections_from parts_from
sections_from_markdown text = or_whole (sections_from none (parts_from [] text)) text

abbrev pub docling_formats : List Text
docling_formats =
    codes "pdf" ∷ codes "docx" ∷ codes "pptx" ∷ codes "xlsx" ∷ codes "png" ∷ codes "jpg" ∷ []

-- `_parse_with_docling`
pub parse_with_docling : Parsers → List ℕ → Result ParsedDocument
unfolding sections_from_markdown
parse_with_docling p bytes = elim p.docling [
  | none ↦ err (parse_error "Docling not installed")
  | some convert ↦ elim (convert bytes) [
    | none ↦ err (parse_error "Docling failed to parse")
    | some (text, pages) ↦ ok (record empty_document {
      text = text;
      page_count = if pages == 0 then 1 else pages;
      sections = sections_from_markdown text;
    })
  ]
]

-- `parse_document data file_type`
pub parse_document : Parsers → List ℕ → Text → Result ParsedDocument
unfolding parse_txt parse_csv parse_with_docling
parse_document p bytes file_type =
    let ft = lstrip_by (λ c. c == b'.') (p.lower file_type) in
    if text_eq ft (codes "txt")
    then ok (parse_txt (p.decode bytes))
    else if text_eq ft (codes "csv")
    then ok (parse_csv p.read_csv (p.decode bytes))
    else if mem_text ft docling_formats
    then parse_with_docling p bytes
    else err (parse_error "Unsupported file type")
