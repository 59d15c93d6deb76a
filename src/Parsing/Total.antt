-- ===== src/Parsing/Total.antt =====
-- backend/app/services/parsing.py: the outcomes of the parser.
use keel_be.Prelude.{
  ℕ, String, Text, ◌≡◌, refl, ◌⊎◌, inl, inr, Bool, true, false, List, [], ◌∷◌, ◌==◌, is_nonempty,
  lstrip_by, text_eq, mem_text, codes, Option-cases, if◌then◌else◌,
}
use keel_be.Core.Errors.{parse_error}
use keel_be.Core.Session.{Result, ok, err}
use keel_be.Parsing.{
  Section, ParsedDocument, Parsers, or_whole, parse_document, parse_txt, parse_csv,
  parse_with_docling, docling_formats, sections_from_markdown,
}

or_whole_nonempty : (ss : List Section) (text : Text) → is_nonempty (or_whole ss text) ≡ true
or_whole_nonempty [] text = refl
or_whole_nonempty (s ∷ ss) text = refl

-- A failure to parse, or a document that is a table or has a section.
abbrev pub Usable : Result ParsedDocument → Type 0
Usable r =
    ((m : String) × (r ≡ err (parse_error m)))
    ⊎ ((d : ParsedDocument) × (r ≡ ok d)
        × ((d.is_tabular ≡ true) ⊎ (is_nonempty d.sections ≡ true)))

docling-Usable : (p : Parsers) (bytes : List ℕ) → Usable (parse_with_docling p bytes)
unfolding parse_with_docling sections_from_markdown
docling-Usable p bytes = elim (Option-cases p.docling) [
  | inl missing ↦ rw missing (inl ("Docling not installed", refl))
  | inr (convert, installed) ↦ elim (Option-cases (convert bytes)) [
    | inl fails ↦ rw (installed, fails) (inl ("Docling failed to parse", refl))
    | inr (found, works) ↦ rw (installed, works) (inr (_, refl, inr (or_whole_nonempty _ found.0)))
  ]
]

chosen :
    (b : Bool) {r t : Result ParsedDocument} → Usable r → Usable t → Usable (if b then r else t)
chosen true h k = h
chosen false h k = k

txt-Usable : (text : Text) → Usable (ok (parse_txt text))
unfolding parse_txt
txt-Usable text = inr (parse_txt text, refl, inr (or_whole_nonempty _ text))

csv-Usable : (read : Text → List (List Text)) (text : Text) → Usable (ok (parse_csv read text))
unfolding parse_csv
csv-Usable read text = inr (parse_csv read text, refl, inl refl)

-- For any bytes and any file type, the parser ends with a document that is a table or has at least one
-- section, or with `ParseError`, so that a failure to parse is never tried again.
pub parse_document-Usable :
    (p : Parsers) (bytes : List ℕ) (file_type : Text) → Usable (parse_document p bytes file_type)
unfolding parse_document
parse_document-Usable p bytes file_type =
    let ft = lstrip_by (λ c. c == b'.') (p.lower file_type) in
    chosen (text_eq ft (codes "txt")) (txt-Usable (p.decode bytes)) (
      chosen (text_eq ft (codes "csv")) (csv-Usable p.read_csv (p.decode bytes)) (
        chosen (mem_text ft docling_formats) (docling-Usable p bytes)
          (inl ("Unsupported file type", refl))))
