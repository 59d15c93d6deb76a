-- ===== src/Parsing/Tests.antt =====
-- A Markdown document under a heading.
use keel_be.Prelude.{◌≡◌, refl, some, [], ◌∷◌, codes, strip, join}
use keel_be.Parsing.{
  Parsers, sections_from_markdown, sections_from, lines_from, parts_from, heading, is_line_end,
}

abbrev parsers : Parsers
parsers = record {
  decode = λ b. b;
  lower = λ t. t;
  read_csv = λ t. [];
  docling = some (λ b. some (b, 2));
}

headed :
    sections_from_markdown (codes "# One\n\ntext")
    ≡ record { ref = some (codes "One"); text = codes "text" } ∷ []
unfolding sections_from_markdown sections_from lines_from parts_from heading is_line_end strip join
headed = refl
