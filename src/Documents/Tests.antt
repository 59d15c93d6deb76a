-- ===== src/Documents/Tests.antt =====
-- Documents uploaded, listed, tagged and deleted.
use keel_be.Prelude.{
  ℕ, ◌≡◌, ◌≤◌, ◌-◌, ◌*◌, ◌==◌, refl, true, none, some, List, [], ◌∷◌, codes, arith, text_eq, length,
  min, max, All,
}
use keel_be.Models.Enums.{SourceType}
use keel_be.Models.Ingestion.{Document, document_key, job_key}
use keel_be.Core.Session.{ok, err, open_session}
use keel_be.Documents.{
  World, Env, NewDocument, Listing, Sql, queued_document, update_tags, delete_document, reprocess,
  document_not_found, matches, list_documents,
}
use keel_be.Documents.Owners.{foreign_refused}
use keel_be.Documents.Pages.{SqlLaws, listed, list_documents_lem}

abbrev env : Env
env = record { lower = λ t. t; broker_up = true; job_id = 90; takes = λ d. true }

abbrev upload : ℕ → NewDocument
upload i = record {
  document_id = i;
  workspace_id = 20;
  name = codes "report";
  filename = codes "report.pdf";
  file_type = codes "pdf";
  mime_type = none;
  size_bytes = 4;
  source_type = SourceType.manual_upload;
  storage_path = none;
  connector_id = none;
  external_document_id = none;
  tags = [];
  uploaded_by = "Ada";
  uploaded_by_id = some 1;
}

abbrev report : ℕ → Document
unfolding queued_document
report i = queued_document (λ t. t) (upload i)

abbrev world : World
unfolding queued_document
world = record {
  session = open_session (record {
    documents = report 5 ∷ [];
    chunks = [];
    jobs = [];
    errors = [];
    connectors = [];
    credentials = [];
  });
  files = [];
  broker = [];
}

abbrev sql : Sql
sql = record { ilike = text_eq; order_by = λ offset sort order rows. rows }

sql-SqlLaws : SqlLaws sql
sql-SqlLaws = record {
  length-order_by = λ offset sort order rows. refl;
  order_by-All = λ p offset sort order rows h. h;
}

abbrev everything : Listing
everything = record {
  limit = 500;
  search = none;
  status = none;
  source_type = none;
  file_type = none;
  tag = none;
  sort = [];
  order = [];
}

foreign_refused_example :
    (update_tags env 21 5 [] world ≡ (err document_not_found, world))
    × (delete_document env 21 5 world ≡ (err document_not_found, world))
    × (reprocess env 21 5 world ≡ (err document_not_found, world))
unfolding queued_document
foreign_refused_example = foreign_refused env world 21 5 [] (λ d found same. ground arith)

list_documents_lem_example :
    (rows : List Document) × (total : ℕ) × (list_documents sql 20 0 everything world
      ≡ (ok (rows, total), world))
    × (total ≡ length (listed sql 20 everything world))
    × (length rows ≡ min (max 1 (min 500 200)) (total - 0 * max 1 (min 500 200)))
    × (length rows ≤ 200)
    × All (λ d. matches sql 20 everything d ≡ true) rows
    × All (λ d. (d.workspace_id == 20) ≡ true) rows
list_documents_lem_example = list_documents_lem sql 20 everything sql-SqlLaws 0 world
