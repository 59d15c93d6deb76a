-- ===== src/Documents/Owners.antt =====
-- backend/app/services/document_service.py: single documents and who owns them.
use keel_be.Prelude.{
  ℕ, Text, ◌≡◌, ◌≢◌, ◌↔◌, ◌⊎◌, String, length-take, refl, ◌≤◌, not, true, Option, none, some, List,
  [], ◌∷◌, ◌++◌, ◌==◌, take, select, length, arith, mem_text, map, is_nonempty, strip, Option-cases,
  Bool-cases, inl, inr, if◌then◌else◌,
}
use keel_be.Prelude.Rows.{
  get, get-append, get-remove_self, get-remove_ne, key-get, get-update_ne, get-update_self,
}
use keel_be.Models.Ingestion.{Document, DocumentChunk, IngestionJob, document_key, job_key}
use keel_be.Core.Errors.{Kind, app, app_error}
use keel_be.Core.Session.{ok, err}
use keel_be.Documents.{
  World, Env, NewDocument, document_not_found, update_tags, delete_document, reprocess, get_owned,
  create_queued_document, queued_document, new_job, clean_tags, enqueue, detect_file_type, allowed,
  signatures, signature_of, fits_signature, after_last_dot, delete_rows,
}

select_others :
    {A : Type 0} (f : A → ℕ) (i : ℕ) (xs : List A)
    → select (λ x. f x == i) (select (λ x. not (f x == i)) xs) ≡ []
select_others f i [] = refl
select_others f i (x ∷ xs) = ground (arith, select_others f i xs)

module _ (env : Env) (w : World) (workspace_id doc_id : ℕ) where
  -- A document of another workspace, like one that does not exist, can be neither tagged nor deleted
  -- nor processed again: each answers 404, and database, files and broker stay as they were.
  pub foreign_refused :
      (tags : List Text)
      → ((d : Document)
          → get doc_id w.session.working.documents ≡ some d
          → d.workspace_id ≢ workspace_id)
      → (update_tags env workspace_id doc_id tags w ≡ (err document_not_found, w))
        × (delete_document env workspace_id doc_id w ≡ (err document_not_found, w))
        × (reprocess env workspace_id doc_id w ≡ (err document_not_found, w))
  unfolding update_tags delete_document reprocess get_owned
  foreign_refused tags foreign = elim (Option-cases (get doc_id w.session.working.documents)) [
    | inl absent ↦ (ground arith, ground arith, ground arith)
    | inr (d, present) ↦ (
      ground (arith, foreign d present),
      ground (arith, foreign d present),
      ground (arith, foreign d present),
    )
  ]

  deleted_rows :
      (found : Option Document)
      → get doc_id w.session.working.documents ≡ found
      → (delete_document env workspace_id doc_id w).0 ≡ ok tt
      → (delete_document env workspace_id doc_id w).1.session.committed
        ≡ delete_rows doc_id w.session.working
  unfolding delete_document get_owned
  deleted_rows none e done = absurd (ground arith)
  deleted_rows (some d) e done =
      ground (arith, key-get doc_id w.session.working.documents {r = d} e)

  -- After a deletion that returned, the document is gone for every session, and with it each of its
  -- chunks and jobs; no other document is touched.
  pub delete_document_lem :
      {i : ℕ}
      → doc_id ≢ i
      → (delete_document env workspace_id doc_id w).0 ≡ ok tt
      → let db = (delete_document env workspace_id doc_id w).1.session.committed in
        (get doc_id db.documents ≡ none)
        × (select (λ c. c.document_id == doc_id) db.chunks ≡ [])
        × (select (λ j. j.document_id == doc_id) db.jobs ≡ [])
        × (get i db.documents ≡ get i w.session.working.documents)
  unfolding delete_rows
  delete_document_lem {i} ne done =
      rw (deleted_rows (get doc_id w.session.working.documents) refl done) (
        get-remove_self doc_id w.session.working.documents,
        select_others (λ (c : DocumentChunk). c.document_id) doc_id w.session.working.chunks,
        select_others (λ (j : IngestionJob). j.document_id) doc_id w.session.working.jobs,
        get-remove_ne doc_id i w.session.working.documents ne,
      )

-- A document whose row the database takes is committed as queued, with a job of 16 steps that is queued, before the
-- worker is told of it, and the worker is told exactly when the broker is up.
pub create_queued_document_lem :
    (env : Env) (n : NewDocument) (w : World)
    → env.takes (queued_document env.lower n) ≡ true
    → get n.document_id w.session.working.documents ≡ none
    → get env.job_id w.session.working.jobs ≡ none
    → let w' = (create_queued_document env n w).1 in
      (get n.document_id w'.session.committed.documents ≡ some (queued_document env.lower n))
      × (get env.job_id w'.session.committed.jobs
          ≡ some (new_job env.job_id n.document_id n.workspace_id))
      × (w'.broker ≡ (if env.broker_up then w.broker ++ n.document_id ∷ [] else w.broker))
unfolding create_queued_document queued_document new_job enqueue
create_queued_document_lem env n w taken new_doc new_j =
    (grind (arith, get-append), grind (arith, get-append), ground arith)

-- A file type is detected exactly for a name whose extension, in lower case, is one of the allowed
-- types, and content, if it is given, that begins with the signature of the type, if it has one; the
-- type is the extension. Anything else answers 400, `INVALID_FILE_TYPE`.
pub detect_file_type_lem :
    (lower : Text → Text) (filename ext : Text) (content : Option (List ℕ))
    → after_last_dot filename ≡ some ext
    → ((detect_file_type lower filename content ≡ ok (lower ext)) ↔ (
        (mem_text (lower ext) allowed ≡ true)
        × (fits_signature content (signature_of (lower ext) signatures) ≡ true)))
      × ((detect_file_type lower filename content ≡ ok (lower ext))
          ⊎ ((message : String) × (detect_file_type lower filename content
                ≡ err (app (app_error Kind.invalid_file_type message)))))
unfolding detect_file_type
detect_file_type_lem lower filename ext content dot =
    elim (Bool-cases (mem_text (lower ext) allowed)) [
      | inr unknown ↦ (
        (λ h. absurd (ground arith), λ h. absurd (ground arith)),
        inr ("Unsupported file type", ground arith),
      )
      | inl known ↦
          elim (Bool-cases (fits_signature content (signature_of (lower ext) signatures))) [
            | inl fits ↦ ((λ h. (known, fits), λ h. ground arith), inl (ground arith))
            | inr other ↦ (
              (λ h. absurd (ground arith), λ h. absurd (ground arith)),
              inr ("File content does not match its extension", ground arith),
            )
          ]
    ]

length-take_20 : (ts : List Text) → length (take 20 ts) ≤ 20
length-take_20 ts = omega (arith, length-take 20 ts)

-- New tags are written to the document and committed, no more than 20 of them, and only those that
-- are not blank; no other document changes.
pub update_tags_lem :
    (env : Env) (w : World) (workspace_id doc_id i : ℕ) (tags : List Text) {d : Document}
    → get doc_id w.session.working.documents ≡ some d
    → d.workspace_id ≡ workspace_id
    → doc_id ≢ i
    → let w' = (update_tags env workspace_id doc_id tags w).1 in
      (get doc_id w'.session.committed.documents
        ≡ some (record d { tags = clean_tags env.lower tags }))
      × (length (clean_tags env.lower tags) ≤ 20)
      × (get i w'.session.committed.documents ≡ get i w.session.working.documents)
unfolding update_tags get_owned clean_tags
update_tags_lem env w workspace_id doc_id i tags {d} found owned ne =
    let same = key-get doc_id w.session.working.documents {r = d} found in
    let set : Document → Document = λ x. record x { tags = clean_tags env.lower tags } in
    (
      ground (arith, same, get-update_self doc_id set w.session.working.documents (λ r. refl)),
      length-take_20 (map (λ t. env.lower (strip t)) (select (λ t. is_nonempty (strip t)) tags)),
      ground (arith, same, get-update_ne doc_id i set w.session.working.documents (λ r. refl) ne),
    )
