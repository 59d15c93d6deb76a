-- ===== src/Documents/Pages.antt =====
-- backend/app/services/document_service.py: listings and their pages.
use keel_be.Prelude.{
  ℕ, zero, suc, Text, ◌≡◌, refl, ◌∙◌, ap, ◌≤◌, ◌-◌, ◌*◌, Bool, true, List, [], ◌∷◌, take, drop,
  select, length, length-take, length-drop, min, max, All, arith, Bool-cases, inl, inr, ◌==◌,
}
use keel_be.Models.Ingestion.{Document}
use keel_be.Core.Session.{ok}
use keel_be.Documents.{World, Sql, Listing, matches, list_documents}

-- Sorting keeps the rows: as many as before, and what holds of all still holds of all.
pub record SqlLaws (sql : Sql) : Type 1 where
  pub length-order_by :
      (offset : ℕ) (sort order : Text) (rows : List Document)
      → length (sql.order_by offset sort order rows) ≡ length rows
  pub order_by-All :
      (p : Document → Type 0) (offset : ℕ) (sort order : Text) (rows : List Document)
      → All p rows
      → All p (sql.order_by offset sort order rows)

take-All : (p : Document → Type 0) (n : ℕ) (rows : List Document) → All p rows → All p (take n rows)
take-All p zero rows h = tt
take-All p (suc n) [] h = tt
take-All p (suc n) (r ∷ rows) h = (h.0, take-All p n rows h.1)

drop-All : (p : Document → Type 0) (n : ℕ) (rows : List Document) → All p rows → All p (drop n rows)
drop-All p zero rows h = h
drop-All p (suc n) [] h = tt
drop-All p (suc n) (r ∷ rows) h = drop-All p n rows h.1

select-All : (q : Document → Bool) (rows : List Document) → All (λ d. q d ≡ true) (select q rows)
select-All q [] = tt
select-All q (r ∷ rows) = elim (Bool-cases (q r)) [
  | inl in' ↦ rw in' (in', select-All q rows)
  | inr out ↦ rw out (select-All q rows)
]

module _ (sql : Sql) (workspace_id : ℕ) (l : Listing) where
  -- All that a listing asks for, in the order of the table.
  abbrev pub listed : World → List Document
  listed w = select (matches sql workspace_id l) w.session.working.documents

  -- What matches a listing is of its workspace.
  matches-own :
      (rows : List Document)
      → All (λ d. matches sql workspace_id l d ≡ true) rows
      → All (λ d. (d.workspace_id == workspace_id) ≡ true) rows
  unfolding matches
  matches-own [] h = tt
  matches-own (d ∷ rows) h = (ground (arith, h.0), matches-own rows h.1)

  -- A listing always answers, and writes nothing: its total is the number of all documents that match
  -- it, and its page has of them as many as are left after the pages before, but at most the limit asked
  -- for, and never more than 200; each document of it matches, and so is of the workspace. (`ORDER BY`
  -- keeps the rows.)
  pub list_documents_lem :
      SqlLaws sql
      → (before : ℕ) (w : World)
      → (rows : List Document) × (total : ℕ) × (list_documents sql workspace_id before l w
          ≡ (ok (rows, total), w))
        × (total ≡ length (listed w))
        × (length rows ≡ min (max 1 (min l.limit 200)) (total - before * max 1 (min l.limit 200)))
        × (length rows ≤ 200)
        × All (λ d. matches sql workspace_id l d ≡ true) rows
        × All (λ d. (d.workspace_id == workspace_id) ≡ true) rows
  unfolding list_documents matches
  list_documents_lem laws before w =
      let n = max 1 (min l.limit 200) in
      let sorted = sql.order_by (before * n) l.sort l.order (listed w) in
      let rows = take n (drop (before * n) sorted) in
      let all =
        take-All (λ d. matches sql workspace_id l d ≡ true) n (drop (before * n) sorted)
          (drop-All _ (before * n) sorted (
            laws.order_by-All _ (before * n) l.sort l.order (listed w)
              (select-All (matches sql workspace_id l) _))) in
      let counted : length rows ≡ min n (length (listed w) - before * n) =
        length-take n (drop (before * n) sorted)
        ∙ ap (min n) (
            length-drop (before * n) sorted
            ∙ ap (λ k. k - before * n)
                (laws.length-order_by (before * n) l.sort l.order (listed w))) in
      (
        rows,
        length (listed w),
        refl,
        refl,
        counted,
        omega (arith, counted),
        all,
        matches-own rows all,
      )
