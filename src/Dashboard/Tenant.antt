-- ===== src/Dashboard/Tenant.antt =====
-- backend/app/services/dashboard_service.py: whose rows the dashboard shows, and how its parts agree.
use keel_be.Prelude.{
  ℕ, suc, ◌≤◌, ◌≡◌, refl, ap, ◌∙◌, Bool, ◌&&◌, List, [], ◌∷◌, map, ◌==◌, arith, length, length-take,
  select, take, str_eq, leb,
}
use keel_be.Prelude.Rows.{select-select}
use keel_be.Models.Ingestion.{Document}
use keel_be.Models.Connector.{Connector}
use keel_be.Models.Chat.{ChatMessage}
use keel_be.Models.ApiKey.{ApiCallLog}
use keel_be.Dashboard.{
  Tables, is_completed, is_connected, connector_row, activity, build_dashboard, metrics_of,
}

-- A query of rows of a workspace, asked of those rows alone.
module _ {A : Type 0} (p : A → Bool) where
  select_within :
      (q : A → Bool) (xs : List A)
      → select (λ x. p x && q x) (select p xs) ≡ select (λ x. p x && q x) xs
  select_within q [] = refl
  select_within q (x ∷ xs) = ground (arith, select_within q xs)

  select_twice : (xs : List A) → select p (select p xs) ≡ select p xs
  select_twice [] = refl
  select_twice (x ∷ xs) = ground (arith, select_twice xs)

  select_fewer :
      (q : A → Bool) (xs : List A) → length (select (λ x. p x && q x) xs) ≤ length (select p xs)
  select_fewer q [] = omega arith
  select_fewer q (x ∷ xs) = ground (arith, select_fewer q xs)

length-map : {A B : Type 0} (f : A → B) (xs : List A) → length (map f xs) ≡ length xs
length-map f [] = refl
length-map f (x ∷ xs) = ap suc (length-map f xs)

module _ {Score : Type 0} (updated_first : List Document → List Document)
    (month_start workspace_id : ℕ) where
  -- The tables without the rows of other workspaces.
  abbrev pub own : Tables Score → Tables Score
  own t = record {
    documents = select (λ d. d.workspace_id == workspace_id) t.documents;
    connectors = select (λ c. c.workspace_id == workspace_id) t.connectors;
    messages = select (λ m. m.workspace_id == workspace_id) t.messages;
    call_logs = select (λ l. l.workspace_id == workspace_id) t.call_logs;
  }

  -- The dashboard of a workspace is the same whatever rows other workspaces have, and its parts agree:
  -- no more documents are processed than uploaded, as many sources are listed as are counted, and no
  -- more than 20 activities and 10 documents are shown.
  pub build_dashboard-own :
      (t : Tables Score)
      → let d = build_dashboard updated_first month_start workspace_id t in
        (build_dashboard updated_first month_start workspace_id (own t) ≡ d)
        × (d.metrics.documents_processed ≤ d.metrics.documents_uploaded)
        × (length d.connector_sync ≡ d.metrics.sources_connected)
        × (length d.recent_activity ≤ 20)
        × (length d.recent_documents ≤ 10)
  unfolding build_dashboard metrics_of
  build_dashboard-own t =
      let mine : Document → Bool = λ d. d.workspace_id == workspace_id in
      let ours : Connector → Bool = λ c. c.workspace_id == workspace_id in
      let said : ChatMessage Score → Bool = λ m. m.workspace_id == workspace_id in
      let called : ApiCallLog → Bool = λ l. l.workspace_id == workspace_id in
      let recent = updated_first (select mine t.documents) in
      (
        rw
            (
              select_twice mine t.documents,
              select_twice ours t.connectors,
              select_within ours (λ c. is_connected c.status) t.connectors,
              select_within mine (λ d. is_completed d.ingestion_status) t.documents,
              select_within said (λ m. str_eq m.role "user" && leb month_start m.created_at)
                  t.messages,
              select_within called (λ l. leb month_start l.created_at) t.call_logs,
            )
            refl,
        select_fewer mine (λ d. is_completed d.ingestion_status) t.documents,
        length-map connector_row
              (select (λ (c : Connector). is_connected c.status) (select ours t.connectors))
            ∙ ap length
                (select-select (λ (c : Connector). is_connected c.status) ours t.connectors),
        omega (arith, length-map activity (take 20 recent), length-take 20 recent),
        omega (arith, length-take 10 (take 20 recent)),
      )
