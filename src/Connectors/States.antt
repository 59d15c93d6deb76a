-- ===== src/Connectors/States.antt =====
-- backend/app/services/connector_service.py: the status of a connector over a sequence of requests.
use keel_be.Prelude.{
  ℕ, ◌≡◌, refl, sym, ap, ◌∙◌, subst, inl, inr, Text, Bool, true, false, map, select, ◌&&◌, Option,
  some, none, List, [], ◌∷◌, ◌==◌, arith, Option-cases, Bool-cases,
}
use keel_be.Prelude.Rows.{get, update}
use keel_be.Models.Enums.{ConnectorType}
use keel_be.Models.Connector.{Connector, connector_key}
use keel_be.Models.Ingestion.{IngestionDb}
use keel_be.Core.Errors.{Exc}
use keel_be.Core.Session.{
  Result, ok, err, Run, ◌>>=◌, open_session, Result-cases, after_ok, after_err,
}
use keel_be.Core.Session as Db
use keel_be.Drive as Drive
use keel_be.Documents.{World, in_db}
use keel_be.Connectors.{
  Env, is_coming_soon, not_authorized, folder_node, start_answer, same_type, of_workspace,
  connector_not_found, credentials_of, token_of, get_connector, access_token, get_folders,
  disconnect, disconnected_row, start_oauth, ensure_default_connectors, list_connectors,
}
use keel_be.Connectors.Moves.{
  Moves, stay, drop, Moves-trans, Kept, Kept-refl, Kept-trans, Kept-append, Kept-update,
}
use keel_be.Connectors.Sync.{
  unsupported, Counts, Open, SyncEnv, sync, sync_all, sync_files, finish_sync,
}
use keel_be.Connectors.Synced.{sync_files-Progress}
use keel_be.Connectors.Lifecycle.{ensured}

-- The requests of a client, with what each takes from its surroundings.
pub data Request : Type 0 where
  list : Env → ℕ → Request
  start : Env → ℕ → ConnectorType → Request
  folders : Env → ℕ → ℕ → Request
  synchronize : SyncEnv → ℕ → ℕ → List Text → Request
  remove : ℕ → ℕ → Request

-- The tables that a request leaves, and `get_db` around its handler.
abbrev tables_after : {A : Type 0} → Result A → World → IngestionDb
tables_after (ok a) w = w.session.working
tables_after (err e) w = w.session.committed

abbrev in_request : {A : Type 0} → Run World A → World → World
in_request m w =
    let (r, w') = m (record w { session = open_session w.session.committed }) in
    record w' { session = open_session (tables_after r w') }

unfoldable pub serve : Request → World → World
serve (list env ws) = in_request (list_connectors env ws)
serve (start env ws kind) = in_request (start_oauth env ws kind)
serve (folders env ws i) = in_request (get_folders env ws i)
serve (synchronize env ws i fids) = in_request (sync env ws i fids)
serve (remove ws i) = in_request (disconnect ws i)

unfoldable pub serve_all : List Request → World → World
serve_all [] w = w
serve_all (r ∷ rs) w = serve_all rs (serve r w)

-- What a handler, run in a session that has written nothing yet, leaves of the connector.
abbrev Leaves : {A : Type 0} → ℕ → Run World A → Type 0
Leaves i m =
    (w : World)
    → w.session.committed ≡ w.session.working
    → Kept i w.session.working.connectors (tables_after (m w).0 (m w).1).connectors

-- A handler that only reads.
abbrev Reads : {A : Type 0} → Run World A → Type 0
Reads m = (w : World) → (m w).1 ≡ w

pair_eq : {A B : Type 0} {a a' : A} {b b' : B} → a ≡ a' → b ≡ b' → ◌≡◌ {A = A × B} (a, b) (a', b')
pair_eq p q k = (p k, q k)

module _ {A B : Type 0} (i : ℕ) (m : Run World A) (f : A → Run World B) (reads : Reads m) where
  Leaves-after_read : ((a : A) → Leaves i (f a)) → Leaves i (m >>= f)
  Leaves-after_read rest w fresh = elim (Result-cases (m w).0) [
    | inl (a, e) ↦
        subst (λ p. Kept i w.session.working.connectors (tables_after p.0 p.1).connectors)
          (sym (after_ok m f (pair_eq e (reads w)))) (rest a w fresh)
    | inr (x, e) ↦
        subst (λ p. Kept i w.session.working.connectors (tables_after p.0 p.1).connectors)
          (sym (after_err m f (pair_eq e (reads w))))
          (rw fresh (Kept-refl i w.session.working.connectors))
  ]

tables_same :
    {A : Type 0} (r : Result A) (w' w : World)
    → w' ≡ w
    → w.session.committed ≡ w.session.working
    → tables_after r w' ≡ w.session.working
tables_same (ok a) w' w e fresh = ap (λ (v : World). v.session.working) e
tables_same (err x) w' w e fresh = ap (λ (v : World). v.session.committed) e ∙ fresh

Leaves-read : {A : Type 0} (i : ℕ) (m : Run World A) → Reads m → Leaves i m
Leaves-read i m reads w fresh =
    subst (λ (db : IngestionDb). Kept i w.session.working.connectors db.connectors)
      (sym (tables_same (m w).0 (m w).1 w (reads w) fresh))
      (Kept-refl i w.session.working.connectors)

-- A chain of reads is a read.
Reads-then :
    {A B : Type 0} (m : Run World A) (f : A → Run World B)
    → Reads m
    → ((a : A) → Reads (f a))
    → Reads (m >>= f)
Reads-then m f p q w = elim (Result-cases (m w).0) [
  | inl (a, e) ↦ ap (λ x. x.1) (after_ok m f (pair_eq e (p w))) ∙ q a w
  | inr (x, e) ↦ ap (λ x. x.1) (after_err m f (pair_eq e (p w)))
]

Reads-lift : {A : Type 0} (r : Result A) → Reads (in_db (Db.lift r))
Reads-lift r w = refl

Reads-required : {A : Type 0} (e : Exc) (o : Option A) → Reads (in_db (Db.required e o))
Reads-required e none w = refl
Reads-required e (some a) w = refl

Reads-guard : (b : Bool) (e : Exc) → Reads (in_db (Db.guard b e))
Reads-guard true e w = refl
Reads-guard false e w = refl

Reads-one : {A : Type 0} (rows : List A) → Reads (in_db (Db.scalar_one_or_none rows))
Reads-one [] w = refl
Reads-one (r ∷ []) w = refl
Reads-one (r ∷ s ∷ rows) w = refl

Reads-get : (ws j : ℕ) → Reads (get_connector ws j)
unfolding get_connector
Reads-get ws j w = elim (Option-cases (get j w.session.working.connectors)) [
  | inl absent ↦ rw absent refl
  | inr (c, present) ↦ rw present (
      Reads-then (in_db (Db.guard (c.workspace_id == ws) connector_not_found))
        (λ _. in_db (Db.pure c)) (Reads-guard (c.workspace_id == ws) connector_not_found)
        (λ a w. refl) w)
]

Reads-token : (env : Env) (c : Connector) → Reads (access_token env c)
unfolding access_token
Reads-token env c w =
    Reads-then (in_db (Db.scalar_one_or_none (credentials_of c.id w.session.working)))
      (λ cred. in_db (Db.lift (token_of env cred)))
      (Reads-one (credentials_of c.id w.session.working)) (λ a w. refl) w

-- The loop of a sync leaves the connectors to the end.
module _ (env : SyncEnv) (ws i : ℕ) where
  Leaves-sync_files :
      (c : Connector) (token : Text) (fids : List Text) → Leaves i (sync_all env ws c token fids)
  Leaves-sync_files c token fids w fresh =
      let none_yet : Counts = record { created = 0; skipped = 0; failed = 0 } in
      let o : Open = record { world = w; usable = true } in
      let (counts, o1, e, p) = sync_files-Progress env ws c token 0 fids none_yet o in
      subst (λ p. Kept i w.session.working.connectors (tables_after p.0 p.1.world).connectors)
        (sym (
          after_ok (sync_files env ws 0 c token fids none_yet) (finish_sync env ws c fids) {s = o}
            e))
        (elim (Bool-cases o1.usable) [
          | inl usable ↦ rw usable (
              subst
                (λ cs. Kept i cs (
                  update c.id
                    (λ r. record r {
                      last_synced_at = some env.connectors.now;
                      last_sync_document_count = some counts.created;
                    })
                    o1.world.session.working.connectors))
                p.leaves.connectors
                (Kept-update i c.id _ o1.world.session.working.connectors (λ r. refl) (λ r. stay)))
          | inr broken ↦ rw broken (
              subst (λ cs. Kept i w.session.working.connectors cs)
                (sym (
                  p.leaves.committed (ap (λ (db : IngestionDb). db.connectors) fresh)
                  ∙ p.leaves.connectors))
                (Kept-refl i w.session.working.connectors))
        ])

  Leaves-sync : (j : ℕ) (fids : List Text) → Leaves i (sync env ws j fids)
  unfolding sync
  Leaves-sync j fids = Leaves-after_read i (get_connector ws j) _ (Reads-get ws j) (λ c.
      Leaves-after_read i
        (in_db (Db.guard (same_type c.kind ConnectorType.google_drive) unsupported)) _
        (Reads-guard (same_type c.kind ConnectorType.google_drive) unsupported)
        (λ _.
          Leaves-after_read i (access_token env.connectors c) _ (Reads-token env.connectors c)
            (λ found.
              Leaves-after_read i
                (in_db (Db.required (not_authorized "Connector is not authorized") found)) _
                (Reads-required (not_authorized "Connector is not authorized") found)
                (λ token. Leaves-sync_files c token fids))))

disconnected_row-id : (r : Connector) → (disconnected_row r).id ≡ r.id
unfolding disconnected_row
disconnected_row-id r = ground arith

disconnected_row-Moves : (r : Connector) → Moves r.status (disconnected_row r).status
unfolding disconnected_row
disconnected_row-Moves r = elim (Bool-cases (is_coming_soon r.status)) [
  | inl soon ↦ rw soon stay
  | inr not_soon ↦ rw not_soon (drop not_soon)
]

Leaves-disconnect : (ws i j : ℕ) → Leaves i (disconnect ws j)
unfolding disconnect
Leaves-disconnect ws i j = Leaves-after_read i (get_connector ws j) _ (Reads-get ws j) (λ c w fresh.
    Kept-update i c.id _ w.session.working.connectors disconnected_row-id disconnected_row-Moves)

Leaves-folders : (env : Env) (ws i j : ℕ) → Leaves i (get_folders env ws j)
unfolding get_folders
Leaves-folders env ws i j =
    let e = not_authorized "Google Drive is not authorized. Please reconnect the connector." in
    Leaves-read i (get_folders env ws j) (
      Reads-then (get_connector ws j) _ (Reads-get ws j) (λ c.
        Reads-then (access_token env c) _ (Reads-token env c) (λ found.
          Reads-then (in_db (Db.required e found)) _ (Reads-required e found) (λ token.
            Reads-then (in_db (Db.lift (Drive.list_files env.lib env.settings token none)))
              (λ items. in_db (Db.pure (map folder_node items)))
              (Reads-lift (Drive.list_files env.lib env.settings token none)) (λ items w. refl)))))

ensured-Kept : (env : Env) (ws i : ℕ) (cs : List Connector) → Kept i cs (ensured env ws cs)
ensured-Kept env ws i cs =
    Kept-trans i cs _ (ensured env ws cs) (Kept-append i cs _) (Kept-append i _ _)

Leaves-list : (env : Env) (ws i : ℕ) → Leaves i (list_connectors env ws)
unfolding list_connectors ensure_default_connectors
Leaves-list env ws i w fresh = ensured-Kept env ws i w.session.working.connectors

Leaves-start : (env : Env) (ws i : ℕ) (kind : ConnectorType) → Leaves i (start_oauth env ws kind)
unfolding start_oauth
Leaves-start env ws i kind w fresh =
    let w' = (ensure_default_connectors env ws w).1 in
    let kept = ensured-Kept env ws i w.session.working.connectors in
    let rows =
      select (λ (c : Connector). of_workspace ws c && same_type c.kind kind)
        w'.session.working.connectors in
    Kept-trans i w.session.working.connectors w'.session.working.connectors _ kept (
      Leaves-read i
        (in_db (Db.scalar_one_or_none rows) >>= λ one.
          in_db (Db.required connector_not_found one) >>= start_answer env kind)
        (Reads-then (in_db (Db.scalar_one_or_none rows)) _ (Reads-one rows) (λ one.
          Reads-then (in_db (Db.required connector_not_found one)) (start_answer env kind)
            (Reads-required connector_not_found one) (λ c v. refl)))
        w' refl)

served :
    (r : Request) (i : ℕ) (w : World)
    → Kept i w.session.committed.connectors (serve r w).session.committed.connectors
unfolding serve
served (list env ws) i w = Leaves-list env ws i _ refl
served (start env ws kind) i w = Leaves-start env ws i kind _ refl
served (folders env ws j) i w = Leaves-folders env ws i j _ refl
served (synchronize env ws j fids) i w = Leaves-sync env ws i j fids _ refl
served (remove ws j) i w = Leaves-disconnect ws i j _ refl

-- Over any sequence of requests for the connectors of whatever workspaces, the OAuth callback left
-- out, a connector that is stored stays stored, and its status is the one it had, or it was not coming
-- soon and is now disconnected: only the callback makes a connector connected.
pub serve_all-Moves :
    (rs : List Request) (i : ℕ) (w : World) {c : Connector}
    → get i w.session.committed.connectors ≡ some c
    → (c' : Connector) × (get i (serve_all rs w).session.committed.connectors ≡ some c')
      × Moves c.status c'.status
unfolding serve_all
serve_all-Moves [] i w {c} h = (c, h, stay)
serve_all-Moves (r ∷ rs) i w {c} h =
    let (d, e, m) = served r i w c h in
    let (c', e', m') = serve_all-Moves rs i (serve r w) {c = d} e in (c', e', Moves-trans m m')
