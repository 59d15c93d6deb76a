-- ===== src/Connectors/Reports.antt =====
-- backend/app/services/connector_service.py: what a whole `sync` reports and leaves.
use keel_be.Prelude.{
  ℕ, suc, ◌+◌, ◌≡◌, refl, ◌∙◌, ap, Text, true, some, List, [], ◌∷◌, arith, length, All,
}
use keel_be.Prelude.Rows.{get, update, key-get, get-update_self}
use keel_be.Models.Enums.{ConnectorType}
use keel_be.Models.Connector.{Connector, connector_key}
use keel_be.Core.Session.{ok, commit, ◌>>◌}
use keel_be.Documents.{World, in_db}
use keel_be.Connectors.{get_connector, set_connector, access_token}
use keel_be.Connectors.Sync.{Counts, Report, SyncEnv, already_synced, sync_file, sync_files, sync}
use keel_be.Connectors.Synced.{documents, TakesAll, Distinct, others, sync_files-Progress}

module _ (env : SyncEnv) (ws connector_id : ℕ) (w : World) where
  -- What a sync answers and leaves, from the tables that it found.
  pub record Synced (fids : List Text) (c : Connector) (report : Report) (w' : World) : Type 0 where
    pub requested : report.requested ≡ length fids
    pub counted :
        report.counts.created + report.counts.skipped + report.counts.failed ≡ report.requested
    pub grown : length (documents w') ≡ length (documents w) + report.counts.created
    pub distinct : Distinct ws w'
    pub foreign : others ws w' ≡ others ws w
    pub stamped :
        get connector_id w'.session.working.connectors
        ≡ some (record c {
          last_synced_at = some env.connectors.now;
          last_sync_document_count = some report.counts.created;
        })
    pub committed : w'.session.committed ≡ w'.session.working

  -- If the database takes the rows of the documents, a sync of a Google Drive connector of the
  -- workspace that has an access token returns, whatever Drive, the size, the type or the broker fails
  -- single files for: its counts add up to the files asked for, it adds as many documents as it says it
  -- created, no two documents of the workspace stand for one file if none did before, and the documents of other
  -- workspaces are as before; time and count are written to the connector, and all of it is committed.
  pub sync_lem :
      (fids : List Text) {c : Connector} {token : Text}
      → get connector_id w.session.working.connectors ≡ some c
      → c.workspace_id ≡ ws
      → c.kind ≡ ConnectorType.google_drive
      → access_token env.connectors c w ≡ (ok (some token), w)
      → TakesAll env
      → Distinct ws w
      → (report : Report) × (w' : World) × (sync env ws connector_id fids w ≡ (ok report, w'))
        × Synced fids c report w'
  unfolding sync get_connector
  sync_lem fids {c} {token} found own drive auth takes distinct =
      let (counts, o1, e, p) =
        sync_files-Progress env ws c token 0 fids (record { created = 0; skipped = 0; failed = 0 })
          (record { world = w; usable = true }) in
      let stamp : Connector → Connector = λ r. record r {
        last_synced_at = some env.connectors.now;
        last_sync_document_count = some counts.created;
      } in
      (
        record { requested = length fids; counts = counts },
        (in_db (set_connector c.id stamp >> commit) o1.world).1,
        ground (arith, found, own, drive, auth, e, p.leaves.usable takes refl),
        record {
          requested = refl;
          counted = omega (arith, p.counted);
          grown = omega (arith, p.grown);
          distinct = p.distinct distinct;
          foreign = p.foreign;
          stamped =
              (ap (λ cs. get connector_id (update c.id stamp cs)) p.leaves.connectors
                ∙ ground (
                  arith,
                  found,
                  key-get connector_id w.session.working.connectors {r = c} found,
                  get-update_self connector_id stamp w.session.working.connectors (λ r. refl),
                ));
          committed = refl;
        },
      )

  synced_before :
      (n : ℕ) (c : Connector) (token : Text) (fids : List Text) (counts : Counts)
      → All (λ fid. already_synced ws fid w.session.working ≡ true) fids
      → sync_files env ws n c token fids counts (record { world = w; usable = true }) ≡ (
        ok (record counts { skipped = counts.skipped + length fids }),
        record { world = w; usable = true },
      )
  unfolding sync_files sync_file
  synced_before n c token [] counts h = ground arith
  synced_before n c token (fid ∷ fids) counts h = rw h.0 (
      synced_before (suc n) c token fids (record counts { skipped = suc counts.skipped }) h.1
      ∙ ground arith)

  -- A sync of files that are all in the workspace already skips every one of them, and neither the
  -- documents nor the stored files nor the worker's queue change.
  pub sync_again :
      (fids : List Text) {c : Connector} {token : Text}
      → get connector_id w.session.working.connectors ≡ some c
      → c.workspace_id ≡ ws
      → c.kind ≡ ConnectorType.google_drive
      → access_token env.connectors c w ≡ (ok (some token), w)
      → All (λ fid. already_synced ws fid w.session.working ≡ true) fids
      → (w' : World) × (sync env ws connector_id fids w ≡ (
        ok (record {
          requested = length fids;
          counts = record { created = 0; skipped = length fids; failed = 0 };
        }),
        w',
      ))
        × (documents w' ≡ documents w)
        × (w'.files ≡ w.files)
        × (w'.broker ≡ w.broker)
  unfolding sync get_connector
  sync_again fids {c} {token} found own drive auth present =
      let stamp : Connector → Connector = λ r. record r {
        last_synced_at = some env.connectors.now;
        last_sync_document_count = some 0;
      } in
      (
        (in_db (set_connector c.id stamp >> commit) w).1,
        ground (
          arith,
          found,
          own,
          drive,
          auth,
          synced_before 0 c token fids (record { created = 0; skipped = 0; failed = 0 }) present,
        ),
        refl,
        refl,
        refl,
      )
