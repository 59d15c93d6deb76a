-- ===== src/Connectors/Synced.antt =====
-- backend/app/services/connector_service.py: what `sync` leaves in the tables.
use keel_be.Prelude.{
  ℕ, suc, ◌+◌, ◌≤◌, ◌≡◌, refl, inl, inr, ◌∙◌, Text, Bool, true, false, not, Option, none, some,
  List, [], ◌∷◌, ◌++◌, ◌==◌, arith, select, length, length-append, text_eq, text_eq-eq, Bool-cases,
  subst, ap, ltb, is_some,
}
use keel_be.Prelude.Rows.{one_if}
use keel_be.Models.Connector.{Connector, connector_key}
use keel_be.Models.Ingestion.{Document}
use keel_be.Core.Session.{Result, ok, err}
use keel_be.Core.Session as Db
use keel_be.Core.Settings.{max_upload_bytes}
use keel_be.Documents.{
  World, queued_document, create_queued_document, save_bytes, enqueue, detect_file_type,
}
use keel_be.Drive as Drive
use keel_be.Connectors.Sync.{
  Open, Outcome, Counts, tally, SyncEnv, stands_for, already_synced, caught_file_type, fetch_file,
  new_file, sync_file, sync_files, file_size, file_name, outcome_of, synced_document,
}

abbrev pub documents : World → List Document
documents w = w.session.working.documents

-- How many documents a file adds.
abbrev added : Result Outcome → ℕ
added (ok Outcome.created) = 1
added (ok Outcome.skipped) = 0
added (ok Outcome.failed) = 0
added (err e) = 0

abbrev pub total : Counts → ℕ
total c = c.created + c.skipped + c.failed

-- No two documents of the workspace stand for one file of the drive.
abbrev pub Distinct : ℕ → World → Type 0
Distinct ws w = (fid : Text) → length (select (stands_for ws fid) (documents w)) ≤ 1

-- The documents of the other workspaces.
abbrev pub others : ℕ → World → List Document
others ws w = select (λ d. not (d.workspace_id == ws)) (documents w)

-- The database takes the row of every document.
abbrev pub TakesAll : SyncEnv → Type 0
TakesAll env = (n : ℕ) (d : Document) → (env.docs n).takes d ≡ true

-- What is said of a session: that nothing of the connectors is uncommitted.
abbrev pub ConnectorsCommitted : World → Type 0
ConnectorsCommitted w = w.session.committed.connectors ≡ w.session.working.connectors

-- What the loop leaves alone: the connectors, committed or not, and the session, if no row is refused.
pub record Leaves (env : SyncEnv) (o o' : Open) : Type 0 where
  pub connectors : o'.world.session.working.connectors ≡ o.world.session.working.connectors
  pub committed : ConnectorsCommitted o.world → ConnectorsCommitted o'.world
  pub usable : TakesAll env → o.usable ≡ true → o'.usable ≡ true

-- What the processing of a file may do to the documents of a workspace: nothing, or add one that
-- stands for the file.
data FileStep (env : SyncEnv) (ws : ℕ) (fid : Text) (o : Open) (r : Result Outcome) (o' : Open)
    : Type 0 where
  kept :
      added r ≡ 0
      → documents o'.world ≡ documents o.world
      → Leaves env o o'
      → FileStep env ws fid o r o'
  grew :
      (d : Document)
      → added r ≡ 1
      → documents o'.world ≡ documents o.world ++ d ∷ []
      → d.workspace_id ≡ ws
      → d.external_document_id ≡ some fid
      → Leaves env o o'
      → FileStep env ws fid o r o'

-- How far a loop has come, from some counts and a world to others, after `n` files.
pub record Progress (env : SyncEnv) (ws n : ℕ) (counts : Counts) (o : Open) (counts' : Counts)
    (o' : Open) : Type 0 where
  pub counted : total counts' ≡ total counts + n
  pub grown :
      length (documents o'.world) + counts.created ≡ length (documents o.world) + counts'.created
  pub leaves : Leaves env o o'
  pub distinct : Distinct ws o.world → Distinct ws o'.world
  pub foreign : others ws o'.world ≡ others ws o.world

length-select-snoc :
    {A : Type 0} (p : A → Bool) (xs : List A) (x : A)
    → length (select p (xs ++ x ∷ [])) ≡ length (select p xs) + one_if (p x)
length-select-snoc p [] x = ground arith
length-select-snoc p (y ∷ xs) x = ground (arith, length-select-snoc p xs x)

absent_length :
    (ws : ℕ) (fid : Text) (ds : List Document)
    → is_some (Db.first (select (stands_for ws fid) ds)) ≡ false
    → length (select (stands_for ws fid) ds) ≡ 0
absent_length ws fid ds h = ground arith

Distinct-append :
    (ws : ℕ) (fid e : Text) (ds : List Document) (d : Document)
    → is_some (Db.first (select (stands_for ws fid) ds)) ≡ false
    → d.external_document_id ≡ some fid
    → length (select (stands_for ws e) ds) ≤ 1
    → length (select (stands_for ws e) (ds ++ d ∷ [])) ≤ 1
Distinct-append ws fid e ds d new x h = elim (Bool-cases (text_eq fid e)) [
  | inl same ↦
      subst (λ t. length (select (stands_for ws t) (ds ++ d ∷ [])) ≤ 1) (text_eq-eq fid e same)
        (ground (arith, absent_length ws fid ds new, length-select-snoc (stands_for ws fid) ds d))
  | inr other ↦ ground (arith, length-select-snoc (stands_for ws e) ds d)
]

select-own :
    (ws : ℕ) (ds : List Document) (d : Document)
    → d.workspace_id ≡ ws
    → select (λ x. not (x.workspace_id == ws)) (ds ++ d ∷ [])
      ≡ select (λ x. not (x.workspace_id == ws)) ds
select-own ws [] d o = ground (arith, o)
select-own ws (e ∷ ds) d o = ground (arith, o, select-own ws ds d o)

Leaves-refl : (env : SyncEnv) (o : Open) → Leaves env o o
Leaves-refl env o = record { connectors = refl; committed = λ h. h; usable = λ t h. h }

Leaves-trans : (env : SyncEnv) (o p q : Open) → Leaves env o p → Leaves env p q → Leaves env o q
Leaves-trans env o p q h k = record {
  connectors = k.connectors ∙ h.connectors;
  committed = λ c. k.committed (h.committed c);
  usable = λ t u. k.usable t (h.usable t u);
}

module _ (env : SyncEnv) (ws : ℕ) (c : Connector) (token : Text) where
  refused_lem :
      {n : ℕ} {d : Document} {A : Type 0} → (env.docs n).takes d ≡ false → TakesAll env → A
  refused_lem {n} {d} refused t = absurd (ground (arith, refused, t n d))

  fetch_file-FileStep :
      (n : ℕ) (fid name : Text) (meta : Drive.Response) (ft : Option Text) (o : Open)
      → let r = fetch_file env ws n c token fid name meta ft o in FileStep env ws fid o r.0 r.1
  unfolding fetch_file create_queued_document save_bytes queued_document enqueue
  fetch_file-FileStep n fid name meta none o = kept refl refl (Leaves-refl env o)
  fetch_file-FileStep n fid name meta (some ft) o =
      elim (Db.Result-cases
        (Drive.download_file env.connectors.lib env.connectors.settings token fid)) [
          | inr (x, e) ↦ rw e (kept refl refl (Leaves-refl env o))
          | inl (content, e) ↦
              let d =
                queued_document (env.docs n).lower
                  (synced_document env ws n c fid name ft meta content) in
              rw e (elim (Bool-cases ((env.docs n).takes d)) [
                | inl yes' ↦ rw yes' (
                    grew d refl refl refl refl
                      (record { connectors = refl; committed = λ h. refl; usable = λ t h. refl }))
                | inr no' ↦ rw no' (
                    kept refl refl (record {
                      connectors = refl;
                      committed = λ h. h;
                      usable = λ t h. refused_lem {n = n} {d = d} no' t;
                    }))
              ])
        ]

  new_file-FileStep :
      (n : ℕ) (fid : Text) (o : Open)
      → let r = new_file env ws n c token fid o in FileStep env ws fid o r.0 r.1
  unfolding new_file
  new_file-FileStep n fid o =
      let same = Leaves-refl env o in
      elim (Db.Result-cases
        (Drive.get_metadata env.connectors.lib env.connectors.settings token fid)) [
          | inr (x, e) ↦ rw e (kept refl refl same)
          | inl (meta, e) ↦ rw e (elim (Db.Result-cases (file_size env ws meta)) [
            | inr (x, e2) ↦ rw e2 (kept refl refl same)
            | inl (size, e2) ↦ rw e2 (elim (Bool-cases (ltb (max_upload_bytes env.settings) size)) [
              | inl big ↦ rw big (kept refl refl same)
              | inr fits ↦
                  rw fits
                    (elim (Db.Result-cases (
                      caught_file_type
                        (detect_file_type (env.docs n).lower (file_name meta fid) none))) [
                          | inr (x, e3) ↦ rw e3 (kept refl refl same)
                          | inl (ft, e3) ↦
                              rw e3 (fetch_file-FileStep n fid (file_name meta fid) meta ft o)
                        ])
            ])
          ])
        ]

  caught-FileStep :
      (fid : Text) (o : Open) (r : Result Outcome) (o' : Open)
      → FileStep env ws fid o r o'
      → FileStep env ws fid o (ok (outcome_of r)) o'
  caught-FileStep fid o (ok Outcome.created) o' s = s
  caught-FileStep fid o (ok Outcome.skipped) o' s = s
  caught-FileStep fid o (ok Outcome.failed) o' s = s
  caught-FileStep fid o (err e) o' (kept a d k) = kept refl d k
  caught-FileStep fid o (err e) o' (grew d a g w x k) = absurd (ground (arith, a))

  -- A file that adds nothing, and one that adds a document.
  kept-Progress :
      (o o' : Open) (x : Outcome) (counts : Counts)
      → total (tally x counts) ≡ total counts + 1
      → (tally x counts).created ≡ counts.created
      → documents o'.world ≡ documents o.world
      → Leaves env o o'
      → Progress env ws 1 counts o (tally x counts) o'
  kept-Progress o o' x counts one none' d k = record {
    counted = one;
    grown = omega (arith, ap length d, none');
    leaves = k;
    distinct = λ h. rw d h;
    foreign = ap (select (λ x. not (x.workspace_id == ws))) d;
  }

  file-Progress :
      (fid : Text) (o : Open) (x : Outcome) (o' : Open) (counts : Counts)
      → already_synced ws fid o.world.session.working ≡ false
      → FileStep env ws fid o (ok x) o'
      → Progress env ws 1 counts o (tally x counts) o'
  unfolding already_synced
  file-Progress fid o Outcome.created o' counts new (kept a d k) = absurd (ground (arith, a))
  file-Progress fid o Outcome.skipped o' counts new (kept a d k) =
      kept-Progress o o' Outcome.skipped counts (omega arith) refl d k
  file-Progress fid o Outcome.failed o' counts new (kept a d k) =
      kept-Progress o o' Outcome.failed counts (omega arith) refl d k
  file-Progress fid o Outcome.created o' counts new (grew x a d w e k) = record {
    counted = ground arith;
    grown = ground (arith, d, length-append (documents o.world) (x ∷ []));
    leaves = k;
    distinct = λ h. λ f. rw d (Distinct-append ws fid f (documents o.world) x new e (h f));
    foreign =
        ap (select (λ x. not (x.workspace_id == ws))) d ∙ select-own ws (documents o.world) x w;
  }
  file-Progress fid o Outcome.skipped o' counts new (grew x a d w e k) = absurd (ground (arith, a))
  file-Progress fid o Outcome.failed o' counts new (grew x a d w e k) = absurd (ground (arith, a))

  then-Progress :
      (n : ℕ) (c0 c1 c2 : Counts) (o0 o1 o2 : Open)
      → Progress env ws 1 c0 o0 c1 o1
      → Progress env ws n c1 o1 c2 o2
      → Progress env ws (suc n) c0 o0 c2 o2
  then-Progress n c0 c1 c2 o0 o1 o2 p q = record {
    counted = omega (arith, p.counted, q.counted);
    grown = omega (arith, p.grown, q.grown);
    leaves = Leaves-trans env o0 o1 o2 p.leaves q.leaves;
    distinct = λ h. q.distinct (p.distinct h);
    foreign = q.foreign ∙ p.foreign;
  }

  sync_file-Progress :
      (n : ℕ) (fid : Text) (o : Open) (counts : Counts)
      → (x : Outcome) × (o' : Open) × (sync_file env ws n c token fid o ≡ (ok x, o'))
        × Progress env ws 1 counts o (tally x counts) o'
  unfolding sync_file
  sync_file-Progress n fid o counts = elim (Bool-cases o.usable) [
    | inr broken ↦ (
      Outcome.failed,
      o,
      ground (arith, broken),
      kept-Progress o o Outcome.failed counts (omega arith) refl refl (Leaves-refl env o),
    )
    | inl usable ↦ elim (Bool-cases (already_synced ws fid o.world.session.working)) [
      | inl present ↦ (
        Outcome.skipped,
        o,
        ground (arith, usable, present),
        kept-Progress o o Outcome.skipped counts (omega arith) refl refl (Leaves-refl env o),
      )
      | inr new ↦
          let r = new_file env ws n c token fid o in
          (
            outcome_of r.0,
            r.1,
            ground (arith, usable, new),
            file-Progress fid o (outcome_of r.0) r.1 counts new
                (caught-FileStep fid o r.0 r.1 (new_file-FileStep n fid o)),
          )
    ]
  ]

  -- The loop always returns, with counts that it reached.
  pub sync_files-Progress :
      (n : ℕ) (fids : List Text) (counts : Counts) (o : Open)
      → (counts' : Counts) × (o' : Open) × (sync_files env ws n c token fids counts o
          ≡ (ok counts', o'))
        × Progress env ws (length fids) counts o counts' o'
  unfolding sync_files
  sync_files-Progress n [] counts o = (
    counts,
    o,
    refl,
    record {
      counted = omega arith;
      grown = refl;
      leaves = Leaves-refl env o;
      distinct = λ h. h;
      foreign = refl;
    },
  )
  sync_files-Progress n (fid ∷ fids) counts o =
      let (x, o1, e1, p1) = sync_file-Progress n fid o counts in
      let (counts2, o2, e2, p2) = sync_files-Progress (suc n) fids (tally x counts) o1 in
      (
        counts2,
        o2,
        Db.after_ok (sync_file env ws n c token fid)
              (λ x'. sync_files env ws (suc n) c token fids (tally x' counts)) {s = o} e1
            ∙ e2,
        then-Progress (length fids) counts (tally x counts) counts2 o o1 o2 p1 p2,
      )
