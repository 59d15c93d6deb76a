-- ===== src/Connectors/Lifecycle.antt =====
-- backend/app/services/connector_service.py: the cards of a workspace and the states of a connector.
use keel_be.Prelude.{
  ℕ, ◌≡◌, ◌≢◌, refl, ap, ◌∙◌, inl, inr, Text, true, some, List, [], ◌∷◌, ◌++◌, arith, Option-cases,
  Bool-cases, select, select-append,
}
use keel_be.Prelude.Rows.{get}
use keel_be.Models.Enums.{ConnectorType, ConnectorStatus}
use keel_be.Models.Connector.{Connector, connector_key}
use keel_be.Core.Session.{ok, err}
use keel_be.Documents.{World}
use keel_be.Connectors.{
  Env, connector_not_found, of_workspace, has_type, same_type, card_if_absent, get_connector,
  get_folders, disconnect, ensure_default_connectors, list_connectors, new_connector,
}
use keel_be.Connectors.Sync.{SyncEnv, sync}

-- A connector of another workspace, like one that does not exist, can be neither browsed nor synced nor
-- disconnected: each answers 404, and tables, files and broker stay as they were.
pub foreign_connector :
    (env : SyncEnv) (ws connector_id : ℕ) (fids : List Text) (w : World)
    → ((c : Connector)
        → get connector_id w.session.working.connectors ≡ some c
        → c.workspace_id ≢ ws)
    → (get_folders env.connectors ws connector_id w ≡ (err connector_not_found, w))
      × (sync env ws connector_id fids w ≡ (err connector_not_found, w))
      × (disconnect ws connector_id w ≡ (err connector_not_found, w))
unfolding get_folders sync disconnect get_connector
foreign_connector env ws connector_id fids w foreign =
    elim (Option-cases (get connector_id w.session.working.connectors)) [
      | inl absent ↦ (ground arith, ground arith, ground arith)
      | inr (c, present) ↦ (
        ground (arith, foreign c present),
        ground (arith, foreign c present),
        ground (arith, foreign c present),
      )
    ]

has_type-append :
    (kind : ConnectorType) (xs ys : List Connector)
    → has_type kind xs ≡ true
    → has_type kind (xs ++ ys) ≡ true
has_type-append kind [] ys h = cc
has_type-append kind (x ∷ xs) ys h = ground (arith, has_type-append kind xs ys)

has_type-added :
    (kind : ConnectorType) (xs : List Connector) (y : Connector)
    → same_type y.kind kind ≡ true
    → has_type kind (xs ++ y ∷ []) ≡ true
has_type-added kind [] y h = ground arith
has_type-added kind (x ∷ xs) y h = ground (arith, has_type-added kind xs y h)

append_nil : {A : Type 0} (xs : List A) → xs ++ [] ≡ xs
append_nil [] = refl
append_nil (x ∷ xs) = ap (λ l. x ∷ l) (append_nil xs)

-- The rows of a workspace, once a card of it is added if it is absent from some of them.
module _ (ws : ℕ) (cs existing : List Connector) (y : Connector) (own : y.workspace_id ≡ ws) where
  select_own : select (of_workspace ws) (y ∷ []) ≡ y ∷ []
  select_own = ground (arith, own)

  card_present :
      (has_type y.kind existing ≡ true → has_type y.kind (select (of_workspace ws) cs) ≡ true)
      → same_type y.kind y.kind ≡ true
      → has_type y.kind (select (of_workspace ws) (cs ++ card_if_absent existing y)) ≡ true
  card_present h same = elim (Bool-cases (has_type y.kind existing)) [
    | inl has ↦ rw has (rw (append_nil cs) (h has))
    | inr lacks ↦ rw lacks (
        ap (has_type y.kind) (
          select-append (of_workspace ws) cs (y ∷ [])
          ∙ ap (λ l. select (of_workspace ws) cs ++ l) select_own)
        ∙ has_type-added y.kind (select (of_workspace ws) cs) y same)
  ]

  card_kept :
      (kind : ConnectorType)
      → has_type kind (select (of_workspace ws) cs) ≡ true
      → has_type kind (select (of_workspace ws) (cs ++ card_if_absent existing y)) ≡ true
  card_kept kind h = rw (select-append (of_workspace ws) cs (card_if_absent existing y)) (
      has_type-append kind (select (of_workspace ws) cs)
        (select (of_workspace ws) (card_if_absent existing y)) h)

-- Both cards are there.
abbrev BothCards : List Connector → Type 0
BothCards cs =
    (has_type ConnectorType.google_drive cs ≡ true) × (has_type ConnectorType.onedrive cs ≡ true)

-- The connectors after the default ones are ensured.
abbrev pub ensured : Env → ℕ → List Connector → List Connector
ensured env ws cs =
    let existing = select (of_workspace ws) cs in
    (cs
      ++ card_if_absent existing (
          new_connector env.drive_id ws ConnectorType.google_drive "Google Drive"
            ConnectorStatus.disconnected))
    ++ card_if_absent existing (
        new_connector env.onedrive_id ws ConnectorType.onedrive "OneDrive"
          ConnectorStatus.coming_soon)

ensured-BothCards :
    (env : Env) (ws : ℕ) (cs : List Connector)
    → BothCards (select (of_workspace ws) (ensured env ws cs))
ensured-BothCards env ws cs =
    let existing = select (of_workspace ws) cs in
    let drive =
      new_connector env.drive_id ws ConnectorType.google_drive "Google Drive"
        ConnectorStatus.disconnected in
    let onedrive =
      new_connector env.onedrive_id ws ConnectorType.onedrive "OneDrive"
        ConnectorStatus.coming_soon in
    (
      card_kept ws (cs ++ card_if_absent existing drive) existing onedrive refl
          ConnectorType.google_drive (card_present ws cs existing drive refl (λ h. h) refl),
      card_present ws (cs ++ card_if_absent existing drive) existing onedrive refl
          (card_kept ws cs existing drive refl ConnectorType.onedrive) refl,
    )

ensured_again :
    (env : Env) (ws : ℕ) (cs : List Connector)
    → BothCards (select (of_workspace ws) cs)
    → ensured env ws cs ≡ cs
ensured_again env ws cs both = rw (both.0, both.1) (append_nil (cs ++ []) ∙ append_nil cs)

-- Listing the connectors of a workspace shows a card for Google Drive and one for OneDrive, and listing
-- them again, with whatever identifiers would be drawn then, shows the same cards and adds no row.
pub list_connectors_again :
    (env env' : Env) (ws : ℕ) (w : World)
    → (cs : List Connector) × (w' : World) × (list_connectors env ws w ≡ (ok cs, w'))
      × (has_type ConnectorType.google_drive cs ≡ true)
      × (has_type ConnectorType.onedrive cs ≡ true)
      × (list_connectors env' ws w' ≡ (ok cs, w'))
unfolding list_connectors ensure_default_connectors
list_connectors_again env env' ws w =
    let cs = ensured env ws w.session.working.connectors in
    let both = ensured-BothCards env ws w.session.working.connectors in
    (
      select (of_workspace ws) cs,
      (list_connectors env ws w).1,
      refl,
      both.0,
      both.1,
      rw (ensured_again env' ws cs both) refl,
    )
