-- ===== src/Connectors/Moves.antt =====
-- backend/app/services/connector_service.py: how the rows of connectors may change.
use keel_be.Prelude.{
  ℕ, ◌≡◌, subst, inl, inr, false, some, List, [], ◌∷◌, ◌++◌, ◌==◌, arith, Bool-cases,
}
use keel_be.Prelude.Rows.{get, update}
use keel_be.Models.Enums.{ConnectorStatus}
use keel_be.Models.Connector.{Connector, connector_key}
use keel_be.Connectors.{is_coming_soon}

-- How a status may move while no OAuth handshake completes: a connector that is not coming soon may
-- be disconnected.
pub data Moves : ConnectorStatus → ConnectorStatus → Type 0 where
  stay : {s : ConnectorStatus} → Moves s s
  drop : {s : ConnectorStatus} → is_coming_soon s ≡ false → Moves s ConnectorStatus.disconnected

pub Moves-trans : {a b c : ConnectorStatus} → Moves a b → Moves b c → Moves a c
Moves-trans stay m = m
Moves-trans (drop h) stay = drop h
Moves-trans (drop h) (drop k) = drop h

-- A connector of the first list is in the second, and its status has moved only as it may.
abbrev pub Kept : ℕ → List Connector → List Connector → Type 0
Kept i cs cs' =
    (c : Connector)
    → get i cs ≡ some c
    → (c' : Connector) × (get i cs' ≡ some c') × Moves c.status c'.status

pub Kept-refl : (i : ℕ) (cs : List Connector) → Kept i cs cs
Kept-refl i cs c h = (c, h, stay)

pub Kept-trans : (i : ℕ) (a b c : List Connector) → Kept i a b → Kept i b c → Kept i a c
Kept-trans i a b c p q x h =
    let (y, e, m) = p x h in let (z, e', m') = q y e in (z, e', Moves-trans m m')

pub Kept-append : (i : ℕ) (cs ds : List Connector) → Kept i cs (cs ++ ds)
Kept-append i [] ds c h = absurd (ground (arith, h))
Kept-append i (x ∷ cs) ds c h = elim (Bool-cases (x.id == i)) [
  | inl same ↦ (c, ground (arith, same, h), stay)
  | inr other ↦
      let (c', e, m) = Kept-append i cs ds c (ground (arith, other, h)) in
      (c', ground (arith, other, e), m)
]

pub Kept-update :
    (i j : ℕ) (f : Connector → Connector) (cs : List Connector)
    → ((c : Connector) → (f c).id ≡ c.id)
    → ((c : Connector) → Moves c.status (f c).status)
    → Kept i cs (update j f cs)
Kept-update i j f [] k m c h = absurd (ground (arith, h))
Kept-update i j f (x ∷ cs) k m c h = elim (Bool-cases (x.id == i)) [
  | inr other ↦
      let (c', e, n) = Kept-update i j f cs k m c (ground (arith, other, h)) in
      (c', ground (arith, other, e, k x), n)
  | inl same ↦ elim (Bool-cases (x.id == j)) [
    | inl hit ↦ (
      f x,
      ground (arith, same, hit, k x),
      (let e : x ≡ c = ground (arith, same, h) in
          subst (λ (y : Connector). Moves y.status (f x).status) e (m x)),
    )
    | inr miss ↦ (c, ground (arith, same, miss, h), stay)
  ]
]
