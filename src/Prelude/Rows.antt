-- ===== src/Prelude/Rows.antt =====
-- A database table as the list of its rows, oldest first, addressed by primary key.
use Prim.Native.Nat.{ℕ, ◌+◌}
use mathlib.Core.Path.{◌≡◌, refl}
use mathlib.Core.Logic.{◌≢◌}
use mathlib.Core.Bool.{Bool, true, false, not, ◌&&◌}
use mathlib.Core.Option.{Option, none, some}
use mathlib.Core.Option
use mathlib.Core.List.{List, [], ◌∷◌, ◌++◌}
use native.Mathlib.Omega.{arith}
use keel_be.Prelude.Tests.{◌==◌, if◌then◌else◌}
use keel_be.Prelude.Lists.{select, length}

-- A row with its primary key, the column `id`.
pub record Keyed (Row : Type 0) : Type 0 where
  pub key : Row → ℕ

abbrev pub one_if : Bool → ℕ
one_if true = 1
one_if false = 0

module _ {Row : Type 0} ⦃k : Keyed Row⦄ where
  -- `await db.get(Row, id)`
  abbrev pub get : ℕ → List Row → Option Row
  get i [] = none
  get i (r ∷ rs) = if k.key r == i then some r else get i rs

  -- Assignment to the attributes of the row with primary key `i`.
  abbrev pub update : ℕ → (Row → Row) → List Row → List Row
  update i f [] = []
  update i f (r ∷ rs) = (if k.key r == i then f r else r) ∷ update i f rs

  -- `await db.delete(row)`
  abbrev pub remove : ℕ → List Row → List Row
  remove i rs = select (λ r. not (k.key r == i)) rs

  -- What an attribute assignment leaves alone does not change a query.
  pub select-update :
      (p : Row → Bool) (f : Row → Row) (i : ℕ) (rs : List Row)
      → ((r : Row) → p (f r) ≡ p r)
      → select p (update i f rs) ≡ update i f (select p rs)
  select-update p f i [] h = refl
  select-update p f i (r ∷ rs) h = ground (arith, h r, select-update p f i rs h)

  -- Reading a row after an assignment.
  pub get-update_self :
      (i : ℕ) (f : Row → Row) (rs : List Row)
      → ((r : Row) → k.key (f r) ≡ k.key r)
      → get i (update i f rs) ≡ Option.map f (get i rs)
  get-update_self i f [] h = refl
  get-update_self i f (r ∷ rs) h = ground (arith, h r, get-update_self i f rs h)

  pub get-update_ne :
      (i j : ℕ) (f : Row → Row) (rs : List Row)
      → ((r : Row) → k.key (f r) ≡ k.key r)
      → i ≢ j
      → get j (update i f rs) ≡ get j rs
  get-update_ne i j f [] h ne = refl
  get-update_ne i j f (r ∷ rs) h ne = ground (arith, h r, get-update_ne i j f rs h ne)

  pub get-append :
      (i : ℕ) (rs : List Row) (r : Row)
      → get i rs ≡ none
      → k.key r ≡ i
      → get i (rs ++ r ∷ []) ≡ some r
  get-append i [] r h e = ground arith
  get-append i (s ∷ rs) r h e = ground (arith, get-append i rs r)

  -- The row that `get` finds has the key.
  pub key-get : (i : ℕ) (rs : List Row) {r : Row} → get i rs ≡ some r → k.key r ≡ i
  key-get i [] h = cc
  key-get i (s ∷ rs) {r} h = ground (arith, key-get i rs {r = r})

  pub get-remove_self : (i : ℕ) (rs : List Row) → get i (remove i rs) ≡ none
  get-remove_self i [] = refl
  get-remove_self i (r ∷ rs) = ground (arith, get-remove_self i rs)

  pub get-remove_ne : (i j : ℕ) (rs : List Row) → i ≢ j → get j (remove i rs) ≡ get j rs
  get-remove_ne i j [] h = refl
  get-remove_ne i j (r ∷ rs) h = ground (arith, get-remove_ne i j rs h)

  -- No two rows have the same primary key.
  abbrev pub KeysUnique : List Row → Type 0
  KeysUnique [] = Unit
  KeysUnique (r ∷ rs) = (get (k.key r) rs ≡ none) × KeysUnique rs

  abbrev pub count_by : (Row → Bool) → List Row → ℕ
  count_by p rs = length (select p rs)

  -- Assignment to a key that no row has.
  pub update_absent : (i : ℕ) (f : Row → Row) (rs : List Row) → get i rs ≡ none → update i f rs ≡ rs
  update_absent i f [] h = refl
  update_absent i f (r ∷ rs) h = ground (arith, update_absent i f rs)

  pub remove_absent : (i : ℕ) (rs : List Row) → get i rs ≡ none → remove i rs ≡ rs
  remove_absent i [] h = refl
  remove_absent i (r ∷ rs) h = ground (arith, remove_absent i rs)

  -- How an assignment and a deletion change the number of rows that pass a test.
  pub count_by-update :
      (p : Row → Bool) (i : ℕ) (f : Row → Row) (rs : List Row) {r : Row}
      → KeysUnique rs
      → get i rs ≡ some r
      → count_by p (update i f rs) + one_if (p r) ≡ count_by p rs + one_if (p (f r))
  count_by-update p i f [] u h = cc
  count_by-update p i f (s ∷ rs) {r} u h =
      ground (arith, count_by-update p i f rs {r = r} u.1, update_absent i f rs)

  pub count_by-remove :
      (p : Row → Bool) (i : ℕ) (rs : List Row) {r : Row}
      → KeysUnique rs
      → get i rs ≡ some r
      → count_by p (remove i rs) + one_if (p r) ≡ count_by p rs
  count_by-remove p i [] u h = cc
  count_by-remove p i (s ∷ rs) {r} u h =
      ground (arith, count_by-remove p i rs {r = r} u.1, remove_absent i rs)

  -- The only row that a query finds passes its test, and is found by its key.
  pub select-passes :
      (p : Row → Bool) (rs : List Row) {r : Row} {rest : List Row}
      → select p rs ≡ r ∷ rest
      → p r ≡ true
  select-passes p [] h = cc
  select-passes p (s ∷ rs) {r} {rest} h = ground (arith, select-passes p rs {r = r} {rest = rest})

  get_absent-select :
      (p : Row → Bool) (rs : List Row) (i : ℕ) {r : Row} {rest : List Row}
      → select p rs ≡ r ∷ rest
      → get i rs ≡ none
      → (k.key r == i) ≡ false
  get_absent-select p [] i h a = cc
  get_absent-select p (s ∷ rs) i {r} {rest} h a =
      ground (arith, get_absent-select p rs i {r = r} {rest = rest})

  pub get-select :
      (p : Row → Bool) (rs : List Row) {r : Row} {rest : List Row}
      → KeysUnique rs
      → select p rs ≡ r ∷ rest
      → get (k.key r) rs ≡ some r
  get-select p [] u h = cc
  get-select p (s ∷ rs) {r} {rest} u h = ground (
    arith,
    get-select p rs {r = r} {rest = rest} u.1,
    get_absent-select p rs (k.key s) {r = r} {rest = rest},
  )

pub select-select :
    {Row : Type 0} (p q : Row → Bool) (rs : List Row)
    → select p (select q rs) ≡ select (λ r. q r && p r) rs
select-select p q [] = refl
select-select p q (r ∷ rs) = ground (arith, select-select p q rs)
