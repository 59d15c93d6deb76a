-- ===== src/Core/Session.antt =====
-- backend/app/core/database.py: a request runs in one session over the database. What it writes is
-- seen by its own reads at once and by others when it commits; `get_db` commits at the end of a
-- request that returns and rolls back one that raises.
pub mod Keeps
use keel_be.Prelude.{
  ◌≡◌, refl, ap, ◌⊎◌, inl, inr, Option, none, some, List, [], ◌∷◌, Bool, true, false,
}
use keel_be.Core.Errors.{Exc, app, multiple_rows, AppError}

pub data Result (A : Type 0) : Type 0 where
  ok : A → Result A
  err : Exc → Result A

pub Result-cases : {A : Type 0} (r : Result A) → ((a : A) × (r ≡ ok a)) ⊎ ((e : Exc) × (r ≡ err e))
Result-cases (ok a) = inl (a, refl)
Result-cases (err e) = inr (e, refl)

-- What follows an expression that may have raised.
abbrev pub then_result : {A B : Type 0} → Result A → (A → Result B) → Result B
then_result (ok a) f = f a
then_result (err e) f = err e

abbrev pub is_ok : {A : Type 0} → Result A → Bool
is_ok (ok _) = true
is_ok (err _) = false

-- `committed` is what other sessions see, `working` what this one sees.
pub record Session (Db : Type 0) : Type 0 where
  pub committed : Db
  pub working : Db

-- Code that changes a state, and returns or raises.
abbrev pub Run : Type 0 → Type 0 → Type 0
Run S A = S → Result A × S

abbrev pub Exec : Type 0 → Type 0 → Type 0
Exec Db A = Run (Session Db) A

module _ {Db A : Type 0} where
  abbrev pub pure : A → Exec Db A
  pure a s = (ok a, s)

  abbrev pub raise : Exc → Exec Db A
  raise e s = (err e, s)

  abbrev pub lift : Result A → Exec Db A
  lift r s = (r, s)

  -- A query.
  abbrev pub query : (Db → A) → Exec Db A
  query f s = (ok (f s.working), s)

module _ {S A B : Type 0} where
  abbrev pub continue : Result A → (A → Run S B) → Run S B
  continue (ok a) f s = f a s
  continue (err e) f s = (err e, s)

  infixl 5 ◌>>=◌ ◌>>◌
  abbrev pub ◌>>=◌ : Run S A → (A → Run S B) → Run S B
  ◌>>=◌ m f s = let (r, s') = m s in continue r f s'

  abbrev pub ◌>>◌ : Run S A → Run S B → Run S B
  m >> n = m >>= λ _. n

module _ {S A B : Type 0} (m : Run S A) (f : A → Run S B) {s s' : S} where
  -- What follows code that returned, and code that raised.
  pub after_ok : {a : A} → m s ≡ (ok a, s') → (m >>= f) s ≡ f a s'
  after_ok e = ap (λ (p : Result A × S). continue p.0 f p.1) e

  pub after_err : {x : Exc} → m s ≡ (err x, s') → (m >>= f) s ≡ (err x, s')
  after_err e = ap (λ (p : Result A × S). continue p.0 f p.1) e

module _ {Db : Type 0} where
  -- `db.add(row)` with `flush`, and assignment to a row's attributes.
  abbrev pub write : (Db → Db) → Exec Db Unit
  write f s = (ok tt, record s { working = f s.working })

  -- `await db.commit()`
  abbrev pub commit : Exec Db Unit
  commit s = (ok tt, record s { committed = s.working })

  -- `await db.rollback()`
  abbrev pub rollback : Exec Db Unit
  rollback s = (ok tt, record s { working = s.committed })

  abbrev pub guard : Bool → Exc → Exec Db Unit
  guard true e s = (ok tt, s)
  guard false e s = (err e, s)

-- `x = …; if x is None: raise e`
abbrev pub required : {Db A : Type 0} → Exc → Option A → Exec Db A
required e none s = (err e, s)
required e (some a) s = (ok a, s)

-- `.scalar_one_or_none()`: more than one row is an error of the library.
abbrev pub scalar_one_or_none : {Db A : Type 0} → List A → Exec Db (Option A)
scalar_one_or_none [] s = (ok none, s)
scalar_one_or_none (r ∷ []) s = (ok (some r), s)
scalar_one_or_none (r ∷ _ ∷ _) s = (err multiple_rows, s)

-- `.scalars().first()`
abbrev pub first : {A : Type 0} → List A → Option A
first [] = none
first (r ∷ _) = some r

-- `factory()`
abbrev pub open_session : {Db : Type 0} → Db → Session Db
open_session db = record { committed = db; working = db }

-- `get_db` around a handler: the response, and the database after the request.
unfoldable pub get_db : {Db A : Type 0} → Exec Db A → Db → Result A × Db
get_db handler db =
    let (r, s) = handler (open_session db) in (r, elim r [ ok _ ↦ s.working | err _ ↦ s.committed ])

-- The database after a request.
abbrev pub after : {Db A : Type 0} → Exec Db A → Db → Db
after handler db = (get_db handler db).1
