-- ===== src/Auth/Failures.antt =====
-- backend/app/services/auth_service.py under core/database.py: requests that raise.
use keel_be.Prelude.{String, ◌≡◌, refl, ◌∙◌, List, [], ◌∷◌, arith}
use keel_be.Models.Identity.{Db, User}
use keel_be.Core.Errors.{Exc}
use keel_be.Core.Session.{Result, err, get_db, after}
use keel_be.Core.Session.Keeps.{NeverCommits, after_raise}
use keel_be.Auth.{Env, Fresh, AuthResult, register, login, refresh, start_session}

module _ (env : Env) (fresh : Fresh) where
  start_session-NeverCommits : (u : User) → NeverCommits (start_session env fresh u)
  unfolding start_session
  start_session-NeverCommits u s = ground arith

  login-NeverCommits : (email password : String) → NeverCommits (login env fresh email password)
  unfolding login start_session
  login-NeverCommits email password s = ground arith

  refresh-NeverCommits : (raw : String) → NeverCommits (refresh env fresh raw)
  unfolding refresh start_session
  refresh-NeverCommits raw s = ground arith

  register-NeverCommits :
      (full_name email organization password : String)
      → NeverCommits (register env fresh full_name email organization password)
  unfolding register
  register-NeverCommits full_name email organization password s = ground arith

-- One call of `POST /auth/login`.
pub record Attempt : Type 0 where
  pub fresh : Fresh
  pub email : String
  pub password : String

abbrev pub attempt : Env → Attempt → Db → Result AuthResult × Db
attempt env a db = get_db (login env a.fresh a.email a.password) db

-- The database after a series of login requests.
abbrev pub attempts : Env → List Attempt → Db → Db
attempts env [] db = db
attempts env (a ∷ rest) db = attempts env rest (attempt env a db).1

-- Every request of the series raises.
abbrev pub AllRaise : Env → List Attempt → Db → Type 0
AllRaise env [] db = Unit
AllRaise env (a ∷ rest) db =
    ((e : Exc) × ((attempt env a db).0 ≡ err e)) × AllRaise env rest (attempt env a db).1

-- However many login requests raise in a row, the database stays as it was: neither the count of
-- failures nor the lockout that `login` writes for a wrong password outlives its request.
pub attempts_unrecorded :
    (env : Env) (series : List Attempt) (db : Db)
    → AllRaise env series db
    → attempts env series db ≡ db
attempts_unrecorded env [] db h = refl
attempts_unrecorded env (a ∷ rest) db ((e, raised), later) =
    attempts_unrecorded env rest (attempt env a db).1 later
    ∙ after_raise (login env a.fresh a.email a.password)
        (login-NeverCommits env a.fresh a.email a.password) db raised

module _ (env : Env) (fresh : Fresh) (db : Db) where
  -- A refresh that raises leaves the database as it was: the token is unrevoked if it was unrevoked, and
  -- no new one is stored.
  pub refresh_atomic :
      (raw : String) {e : Exc}
      → (get_db (refresh env fresh raw) db).0 ≡ err e
      → after (refresh env fresh raw) db ≡ db
  refresh_atomic raw h =
      after_raise (refresh env fresh raw) (refresh-NeverCommits env fresh raw) db h

  -- A signup that raises leaves the database as it was: no organization, workspace, user, member or
  -- token of it remains.
  pub register_atomic :
      (full_name email organization password : String) {e : Exc}
      → (get_db (register env fresh full_name email organization password) db).0 ≡ err e
      → after (register env fresh full_name email organization password) db ≡ db
  register_atomic full_name email organization password h =
      after_raise (register env fresh full_name email organization password)
        (register-NeverCommits env fresh full_name email organization password) db h
