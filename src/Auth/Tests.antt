-- ===== src/Auth/Tests.antt =====
-- Runs of signup, login, refresh and logout.
use keel_be.Prelude.{ℕ, String, ◌≡◌, refl, some, [], ◌∷◌, arith, eq_iff, ◌↔◌}
use keel_be.Models.Enums.{Role}
use keel_be.Models.Identity.{user_key, workspace_key, organization_key}
use keel_be.Core.Errors.{Exc, Kind, app, app_error}
use keel_be.Core.Session.{ok, err, get_db, after}
use keel_be.Core.Settings.{defaults}
use keel_be.Core.Security.{verify_password}
use keel_be.Fixtures.{crypto, crypto-CryptoLaws, identity_db, ada, docs, keel, member}
use keel_be.Auth.{
  Env, Fresh, AuthResult, register, login, refresh, logout, start_session, is_locked,
}
use keel_be.Auth.Failures.{Attempt, attempts, attempts_unrecorded, refresh_atomic}
use keel_be.Auth.Rotation.{refresh_once, refresh-logout, unauthenticated_session}
use keel_be.Auth.Signup.{Admits, answer, login_iff, login-register}

abbrev env : Env
env = record { crypto = crypto; settings = defaults; lower = λ s. s }

abbrev fresh_at : ℕ → String → Fresh
fresh_at now raw = record {
  now = now;
  organization_id = 11;
  workspace_id = 21;
  user_id = 3;
  member_id = 32;
  token_id = 41;
  slug_hex = [];
  salt = "s";
  jti = "j";
  refresh = raw;
}

abbrev guess : Attempt
guess = record { fresh = fresh_at 1000 "r"; email = "ada@keel.io"; password = "wrong" }

abbrev wrong_password : Exc
wrong_password = app (app_error Kind.unauthenticated "Invalid email or password")

attempts_unrecorded_example : attempts env (guess ∷ guess ∷ []) identity_db ≡ identity_db
unfolding get_db login
attempts_unrecorded_example =
    attempts_unrecorded env (guess ∷ guess ∷ []) identity_db
      ((wrong_password, refl), ((wrong_password, refl), tt))

refresh_atomic_example : after (refresh env (fresh_at 1000 "r") "unknown") identity_db ≡ identity_db
unfolding get_db refresh
refresh_atomic_example = refresh_atomic env (fresh_at 1000 "r") identity_db "unknown" refl

refresh_once_example :
    (get_db
      (refresh env (fresh_at 1001 "newer") "old")
      (after (refresh env (fresh_at 1000 "new") "old") identity_db)).0
    ≡ err unauthenticated_session
unfolding get_db refresh start_session
refresh_once_example =
    refresh_once env (fresh_at 1000 "new") (fresh_at 1001 "newer") "old" identity_db
      (λ e. ground (arith, eq_iff "new" "old")) refl

refresh-logout_example :
    (get_db
      (refresh env (fresh_at 1001 "new") "old")
      (after (logout env (fresh_at 1000 "r") (some "old")) identity_db)).0
    ≡ err unauthenticated_session
unfolding get_db logout
refresh-logout_example =
    refresh-logout env (fresh_at 1000 "r") (fresh_at 1001 "new") "old" identity_db refl refl

abbrev ada_admits : Admits env (fresh_at 1000 "new") "ada@keel.io" "secret" identity_db
unfolding is_locked verify_password
ada_admits = record {
  user = ada;
  member = member 30 1 Role.admin;
  workspace = docs;
  organization = keel;
  only = refl;
  unlocked = refl;
  fits = refl;
  active = refl;
  belongs = refl;
  placed = refl;
  owned = refl;
}

abbrev session : AuthResult
session = answer env (fresh_at 1000 "new") "ada@keel.io" "secret" identity_db ada_admits

login_iff_example :
    ((get_db (login env (fresh_at 1000 "new") "ada@keel.io" "secret") identity_db).0 ≡ ok session)
    ↔ ((a : Admits env (fresh_at 1000 "new") "ada@keel.io" "secret" identity_db) × (session
          ≡ answer env (fresh_at 1000 "new") "ada@keel.io" "secret" identity_db a))
login_iff_example = login_iff env (fresh_at 1000 "new") "ada@keel.io" "secret" identity_db session

login-register_example :
    (t : AuthResult) × ((get_db
        (login env (fresh_at 1001 "n") "eve@keel.io" "pw")
        (after (register env (fresh_at 1000 "new") "Eve" "eve@keel.io" "Acme" "pw") identity_db)).0
      ≡ ok t)
    × (t.user.id ≡ 3)
    × (t.workspace.id ≡ 21)
    × (t.user.role ≡ Role.admin)
unfolding get_db register
login-register_example =
    login-register env crypto-CryptoLaws (fresh_at 1000 "new") (fresh_at 1001 "n") "Eve"
      "eve@keel.io" "Acme" "pw" identity_db
      (record { no_member = refl; no_workspace = refl; no_organization = refl }) refl
