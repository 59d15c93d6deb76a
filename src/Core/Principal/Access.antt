-- ===== src/Core/Principal/Access.antt =====
-- backend/app/core/deps.py: what it takes to become a principal, and who may write.
use keel_be.Prelude.{
  String, ◌≡◌, refl, ◌↔◌, ◌⊎◌, inl, inr, true, false, not, ◌&&◌, if◌then◌else◌, Option, none, some,
  List, [], ◌∷◌, Bool-cases, Option-cases, arith,
}
use keel_be.Prelude.Rows.{get, update}
use keel_be.Models.Enums.{Role, ApiKeyScope}
use keel_be.Models.Identity.{User, user_key}
use keel_be.Models.ApiKey.{ApiKey, api_key_key}
use keel_be.Core.Errors.{Exc, Kind, app, app_error}
use keel_be.Core.Session.{is_ok, Result, ok, err, Session, open_session}
use keel_be.Core.Security.{Claims, decode_access_token, api_key_prefix}
use text.Mathlib.Text.{starts_with}
use keel_be.Core.Principal.{
  Principal, Db, Env, is_admin, can_write, principal_from_jwt, principal_from_api_key,
  keys_of_token, get_current_user, require_admin, get_principal, ensure_write_scope, jwt_or_api_key,
  bearer, count_use,
}

-- What grants a principal to an access token: the token decodes, and its user exists and is active.
pub record JwtGrant (env : Env) (db : Db) (token : String) (p : Principal) : Type 0 where
  pub claims : Claims
  pub user : User
  pub decodes : decode_access_token env.crypto env.settings env.now token ≡ ok claims
  pub known : get claims.sub db.users ≡ some user
  pub active : user.is_active ≡ true
  pub principal : p ≡ record {
    workspace_id = claims.workspace_id;
    user_id = some claims.sub;
    role = some claims.role;
    api_key_id = none;
    scope = none;
  }

-- What grants a principal to an API key: it is the only key with the hash of the token, has not been
-- revoked, and is within its rate limit.
pub record KeyGrant (env : Env) (db : Db) (token : String) (p : Principal) : Type 0 where
  pub row : ApiKey
  pub only : keys_of_token env token db ≡ row ∷ []
  pub unrevoked : row.revoked ≡ false
  pub within : env.limiter row.id row.rate_limit_per_minute ≡ ok tt
  pub principal : p ≡ record {
    workspace_id = row.workspace_id;
    user_id = none;
    role = none;
    api_key_id = some row.id;
    scope = some row.scope;
  }

abbrev pub Grants : Env → Db → String → Principal → Type 0
Grants env db token p = JwtGrant env db token p ⊎ KeyGrant env db token p

Result-cases : {A : Type 0} (r : Result A) → ((a : A) × (r ≡ ok a)) ⊎ ((e : Exc) × (r ≡ err e))
Result-cases (ok a) = inl (a, refl)
Result-cases (err e) = inr (e, refl)

module _ (env : Env) where
  principal_from_jwt-JwtGrant :
      (token : String) (s : Session Db) {p : Principal}
      → (principal_from_jwt env token s).0 ≡ ok p
      → JwtGrant env s.working token p
  unfolding principal_from_jwt
  principal_from_jwt-JwtGrant token s h =
      elim (Result-cases (decode_access_token env.crypto env.settings env.now token)) [
        | inr (e, bad) ↦ absurd (ground arith)
        | inl (c, good) ↦ elim (Option-cases (get c.sub s.working.users)) [
          | inl unknown ↦ absurd (ground arith)
          | inr (u, known) ↦ record {
            claims = c;
            user = u;
            decodes = good;
            known = known;
            active = ground arith;
            principal = ground arith;
          }
        ]
      ]

  principal_from_api_key-KeyGrant :
      (token : String) (s : Session Db) (found : List ApiKey) {p : Principal}
      → keys_of_token env token s.working ≡ found
      → (principal_from_api_key env token s).0 ≡ ok p
      → KeyGrant env s.working token p
  unfolding principal_from_api_key
  principal_from_api_key-KeyGrant token s [] e h = absurd (ground arith)
  principal_from_api_key-KeyGrant token s (k ∷ []) e h = record {
    row = k;
    only = e;
    unrevoked = ground arith;
    within = ground arith;
    principal = ground arith;
  }
  principal_from_api_key-KeyGrant token s (k ∷ l ∷ ks) e h = absurd (ground arith)

  -- The resolution of a token writes nothing.
  jwt_pure : (token : String) (s : Session Db) → (principal_from_jwt env token s).1 ≡ s
  unfolding principal_from_jwt
  jwt_pure token s = ground arith

  either-Grants :
      (token : String) (s : Session Db) {p : Principal}
      → (jwt_or_api_key env token s).0 ≡ ok p
      → Grants env s.working token p
  unfolding jwt_or_api_key
  either-Grants token s {p} h = elim (Result-cases (principal_from_jwt env token s).0) [
    | inl (q, good) ↦ inl (principal_from_jwt-JwtGrant token s (ground arith))
    | inr (e, bad) ↦ inr (
        principal_from_api_key-KeyGrant token s (keys_of_token env token s.working) refl
          (ground (arith, jwt_pure token s)))
  ]

  -- Every principal that `get_principal` returns was granted by a valid access token of an active
  -- user, or by the only API key with the token's hash, unrevoked and within its rate limit; its
  -- workspace is that of the token's claims or of the key's row.
  pub get_principal-Grants :
      (creds : Option String) (s : Session Db) {p : Principal}
      → (get_principal env creds s).0 ≡ ok p
      → (token : String) × (bearer env creds ≡ ok token) × Grants env s.working token p
  unfolding get_principal
  get_principal-Grants creds s h = elim (Result-cases (bearer env creds)) [
    | inr (e, bad) ↦ absurd (ground arith)
    | inl (token, good) ↦ (
      token,
      good,
      elim (Bool-cases (starts_with token api_key_prefix)) [
        | inl prefixed ↦ inr (
            principal_from_api_key-KeyGrant token s (keys_of_token env token s.working) refl
              (ground arith))
        | inr plain ↦ either-Grants token s (ground arith)
      ],
    )
  ]

  -- `require_admin` lets in only the active user of a valid access token that names the
  -- administrator's role: an API key does not pass.
  pub require_admin_lem :
      (creds : Option String) (s : Session Db) {p : Principal}
      → (require_admin env creds s).0 ≡ ok p
      → (token : String) × (bearer env creds ≡ ok token)
        × JwtGrant env s.working token p
        × (p.role ≡ some Role.admin)
  unfolding require_admin get_current_user is_admin
  require_admin_lem creds s {p} h = elim (Result-cases (bearer env creds)) [
    | inr (e, bad) ↦ absurd (ground arith)
    | inl (token, good) ↦
        (token, good, principal_from_jwt-JwtGrant token s (ground arith), ground arith)
  ]

  -- The only key with the hash of a token is admitted exactly when it is unrevoked and the limiter lets
  -- it pass; its use is then counted, and committed at once, and otherwise nothing is written.
  pub principal_from_api_key_lem :
      (token : String) (db : Db) (k : ApiKey)
      → keys_of_token env token db ≡ k ∷ []
      → let (r, s) = principal_from_api_key env token (open_session db) in
        (is_ok r ≡ (not k.revoked && is_ok (env.limiter k.id k.rate_limit_per_minute)))
        × (s.committed.api_keys
            ≡ (if is_ok r then update k.id (count_use env) db.api_keys else db.api_keys))
        × (s.committed.users ≡ db.users)
  unfolding principal_from_api_key
  principal_from_api_key_lem token db k e = elim (Bool-cases k.revoked) [
    | inl dead ↦ (ground arith, ground arith, ground arith)
    | inr live ↦ elim (Result-cases (env.limiter k.id k.rate_limit_per_minute)) [
      | inl (_, passes) ↦ (ground arith, ground arith, ground arith)
      | inr (x, over) ↦ (ground arith, ground arith, ground arith)
    ]
  ]

-- Whoever holds a principal may ingest exactly if the principal is a user's or that of a read-write key;
-- anyone else is refused with 403.
pub ensure_write_scope-Grants :
    (env : Env) (db : Db) (token : String) {p : Principal}
    → Grants env db token p
    → ((ensure_write_scope p ≡ ok tt)
        ↔ ((p.api_key_id ≡ none) ⊎ (p.scope ≡ some ApiKeyScope.read_write)))
      × ((ensure_write_scope p ≡ ok tt)
          ⊎ (ensure_write_scope p
              ≡ err (app (app_error Kind.forbidden "read_write scope required for ingestion"))))
unfolding ensure_write_scope can_write
ensure_write_scope-Grants env db token {p} (inl g) =
    ((λ h. inl (ground arith), λ h. ground arith), inl (ground arith))
ensure_write_scope-Grants env db token {p} (inr g) =
    ((λ h. inr (ground arith), λ h. ground arith), ground arith)
