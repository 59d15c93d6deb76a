-- ===== src/Core/Principal.antt =====
-- backend/app/core/deps.py: who makes a request, by access token or by API key, and what they may do.
pub mod Access
mod Tests
use Prim.Native.String.{String}
use text.Mathlib.Text.{starts_with}
use keel_be.Prelude.{
  ℕ, ◌+◌, Bool, true, false, not, ◌||◌, Option, none, some, List, is_some, select, str_eq,
  if◌then◌else◌,
}
use keel_be.Prelude.Rows.{get, update}
use keel_be.Models.Enums.{Role, ApiKeyScope, is_admin_role}
use keel_be.Models.Identity.{User, user_key}
use keel_be.Models.ApiKey.{ApiKey, api_key_key}
use keel_be.Core.Errors.{Exc, Kind, app, app_error, AppError}
use keel_be.Core.Session.{
  Result, ok, err, Exec, pure, raise, lift, query, write, commit, guard, required,
  scalar_one_or_none, Session, ◌>>=◌, ◌>>◌,
}
use keel_be.Core.Settings.{Settings}
use keel_be.Core.Security.{Crypto, api_key_prefix, decode_access_token}

pub record Principal : Type 0 where
  pub workspace_id : ℕ
  pub user_id : Option ℕ
  pub role : Option Role
  pub api_key_id : Option ℕ
  pub scope : Option ApiKeyScope

-- The tables that the resolution of a principal reads.
pub record Db : Type 0 where
  pub users : List User
  pub api_keys : List ApiKey

unfoldable pub is_admin : Principal → Bool
is_admin p = elim p.role [ none ↦ false | some r ↦ is_admin_role r ]

abbrev is_read_write : Option ApiKeyScope → Bool
is_read_write none = false
is_read_write (some ApiKeyScope.read_only) = false
is_read_write (some ApiKeyScope.read_write) = true

unfoldable pub can_write : Principal → Bool
can_write p = not (is_some p.api_key_id) || is_read_write p.scope

abbrev pub unauthorized : String → Exc
unauthorized message = app (app_error Kind.unauthenticated message)

unfoldable pub require_user : Principal → Result ℕ
require_user p = elim p.user_id [
  | none ↦ err (unauthorized "User authentication required")
  | some u ↦ ok u
]

-- What a request takes from its surroundings: the libraries, the clock, `str.strip`, and the outcome of
-- `rate_limit.enforce` for a key and its limit.
pub record Env : Type 0 where
  pub crypto : Crypto
  pub settings : Settings
  pub now : ℕ
  pub strip : String → String
  pub limiter : ℕ → ℕ → Result Unit

module _ (env : Env) where
  -- `_bearer`
  unfoldable pub bearer : Option String → Result String
  bearer none = err (unauthorized "Missing bearer token")
  bearer (some credentials) =
      if str_eq credentials ""
      then err (unauthorized "Missing bearer token")
      else ok (env.strip credentials)

  -- `_principal_from_jwt`
  pub principal_from_jwt : String → Exec Db Principal
  principal_from_jwt token = do
    claims ← lift (decode_access_token env.crypto env.settings env.now token)
    found ← query (λ db. get claims.sub db.users)
    user ← required (unauthorized "User not found or inactive") found
    guard user.is_active (unauthorized "User not found or inactive")
    pure (record {
      workspace_id = claims.workspace_id;
      user_id = some claims.sub;
      role = some claims.role;
      api_key_id = none;
      scope = none;
    })

  -- `select(ApiKey).where(ApiKey.key_hash == sha256_hex(token))`
  abbrev pub keys_of_token : String → Db → List ApiKey
  keys_of_token token db = select (λ k. str_eq k.key_hash (env.crypto.sha256_hex token)) db.api_keys

  -- The `update` that counts a use of the key.
  pub count_use : ApiKey → ApiKey
  count_use k = record k { last_used_at = some env.now; request_count = k.request_count + 1 }

  -- `_principal_from_api_key`
  unfoldable pub principal_from_api_key : String → Exec Db Principal
  unfolding count_use
  principal_from_api_key token = do
    rows ← query (keys_of_token token)
    found ← scalar_one_or_none rows
    row ← required (unauthorized "Invalid API key") found
    guard (not row.revoked) (unauthorized "Invalid API key")
    lift (env.limiter row.id row.rate_limit_per_minute)
    write (λ db. record db { api_keys = update row.id count_use db.api_keys })
    commit
    pure (record {
      workspace_id = row.workspace_id;
      user_id = none;
      role = none;
      api_key_id = some row.id;
      scope = some row.scope;
    })

  pub get_current_user : Option String → Exec Db Principal
  unfolding bearer
  get_current_user creds = do token ← lift (bearer creds); principal_from_jwt token

  pub require_admin : Option String → Exec Db Principal
  require_admin creds = do
    principal ← get_current_user creds
    guard (is_admin principal) (app (app_error Kind.forbidden "Admin role required"))
    pure principal

  -- The handler of `except UnauthorizedError`, which falls back to the API key.
  is_unauthorized : Exc → Bool
  is_unauthorized (app e) = elim e.kind [ Kind.unauthenticated ↦ true | _ ↦ false ]
  is_unauthorized _ = false

  or_api_key : String → Result Principal → Exec Db Principal
  unfolding is_unauthorized
  or_api_key token (ok p) = pure p
  or_api_key token (err e) = if is_unauthorized e then principal_from_api_key token else raise e

  jwt_or_api_key : String → Exec Db Principal
  unfolding or_api_key
  jwt_or_api_key token s = let (r, s') = principal_from_jwt token s in or_api_key token r s'

  pub get_principal : Option String → Exec Db Principal
  unfolding bearer jwt_or_api_key
  get_principal creds = do
    token ← lift (bearer creds)
    if starts_with token api_key_prefix then principal_from_api_key token else jwt_or_api_key token

unfoldable pub ensure_write_scope : Principal → Result Unit
ensure_write_scope p =
    if can_write p
    then ok tt
    else err (app (app_error Kind.forbidden "read_write scope required for ingestion"))
