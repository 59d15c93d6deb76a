-- ===== src/ApiKeys.antt =====
-- backend/app/services/apikey_service.py: the life of an API key.
pub mod Lifecycle
mod Tests
use mathlib.Core.List.{reverse}
use keel_be.Prelude.{
  ℕ, String, Bool, true, false, not, ◌&&◌, Option, none, some, List, [], ◌∷◌, ◌++◌, map, ◌==◌,
  select,
}
use keel_be.Prelude.Rows.{get, update}
use keel_be.Models.Enums.{ApiKeyScope}
use keel_be.Models.ApiKey.{ApiKey, api_key_key}
use keel_be.Core.Errors.{Exc, Kind, app, app_error}
use keel_be.Core.Session.{
  Result, ok, err, Exec, pure, query, write, commit, guard, required, ◌>>=◌, ◌>>◌,
}
use keel_be.Core.Settings.{Settings}
use keel_be.Core.Security.{Crypto, generate_api_key}
use keel_be.Core.Principal.{Db}

pub record ApiKeyOut : Type 0 where
  pub id : ℕ
  pub name : String
  pub scope : ApiKeyScope
  pub last_used_at : Option ℕ
  pub request_count : ℕ
  pub rate_limit_per_minute : ℕ

-- `_to_out`; the time of creation is left out.
pub to_out : ApiKey → ApiKeyOut
to_out k = record {
  id = k.id;
  name = k.name;
  scope = k.scope;
  last_used_at = k.last_used_at;
  request_count = k.request_count;
  rate_limit_per_minute = k.rate_limit_per_minute;
}

-- Rows are kept oldest first, so the newest first is the reverse.
pub list_keys : ℕ → Exec Db (List ApiKeyOut)
unfolding to_out
list_keys workspace_id = query (λ db.
    map to_out
      (reverse (select (λ k. k.workspace_id == workspace_id && not k.revoked) db.api_keys)))

-- `create_key workspace_id name scope created_by default_rate_limit`; the answer carries the secret.
pub create_key :
    Crypto
    → Settings
    → ℕ
    → String
    → ℕ
    → String
    → ApiKeyScope
    → Option ℕ
    → ℕ
    → Exec Db (ApiKeyOut × String)
unfolding to_out generate_api_key
create_key crypto settings id entropy workspace_id name scope created_by default_rate_limit =
    let (raw, prefix, hash) = generate_api_key crypto settings entropy in
    let key : ApiKey = record {
      id = id;
      workspace_id = workspace_id;
      name = name;
      key_prefix = prefix;
      key_hash = hash;
      scope = scope;
      rate_limit_per_minute = default_rate_limit;
      last_used_at = none;
      request_count = 0;
      revoked = false;
      created_by_id = created_by;
    } in
    write (λ db. record db { api_keys = db.api_keys ++ key ∷ [] })
    >> commit
    >> pure (to_out key, raw)

abbrev pub key_not_found : Exc
key_not_found = app (app_error Kind.not_found "API key not found")

pub revoke_key : ℕ → ℕ → Exec Db Unit
revoke_key workspace_id key_id = do
  found ← query (λ db. get key_id db.api_keys)
  key ← required key_not_found found
  guard (key.workspace_id == workspace_id) key_not_found
  write
      (λ db. record db { api_keys = update key_id (λ k. record k { revoked = true }) db.api_keys })
  commit
